-- ===== src/Serial/Watch.antt =====
-- src/api.ts: no lane with work is left out of the walks.
use knitting.Base.{
  ℕ, zero, suc, ◌-◌, ◌<◌, ◌≤◌, Bool, true, false, ◌≡◌, ◌≢◌, ◌⊎◌, refl, ap, sym, ◌∙◌, subst, List,
  some, arith, ◌==◌, length, get_elem?, Bool-cases, Option-cases, inl, inr,
}
use knitting.Base.Maps.{occurs}
use knitting.Serial.{
  Serial, start_serial, send, sends, leave, visit, walk, rounds, run_serial_checks,
}
use knitting.Serial.Sends.{
  Once, leave-occurs, get-occurs, send-Sent, send-marks, send-schedules, sends-Sent, sends-mark,
}

module _ {S : Type 0} (check : ℕ → S → List ℕ × S) (idle : ℕ → S → Bool) where
  pub data Step (d : Serial S) : Serial S → Type 0 where
    sent :
        (lane : ℕ) (state : S)
        → ((j : ℕ) → j ≢ lane → idle j state ≡ false → idle j d.state ≡ false)
        → Step d (send (record d { state = state }) lane)
    micro :
        (n : ℕ) (d' : Serial S)
        → 0 < d.micros
        → run_serial_checks check idle n (record d { micros = d.micros - 1 }) ≡ some d'
        → Step d d'
    message : (n : ℕ) (d' : Serial S) → run_serial_checks check idle n d ≡ some d' → Step d d'
    outside :
        (state : S)
        → ((j : ℕ) → idle j state ≡ false → idle j d.state ≡ false)
        → Step d (record d { state = state })

  pub data Reach : Serial S → Type 0 where
    start : (state : S) → ((j : ℕ) → idle j state ≡ true) → Reach (start_serial state)
    next : {d d' : Serial S} → Reach d → Step d d' → Reach d'

  pub record Watched (d : Serial S) : Type 0 where
    pub once : Once d
    pub busy : (lane : ℕ) → idle lane d.state ≡ false → d.is_active lane ≡ true
    pub queued : d.scheduled ≡ true → 0 < d.micros

  leave-Watched :
      (d : Serial S) (index lane : ℕ)
      → Watched d
      → get_elem? d.active index ≡ some lane
      → idle lane d.state ≡ true
      → Watched (leave d index lane)
  unfolding leave
  leave-Watched d index lane w at quiet = record {
    once = λ x. elim (Bool-cases (x == lane)) [
      | inl e ↦ ground (arith, leave-occurs x d.active index lane at, w.once x)
      | inr e ↦ ground (arith, leave-occurs x d.active index lane at, w.once x)
    ];
    busy = λ x h. elim (Bool-cases (x == lane)) [
      | inl e ↦
          let same : lane ≡ x = ground arith in
          absurd (ground (arith, subst (λ y. idle y d.state ≡ true) same quiet))
      | inr e ↦ ground (arith, w.busy x h)
    ];
    queued = w.queued;
  }

  module _
      (calm : (i : ℕ) (s : S) (j : ℕ)
        → j ≢ i
        → idle j (check i s).1 ≡ false
        → (idle j s ≡ false) ⊎ (0 < occurs j (check i s).0)) where
    visit-Watched :
        (d : Serial S) (index lane : ℕ)
        → Watched d
        → get_elem? d.active index ≡ some lane
        → Watched (visit check idle d index lane)
    unfolding visit
    visit-Watched d index lane w at =
        let lanes = (check lane d.state).0 in
        let d0 : Serial S = record d { state = (check lane d.state).1 } in
        let s = sends-Sent lanes d0 in
        let d1 : Serial S = sends d0 lanes in
        let here : d.is_active lane ≡ true =
          ground (arith, w.once lane, get-occurs d.active index lane at) in
        let w1 : Watched d1 = record {
          once = s.once w.once;
          busy = λ x h. elim (Bool-cases (x == lane)) [
            | inl e ↦
                let same : lane ≡ x = ground arith in
                s.more x (subst (λ y. d.is_active y ≡ true) same here)
            | inr e ↦ elim (calm lane d.state x (ground arith) (ap (idle x) (sym s.state) ∙ h)) [
              | inl before ↦ s.more x (w.busy x before)
              | inr marked ↦ sends-mark lanes d0 x marked
            ]
          ];
          queued = s.queued w.queued;
        } in
        elim (Bool-cases (idle lane d1.state)) [
          | inl q ↦ rw q (leave-Watched d1 index lane w1 (s.stays index lane at) q)
          | inr q ↦ rw q w1
        ]

    walk-Watched : (n : ℕ) (d : Serial S) → Watched d → Watched (walk check idle n d)
    unfolding walk
    walk-Watched zero d w = w
    walk-Watched (suc n) d w = elim (Option-cases (get_elem? d.active n)) [
      | inl out ↦ rw (walk, out) (walk-Watched n d w)
      | inr (lane, at) ↦
          rw (walk, at) (walk-Watched n (visit check idle d n lane) (visit-Watched d n lane w at))
    ]

    rounds-Watched :
        (n : ℕ) (d d' : Serial S)
        → Once d
        → ((lane : ℕ) → idle lane d.state ≡ false → d.is_active lane ≡ true)
        → rounds check idle n d ≡ some d'
        → Watched d' × (d'.in_flight ≡ false)
    unfolding rounds
    rounds-Watched zero d d' o b e = absurd (cc)
    rounds-Watched (suc n) d d' o b e =
        let d0 : Serial S = record d { rerun = false; scheduled = false } in
        let w0 : Watched d0 = record { once = o; busy = b; queued = λ h. absurd (cc) } in
        let d1 : Serial S = walk check idle (length d.active) d0 in
        let w1 = walk-Watched (length d.active) d0 w0 in
        elim (Bool-cases d1.rerun) [
          | inl r ↦ rounds-Watched n d1 d' w1.once w1.busy (rw (rounds, r) at e)
          | inr r ↦
              let d2 : Serial S = record d1 { rerun = false; in_flight = false } in
              let to : d2 ≡ d' = let e' = rw (rounds, r) at e in cc in
              let w2 : Watched d2 × (d2.in_flight ≡ false) =
                (record { once = w1.once; busy = w1.busy; queued = w1.queued }, refl) in
              subst (λ d. Watched d × (d.in_flight ≡ false)) to w2
        ]

    run-Watched :
        (n : ℕ) (d d' : Serial S)
        → Once d
        → ((lane : ℕ) → idle lane d.state ≡ false → d.is_active lane ≡ true)
        → d.in_flight ≡ false
        → run_serial_checks check idle n d ≡ some d'
        → Watched d' × (d'.in_flight ≡ false)
    unfolding run_serial_checks
    run-Watched n d d' o b f e =
        rounds-Watched n (record d { in_flight = true }) d' o b (rw (run_serial_checks, f) at e)

    Step-Watched :
        {d d' : Serial S}
        → Step d d'
        → Watched d × (d.in_flight ≡ false)
        → Watched d' × (d'.in_flight ≡ false)
    Step-Watched {d = d} (sent lane state quiet) (w, f) =
        let d0 : Serial S = record d { state = state } in
        let s = send-Sent d0 lane in
        (
          record {
            once = s.once w.once;
            busy = λ x h. elim (Bool-cases (x == lane)) [
              | inl e ↦
                  let same : lane ≡ x = ground arith in
                  subst (λ y. (send d0 lane).is_active y ≡ true) same (send-marks d0 lane)
              | inr e ↦ s.more x (w.busy x (quiet x (ground arith) (ap (idle x) (sym s.state) ∙ h)))
            ];
            queued = s.queued w.queued;
          },
          s.in_flight ∙ f,
        )
    Step-Watched {d = d} (micro n d' m e) (w, f) =
        run-Watched n (record d { micros = d.micros - 1 }) d' w.once w.busy f e
    Step-Watched {d = d} (message n d' e) (w, f) = run-Watched n d d' w.once w.busy f e
    Step-Watched {d = d} (outside state quiet) (w, f) =
        (record { once = w.once; busy = λ x h. w.busy x (quiet x h); queued = w.queued }, f)

    Reach-Watched : {d : Serial S} → Reach d → Watched d × (d.in_flight ≡ false)
    Reach-Watched (start state quiet) = (
      record {
        once = λ x. refl;
        busy = λ lane h. absurd (ground (arith, quiet lane));
        queued = λ h. absurd (cc);
      },
      refl,
    )
    Reach-Watched (next r step) = Step-Watched step (Reach-Watched r)

    -- In every run, a lane with work is in `active` once, so that every walk checks it, and no lane
    -- is there twice; and once a call is sent to a lane, the lane is there and a microtask for a walk
    -- is on its way. A check may give other lanes work only by sending to them.
    pub busy_lanes :
        {d : Serial S}
        → Reach d
        → ((lane : ℕ) → idle lane d.state ≡ false → occurs lane d.active ≡ 1)
          × ((lane : ℕ) → occurs lane d.active ≤ 1)
          × ((lane : ℕ) → (0 < (send d lane).micros) × (occurs lane (send d lane).active ≡ 1))
    busy_lanes {d} r =
        let (w, f) = Reach-Watched r in
        (
          λ lane h. ground (arith, w.once lane, w.busy lane h),
          λ lane. ground (arith, w.once lane),
          λ lane.
              let s = send-Sent d lane in
              (
                s.queued w.queued (send-schedules d lane f),
                ground (arith, s.once w.once lane, send-marks d lane),
              ),
        )
