-- ===== src/Dispatcher/Wake.antt =====
-- src/runtime/dispatcher.ts: runs of the dispatcher in the event loop, and its wake-ups.
use knitting.Base.{
  ℕ, zero, suc, ◌+◌, ◌-◌, ◌<◌, ◌≤◌, ◌^◌, min, Bool, true, false, ◌≡◌, ◌⊎◌, refl, ap, sym, ◌∙◌,
  subst, Option, none, some, arith, ◌==◌, Bool-cases, Option-cases, inl, inr,
}
use knitting.Dispatcher.{
  Dispatcher, host_dispatcher_loop, no_stall, schedule_notify, drain_loop, wake_worker, round,
  rounds, check, timer_fires, lane_wake, dispatch_send,
}

module _ {Q : Type 0} (complete_frame : Q → Bool × ℕ × Q) (has_pending_frames : Q → Bool)
    (flush_to_worker : Q → Bool × Q) (tx_idle : Q → Bool) (stall_free max_backoff : ℕ) where
  -- A call is made and sent, a callback runs, or the worker and other code act, which gives the
  -- queue no work.
  pub data Step (d : Dispatcher Q) : Dispatcher Q → Type 0 where
    sent :
        (q : Q)
        → Step d (
            dispatch_send complete_frame has_pending_frames flush_to_worker tx_idle stall_free
              max_backoff
              (record d { queue = q }))
    micro :
        (n : ℕ) (d' : Dispatcher Q)
        → 0 < d.micros
        → check complete_frame has_pending_frames flush_to_worker tx_idle stall_free max_backoff n
            (record d { micros = d.micros - 1 })
          ≡ some d'
        → Step d d'
    message :
        (n : ℕ) (d' : Dispatcher Q)
        → 0 < d.messages
        → check complete_frame has_pending_frames flush_to_worker tx_idle stall_free max_backoff n
            (record d { messages = d.messages - 1 })
          ≡ some d'
        → Step d d'
    timer :
        (n delay : ℕ) (d' : Dispatcher Q)
        → d.backoff_timer ≡ some delay
        → timer_fires complete_frame has_pending_frames flush_to_worker tx_idle stall_free
            max_backoff n d
          ≡ some d'
        → Step d d'
    outside :
        (q : Q) (rx_status op : ℕ)
        → (tx_idle d.queue ≡ true → tx_idle q ≡ true)
        → Step d (record d { queue = q; rx_status = rx_status; op = op })

  pub data Reach : Dispatcher Q → Type 0 where
    start :
        (q : Q)
        → tx_idle q ≡ true
        → Reach (
            host_dispatcher_loop complete_frame has_pending_frames flush_to_worker tx_idle
              stall_free max_backoff q)
    next : {d d' : Dispatcher Q} → Reach d → Step d d' → Reach d'

  -- Between two callbacks.
  pub record Awake (d : Dispatcher Q) : Type 0 where
    at_rest : d.in_flight ≡ false
    running : d.is_running ≡ true → 0 < d.micros + d.messages
    awake :
        tx_idle d.queue ≡ false
        → (0 < d.micros + d.messages) ⊎ ((delay : ℕ) × (d.backoff_timer ≡ some delay))
    delayed :
        (delay : ℕ)
        → d.backoff_timer ≡ some delay
        → (delay ≡ min (d.stall_count - stall_free - 1) max_backoff)
          × (stall_free < d.stall_count)
          × (d.stall_count < 2 ^ 31)

  some-injective : (x y : Dispatcher Q) → some x ≡ some y → x ≡ y
  some-injective x y e = cc

  some-pair :
      {a b : Bool} {x y : Dispatcher Q}
      → ◌≡◌ {A = Option (Bool × Dispatcher Q)} (some (a, x)) (some (b, y))
      → (a ≡ b) × (x ≡ y)
  some-pair {a} {b} {x} {y} e = let first : a ≡ b = cc in let second : x ≡ y = cc in (first, second)

  schedule-Awake :
      (d : Dispatcher Q)
      → d.in_flight ≡ false
      → d.backoff_timer ≡ none
      → Awake (
          schedule_notify complete_frame has_pending_frames flush_to_worker tx_idle stall_free
            max_backoff d)
  unfolding schedule_notify
  schedule-Awake d f t =
      let quick =
        no_stall complete_frame has_pending_frames flush_to_worker tx_idle stall_free max_backoff
          d.stall_count in
      elim (Bool-cases quick) [
        | inl q ↦ rw q (record {
          at_rest = f;
          running = λ r. omega arith;
          awake = λ i. inl (omega arith);
          delayed = λ delay e. absurd (cc);
        })
        | inr q ↦
            rw (q, t)
              (record {
                at_rest = f;
                running = λ r. absurd (cc);
                awake = λ i. inr (_, refl);
                delayed = λ delay e. ground arith;
              })
      ]

  round-Awake :
      (n : ℕ) (d d' : Dispatcher Q) (more : Bool)
      → d.backoff_timer ≡ none
      → round complete_frame has_pending_frames flush_to_worker tx_idle stall_free max_backoff n d
        ≡ some (more, d')
      → ((more ≡ false) × Awake d') ⊎ ((more ≡ true) × (d'.backoff_timer ≡ none))
  unfolding round
  round-Awake n d d' more t e =
      let d1 : Dispatcher Q =
        wake_worker complete_frame has_pending_frames flush_to_worker tx_idle stall_free max_backoff
          (record d { rerun = false; tx_status = 1 }) in
      let t1 : d1.backoff_timer ≡ none = elim (Bool-cases (d.rx_status == 0)) [
        | inl z ↦ rw z t
        | inr z ↦ rw z t
      ] in
      elim (Option-cases (
        drain_loop complete_frame has_pending_frames flush_to_worker tx_idle stall_free max_backoff
          n false false d1.queue)) [
            | inl out ↦ let e' = rw (round, out) at e in absurd (cc)
            | inr ((any, again, q), l) ↦
                let d2 : Dispatcher Q = record d1 { queue = q; rerun = again; tx_status = 0 } in
                elim (Bool-cases (tx_idle q)) [
                  | inl i ↦ elim (Bool-cases again) [
                    | inl r ↦
                        let e' = rw (round, l, i, r) at e in
                        let (m, to) = some-pair e' in
                        inr (sym m, ap Dispatcher.backoff_timer (sym to) ∙ t1)
                    | inr r ↦
                        let e' = rw (round, l, i, r) at e in
                        let (m, to) = some-pair e' in
                        inl (
                          sym m,
                          subst Awake to (record {
                            at_rest = refl;
                            running = λ r. absurd (cc);
                            awake = λ busy. absurd (cc);
                            delayed = λ delay h. absurd (cc);
                          }),
                        )
                  ]
                  | inr i ↦
                      let e' = rw (round, l, i) at e in
                      let (m, to) = some-pair e' in
                      inl (sym m, subst Awake to (schedule-Awake _ refl t1))
                ]
          ]

  rounds-Awake :
      (n : ℕ) (d d' : Dispatcher Q)
      → d.backoff_timer ≡ none
      → rounds complete_frame has_pending_frames flush_to_worker tx_idle stall_free max_backoff n d
        ≡ some d'
      → Awake d'
  unfolding rounds
  rounds-Awake zero d d' t e = absurd (cc)
  rounds-Awake (suc n) d d' t e =
      elim (Option-cases (
        round complete_frame has_pending_frames flush_to_worker tx_idle stall_free max_backoff n
          d)) [
            | inl out ↦ let e' = rw (rounds, out) at e in absurd (cc)
            | inr ((more, d1), h) ↦ elim (round-Awake n d d1 more t h) [
              | inl (m, w) ↦
                  let to = some-injective d1 d' (rw (rounds, h, m) at e) in subst Awake to w
              | inr (m, t1) ↦ rounds-Awake n d1 d' t1 (rw (rounds, h, m) at e)
            ]
          ]

  check-Awake :
      (n : ℕ) (d d' : Dispatcher Q)
      → d.in_flight ≡ false
      → check complete_frame has_pending_frames flush_to_worker tx_idle stall_free max_backoff n d
        ≡ some d'
      → ((delay : ℕ)
          → d.backoff_timer ≡ some delay
          → (delay ≡ min (d.stall_count - stall_free - 1) max_backoff)
            × (stall_free < d.stall_count)
            × (d.stall_count < 2 ^ 31))
      → Awake d'
  unfolding check
  check-Awake n d d' f e late = elim (Bool-cases (tx_idle d.queue)) [
    | inl i ↦
        let d1 : Dispatcher Q = record d { is_running = false; in_flight = false } in
        let to : d1 ≡ d' = some-injective d1 d' (rw (check, f, i) at e) in
        let rest : Awake d1 = record {
          at_rest = refl;
          running = λ r. absurd (cc);
          awake = λ busy. absurd (cc);
          delayed = late;
        } in
        subst Awake to rest
    | inr i ↦
        rounds-Awake n (record d { in_flight = true; backoff_timer = none }) d' refl
          (rw (check, f, i) at e)
  ]

  send-Awake :
      (d : Dispatcher Q)
      → Awake d
      → (q : Q)
      → Awake (
          dispatch_send complete_frame has_pending_frames flush_to_worker tx_idle stall_free
            max_backoff
            (record d { queue = q }))
  unfolding dispatch_send lane_wake
  send-Awake d w q = elim (Bool-cases d.is_running) [
    | inl r ↦ rw r (record {
      at_rest = w.at_rest;
      running = λ _. w.running r;
      awake = λ busy. inl (w.running r);
      delayed = w.delayed;
    })
    | inr r ↦ elim (Bool-cases (d.rx_status == 0)) [
      | inl z ↦
          rw (r, z)
            (record {
              at_rest = w.at_rest;
              running = λ _. omega arith;
              awake = λ busy. inl (omega arith);
              delayed = w.delayed;
            })
      | inr z ↦
          rw (r, z)
            (record {
              at_rest = w.at_rest;
              running = λ _. omega arith;
              awake = λ busy. inl (omega arith);
              delayed = w.delayed;
            })
    ]
  ]

  Step-Awake : {d d' : Dispatcher Q} → Step d d' → Awake d → Awake d'
  unfolding timer_fires
  Step-Awake {d = d} (sent q) w = send-Awake d w q
  Step-Awake (micro n d' m e) w = check-Awake n _ d' w.at_rest e w.delayed
  Step-Awake (message n d' m e) w = check-Awake n _ d' w.at_rest e w.delayed
  Step-Awake {d = d} (timer n delay d' t e) w = elim (Bool-cases d.is_running) [
    | inl r ↦
        let d1 : Dispatcher Q = record d { is_running = true; backoff_timer = none } in
        let to : d1 ≡ d' = some-injective d1 d' (rw (timer_fires, r) at e) in
        let rest : Awake d1 = record {
          at_rest = w.at_rest;
          running = λ _. w.running r;
          awake = λ busy. inl (w.running r);
          delayed = λ delay h. absurd (cc);
        } in
        subst Awake to rest
    | inr r ↦
        check-Awake n (record d { backoff_timer = none; is_running = true }) d' w.at_rest
          (rw (timer_fires, r) at e) (λ delay h. absurd (cc))
  ]
  Step-Awake {d = d} (outside q rx op keeps) w = record {
    at_rest = w.at_rest;
    running = w.running;
    awake = λ busy. w.awake (elim (Bool-cases (tx_idle d.queue)) [
      | inl i ↦ absurd (ground (arith, keeps i))
      | inr i ↦ i
    ]);
    delayed = w.delayed;
  }

  Reach-Awake : {d : Dispatcher Q} → Reach d → Awake d
  Reach-Awake (start q i) = record {
    at_rest = refl;
    running = λ r. absurd (cc);
    awake = λ busy. absurd (cc);
    delayed = λ delay h. absurd (cc);
  }
  Reach-Awake (next r step) = Step-Awake step (Reach-Awake r)

  -- In every run, while the queue is not idle, a microtask, a message or a timer is on its way to
  -- `check`; and while `check.isRunning` is set, so that a new call schedules nothing, a microtask
  -- or a message is.
  pub check_comes :
      {d : Dispatcher Q}
      → Reach d
      → (tx_idle d.queue ≡ false
          → (0 < d.micros + d.messages) ⊎ ((delay : ℕ) × (d.backoff_timer ≡ some delay)))
        × (d.is_running ≡ true → 0 < d.micros + d.messages)
        × (d.in_flight ≡ false)
  check_comes r = let w = Reach-Awake r in (w.awake, w.running, w.at_rest)

  -- In every run, while a timer is set, the count of stalls is above `stallFreeLoops`, and the delay
  -- is by how much it is, less one, up to `maxBackoffMs`.
  backoff_delay :
      {d : Dispatcher Q}
      → Reach d
      → (delay : ℕ) → d.backoff_timer ≡ some delay
      → (stall_free < d.stall_count)
        × (delay ≡ min (d.stall_count - stall_free - 1) max_backoff)
        × (delay ≤ max_backoff)
  backoff_delay r delay t =
      let (exact, late, positive) = Awake.delayed (Reach-Awake r) delay t in
      (late, exact, omega (arith, exact))
