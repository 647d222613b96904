-- ===== src/Balancer/Fair.antt =====
-- src/runtime/balancer.ts: which lane the strategies and the gate choose.
use native.Mathlib.Nat.{mod-eq_of_lt, add-mod_right}
use knitting.Base.{
  ℕ, zero, suc, ◌+◌, ◌-◌, ◌%◌, ◌<◌, ◌≤◌, Bool, true, false, ◌≡◌, ◌≢◌, ◌⊎◌, refl, sym, ◌∙◌, ap, List,
  [], ◌∷◌, none, some, arith, leb, ◌==◌, Bool-cases, Option-cases, inl, inr,
}
use knitting.Balancer.{
  Strategy, round_robin, first_idle, random_lane, first_idle_or_random, Now, find_idle, choose,
  Gate, Manager, worker_now, invoke, settle,
}

-- The lanes of `n` calls under round robin.
pub run_robin : ℕ → ℕ → Now → ℕ → List ℕ
run_robin lanes cursor now zero = []
run_robin lanes cursor now (suc n) =
    (choose round_robin lanes cursor now).0
    ∷ run_robin lanes (choose round_robin lanes cursor now).1 now n

-- `n` lanes from `cursor` on, around the circle.
abbrev circle : ℕ → ℕ → ℕ → List ℕ
circle lanes cursor zero = []
circle lanes cursor (suc n) = cursor % lanes ∷ circle lanes (cursor + 1) n

circle-wrap : (lanes c n : ℕ) → circle lanes (c + lanes) n ≡ circle lanes c n
circle-wrap lanes c zero = refl
circle-wrap lanes c (suc n) = rw (add-mod_right c lanes) (
    ap (λ t. c % lanes ∷ t)
      (ap (λ x. circle lanes x n) (let w : c + lanes + 1 ≡ c + 1 + lanes = omega arith in w)
        ∙ circle-wrap lanes (c + 1) n))

-- Under round robin, with two lanes or more, the calls go around the lanes one after the other,
-- from the cursor on.
pub round_robin_lem :
    (lanes cursor n : ℕ) (now : Now)
    → 1 < lanes
    → cursor < lanes
    → run_robin lanes cursor now n ≡ circle lanes cursor n
unfolding run_robin choose
round_robin_lem lanes cursor zero now many c = refl
round_robin_lem lanes cursor (suc n) now many c =
    let more : leb lanes 1 ≡ false = ground arith in
    let here : cursor % lanes ≡ cursor = mod-eq_of_lt c in
    elim (Bool-cases (cursor + 1 == lanes)) [
      | inl e ↦
          let at : cursor + 1 ≡ 0 + lanes = ground arith in
          rw (more, e, here, at)
            (ap (λ t. cursor ∷ t)
              (round_robin_lem lanes 0 n now many (omega arith) ∙ sym (circle-wrap lanes 0 n)))
      | inr e ↦
          rw (more, e, here)
            (ap (λ t. cursor ∷ t) (round_robin_lem lanes (cursor + 1) n now many (ground arith)))
    ]

find_idle-some :
    (idle : ℕ → Bool) (lane n : ℕ) {k : ℕ}
    → find_idle idle lane n ≡ some k
    → (idle k ≡ true) × (lane ≤ k) × (k < lane + n) × ((j : ℕ) → lane ≤ j → j < k → idle j ≡ false)
unfolding find_idle
find_idle-some idle lane zero h = absurd (cc)
find_idle-some idle lane (suc n) {k} h = elim (Bool-cases (idle lane)) [
  | inl e ↦
      let at : lane ≡ k = ground arith in
      rw (← at) (e, omega arith, omega arith, λ j p q. absurd (omega arith))
  | inr e ↦
      let (a, b, c, d) = find_idle-some idle (suc lane) n {k = k} (ground arith) in
      (
        a,
        omega arith,
        omega arith,
        λ j p q. elim (Bool-cases (j == lane)) [
          | inl f ↦ let same : j ≡ lane = ground arith in rw same e
          | inr f ↦ d j (ground arith) q
        ],
      )
]

find_idle-none :
    (idle : ℕ → Bool) (lane n : ℕ)
    → find_idle idle lane n ≡ none
    → (j : ℕ) → lane ≤ j
    → j < lane + n
    → idle j ≡ false
unfolding find_idle
find_idle-none idle lane zero h j p q = absurd (omega arith)
find_idle-none idle lane (suc n) h j p q = elim (Bool-cases (j == lane)) [
  | inl f ↦ let same : j ≡ lane = ground arith in rw same (ground arith)
  | inr f ↦ find_idle-none idle (suc lane) n (ground arith) j (ground arith) (omega arith)
]

-- Whatever the strategy, the lane chosen is one of the lanes and the cursor stays in range.
choose-in_range :
    (s : Strategy) (lanes cursor : ℕ) (now : Now)
    → 0 < lanes
    → cursor < lanes
    → now.random lanes < lanes
    → ((choose s lanes cursor now).0 < lanes) × ((choose s lanes cursor now).1 < lanes)
unfolding choose
choose-in_range round_robin lanes cursor now pos c r = elim (Bool-cases (leb lanes 1)) [
  | inl e ↦ rw e (pos, c)
  | inr e ↦ rw e (c, ground arith)
]
choose-in_range first_idle lanes cursor now pos c r = elim (Bool-cases (leb lanes 1)) [
  | inl e ↦ rw e (pos, c)
  | inr e ↦ elim (Option-cases (find_idle now.idle 0 lanes)) [
    | inl f ↦ rw (e, f) (c, ground arith)
    | inr (k, f) ↦ rw (e, f) (omega (arith, (find_idle-some now.idle 0 lanes {k = k} f).2), c)
  ]
]
choose-in_range random_lane lanes cursor now pos c r = elim (Bool-cases (leb lanes 1)) [
  | inl e ↦ rw e (pos, c)
  | inr e ↦ rw e (r, c)
]
choose-in_range first_idle_or_random lanes cursor now pos c r = elim (Bool-cases (leb lanes 1)) [
  | inl e ↦ rw e (pos, c)
  | inr e ↦ elim (Option-cases (find_idle now.idle 0 lanes)) [
    | inl f ↦ rw (e, f) (r, c)
    | inr (k, f) ↦ rw (e, f) (omega (arith, (find_idle-some now.idle 0 lanes {k = k} f).2), c)
  ]
]

-- With two lanes or more, the strategies that look for an idle lane take the first one, wherever
-- the cursor stands; only where no lane is idle do they fall back, to the cursor or to a random
-- lane.
first_idle_lem :
    (s : Strategy) (lanes cursor : ℕ) (now : Now)
    → 1 < lanes
    → (s ≡ first_idle) ⊎ (s ≡ first_idle_or_random)
    → let lane = (choose s lanes cursor now).0 in
      ((now.idle lane ≡ true) × ((j : ℕ) → j < lane → now.idle j ≡ false))
      ⊎ (((j : ℕ) → j < lanes → now.idle j ≡ false) × ((lane ≡ cursor) ⊎ (lane ≡ now.random lanes)))
unfolding choose
first_idle_lem s lanes cursor now many which =
    let more : leb lanes 1 ≡ false = ground arith in
    elim (Option-cases (find_idle now.idle 0 lanes)) [
      | inl f ↦
          let none_idle : (j : ℕ) → j < lanes → now.idle j ≡ false =
            λ j lt. find_idle-none now.idle 0 lanes f j (omega arith) (omega arith) in
          elim which [
            | inl w ↦ rw (w, more, f) (inr (none_idle, inl refl))
            | inr w ↦ rw (w, more, f) (inr (none_idle, inr refl))
          ]
      | inr (k, f) ↦
          let (a, b, c, d) = find_idle-some now.idle 0 lanes {k = k} f in
          let found : (now.idle k ≡ true) × ((j : ℕ) → j < k → now.idle j ≡ false) =
            (a, λ j lt. d j (omega arith) lt) in
          elim which [ inl w ↦ rw (w, more, f) (inl found) | inr w ↦ rw (w, more, f) (inl found) ]
    ]

settled :
    (k : ℕ) (m : Manager) {g : Gate}
    → m.gate ≡ some g
    → m.in_flight ≡ k + 1
    → (settle m).in_flight ≡ k
unfolding settle
settled k m has e = rw (has, settle) (omega arith)

-- With two lanes or more, a cursor and a random choice in range: below the threshold of calls in
-- flight no call goes to the inline lane, but to a lane that exists, and the count of calls in
-- flight is one more until the call settles.
pub invoke-gated :
    (m : Manager) (now : Now) (g : Gate)
    → m.gate ≡ some g
    → m.in_flight + 1 < g.threshold
    → 1 < m.lanes
    → m.worker_cursor < m.lanes - 1
    → now.random (m.lanes - 1) < m.lanes - 1
    → let (lane, m') = invoke m now in
      (lane ≢ g.index)
      × (lane < m.lanes)
      × (m'.in_flight ≡ m.in_flight + 1)
      × ((settle m').in_flight ≡ m.in_flight)
unfolding invoke
invoke-gated m now g has below many wc r =
    let open_ : leb g.threshold (m.in_flight + 1) ≡ false = ground arith in
    let (inside, _) =
      choose-in_range m.strategy (m.lanes - 1) m.worker_cursor (worker_now g.index now)
        (omega arith) wc r in
    rw (has, open_, invoke)
      (
        λ e. ground arith,
        ground arith,
        refl,
        settled m.in_flight
            (record m {
              worker_cursor =
                  (choose m.strategy (m.lanes - 1) m.worker_cursor (worker_now g.index now)).1;
              in_flight = m.in_flight + 1;
            })
            has refl,
      )
