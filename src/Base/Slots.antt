-- ===== src/Base/Slots.antt =====
-- Slots that calls hold, each under an id of its own, and a stack of free slots.
use knitting.Base.{
  ℕ, ◌+◌, ◌-◌, ◌<◌, ◌≤◌, Bool, true, false, ◌≡◌, ◌⊎◌, refl, ap, sym, ◌∙◌, List, [], ◌∷◌, Option,
  none, some, arith, ◌==◌, Bool-cases, inl, inr,
}
use knitting.Base.Count.{count}
use knitting.Base.Maps.{put, is_id, one_if, occurs, count-put, count-grow, count-same_at}

-- A slot that is pending is held by one call, which has an id of its own; `working` counts them. The
-- free stack has no slot twice, and none that is pending.
pub record Owned (cap : ℕ) (pending : ℕ → Bool) (task_id : ℕ → Option ℕ) (counter working : ℕ)
    (free : List ℕ) : Type 0 where
  pub below : (i : ℕ) → pending i ≡ true → i < cap
  pub live : (i : ℕ) → pending i ≡ true → (id : ℕ) × (task_id i ≡ some id) × (id < counter)
  pub dead : (i : ℕ) → pending i ≡ false → task_id i ≡ none
  pub distinct : (i j id : ℕ) → task_id i ≡ some id → task_id j ≡ some id → i ≡ j
  pub counted : working ≡ count cap pending
  pub stack : (i : ℕ) → occurs i free + one_if (pending i) ≤ 1
  pub stack_below : (i : ℕ) → 0 < occurs i free → i < cap

-- How many slots below `cap` the call `x` holds.
abbrev pub holding : ℕ → (ℕ → Option ℕ) → ℕ → ℕ
holding cap task_id x = count cap (λ i. is_id (task_id i) x)

pub holding-put :
    (cap : ℕ) (task_id : ℕ → Option ℕ) (index : ℕ) (o : Option ℕ) (x : ℕ)
    → index < cap
    → holding cap (put task_id index o) x + one_if (is_id (task_id index) x)
      ≡ holding cap task_id x + one_if (is_id o x)
holding-put cap task_id index o x lt =
    ap (λ n. n + one_if (is_id (task_id index) x))
      (count-same_at cap (λ i. is_id (put task_id index o i) x)
        (put (λ i. is_id (task_id i) x) index (is_id o x))
        (λ i l. elim (Bool-cases (i == index)) [ inl e ↦ rw e refl | inr e ↦ rw e refl ]))
    ∙ count-put cap index (λ i. is_id (task_id i) x) (is_id o x) lt

module _ {cap : ℕ} {pending : ℕ → Bool} {task_id : ℕ → Option ℕ} {counter working : ℕ}
    {free : List ℕ} (o : Owned cap pending task_id counter working free) where
  pub born : (i id : ℕ) → task_id i ≡ some id → (id < counter) × (pending i ≡ true)
  born i id t = elim (Bool-cases (pending i)) [
    | inl p ↦ let (id', t', lt) = o.live i p in (ground arith, p)
    | inr p ↦ absurd (ground (arith, o.dead i p))
  ]

  -- The state of `id` after a pop of `index`.
  pub admit-Owned :
      (index : ℕ) (rest : List ℕ)
      → free ≡ index ∷ rest
      → Owned cap
          (put pending index true)
          (put task_id index (some counter))
          (counter + 1)
          (working + 1)
          rest
  admit-Owned index rest e =
      let popped : (i : ℕ) → occurs i free ≡ one_if (index == i) + occurs i rest =
        λ i. ap (occurs i) e in
      let own : index == index ≡ true = ground arith in
      let inside : index < cap = o.stack_below index (ground (arith, popped index)) in
      let idle : pending index ≡ false = ground (arith, popped index, o.stack index) in
      record {
        below = λ i p. elim (Bool-cases (i == index)) [
          | inl q ↦ let at : i ≡ index = ground arith in rw at inside
          | inr q ↦ o.below i (ground arith)
        ];
        live = λ i p. elim (Bool-cases (i == index)) [
          | inl q ↦ (counter, rw q refl, omega arith)
          | inr q ↦ let (id, t, lt) = o.live i (ground arith) in (id, rw q t, omega arith)
        ];
        dead = λ i p. elim (Bool-cases (i == index)) [
          | inl q ↦ absurd (ground arith)
          | inr q ↦ rw q (o.dead i (ground arith))
        ];
        distinct = λ i j id s t. elim (Bool-cases (i == index)) [
          | inl p ↦ elim (Bool-cases (j == index)) [
            | inl q ↦ ground arith
            | inr q ↦
                let t' : task_id j ≡ some id = rw q at t in absurd (ground (arith, born j id t'))
          ]
          | inr p ↦
              let s' : task_id i ≡ some id = rw p at s in
              elim (Bool-cases (j == index)) [
                | inl q ↦ absurd (ground (arith, born i id s'))
                | inr q ↦ o.distinct i j id s' (rw q at t)
              ]
        ];
        counted = ground (arith, o.counted, count-put cap index pending true inside);
        stack = λ i. elim (Bool-cases (i == index)) [
          | inl q ↦ ground (arith, popped i, o.stack i)
          | inr q ↦ ground (arith, popped i, o.stack i)
        ];
        stack_below = λ i p. o.stack_below i (ground (arith, popped i));
      }

  pub not_pending : (i : ℕ) → cap ≤ i → pending i ≡ false
  not_pending i le = elim (Bool-cases (pending i)) [
    | inl p ↦ absurd (omega (arith, o.below i p))
    | inr p ↦ p
  ]

  -- The array grows to `more`, and what is new is pushed in some order.
  pub grow-Owned :
      (more : ℕ) (fresh : List ℕ)
      → cap ≤ more
      → ((i : ℕ)
          → (occurs i fresh ≡ 1) × (cap ≤ i) × (i < more)
            ⊎ (occurs i fresh ≡ 0) × ((i < cap) ⊎ (more ≤ i)))
      → free ≡ []
      → Owned more pending task_id counter working fresh
  grow-Owned more fresh le new e = record {
    below = λ i p. omega (arith, o.below i p);
    live = o.live;
    dead = o.dead;
    distinct = o.distinct;
    counted = o.counted ∙ sym (count-grow more cap pending le (λ i le. not_pending i le));
    stack = λ i. elim (new i) [
      | inl (one, low, high) ↦ ground (arith, not_pending i low)
      | inr (zero_, out) ↦ ground (arith, o.stack i)
    ];
    stack_below = λ i p. ground (arith, new i);
  }

  pub cleanup-Owned :
      (index : ℕ)
      → pending index ≡ true
      → Owned cap
          (put pending index false)
          (put task_id index none)
          counter
          (working - 1)
          (index ∷ free)
  cleanup-Owned index p = record {
    below = λ i q. o.below i (ground arith);
    live = λ i q. elim (Bool-cases (i == index)) [
      | inl r ↦ absurd (ground arith)
      | inr r ↦ let (id, t, lt) = o.live i (ground arith) in (id, rw r t, lt)
    ];
    dead = λ i q. elim (Bool-cases (i == index)) [
      | inl r ↦ rw r refl
      | inr r ↦ rw r (o.dead i (ground arith))
    ];
    distinct = λ i j id s t. o.distinct i j id (ground arith) (ground arith);
    counted = ground (arith, o.counted, count-put cap index pending false (o.below index p));
    stack = λ i. elim (Bool-cases (i == index)) [
      | inl r ↦ let at : index ≡ i = ground arith in ground (arith, o.stack i, ap pending at)
      | inr r ↦ ground (arith, o.stack i)
    ];
    stack_below = λ i q. elim (Bool-cases (i == index)) [
      | inl r ↦ let at : i ≡ index = ground arith in rw at (o.below index p)
      | inr r ↦ o.stack_below i (ground arith)
    ];
  }

  pub tick-Owned : Owned cap pending task_id (counter + 1) working free
  tick-Owned = record {
    below = o.below;
    live = λ i p. let (id, t, lt) = o.live i p in (id, t, omega arith);
    dead = o.dead;
    distinct = o.distinct;
    counted = o.counted;
    stack = o.stack;
    stack_below = o.stack_below;
  }
