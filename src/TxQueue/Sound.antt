-- ===== src/TxQueue/Sound.antt =====
-- src/runtime/tx-queue.ts: what each operation of the queue keeps.
use knitting.Base.{
  ℕ, zero, suc, ◌+◌, ◌-◌, ◌<◌, ◌≤◌, Bool, true, ◌≡◌, ◌⊎◌, refl, ap, ◌∙◌, subst, List, [], ◌∷◌, ◌++◌,
  Option, none, some, arith, ◌==◌, Bool-cases, List-cases, inl, inr, fun_ext,
}
use knitting.Base.Count.{count-all}
use knitting.Base.Maps.{put, count-grow, is_id, one_if, occurs, occurs-append}
use knitting.Base.Slots.{
  Owned, holding-put, born, admit-Owned, cleanup-Owned, grow-Owned, not_pending,
}
use knitting.Header.{Task}
use knitting.Lock.{Lock}
use knitting.AbortSignals.{Store}
use knitting.TxQueue.{TxQueue, is_held, down_from, settle_once, grow, on_return_resolved}
use knitting.TxQueue.Runs.{Sound}

abbrev Held : ℕ → (ℕ → Option ℕ) → ℕ → ℕ → List ℕ → Type 0
Held cap deferred calls working free =
    Owned cap (λ i. is_held (deferred i)) deferred calls working free

held-put :
    (d : ℕ → Option ℕ) (k : ℕ) (o : Option ℕ)
    → put (λ i. is_held (d i)) k (is_held o) ≡ (λ i. is_held (put d k o i))
held-put d k o = fun_ext (λ i. elim (Bool-cases (i == k)) [ inl e ↦ rw e refl | inr e ↦ rw e refl ])

module _ {cap : ℕ} {d : ℕ → Option ℕ} {calls working : ℕ} {free : List ℕ}
    (h : Held cap d calls working free) where
  pub admit-Held :
      (index : ℕ) (rest : List ℕ)
      → free ≡ index ∷ rest
      → Held cap (put d index (some calls)) (calls + 1) (working + 1) rest
  admit-Held index rest e =
      subst (λ p. Owned cap p (put d index (some calls)) (calls + 1) (working + 1) rest)
        (held-put d index (some calls)) (admit-Owned h index rest e)

  release-Held :
      (index : ℕ)
      → is_held (d index) ≡ true
      → Held cap (put d index none) calls (working - 1) (index ∷ free)
  release-Held index p =
      subst (λ q. Owned cap q (put d index none) calls (working - 1) (index ∷ free))
        (held-put d index none) (cleanup-Owned h index p)

  pub drop-Held : (index : ℕ) (rest : List ℕ) → free ≡ index ∷ rest → Held cap d calls working rest
  drop-Held index rest e =
      let popped : (i : ℕ) → occurs i free ≡ one_if (index == i) + occurs i rest =
        λ i. ap (occurs i) e in
      record {
        below = h.below;
        live = h.live;
        dead = h.dead;
        distinct = h.distinct;
        counted = h.counted;
        stack = λ i. omega (arith, popped i, h.stack i);
        stack_below = λ i p. h.stack_below i (omega (arith, popped i));
      }

  pub later-Held : Held cap d (calls + 1) working free
  later-Held = record {
    below = h.below;
    live = λ i p. let (id, t, lt) = h.live i p in (id, t, omega arith);
    dead = h.dead;
    distinct = h.distinct;
    counted = h.counted;
    stack = h.stack;
    stack_below = h.stack_below;
  }

pub occurs-down_from :
    (x a n : ℕ)
    → (occurs x (down_from a n) ≡ 1) × (a ≤ x) × (x < a + n)
      ⊎ (occurs x (down_from a n) ≡ 0) × ((x < a) ⊎ (a + n ≤ x))
occurs-down_from x a zero = inr (refl, ground arith)
occurs-down_from x a (suc n) = ground (arith, occurs-down_from x a n)

module _ {A : Type 0} (null exhausted : A) where
  -- What the slots do not depend on.
  pub frame-Sound :
      {s : TxQueue A} {w : ℕ} (task : ℕ → Task) (value : ℕ → A) (lock : Lock) (signals : Store)
      → Sound s w
      → Sound (record s { task = task; value = value; lock = lock; signals = signals }) w
  frame-Sound task value lock signals d = record {
    owned = d.owned;
    once = d.once;
    old = d.old;
    known = d.known;
  }

  -- What `settle_once` leaves alone.
  pub record Kept (s s' : TxQueue A) : Type 0 where
    pub len : s'.len ≡ s.len
    pub deferred : s'.deferred ≡ s.deferred
    pub free : s'.free ≡ s.free
    pub in_used : s'.in_used ≡ s.in_used
    pub calls : s'.calls ≡ s.calls

  pub settle_once-Kept :
      (s : TxQueue A) (c : ℕ) (e : Bool) (v : A) → Kept s (settle_once null exhausted s c e v)
  unfolding settle_once
  settle_once-Kept s c e v = elim (Bool-cases (s.triggered c)) [
    | inl t ↦
        rw t (record { len = refl; deferred = refl; free = refl; in_used = refl; calls = refl })
    | inr t ↦
        rw t (record { len = refl; deferred = refl; free = refl; in_used = refl; calls = refl })
  ]

  settle_once-triggers :
      (s : TxQueue A) (c : ℕ) (e : Bool) (v : A)
      → (settle_once null exhausted s c e v).triggered c ≡ true
  unfolding settle_once
  settle_once-triggers s c e v = elim (Bool-cases (s.triggered c)) [
    | inl t ↦ rw t t
    | inr t ↦ rw t (ground arith)
  ]

  pub settle_once-Sound :
      {s : TxQueue A} {w : ℕ} (c : ℕ) (e : Bool) (v : A)
      → Sound s w
      → c < s.calls
      → Sound (settle_once null exhausted s c e v) w
  unfolding settle_once
  settle_once-Sound {s} c e v d lt = elim (Bool-cases (s.triggered c)) [
    | inl t ↦ rw t d
    | inr t ↦ rw t (record {
      owned = d.owned;
      once = λ x. ground (arith, d.once x);
      old = λ x h. ground (arith, d.old x);
      known = λ x h. ground (arith, d.known x h);
    })
  ]

  release-Sound :
      {s : TxQueue A} {w : ℕ} (i c : ℕ)
      → Sound s w
      → s.deferred i ≡ some c
      → s.triggered c ≡ true
      → Sound (on_return_resolved null exhausted s i) (w - 1)
  unfolding on_return_resolved
  release-Sound {s} i c d h t =
      let held = ap is_held h in
      record {
        owned = release-Held d.owned i held;
        once = d.once;
        old = d.old;
        known = λ x lt.
            let moved = holding-put s.len s.deferred i none x (d.owned.below i held) in
            elim (Bool-cases (c == x)) [
              | inl e ↦
                  let at : c ≡ x = ground arith in
                  let t' : s.triggered x ≡ true = rw at at t in rw t' (omega arith)
              | inr e ↦ ground (arith, moved, d.known x lt, ap (λ o. is_id o x) h)
            ];
      }

  -- The slot's call, where it has one, is known.
  pub call_of : {s : TxQueue A} {w : ℕ} (i c : ℕ) → Sound s w → s.deferred i ≡ some c → c < s.calls
  call_of i c d h = let (lt, live) = born d.owned i c h in lt

  -- A slot is settled and given back.
  pub settle-release :
      {s : TxQueue A} {w : ℕ} (i c : ℕ) (e : Bool) (v : A)
      → Sound s w
      → s.deferred i ≡ some c
      → Sound (on_return_resolved null exhausted (settle_once null exhausted s c e v) i) (w - 1)
  settle-release {s} i c e v d h =
      let k = settle_once-Kept s c e v in
      release-Sound i c (settle_once-Sound c e v d (call_of i c d h)) (ap (λ f. f i) k.deferred ∙ h)
        (settle_once-triggers s c e v)

  full : {s : TxQueue A} → Sound s s.in_used → s.in_used ≡ s.len → s.free ≡ []
  full {s} d e = elim (List-cases s.free) [
    | inl f ↦ f
    | inr (i, rest, f) ↦
        let own : i == i ≡ true = ground arith in
        let there : 0 < occurs i s.free = rw (f, own) (omega arith) in
        let all =
          count-all s.len (λ j. is_held (s.deferred j)) (omega (arith, d.owned.counted)) i
            (d.owned.stack_below i there) in
        absurd (ground (arith, d.owned.stack i))
  ]

  pub grow-Sound : {s : TxQueue A} → Sound s s.in_used → Sound (grow null exhausted s) s.in_used
  unfolding grow
  grow-Sound {s} d = elim (Bool-cases (s.in_used == s.len)) [
    | inl e ↦
        let at : s.in_used ≡ s.len = ground arith in
        let f = full d at in
        let none_left = λ (x : ℕ). ap (occurs x) f in
        let o =
          grow-Owned d.owned (s.in_used + 32) (down_from s.len 32 ++ s.free) (omega arith)
            (λ i. ground (
              arith,
              occurs-append i (down_from s.len 32) s.free,
              none_left i,
              occurs-down_from i s.len 32,
            ))
            f in
        rw e (record {
          owned = o;
          once = d.once;
          old = d.old;
          known = λ x lt.
              let same =
                count-grow (s.in_used + 32) s.len (λ i. is_id (s.deferred i) x) (omega arith)
                  (λ i le. ap (λ o. is_id o x) (d.owned.dead i (not_pending d.owned i le))) in
              omega (arith, d.known x lt, same);
        })
    | inr e ↦ rw e d
  ]

  pub grow-in_used : (s : TxQueue A) → (grow null exhausted s).in_used ≡ s.in_used
  unfolding grow
  grow-in_used s = elim (Bool-cases (s.in_used == s.len)) [ inl q ↦ rw q refl | inr q ↦ rw q refl ]
