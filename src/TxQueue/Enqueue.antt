-- ===== src/TxQueue/Enqueue.antt =====
-- src/runtime/tx-queue.ts: `enqueue`, refused or not, keeps the slots sound.
use knitting.Base.{
  ℕ, ◌+◌, ◌<◌, Bool, true, false, ◌≡◌, ◌⊎◌, refl, ap, sym, subst, List, [], ◌∷◌, Option, none, some,
  arith, ◌==◌, Bool-cases, inl, inr,
}
use knitting.Base.Maps.{is_id, occurs}
use knitting.Base.Slots.{holding-put}
use knitting.Header.{Task}
use knitting.AbortSignals.{Store, close_now, get_signal}
use knitting.TxQueue.{TxQueue, Request, grow, admit, refuse, enqueue_at, enqueue}
use knitting.TxQueue.Runs.{Sound}
use knitting.TxQueue.Sound.{admit-Held, drop-Held, later-Held, grow-Sound, grow-in_used}

module _ {A : Type 0} (null exhausted : A) (encode_task : Task → ℕ → Bool × Task) where
  -- The new call's number is not settled yet.
  fresh : {s : TxQueue A} {w : ℕ} → Sound s w → s.triggered s.calls ≡ false
  fresh {s} d = elim (Bool-cases (s.triggered s.calls)) [
    | inl t ↦ absurd (omega (arith, d.old s.calls t))
    | inr t ↦ t
  ]

  -- A slot that lies on the stack is not held.
  free-idle :
      {s : TxQueue A} {w : ℕ} (index : ℕ) (rest : List ℕ)
      → Sound s w
      → s.free ≡ index ∷ rest
      → (index < s.len) × (s.deferred index ≡ none)
  free-idle {s} index rest d e =
      let own : index == index ≡ true = ground arith in
      let there : 0 < occurs index s.free = rw (e, own) (omega arith) in
      (d.owned.stack_below index there, d.owned.dead index (ground (arith, d.owned.stack index)))

  admit-Sound :
      {s : TxQueue A} {w : ℕ} (req : Request) (args : A) (index : ℕ) (rest : List ℕ)
      (signal : Option ℕ) (signals : Store)
      → Sound s w
      → s.free ≡ index ∷ rest
      → Sound (admit null exhausted encode_task s req args index rest signal signals) (w + 1)
  unfolding admit
  admit-Sound {s} req args index rest signal signals d e =
      let (lt, idle) = free-idle index rest d e in
      record {
        owned = admit-Held d.owned index rest e;
        once = d.once;
        old = λ x h. omega (arith, d.old x h);
        known = λ x h.
            let moved = holding-put s.len s.deferred index (some s.calls) x lt in
            let was = ap (λ o. is_id o x) idle in
            elim (Bool-cases (s.calls == x)) [
              | inl q ↦ ground (arith, moved, was)
              | inr q ↦ ground (arith, moved, was, d.known x (ground arith))
            ];
      }

  refuse-Sound :
      {s : TxQueue A} {w : ℕ} (req : Request) (index : ℕ) (rest : List ℕ)
      → Sound s w
      → s.free ≡ index ∷ rest
      → Sound (refuse null exhausted encode_task s req index rest) w
  unfolding refuse
  refuse-Sound {s} req index rest d e =
      let new = fresh d in
      record {
        owned = later-Held (drop-Held d.owned index rest e);
        once = λ x. ground (arith, d.once x);
        old = λ x h. ground (arith, d.old x);
        known = λ x h. ground (arith, d.known x);
      }

  -- Which of its three ways `enqueue_at` goes.
  pub enqueue_at-cases :
      (s : TxQueue A) (req : Request) (args : A) (free : List ℕ)
      → ((free ≡ []) × (enqueue_at null exhausted encode_task s req args free ≡ none))
        ⊎ ((index : ℕ) × (rest : List ℕ) × (free ≡ index ∷ rest)
            × (((signal : Option ℕ) × (signals : Store) × (enqueue_at null exhausted encode_task s
                      req args free
                    ≡ some (admit null exhausted encode_task s req args index rest signal signals)))
                ⊎ ((enqueue_at null exhausted encode_task s req args free
                      ≡ some (refuse null exhausted encode_task s req index rest))
                    × (req.use_signal ≡ true)
                    × ((get_signal s.signals).0 == close_now s.signals ≡ true))))
  enqueue_at-cases s req args [] = inl (refl, refl)
  enqueue_at-cases s req args (index ∷ rest) = elim (Bool-cases req.use_signal) [
    | inl u ↦ elim (Bool-cases ((get_signal s.signals).0 == close_now s.signals)) [
      | inl c ↦ inr (index, rest, refl, inr (rw (u, c) refl, u, c))
      | inr c ↦ inr (
        index,
        rest,
        refl,
        inl (some (get_signal s.signals).0, (get_signal s.signals).1, rw (u, c) refl),
      )
    ]
    | inr u ↦ inr (index, rest, refl, inl (none, s.signals, rw u refl))
  ]

  pub enqueue-Sound :
      {s s' : TxQueue A} (req : Request) (args : A)
      → Sound s s.in_used
      → enqueue null exhausted encode_task s req args ≡ some s'
      → Sound s' s'.in_used
  unfolding enqueue admit refuse
  enqueue-Sound {s} {s'} req args d e =
      let s1 : TxQueue A = grow null exhausted s in
      let d1 : Sound s1 s1.in_used =
        subst (Sound s1) (sym (grow-in_used null exhausted s)) (grow-Sound null exhausted d) in
      elim (enqueue_at-cases s1 req args s1.free) [
        | inl (f, n) ↦ absurd (cc)
        | inr (index, rest, f, inl (signal, signals, a)) ↦
            let t : TxQueue A =
              admit null exhausted encode_task s1 req args index rest signal signals in
            let to : t ≡ s' = cc in
            let dt : Sound t t.in_used = admit-Sound req args index rest signal signals d1 f in
            subst (λ t. Sound t t.in_used) to dt
        | inr (index, rest, f, inr (r, u, c)) ↦
            let t : TxQueue A = refuse null exhausted encode_task s1 req index rest in
            let to : t ≡ s' = cc in
            let dt : Sound t t.in_used = refuse-Sound req index rest d1 f in
            subst (λ t. Sound t t.in_used) to dt
      ]
