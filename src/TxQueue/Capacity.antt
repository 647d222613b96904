-- ===== src/TxQueue/Capacity.antt =====
-- src/runtime/tx-queue.ts: whether a slot is left for the next call.
use knitting.Base.{
  ℕ, zero, suc, ◌+◌, ◌<◌, Bool, true, ◌≡◌, ◌≢◌, refl, ap, sym, ◌∙◌, subst, List, [], ◌∷◌, Option,
  none, some, arith, ◌==◌, Bool-cases, Option-cases, List-cases, inl, inr, length,
}
use knitting.Base.Lists.{length-append}
use knitting.Header.{Task}
use knitting.AbortSignals.{get_signal, close_now}
use knitting.TxQueue.{
  TxQueue, is_held, Request, settle_once, abort, complete, enqueue, enqueue_at,
  settle_promise_payload, flush_to_worker, on_return_resolved, grow, admit, refuse, create,
  down_from,
}
use knitting.TxQueue.Runs.{
  Sound, Step, enqueues, completes, settles, aborts, rejects, flushes, closes, others, Reach, start,
  next,
}
use knitting.TxQueue.Sound.{settle_once-Kept, grow-in_used}
use knitting.TxQueue.Enqueue.{enqueue_at-cases}
use knitting.TxQueue.Steps.{Reach-Sound}
use knitting.TxQueue.Delivery.{used}

module _ {A : Type 0} (null exhausted : A) (encode_task : Task → ℕ → Bool × Task) where
  length-down_from : (a n : ℕ) → length (down_from a n) ≡ n
  length-down_from a zero = refl
  length-down_from a (suc n) = ap suc (length-down_from a n)

  -- In a run without a refusal and before `rejectAll`, every slot is either in use or on the free
  -- stack.
  abbrev Intact : TxQueue A → Type 0
  Intact s = s.in_used + length s.free ≡ s.len

  grow-Intact :
      (s : TxQueue A)
      → Intact s
      → Intact (grow null exhausted s) × ((grow null exhausted s).free ≢ [])
  unfolding grow
  grow-Intact s e = elim (Bool-cases (s.in_used == s.len)) [
    | inl q ↦ rw q (
      ground (arith, length-append (down_from s.len 32) s.free, length-down_from s.len 32),
      λ f. ground (
        arith,
        ap length f,
        length-append (down_from s.len 32) s.free,
        length-down_from s.len 32,
      ),
    )
    | inr q ↦ rw q (e, λ f. ground (arith, ap length f))
  ]

  release-Intact :
      (s : TxQueue A) (i c : ℕ) (e : Bool) (v : A)
      → 0 < s.in_used
      → Intact s
      → Intact (on_return_resolved null exhausted (settle_once null exhausted s c e v) i)
  unfolding on_return_resolved
  release-Intact s i c e v busy h =
      let k = settle_once-Kept null exhausted s c e v in
      omega (arith, h, busy, k.in_used, k.len, ap length k.free)

  enqueue-Intact :
      (s s' : TxQueue A) (req : Request) (args : A)
      → Intact s
      → enqueue null exhausted encode_task s req args ≡ some s'
      → s'.in_used == s.in_used + 1 ≡ true
      → Intact s'
  unfolding enqueue admit refuse
  enqueue-Intact s s' req args h e one =
      let s1 : TxQueue A = grow null exhausted s in
      let (h1, has) = grow-Intact s h in
      let same : s1.in_used ≡ s.in_used = grow-in_used null exhausted s in
      elim (enqueue_at-cases null exhausted encode_task s1 req args s1.free) [
        | inl (f, n) ↦ absurd (cc)
        | inr (index, rest, f, inl (signal, signals, a)) ↦
            let t : TxQueue A =
              admit null exhausted encode_task s1 req args index rest signal signals in
            let to : t ≡ s' = cc in
            let ht : Intact t = omega (arith, h1, ap length f) in subst Intact to ht
        | inr (index, rest, f, inr (r, u, c)) ↦
            let t : TxQueue A = refuse null exhausted encode_task s1 req index rest in
            let to : t ≡ s' = cc in
            let same' : s'.in_used ≡ s1.in_used = ap (λ t. t.in_used) (sym to) in
            absurd (ground arith)
      ]

  step-Intact :
      {s s' : TxQueue A} {fine : Bool}
      → Step null exhausted encode_task s fine s'
      → fine ≡ true
      → Sound s s.in_used
      → Intact s
      → Intact s'
  unfolding flush_to_worker complete settle_promise_payload abort
  step-Intact (enqueues req args s' e) one d h = enqueue-Intact _ s' req args h e one
  step-Intact {s = s} (completes header v lt) one d h = elim (Option-cases (s.deferred header.id)) [
    | inl n ↦ rw (complete, n) h
    | inr (c, k) ↦
        rw (complete, k)
          (release-Intact _ header.id c _ v
            (used null exhausted encode_task d header.id (ap is_held k)) h)
  ]
  step-Intact {s = s} (settles i is_rejected v lt) one d h = elim (Option-cases (s.deferred i)) [
    | inl n ↦ rw (settle_promise_payload, n) h
    | inr (c, k) ↦ elim (Bool-cases is_rejected) [
      | inl r ↦
          rw (settle_promise_payload, k, r)
            (release-Intact s i c true v (used null exhausted encode_task d i (ap is_held k)) h)
      | inr r ↦ rw (settle_promise_payload, k, r) h
    ]
  ]
  step-Intact {s = s} (aborts c) one d h = elim (Bool-cases (s.triggered c)) [
    | inl t ↦ rw (abort, t) h
    | inr t ↦ elim (Option-cases (s.signal_of c)) [
      | inl n ↦ rw (abort, t, n) h
      | inr (signal, k) ↦ rw (abort, t, k) h
    ]
  ]
  step-Intact {s = s} (rejects c signal reason lt k) one d h =
      let k = settle_once-Kept null exhausted s c true reason in
      omega (arith, h, k.in_used, k.len, ap length k.free)
  step-Intact flushes one d h = h
  step-Intact (closes reason) one d h = absurd (cc)
  step-Intact (others lock signals) one d h = h

  Reach-Intact :
      {s : TxQueue A} {ok : Bool} → Reach null exhausted encode_task ok s → ok ≡ true → Intact s
  unfolding create
  Reach-Intact (start max lock signals) e = omega (arith, length-down_from 0 max)
  Reach-Intact (next {ok} {fine} r step) e =
      step-Intact step (ground arith) (Reach-Sound null exhausted encode_task r)
        (Reach-Intact r (ground arith))

  -- In a run where no call has been refused for want of a signal, and before `rejectAll`, `enqueue`
  -- always finds a slot and does not throw, and every slot is in use or on the free stack.
  pub enqueue-total :
      {s : TxQueue A}
      → Reach null exhausted encode_task true s
      → (req : Request) (args : A)
      → (s.in_used + length s.free ≡ s.len)
        × ((s' : TxQueue A) × (enqueue null exhausted encode_task s req args ≡ some s'))
  unfolding enqueue
  enqueue-total {s} r req args =
      let h = Reach-Intact r refl in
      let s1 : TxQueue A = grow null exhausted s in
      let (h1, has) = grow-Intact s h in
      (
        h,
        elim (enqueue_at-cases null exhausted encode_task s1 req args s1.free) [
          | inl (f, n) ↦ absurd (has f)
          | inr (index, rest, f, inl (signal, signals, a)) ↦ (_, a)
          | inr (index, rest, f, inr (a, u, c)) ↦ (_, a)
        ],
      )

  no_growth : (s : TxQueue A) → s.in_used < s.len → grow null exhausted s ≡ s
  unfolding grow
  no_growth s lt = ground arith

  enqueue-empty :
      (s : TxQueue A) (req : Request) (args : A)
      → s.in_used < s.len
      → s.free ≡ []
      → enqueue null exhausted encode_task s req args ≡ none
  unfolding enqueue
  enqueue-empty s req args lt f =
      ap (λ t. enqueue_at null exhausted encode_task t req args t.free) (no_growth s lt)
      ∙ ap (enqueue_at null exhausted encode_task s req args) f

  enqueue-refused :
      (s : TxQueue A) (req : Request) (args : A) (index : ℕ) (rest : List ℕ)
      → s.in_used < s.len
      → s.free ≡ index ∷ rest
      → req.use_signal ≡ true
      → (get_signal s.signals).0 == close_now s.signals ≡ true
      → enqueue null exhausted encode_task s req args
        ≡ some (refuse null exhausted encode_task s req index rest)
  unfolding enqueue
  enqueue-refused s req args index rest lt f u c =
      ap (λ t. enqueue_at null exhausted encode_task t req args t.free) (no_growth s lt)
      ∙ ap (enqueue_at null exhausted encode_task s req args) f
      ∙ rw (u, c) refl

  -- The same request, `n` times.
  abbrev pub enqueue_times : ℕ → TxQueue A → Request → A → Option (TxQueue A)
  enqueue_times zero s req args = some s
  enqueue_times (suc n) s req args = elim (enqueue null exhausted encode_task s req args) [
    | none ↦ none
    | some s' ↦ enqueue_times n s' req args
  ]

  -- While slots are in use, not all of them, and no signal is left: as many calls with a signal as
  -- there are free slots are refused, and then `enqueue` throws whatever is asked for, with or
  -- without a signal, though no more slots are in use than before.
  pub refusals-lose_slots :
      (n : ℕ) (s : TxQueue A) (req : Request) (args : A)
      → length s.free ≡ n
      → s.in_used < s.len
      → req.use_signal ≡ true
      → (get_signal s.signals).0 == close_now s.signals ≡ true
      → (s' : TxQueue A) × (enqueue_times n s req args ≡ some s')
        × (s'.in_used ≡ s.in_used)
        × (s'.len ≡ s.len)
        × ((req' : Request) (args' : A) → enqueue null exhausted encode_task s' req' args' ≡ none)
  unfolding refuse
  refusals-lose_slots zero s req args l lt u c = elim (List-cases s.free) [
    | inl f ↦ (s, refl, refl, refl, λ req' args'. enqueue-empty s req' args' lt f)
    | inr (index, rest, f) ↦ absurd (ground (arith, ap length f))
  ]
  refusals-lose_slots (suc n) s req args l lt u c = elim (List-cases s.free) [
    | inl f ↦ absurd (ground (arith, ap length f))
    | inr (index, rest, f) ↦
        let e = enqueue-refused s req args index rest lt f u c in
        let (s', more, same, len, stuck) =
          refusals-lose_slots n (refuse null exhausted encode_task s req index rest) req args
            (ground (arith, ap length f)) lt u c in
        (s', rw (enqueue_times, e) more, same, len, stuck)
  ]
