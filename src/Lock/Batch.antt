-- ===== src/Lock/Batch.antt =====
-- src/memory/lock.ts: what `encodeManyTrackedFrom` does with each task of a list.

use mathlib.Core.Path.{fun_ext}
use knitting.Base.{
  ℕ, suc, ◌+◌, Bool, true, false, ◌≡◌, ◌⊎◌, refl, sym, ap, ◌∙◌, subst, List, [], ◌∷◌, none, some,
  arith, Bool-cases, Option-cases, inl, inr, length,
}
use knitting.Base.Lanes.{Word, xor, bit, not_w, ◌^w◌, is_zero, lead}
use knitting.Header.{Task, fill_from, is_promise_pending, has_flag, tracked_flag}
use knitting.Lock.{
  Lock, is_some, ensure_free, store_host, encode_at, encode_with_state, encode, track_deferred,
  encode_many_tracked, encode_many_tracked_from,
}
use knitting.Lock.Queue.{ready, Queue}
use knitting.Lock.Runs.{Sent, encode-Sent}

-- The word of occupied lanes that the sender works with.
abbrev occupied : Lock → Word
occupied l = l.last_local ^w l.worker_shadow

-- What an attempt that fails leaves of a task: the task, or what the codec made of it.
abbrev Left : (Task → ℕ → Bool × Task) → Task → Task → Type 0
Left encode_task task task' = (task' ≡ task) ⊎ ((at : ℕ) × (encode_task task at ≡ (false, task')))

-- From `q` on, the tasks of a list in turn: `published` are those whose header was published, each
-- by a run of the sender's steps; a task that was not published and waits for its promise is set
-- aside and counted; the first other one that was not published stops the batch, and `rest` is what
-- is left of the list.
pub data Batch (encode_task : Task → ℕ → Bool × Task)
    : Queue → List Task → List Task → List Task → ℕ → Lock → Type 0 where
  done : (q : Queue) → Batch encode_task q [] [] [] 0 q.lock
  stopped :
      (q : Queue) (task task' : Task) (list : List Task) (l : Lock)
      → Left encode_task task task'
      → Sent q false task' l
      → is_promise_pending task' ≡ false
      → Batch encode_task q (task ∷ list) [] (task' ∷ list) 0 l
  set_aside :
      (q : Queue) (task task' : Task) (list published rest : List Task) (aside : ℕ) (l l' : Lock)
      → Left encode_task task task'
      → Sent q false task' l
      → is_promise_pending task' ≡ true
      → Batch encode_task
          (record q { lock = (track_deferred (record l { deferred = l.deferred + 1 }) task').1 })
          list
          published
          rest
          aside
          l'
      → Batch encode_task q (task ∷ list) published rest (suc aside) l'
  went :
      (q : Queue) (task task' : Task) (list published rest : List Task) (aside : ℕ) (l l' : Lock)
      (at : ℕ)
      → encode_task task at ≡ (true, task')
      → Sent q true task' l
      → Batch encode_task
          (record q { lock = l; sent = fill_from task' ∷ q.sent })
          list
          published
          rest
          aside
          l'
      → Batch encode_task q (task ∷ list) (task' ∷ published) rest aside l'

swap : (a b c : Word) → (a ^w b) ^w c ≡ (a ^w c) ^w b
swap a b c = fun_ext (λ i. xor_swap (a i) (b i) (c i))
  where
    xor_swap : (x y z : Bool) → xor (xor x y) z ≡ xor (xor x z) y
    xor_swap x y z = ground arith

ensure_free-occupied :
    (l : Lock) (state : Word)
    → state ≡ occupied l
    → let (state1, l1) = ensure_free l state in (state1 ≡ occupied l1) × (l1.deferred ≡ l.deferred)
unfolding ensure_free
ensure_free-occupied l state h = elim (Bool-cases (is_zero (not_w state))) [
  | inl z ↦ rw z (refl, refl)
  | inr z ↦ rw z (h, refl)
]

track_deferred-words :
    (l : Lock) (task : Task)
    → (occupied (track_deferred l task).1 ≡ occupied l)
      × ((track_deferred l task).1.deferred ≡ l.deferred)
unfolding track_deferred
track_deferred-words l task = elim (Bool-cases (has_flag task tracked_flag)) [
  | inl z ↦ rw z (refl, refl)
  | inr z ↦ rw z (refl, refl)
]

module _ (encode_task : Task → ℕ → Bool × Task) where
  -- The occupied lanes after an attempt.
  after_attempt :
      (l : Lock) (task : Task) (state : Word)
      → state ≡ occupied l
      → let r = encode_with_state encode_task l task state in
        (r.0 ≡ none → (state ≡ occupied r.2) × Left encode_task task r.1)
        × ((at : ℕ)
            → r.0 ≡ some at
            → (state ^w bit at ≡ occupied r.2) × (encode_task task at ≡ (true, r.1)))
        × (r.2.deferred ≡ l.deferred)
  unfolding encode_with_state encode_at store_host
  after_attempt l task state h = elim (Bool-cases (is_zero (not_w state))) [
    | inl z ↦ rw (z, encode_with_state) (λ _. (h, inl refl), λ at e. absurd (cc), refl)
    | inr z ↦ elim (Option-cases (lead (not_w state))) [
      | inl n ↦ rw (z, n, encode_with_state) (λ _. (h, inl refl), λ at e. absurd (cc), refl)
      | inr (k, e) ↦ elim (Bool-cases (encode_task task k).0) [
        | inl ok ↦
            rw (z, e, ok, encode_with_state)
              (
                λ no_. absurd (cc),
                λ at f.
                    let same : k ≡ at = cc in
                    (
                      ap (λ (w : Word). w ^w bit at) h
                          ∙ ap (λ n. occupied l ^w bit n) (sym same)
                          ∙ swap l.last_local l.worker_shadow (bit k),
                      subst (λ n. encode_task task n ≡ (true, (encode_task task k).1)) same
                          (ap (λ b. (b, (encode_task task k).1)) ok),
                    ),
                refl,
              )
        | inr bad ↦
            rw (z, e, bad, encode_with_state)
              (
                λ _. (h, inr (k, ap (λ b. (b, (encode_task task k).1)) bad)),
                λ at f. absurd (cc),
                refl,
              )
      ]
    ]
  ]

  attempt-Sent :
      (q : Queue) (task : Task) (state : Word)
      → state ≡ occupied q.lock
      → q.sender ≡ ready
      → let (state1, l1) = ensure_free q.lock state in
        let (lane, task', l) = encode_with_state encode_task l1 task state1 in
        Sent q (is_some lane) task' l
  unfolding encode
  attempt-Sent q task state h r =
      subst
        (λ (x : Word).
          let (state1, l1) = ensure_free q.lock x in
          let (lane, task', l) = encode_with_state encode_task l1 task state1 in
          Sent q (is_some lane) task' l)
        (sym h) (encode-Sent encode_task q task r)

  -- What a call of the loop comes to.
  record Batched (q : Queue) (list : List Task) (r : ℕ × List Task × Lock) : Type 0 where
    pub published : List Task
    aside : ℕ
    batch : Batch encode_task q list published r.1 aside r.2
    pub number : r.0 ≡ length published
    pub counted : r.2.deferred ≡ q.lock.deferred + aside

  encode_many_tracked-Batched :
      (q : Queue) (list : List Task) (state : Word)
      → state ≡ occupied q.lock
      → q.sender ≡ ready
      → Batched q list (encode_many_tracked encode_task q.lock list state)
  unfolding encode_many_tracked
  encode_many_tracked-Batched q [] state h r = record {
    published = [];
    aside = 0;
    batch = done q;
    number = refl;
    counted = omega arith;
  }
  encode_many_tracked-Batched q (task ∷ list) state h r =
      let (state1, l1) = ensure_free q.lock state in
      let t = encode_with_state encode_task l1 task state1 in
      let (h1, d1) = ensure_free-occupied q.lock state h in
      let (stays, moves, d2) = after_attempt l1 task state1 h1 in
      let s = attempt-Sent q task state h r in
      elim (Option-cases t.0) [
        | inl e ↦
            let s' : Sent q false t.1 t.2 = subst (λ o. Sent q (is_some o) t.1 t.2) e s in
            elim (Bool-cases (is_promise_pending t.1)) [
              | inl p ↦
                  let l2 : Lock = record t.2 { deferred = t.2.deferred + 1 } in
                  let l3 = (track_deferred l2 t.1).1 in
                  let (same, d3) = track_deferred-words l2 t.1 in
                  let b =
                    encode_many_tracked-Batched (record q { lock = l3 }) list state1
                      ((stays e).0 ∙ sym same) r in
                  rw (e, p, encode_many_tracked)
                    (record {
                      published = b.published;
                      aside = suc b.aside;
                      batch =
                          set_aside q task t.1 list b.published _ b.aside t.2 _ (stays e).1 s' p
                            b.batch;
                      number = b.number;
                      counted = omega (arith, b.counted, d1, d2, d3);
                    })
              | inr p ↦
                  rw (e, p, encode_many_tracked)
                    (record {
                      published = [];
                      aside = 0;
                      batch = stopped q task t.1 list t.2 (stays e).1 s' p;
                      number = refl;
                      counted = omega (arith, d1, d2);
                    })
            ]
        | inr (at, e) ↦
            let s' : Sent q true t.1 t.2 = subst (λ o. Sent q (is_some o) t.1 t.2) e s in
            let b =
              encode_many_tracked-Batched (record q { lock = t.2; sent = fill_from t.1 ∷ q.sent })
                list (state1 ^w bit at) (moves at e).0 r in
            rw (e, encode_many_tracked)
              (record {
                published = t.1 ∷ b.published;
                aside = b.aside;
                batch =
                    went q task t.1 list b.published _ b.aside t.2 _ at (moves at e).1 s' b.batch;
                number = omega (arith, b.number);
                counted = omega (arith, b.counted, d1, d2);
              })
      ]

  -- The queue once `encodeManyTrackedFrom` has read the free lanes and reset its count.
  abbrev pub opened : Queue → Queue
  opened q = record q { lock = record (ensure_free q.lock (occupied q.lock)).1 { deferred = 0 } }

  -- For a sender that is not in the middle of a header, `encodeManyTrackedFrom` takes the tasks of a
  -- list in turn. The header of each task that it sends is published by a run of the sender's
  -- steps, as the codec has left it; a task that waits for its promise is set aside; the first
  -- other task that is not sent ends the call, and it and what is behind it stay in the list. The
  -- call answers how many were sent and counts those set aside.
  pub encode_many_tracked_from-Batch :
      (q : Queue) (list : List Task)
      → q.sender ≡ ready
      → let (n, rest, l) = encode_many_tracked_from encode_task q.lock list in
        (published : List Task) × Batch encode_task (opened q) list published rest l.deferred l
        × (n ≡ length published)
  unfolding encode_many_tracked_from
  encode_many_tracked_from-Batch q list r =
      let (state, l1) = ensure_free q.lock (occupied q.lock) in
      let h = (ensure_free-occupied q.lock (occupied q.lock) refl).0 in
      let b = encode_many_tracked-Batched (opened q) list state h r in
      let run = encode_many_tracked encode_task (opened q).lock list state in
      let same : b.aside ≡ run.2.deferred = omega (arith, b.counted) in
      (
        b.published,
        subst (λ a. Batch encode_task (opened q) list b.published run.1 a run.2) same b.batch,
        b.number,
      )
