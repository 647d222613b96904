-- ===== src/Inline/Callbacks.antt =====
-- src/runtime/inline-executor.ts: the callbacks on promises, and the shutdown.
use knitting.Base.{
  ℕ, zero, suc, ◌+◌, Bool, true, false, ◌≡◌, ◌≢◌, ◌⊎◌, refl, ap, sym, subst, List, [], ◌∷◌, Option,
  none, some, arith, ◌==◌, Bool-cases, Option-cases, inl, inr,
}
use knitting.Base.Count.{count, count-of_none}
use knitting.Base.Maps.{put, is_id, occurs, put_ne, occurs-range_from}
use knitting.Inline.{
  Outcome, Executor, cleanup, settle_if_current, enqueue, enqueue_if_current, arg_resolved,
  arg_rejected, kills, reject_pending, create_inline_executor,
}
use knitting.Base.Slots.{holding, born}
use knitting.Inline.Runs.{
  Arg, value, resolves, rejects, Script, given, is_promise, answer_to, answer, settle_arg,
  arg_settles, result_settles,
}
use knitting.Inline.Phase.{arg_resolved-Phase, stale_arg-Phase, stale_result-Phase}
use knitting.Inline.Calls.{enqueued-Sound}
use knitting.Inline.Sound.{ids, Answered, Sound, settled-Sound, settle-current}

module _ {A : Type 0} (undefined closed : A) (run : ℕ → ℕ → A → Outcome A) (batch_limit : Option ℕ)
    (script : Script A) where
  settle-stale :
      (s : Executor A) (index id : ℕ) (e : Bool) (v : A)
      → is_id (s.task_id index) id ≡ false
      → settle_if_current undefined s index id e v ≡ s
  unfolding settle_if_current
  settle-stale s index id e v h = rw h (ground arith)

  is_id-some : (o : Option ℕ) (id : ℕ) → is_id o id ≡ true → o ≡ some id
  is_id-some none id h = absurd (cc)
  is_id-some (some x) id h = ground arith

  cleanup-queue :
      (s : Executor A) (index : ℕ) → (cleanup undefined s index).pending_queue ≡ s.pending_queue
  unfolding cleanup
  cleanup-queue s index = refl

  -- A callback finds the slot with its call, or does nothing.
  module _ {calls : List ℕ} {s : Executor A}
      (d : Sound undefined closed run batch_limit script calls s s.pending_queue) where
    -- What waits is not queued.
    not_queued :
        (index id : ℕ)
        → s.task_id index ≡ some id
        → (s.on_arg id ≡ some index) ⊎ (s.on_result id ≡ some index)
        → occurs index s.pending_queue ≡ 0
    not_queued index id t w =
        let before = d.phase.phase index in
        let own : index == index ≡ true = ground arith in
        let live = (born d.owned index id t).1 in
        let before' = rw (t, live) at before in
        elim w [
          | inl w ↦ ground (arith, before', ap (λ o. is_id o index) w)
          | inr w ↦ ground (arith, before', ap (λ o. is_id o index) w)
        ]

    -- The callback of the call that has the slot settles it.
    answered-Sound :
        (index id : ℕ) (e : Bool) (v : A) (on_arg' on_result' : ℕ → Option ℕ)
        → s.task_id index ≡ some id
        → (s.on_arg id ≡ some index) ⊎ (s.on_result id ≡ some index)
        → ((x : ℕ) → x ≢ id → on_arg' x ≡ s.on_arg x)
        → ((x : ℕ) → x ≢ id → on_result' x ≡ s.on_result x)
        → (on_arg' id ≡ s.on_arg id) ⊎ (on_arg' id ≡ none)
        → (on_result' id ≡ s.on_result id) ⊎ (on_result' id ≡ none)
        → answer run script id ≡ (e, v)
        → let s' =
            settle_if_current undefined
              (record s { on_arg = on_arg'; on_result = on_result' })
              index
              id
              e
              v in
          Sound undefined closed run batch_limit script calls s' s'.pending_queue
    answered-Sound index id e v on_arg' on_result' t w oa or' ia ir a =
        let s1 : Executor A = record s { on_arg = on_arg'; on_result = on_result' } in
        let settled : Executor A = record s1 { settled = (id, e, v) ∷ s.settled } in
        rw
          (settle-current undefined closed run batch_limit script s1 index id e v t
            (born d.owned index id t).1)
          (subst
            (Sound undefined closed run batch_limit script calls (cleanup undefined settled index))
            (sym (cleanup-queue settled index))
            (settled-Sound undefined closed run batch_limit script index id e v on_arg' on_result'
              s.pending_queue d t (λ i ne. refl) (not_queued index id t w) oa or' ia ir a))

    settle_arg-Sound :
        (index id : ℕ) (r : Arg A)
        → script.arg id ≡ r
        → s.on_arg id ≡ some index
        → let s' =
            settle_arg undefined run script
              (record s { on_arg = put s.on_arg id none })
              index
              id
              r in
          Sound undefined closed run batch_limit script calls s' s'.pending_queue
    unfolding arg_resolved arg_rejected enqueue_if_current enqueue
    settle_arg-Sound index id (value a) e w =
        absurd (ground (arith, ap is_promise e, d.phase.arg_born id index w))
    settle_arg-Sound index id (resolves p a) e w = elim (Bool-cases (is_id (s.task_id index) id)) [
      | inl c ↦
          let t = is_id-some (s.task_id index) id c in
          rw (c, (born d.owned index id t).1)
            (enqueued-Sound undefined closed run batch_limit script
              {s = record s { args = put s.args index a; on_arg = put s.on_arg id none }}
              (record {
                owned = d.owned;
                phase = arg_resolved-Phase script d.owned d.phase index id a w t (ap given e);
                accounted = d.accounted;
                answered = d.answered;
                room = d.room;
              }))
      | inr c ↦ rw c (record {
        owned = d.owned;
        phase = stale_arg-Phase script d.owned d.phase index id w c;
        accounted = d.accounted;
        answered = d.answered;
        room = d.room;
      })
    ]
    settle_arg-Sound index id (rejects p v) e w = elim (Bool-cases (is_id (s.task_id index) id)) [
      | inl c ↦
          answered-Sound index id true v (put s.on_arg id none) s.on_result
            (is_id-some (s.task_id index) id c) (inl w) (λ x ne. put_ne s.on_arg id x none ne)
            (λ x ne. refl) (inr (ground arith)) (inl refl) (ap (answer_to run script id) e)
      | inr c ↦
          rw (settle-stale (record s { on_arg = put s.on_arg id none }) index id true v c) (record {
            owned = d.owned;
            phase = stale_arg-Phase script d.owned d.phase index id w c;
            accounted = d.accounted;
            answered = d.answered;
            room = d.room;
          })
    ]

    pub result_settles-Sound :
        (index id : ℕ)
        → s.on_result id ≡ some index
        → let s' = result_settles undefined run script s index id in
          Sound undefined closed run batch_limit script calls s' s'.pending_queue
    result_settles-Sound index id w = elim (Bool-cases (is_id (s.task_id index) id)) [
      | inl c ↦
          answered-Sound index id (answer run script id).0 (answer run script id).1 s.on_arg
            (put s.on_result id none) (is_id-some (s.task_id index) id c) (inr w) (λ x ne. refl)
            (λ x ne. put_ne s.on_result id x none ne) (inl refl) (inr (ground arith)) refl
      | inr c ↦
          rw
            (settle-stale (record s { on_result = put s.on_result id none }) index id
              (answer run script id).0 (answer run script id).1 c)
            (record {
              owned = d.owned;
              phase = stale_result-Phase script d.owned d.phase index id w c;
              accounted = d.accounted;
              answered = d.answered;
              room = d.room;
            })
    ]

    pub arg_settles-Sound :
        (index id : ℕ)
        → s.on_arg id ≡ some index
        → let s' = arg_settles undefined run script s index id in
          Sound undefined closed run batch_limit script calls s' s'.pending_queue
    arg_settles-Sound index id w = settle_arg-Sound index id (script.arg id) refl w

    -- The shutdown rejects each call that has a slot.
    killed :
        (x n : ℕ) (out : List (ℕ × Bool × A))
        → occurs x (ids (reject_pending s closed n out))
          ≡ occurs x (ids out) + holding n s.task_id x
    unfolding reject_pending count
    killed x zero out = omega arith
    killed x (suc n) out = elim (Option-cases (s.task_id n)) [
      | inl t ↦ ground (arith, t, killed x n out)
      | inr (id, t) ↦ ground (arith, t, (born d.owned n id t).1, killed x n out)
    ]

    still-Answered :
        (out : List (ℕ × Bool × A))
        → Answered undefined closed run batch_limit script s.open_ out
        → Answered undefined closed run batch_limit script false out
    still-Answered [] h = tt
    still-Answered ((id, e, v) ∷ out) (inl a, h) = (inl a, still-Answered out h)
    still-Answered ((id, e, v) ∷ out) (inr (o, t, c), h) = (inr (refl, t, c), still-Answered out h)

    killed-Answered :
        (n : ℕ) (out : List (ℕ × Bool × A))
        → Answered undefined closed run batch_limit script false out
        → Answered undefined closed run batch_limit script false (reject_pending s closed n out)
    unfolding reject_pending
    killed-Answered zero out h = h
    killed-Answered (suc n) out h = elim (Option-cases (s.task_id n)) [
      | inl t ↦ rw (t, reject_pending) (killed-Answered n out h)
      | inr (id, t) ↦
          rw (t, (born d.owned n id t).1, reject_pending)
            (inr (refl, refl, refl), killed-Answered n out h)
    ]

    pub kills-Sound :
        Sound undefined closed run batch_limit script calls (kills undefined s closed) []
    unfolding kills
    kills-Sound = record {
      owned = record {
        below = λ i p. absurd (cc);
        live = λ i p. absurd (cc);
        dead = λ i p. refl;
        distinct = λ i j id t u. absurd (cc);
        counted = sym (count-of_none s.cap (λ i. false) (λ i lt. refl));
        stack = λ i. omega arith;
        stack_below = λ i p. absurd (omega arith);
      };
      phase = record {
        phase = λ i. refl;
        fns = λ i id t. absurd (cc);
        readied = λ i id t q. absurd (cc);
        arg_born = d.phase.arg_born;
        result_born = d.phase.result_born;
      };
      accounted = λ x. (
        omega (
          arith,
          d.accounted x,
          killed x s.cap s.settled,
          count-of_none s.cap (λ i. false) (λ i lt. refl),
        ),
        (d.accounted x).1,
        (d.accounted x).2,
      );
      answered = killed-Answered s.cap s.settled (still-Answered s.settled d.answered);
      room = d.room;
    }

  pub create-Sound :
      (counter : ℕ)
      → Sound undefined closed run batch_limit script []
          (create_inline_executor undefined counter)
          []
  unfolding create_inline_executor
  create-Sound counter = record {
    owned = record {
      below = λ i p. absurd (cc);
      live = λ i p. absurd (cc);
      dead = λ i p. refl;
      distinct = λ i j id t u. absurd (cc);
      counted = sym (count-of_none 16 (λ i. false) (λ i lt. refl));
      stack = λ i. ground (arith, occurs-range_from i 0 16);
      stack_below = λ i p. ground (arith, occurs-range_from i 0 16);
    };
    phase = record {
      phase = λ i. refl;
      fns = λ i id t. absurd (cc);
      readied = λ i id t q. absurd (cc);
      arg_born = λ id i h. absurd (cc);
      result_born = λ id i h. absurd (cc);
    };
    accounted = λ x. (
      omega (arith, count-of_none 16 (λ i. false) (λ i lt. refl)),
      omega arith,
      λ h. absurd (omega arith),
    );
    answered = tt;
    room = omega arith;
  }
