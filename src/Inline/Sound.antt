-- ===== src/Inline/Sound.antt =====
-- src/runtime/inline-executor.ts: what each operation of the executor keeps.
use knitting.Base.{
  ℕ, ◌+◌, ◌<◌, ◌≤◌, Bool, true, false, ◌≡◌, ◌≢◌, ◌⊎◌, refl, ap, sym, ◌∙◌, List, [], ◌∷◌, Option,
  none, some, arith, ◌==◌, Bool-cases, inl, inr,
}
use knitting.Base.Maps.{is_id, one_if, occurs}
use knitting.Inline.{
  Outcome, Executor, cleanup, settle_if_current, run_slot, round, under_limit, drain,
}
use knitting.Base.Slots.{Owned, holding, born, cleanup-Owned, holding-put}
use knitting.Inline.Runs.{
  Arg, value, resolves, rejects, Script, given, outcome, Outcome-cases, answer_to, answer,
}
use knitting.Inline.Phase.{Phase, promise-Phase, cleanup-Phase}

module _ {A : Type 0} where
  -- The calls that have been settled.
  abbrev pub ids : List (ℕ × Bool × A) → List ℕ
  ids [] = []
  ids ((id, e, v) ∷ rest) = id ∷ ids rest

  module _ (undefined closed : A) (run : ℕ → ℕ → A → Outcome A) (batch_limit : Option ℕ)
      (script : Script A) where
    -- Each call is settled as it is to be; only a shutdown settles otherwise.
    abbrev pub Answered : Bool → List (ℕ × Bool × A) → Type 0
    Answered open_ [] = Unit {0}
    Answered open_ ((id, e, v) ∷ rest) =
        ((answer run script id ≡ (e, v)) ⊎ ((open_ ≡ false) × (e ≡ true) × (v ≡ closed)))
        × Answered open_ rest

    pub record Sound (calls : List ℕ) (s : Executor A) (queue : List ℕ) : Type 0 where
      pub owned : Owned s.cap s.pending s.task_id s.counter s.working s.free_stack
      pub phase :
          Phase script s.pending s.task_id s.counter s.fn_by_index s.args s.on_arg s.on_result queue
      -- a call has been settled, or it holds a slot; and its id is its own
      pub accounted :
          (x : ℕ)
          → (occurs x calls ≡ occurs x (ids s.settled) + holding s.cap s.task_id x)
            × (occurs x calls ≤ 1)
            × (0 < occurs x calls → x < s.counter)
      pub answered : Answered s.open_ s.settled
      pub room : 0 < s.cap

    pub settled-Sound :
        {calls : List ℕ} {s : Executor A} {queue : List ℕ} (index id : ℕ) (e : Bool) (v : A)
        (on_arg' on_result' : ℕ → Option ℕ) (rest : List ℕ)
        → Sound calls s queue
        → s.task_id index ≡ some id
        → ((i : ℕ) → i ≢ index → occurs i rest ≡ occurs i queue)
        → occurs index rest ≡ 0
        → ((x : ℕ) → x ≢ id → on_arg' x ≡ s.on_arg x)
        → ((x : ℕ) → x ≢ id → on_result' x ≡ s.on_result x)
        → (on_arg' id ≡ s.on_arg id) ⊎ (on_arg' id ≡ none)
        → (on_result' id ≡ s.on_result id) ⊎ (on_result' id ≡ none)
        → answer run script id ≡ (e, v)
        → Sound calls
            (cleanup undefined
              (record s {
                on_arg = on_arg';
                on_result = on_result';
                settled = (id, e, v) ∷ s.settled;
              })
              index)
            rest
    unfolding cleanup
    settled-Sound {calls} {s} index id e v oa' or' rest d t others absent oa or_ ia ir a =
        let (lt, live) = born d.owned index id t in
        let inside = d.owned.below index live in
        record {
          owned = cleanup-Owned d.owned index live;
          phase =
              cleanup-Phase script d.owned d.phase index id undefined oa' or' rest t others absent
                oa or_ ia ir;
          accounted = λ x. (
            omega (
              arith,
              d.accounted x,
              holding-put s.cap s.task_id index none x inside,
              ap (λ o. one_if (is_id o x)) t,
            ),
            (d.accounted x).1,
            (d.accounted x).2,
          );
          answered = (inl a, d.answered);
          room = d.room;
        }

    pub settle-current :
        (s : Executor A) (index id : ℕ) (e : Bool) (v : A)
        → s.task_id index ≡ some id
        → s.pending index ≡ true
        → settle_if_current undefined s index id e v
          ≡ cleanup undefined (record s { settled = (id, e, v) ∷ s.settled }) index
    unfolding settle_if_current
    settle-current s index id e v t live = rw (t, live) (ground arith)

    round-live :
        (s : Executor A) (index id : ℕ)
        → s.task_id index ≡ some id
        → s.pending index ≡ true
        → round undefined run batch_limit s index
          ≡ (run_slot undefined run batch_limit s index id, 1)
    unfolding round
    round-live s index id t live = ground arith

    answer_to-given :
        (id : ℕ) (r : Arg A) (a : A)
        → given r ≡ some a
        → answer_to run script id r ≡ outcome (run id (script.fn id) a)
    answer_to-given id (value b) a g = ap (λ b. outcome (run id (script.fn id) b)) (ground arith)
    answer_to-given id (resolves p b) a g =
        ap (λ b. outcome (run id (script.fn id) b)) (ground arith)
    answer_to-given id (rejects p b) a g = absurd (cc)

    round-Sound :
        {calls : List ℕ} {s : Executor A} (index : ℕ) (rest : List ℕ)
        → Sound calls s (index ∷ rest)
        → Sound calls (round undefined run batch_limit s index).0 rest
    unfolding run_slot
    round-Sound {calls} {s} index rest d =
        let queued = d.phase.phase index in
        let own : index == index ≡ true = ground arith in
        let live : s.pending index ≡ true = ground arith in
        let (id, t, lt) = d.owned.live index live in
        let quiet : is_id (s.on_arg id) index ≡ false =
          let queued' = rw (t, live) at queued in ground arith in
        let absent : occurs index rest ≡ 0 = ground arith in
        let others : (i : ℕ) → i ≢ index → occurs i rest ≡ occurs i (index ∷ rest) =
          λ i ne. ground arith in
        let correct : answer run script id ≡ outcome (run id (s.fn_by_index index) (s.args index)) =
          answer_to-given id (script.arg id) (s.args index) (d.phase.readied index id t quiet)
          ∙ ap (λ fn. outcome (run id fn (s.args index))) (sym (d.phase.fns index id t)) in
        let settles = λ (e : Bool) (v : A).
          settled-Sound index id e v s.on_arg s.on_result rest d t others absent (λ x ne. refl)
            (λ x ne. refl) (inl refl) (inl refl) in
        rw (round-live s index id t live)
          (elim (Outcome-cases (run id (s.fn_by_index index) (s.args index))) [
            | inl (v, o) ↦
                rw (o, settle-current s index id false v t live)
                  (settles false v (correct ∙ ap outcome o))
            | inr (inl (v, o)) ↦
                rw (o, settle-current s index id true v t live)
                  (settles true v (correct ∙ ap outcome o))
            | inr (inr (e, v, o)) ↦ rw o (record {
              owned = d.owned;
              phase = promise-Phase script d.owned d.phase index id rest t refl;
              accounted = d.accounted;
              answered = d.answered;
              room = d.room;
            })
          ])

    pub drain-Sound :
        {calls : List ℕ} (s : Executor A) (queue : List ℕ) (processed : ℕ)
        → Sound calls s queue
        → let s' = drain undefined run batch_limit s queue processed in
          Sound calls s' s'.pending_queue
    unfolding drain
    drain-Sound s [] processed d = record {
      owned = d.owned;
      phase = d.phase;
      accounted = d.accounted;
      answered = d.answered;
      room = d.room;
    }
    drain-Sound s (index ∷ queue) processed d =
        elim (Bool-cases (under_limit undefined run batch_limit processed)) [
          | inl e ↦ rw e (
              drain-Sound (round undefined run batch_limit s index).0 queue
                (processed + (round undefined run batch_limit s index).1)
                (round-Sound index queue d))
          | inr e ↦ rw e (record {
            owned = d.owned;
            phase = d.phase;
            accounted = d.accounted;
            answered = d.answered;
            room = d.room;
          })
        ]
