-- ===== src/Inline/Runs.antt =====
-- src/runtime/inline-executor.ts: runs of the executor, with the event loop around it.
--
-- A script says of each call, by its task id, what it asks for: the function, and the argument, which
-- may be a promise. Tasks that are defined elsewhere take ids from the same counter (`tick`). The
-- event loop delivers what is queued, in any order.
use knitting.Base.{
  ℕ, ◌+◌, ◌-◌, ◌<◌, Bool, true, false, ◌≡◌, ◌⊎◌, refl, inl, inr, List, [], ◌∷◌, Option, none, some,
}
use knitting.Base.Maps.{put}
use knitting.Inline.{
  Outcome, returned, threw, promised, Executor, settle_if_current, create_inline_executor,
  call_value, call_promise, arg_resolved, arg_rejected, kills, process_loop, run_micro_loop,
}

-- A value, or a promise `p` with what it comes to.
pub data Arg (A : Type 0) : Type 0 where
  value : A → Arg A
  resolves : A → A → Arg A
  rejects : A → A → Arg A

pub record Script (A : Type 0) : Type 0 where
  pub fn : ℕ → ℕ
  pub arg : ℕ → Arg A

module _ {A : Type 0} where
  -- The argument that the runner is to get.
  abbrev pub given : Arg A → Option A
  given (value a) = some a
  given (resolves p a) = some a
  given (rejects p e) = none

  abbrev pub outcome : Outcome A → Bool × A
  outcome (returned v) = (false, v)
  outcome (threw e) = (true, e)
  outcome (promised is_error v) = (is_error, v)

  pub Outcome-cases :
      (o : Outcome A)
      → ((v : A) × (o ≡ returned v))
        ⊎ ((v : A) × (o ≡ threw v))
        ⊎ ((e : Bool) × (v : A) × (o ≡ promised e v))
  Outcome-cases (returned v) = inl (v, refl)
  Outcome-cases (threw v) = inr (inl (v, refl))
  Outcome-cases (promised e v) = inr (inr (e, v, refl))

  abbrev pub is_promise : Arg A → Bool
  is_promise (value a) = false
  is_promise (resolves p a) = true
  is_promise (rejects p e) = true

module _ {A : Type 0} (run : ℕ → ℕ → A → Outcome A) (script : Script A) where
  abbrev pub answer_to : ℕ → Arg A → Bool × A
  answer_to id (value a) = outcome (run id (script.fn id) a)
  answer_to id (resolves p a) = outcome (run id (script.fn id) a)
  answer_to id (rejects p e) = (true, e)

  -- What the call `id` is to be answered: its own function, on its own argument.
  abbrev pub answer : ℕ → Bool × A
  answer id = answer_to id (script.arg id)

module _ {A : Type 0} (script : Script A) where
  abbrev pub call_with : Executor A → Arg A → Executor A
  call_with s (value a) = call_value s (script.fn s.counter) a
  call_with s (resolves p a) = call_promise s (script.fn s.counter) p
  call_with s (rejects p e) = call_promise s (script.fn s.counter) p

  abbrev pub call : Executor A → Executor A
  call s = call_with s (script.arg s.counter)

module _ {A : Type 0} (undefined : A) (run : ℕ → ℕ → A → Outcome A) (script : Script A) where
  abbrev pub settle_arg : Executor A → ℕ → ℕ → Arg A → Executor A
  settle_arg s index id (value a) = s
  settle_arg s index id (resolves p a) = arg_resolved s index id a
  settle_arg s index id (rejects p e) = arg_rejected undefined s index id e

  -- The callback on the argument of the call `id` runs.
  abbrev pub arg_settles : Executor A → ℕ → ℕ → Executor A
  arg_settles s index id =
      settle_arg (record s { on_arg = put s.on_arg id none }) index id (script.arg id)

  -- The callback on the result of the call `id` runs.
  abbrev pub result_settles : Executor A → ℕ → ℕ → Executor A
  result_settles s index id =
      settle_if_current undefined (record s { on_result = put s.on_result id none }) index id
        (answer run script id).0 (answer run script id).1

module _ {A : Type 0} (undefined closed : A) (run : ℕ → ℕ → A → Outcome A) (batch_limit : Option ℕ)
    (script : Script A) where
  pub data Step (s : Executor A) : Executor A → Type 0 where
    tick : Step s (record s { counter = s.counter + 1 })
    arg :
        (id index : ℕ)
        → s.on_arg id ≡ some index
        → Step s (arg_settles undefined run script s index id)
    result :
        (id index : ℕ)
        → s.on_result id ≡ some index
        → Step s (result_settles undefined run script s index id)
    micro :
        0 < s.micros
        → Step s (run_micro_loop undefined run batch_limit (record s { micros = s.micros - 1 }))
    message :
        0 < s.messages
        → Step s
            (process_loop undefined run batch_limit (record s { messages = s.messages - 1 }) false)
    kill : Step s (kills undefined s closed)

  -- Runs, with the ids of the calls made, the last one first.
  pub data Reach : List ℕ → Executor A → Type 0 where
    start : (counter : ℕ) → Reach [] (create_inline_executor undefined counter)
    called :
        {calls : List ℕ} {s : Executor A}
        → Reach calls s
        → Reach (s.counter ∷ calls) (call script s)
    later : {calls : List ℕ} {s s' : Executor A} → Reach calls s → Step s s' → Reach calls s'
