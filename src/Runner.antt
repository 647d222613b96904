-- ===== src/Runner.antt =====
-- src/worker/composable-runners.ts and src/worker/task-loader.ts: how a worker runs one task, with
-- its abort signal and its timeout.
--
-- Times are whole milliseconds: `now` is `Math.floor(now())`, where `now` is the worker's own
-- `performance.now`, since src/worker/loop.ts passes no other; the host stamps a task by its own. A toolkit is the signal that it asks
-- about. The job is a parameter; a promise comes to what `promised` says of it.
pub mod Calls
pub mod Timer
mod Tests
use knitting.Base.{
  ℕ, zero, suc, ◌+◌, ◌-◌, ◌%◌, ◌^◌, bit_and, Bool, true, false, not, List, [], ◌∷◌, Option, none,
  some, max, ltb, ◌==◌, if◌then◌else◌,
}
use knitting.Header.{Task, get_function_meta, get_slot_meta}
use knitting.Inline.{Outcome, returned, threw, promised}

-- Kind 1, `TimeoutKind.Resolve`, is the flag.
pub record TimeoutSpec (A : Type 0) : Type 0 where
  pub ms : ℕ
  pub resolves : Bool
  pub value : A

-- `TaskTimeout`; a time is none where its floor is negative or not a number. The fields of the
-- object form are those that it has.
pub data TaskTimeout (A : Type 0) : Type 0 where
  number : Option ℕ → TaskTimeout A
  object : (time : Option ℕ) (default : Option A) (maybe : Bool) (error : Option A) → TaskTimeout A

module _ {A : Type 0} (undefined timed_out : A) where
  -- The last three tests of `normalizeTimeout`
  abbrev with_error : ℕ → Option A → TimeoutSpec A
  with_error ms none = record { ms = ms; resolves = false; value = timed_out }
  with_error ms (some e) = record { ms = ms; resolves = false; value = e }

  abbrev with_default : ℕ → Option A → Bool → Option A → TimeoutSpec A
  with_default ms (some v) maybe error = record { ms = ms; resolves = true; value = v }
  with_default ms none true error = record { ms = ms; resolves = true; value = undefined }
  with_default ms none false error = with_error ms error

  abbrev normalize_timeout : Option (TaskTimeout A) → Option (TimeoutSpec A)
  normalize_timeout none = none
  normalize_timeout (some (number none)) = none
  normalize_timeout (some (number (some ms))) =
      some (record { ms = ms; resolves = false; value = timed_out })
  normalize_timeout (some (object none default maybe error)) = none
  normalize_timeout (some (object (some ms) default maybe error)) =
      some (with_default ms default maybe error)

abbrev pub now_stamp : ℕ → ℕ
now_stamp now = bit_and (now % 2 ^ 32) 0x7FFFFFF

-- The time since the stamp, on 27 bits
abbrev pub elapsed : ℕ → Task → ℕ
elapsed now slot = bit_and ((now_stamp now + 2 ^ 32 - get_slot_meta slot) % 2 ^ 32) 0x7FFFFFF

-- `none` is `NO_ABORT_SIGNAL`
abbrev pub read_signal : Task → Option ℕ
read_signal slot =
    let encoded = get_function_meta slot in if encoded == 0 then none else some (encoded - 1)

-- What a runner gives: what the job did, a promise that is settled already, an error or not, or
-- a promise with a timer: `raced` has the delay, what the timer settles with, and what the job's
-- promise does.
pub data Ran (A : Type 0) : Type 0 where
  ran : Outcome A → Ran A
  expired : (is_error : Bool) (value : A) → Ran A
  raced : (ms : ℕ) (is_error : Bool) (value : A) (job_error : Bool) (job_value : A) → Ran A

module _ {A : Type 0} where
  abbrev pub apply_timeout_budget : Bool → A → Task → TimeoutSpec A → ℕ → Ran A
  apply_timeout_budget job_error job_value slot spec now =
      if not (ltb (elapsed now slot) spec.ms)
      then expired (not spec.resolves) spec.value
      else raced (max 1 (spec.ms - elapsed now slot)) (not spec.resolves) spec.value job_error
          job_value

  abbrev with_timeout : Option (TimeoutSpec A) → Task → ℕ → Outcome A → Ran A
  with_timeout none slot now result = ran result
  with_timeout (some spec) slot now (returned v) = ran (returned v)
  with_timeout (some spec) slot now (threw e) = ran (threw e)
  with_timeout (some spec) slot now (promised is_error v) =
      apply_timeout_budget is_error v slot spec now

  -- `composeWorkerRunner`; `aborts` is whether there is a `hasAborted`. `now` is the time when the
  -- job has returned.
  abbrev compose_worker_runner :
      (A → Option ℕ → Outcome A) → Option (TimeoutSpec A) → Bool → ℕ → Task → A → Ran A
  compose_worker_runner job timeout aborts now slot value =
      with_timeout timeout slot now (job value (if aborts then read_signal slot else none))

-- `raceTimeout`: the timer may still fire while it is armed.
pub record Race (A : Type 0) : Type 0 where
  pub done : Bool
  pub armed : Bool
  pub settled : List (Bool × A)

module _ {A : Type 0} where
  abbrev pub start_race : Race A
  start_race = record { done = false; armed = true; settled = [] }

  abbrev pub timer_fires : Bool → A → Race A → Race A
  timer_fires is_error v r =
      if not r.armed
      then r
      else if r.done
      then record r { armed = false }
      else record { done = true; armed = false; settled = (is_error, v) ∷ r.settled }

  abbrev pub promise_settles : Bool → A → Race A → Race A
  promise_settles is_error v r =
      if r.done
      then r
      else record { done = true; armed = false; settled = (is_error, v) ∷ r.settled }
