-- ===== src/Inline.antt =====
-- src/runtime/inline-executor.ts: the lane that runs calls on the host's own thread.
--
-- The typed arrays are functions of the index; what lies from `cap` on is never read. `free_stack`
-- has its top first. A call's deferred goes by the call's task id, and `settled` lists what was
-- settled, the last one first. The callbacks that wait on a promise are `on_arg` and `on_result`:
-- the index that the callback of a call has captured. `micros` counts the microtasks queued and
-- `messages` the messages on the way to `port1`. The runners are the parameter `run`: a runner does
-- not call back into the executor, and a promise that it returns comes to what `promised` says.
-- `undefined` and `closed` are the values that the source calls so ("Thread closed").
pub mod Runs
pub mod Phase
pub mod Sound
pub mod Calls
pub mod Callbacks
pub mod Wake
pub mod Steps
pub mod Delivery
mod Tests
use knitting.Base.{
  ℕ, zero, suc, ◌+◌, ◌-◌, ◌*◌, Bool, true, false, not, ◌&&◌, ◌||◌, List, [], ◌∷◌, ◌++◌, Option,
  none, some, ltb, leb, ◌==◌, if◌then◌else◌,
}
use knitting.Base.Maps.{put, is_id, range_from}

-- What a runner does: it returns, throws, or returns a promise that is rejected or not.
pub data Outcome (A : Type 0) : Type 0 where
  returned : A → Outcome A
  threw : A → Outcome A
  promised : Bool → A → Outcome A

pub record Executor (A : Type 0) : Type 0 where
  pub cap : ℕ
  pub fn_by_index : ℕ → ℕ
  pub pending : ℕ → Bool
  pub args : ℕ → A
  -- `none` is -1
  pub task_id : ℕ → Option ℕ
  pub free_stack : List ℕ
  pub pending_queue : List ℕ
  pub working : ℕ
  pub is_in_macro : Bool
  pub is_in_micro : Bool
  -- outside the executor
  pub counter : ℕ
  pub micros : ℕ
  pub messages : ℕ
  pub open_ : Bool
  pub on_arg : ℕ → Option ℕ
  pub on_result : ℕ → Option ℕ
  pub settled : List (ℕ × Bool × A)

module _ {A : Type 0} where
  pub has_pending : Executor A → Bool
  has_pending s = elim s.pending_queue [ [] ↦ false | _ ∷ _ ↦ true ]

  -- `post2(null)`; a closed port drops the message
  abbrev pub post : Executor A → Executor A
  post s = record s { messages = if s.open_ then s.messages + 1 else s.messages }

  pub schedule_macro : Executor A → Executor A
  schedule_macro s =
      if s.working == 0 || s.is_in_macro then s else post (record s { is_in_macro = true })

  -- The end of `processLoop`.
  pub after_loop : Executor A → Bool → Executor A
  after_loop s from_micro =
      if has_pending s
      then if from_micro then schedule_macro s else post s
      else if from_micro
      then s
      else record s { is_in_macro = false }

  pub send : Executor A → Executor A
  send s =
      if s.working == 0 || s.is_in_macro || s.is_in_micro
      then s
      else record s { is_in_micro = true; micros = s.micros + 1 }

  pub enqueue : Executor A → ℕ → Executor A
  enqueue s index = send (record s { pending_queue = s.pending_queue ++ index ∷ [] })

  -- `stateByIndex[index] === Pending && taskIdByIndex[index] === taskID`
  abbrev is_current : Executor A → ℕ → ℕ → Bool
  is_current s index id = s.pending index && is_id (s.task_id index) id

  pub enqueue_if_current : Executor A → ℕ → ℕ → Executor A
  enqueue_if_current s index id = if is_current s index id then enqueue s index else s

  -- The slot that `allocIndex` takes: the top of the stack, or the first of as many slots again.
  abbrev alloc_from : Executor A → List ℕ → ℕ × Executor A
  alloc_from s (index ∷ rest) = (index, record s { free_stack = rest })
  alloc_from s [] =
      (s.cap, record s { cap = s.cap * 2; free_stack = range_from (s.cap + 1) (s.cap - 1) })

  pub alloc_index : Executor A → ℕ × Executor A
  alloc_index s = alloc_from s s.free_stack

  -- `call`, up to the branch on a promise: the slot is filled.
  pub admit : Executor A → ℕ → A → ℕ × Executor A
  admit s fn arg =
      let (index, s1) = alloc_index s in
      (
        index,
        record s1 {
          counter = s1.counter + 1;
          task_id = put s1.task_id index (some s1.counter);
          args = put s1.args index arg;
          fn_by_index = put s1.fn_by_index index fn;
          pending = put s1.pending index true;
          working = s1.working + 1;
        },
      )

  pub call_value : Executor A → ℕ → A → Executor A
  call_value s fn arg = let (index, s1) = admit s fn arg in enqueue s1 index

  -- The argument is a promise, which stands in `args` until it is settled.
  pub call_promise : Executor A → ℕ → A → Executor A
  call_promise s fn promise =
      let (index, s1) = admit s fn promise in
      record s1 { on_arg = put s1.on_arg s.counter (some index) }

  -- The callbacks on an argument that is a promise.
  pub arg_resolved : Executor A → ℕ → ℕ → A → Executor A
  arg_resolved s index id value =
      if is_id (s.task_id index) id
      then enqueue_if_current (record s { args = put s.args index value }) index id
      else s

  -- The loop of `kills` over the slots below `n`.
  pub reject_pending : Executor A → A → ℕ → List (ℕ × Bool × A) → List (ℕ × Bool × A)
  reject_pending s closed zero out = out
  reject_pending s closed (suc n) out =
      let rest = reject_pending s closed n out in
      elim (s.task_id n) [
        | none ↦ rest
        | some id ↦ if s.pending n then (id, true, closed) ∷ rest else rest
      ]

module _ {A : Type 0} (undefined : A) where
  pub cleanup : Executor A → ℕ → Executor A
  cleanup s index = record s {
    working = s.working - 1;
    pending = put s.pending index false;
    fn_by_index = put s.fn_by_index index 0;
    task_id = put s.task_id index none;
    args = put s.args index undefined;
    free_stack = index ∷ s.free_stack;
    is_in_macro = if s.working - 1 == 0 then false else s.is_in_macro;
  }

  pub settle_if_current : Executor A → ℕ → ℕ → Bool → A → Executor A
  settle_if_current s index id is_error value =
      if is_current s index id
      then cleanup (record s { settled = (id, is_error, value) ∷ s.settled }) index
      else s

  -- `createInlineExecutor`, at the time of the task id `counter`
  pub create_inline_executor : ℕ → Executor A
  create_inline_executor counter = record {
    cap = 16;
    fn_by_index = λ i. 0;
    pending = λ i. false;
    args = λ i. undefined;
    task_id = λ i. none;
    free_stack = range_from 0 16;
    pending_queue = [];
    working = 0;
    is_in_macro = false;
    is_in_micro = false;
    counter = counter;
    micros = 0;
    messages = 0;
    open_ = true;
    on_arg = λ id. none;
    on_result = λ id. none;
    settled = [];
  }

  pub arg_rejected : Executor A → ℕ → ℕ → A → Executor A
  arg_rejected s index id value = settle_if_current s index id true value

  pub kills : Executor A → A → Executor A
  kills s closed = record s {
    settled = reject_pending s closed s.cap s.settled;
    open_ = false;
    messages = 0;
    pending_queue = [];
    free_stack = [];
    args = λ i. undefined;
    task_id = λ i. none;
    fn_by_index = λ i. 0;
    pending = λ i. false;
    working = 0;
    is_in_macro = false;
    is_in_micro = false;
  }

module _ {A : Type 0} (undefined : A) (run : ℕ → ℕ → A → Outcome A) (batch_limit : Option ℕ) where
  abbrev pub under_limit : ℕ → Bool
  under_limit processed = elim batch_limit [ none ↦ true | some limit ↦ ltb processed limit ]

  -- What `processLoop` does with what the runner of a slot gives.
  abbrev pub dispatch : Executor A → ℕ → ℕ → Outcome A → Executor A
  dispatch s index id (returned value) = settle_if_current undefined s index id false value
  dispatch s index id (threw err) = settle_if_current undefined s index id true err
  dispatch s index id (promised is_error value) = record s {
    on_result = put s.on_result id (some index);
  }

  -- `id` stands for the time of the run.
  pub run_slot : Executor A → ℕ → ℕ → Executor A
  run_slot s index id = dispatch s index id (run id (s.fn_by_index index) (s.args index))

  -- A round, and what it adds to `processed`: a slot that is not pending is skipped.
  pub round : Executor A → ℕ → Executor A × ℕ
  round s index = elim (s.task_id index) [
    | none ↦ (s, 0)
    | some id ↦ if s.pending index then (run_slot s index id, 1) else (s, 0)
  ]

  -- The loop of `processLoop` over what is queued.
  pub drain : Executor A → List ℕ → ℕ → Executor A
  drain s [] processed = record s { pending_queue = [] }
  drain s (index ∷ queue) processed =
      if under_limit processed
      then (let (s', k) = round s index in drain s' queue (processed + k))
      else record s { pending_queue = index ∷ queue }

  pub process_loop : Executor A → Bool → Executor A
  process_loop s from_micro = after_loop (drain s s.pending_queue 0) from_micro

  -- `runMicroLoop`, by `isInMicro`
  abbrev pub micro_loop : Bool → Executor A → Executor A
  micro_loop false s = s
  micro_loop true s = record (process_loop s true) { is_in_micro = false }

  pub run_micro_loop : Executor A → Executor A
  run_micro_loop s = micro_loop s.is_in_micro s
