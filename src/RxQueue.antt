-- ===== src/RxQueue.antt =====
-- src/worker/rx-queue.ts: `createWorkerRxQueue`, the worker's queue of tasks and of results.
--
-- The ring queues are lists, their front first. A slot is a task with its value; for the statements
-- it also has the number of its arrival, and what arrived. `waiting` has the callbacks on the
-- promises of results that are out, with what they come to, and `sent` what the host gets of each
-- task, the last one first. Runners are the parameter `run`, by the function's index; `value_of` is
-- the value that a header is decoded to. `encode_task` is the codec of results: what it does with the
-- value and the header of a task. It does not throw: in a worker `encoderError` of src/error.ts
-- reports each failure in the task. Finalizers are left out.
mod Codec
pub mod Runs
mod Sound
mod Steps
pub mod Delivery
mod Tests
use knitting.Base.{
  ℕ, zero, suc, ◌+◌, ◌-◌, bit_and, Bool, true, false, not, ◌&&◌, ◌||◌, List, [], ◌∷◌, ◌++◌, Option,
  none, some, ltb, ◌==◌, if◌then◌else◌, length,
}
use knitting.Header.{Task}
use knitting.Base.Lanes.{not_w, ◌^w◌, is_zero, lead}
use knitting.Lock.{Lock, ensure_free, encode}
use knitting.Lock.Receive.{Answer, nothing, decoded, failed, decode}
use knitting.Inline.{Outcome, returned, threw, promised}

pub record Slot (A : Type 0) : Type 0 where
  pub task : Task
  pub value : A
  pub id : ℕ
  pub job : Task
  pub args : A

pub record RxQueue (A : Type 0) : Type 0 where
  pub to_work : List (Slot A)
  pub pending_frames : List (Slot A)
  pub has_anything_finished : ℕ
  pub awaiting : ℕ
  pub lock : Lock
  pub return_lock : Lock
  pub waiting : List (Slot A × Bool × A)
  pub received : ℕ
  pub sent : List (Slot A × Bool)

module _ {A : Type 0} where
  abbrev pub create_worker_rx_queue : Lock → Lock → RxQueue A
  create_worker_rx_queue lock return_lock = record {
    to_work = [];
    pending_frames = [];
    has_anything_finished = 0;
    awaiting = 0;
    lock = lock;
    return_lock = return_lock;
    waiting = [];
    received = 0;
    sent = [];
  }

  abbrev pub is_empty : List (Slot A) → Bool
  is_empty [] = true
  is_empty (x ∷ xs) = false

  -- `hasCompleted`
  abbrev pub has_completed : Bool → RxQueue A → Bool
  has_completed resolve_after_finishing_all s =
      not (s.has_anything_finished == 0) && (not resolve_after_finishing_all || is_empty s.to_work)

-- What `encodeTask` does in a worker: the payload is written, there is no room for it, or the codec
-- cannot encode the value, and `encoderError` gives the reason.
pub data Encoded (A : Type 0) : Type 0 where
  written full : Task → Encoded A
  rejected : (task : Task) (reason : A) → Encoded A

module _ {A : Type 0} where
  -- The answer of `encodeTask`, with the header after it; `encoderError` makes it a rejection.
  abbrev pub encode_answer : Encoded A → Bool × Task
  encode_answer (written task) = (true, task)
  encode_answer (full task) = (false, task)
  encode_answer (rejected task reason) = (false, record task { flags_to_host = 1 })

  -- `task.value` after it.
  abbrev left_value : A → Encoded A → A
  left_value value (written task) = value
  left_value value (full task) = value
  left_value value (rejected task reason) = reason

-- The lane that `encode` tries, if one is free.
abbrev tried_lane : Lock → Option ℕ
tried_lane l =
    let (state, l1) = ensure_free l (l.last_local ^w l.worker_shadow) in
    if is_zero (not_w state) then none else lead (not_w state)

module _ {A : Type 0} (encode_task : A → Task → ℕ → Encoded A) where
  abbrev value_at : Option ℕ → A → Task → A
  value_at none value task = value
  value_at (some at) value task = left_value value (encode_task value task at)

  -- `task.value` after `encode`.
  abbrev pub value_after : Lock → A → Task → A
  value_after l value task = value_at (tried_lane l) value task

module _ {A : Type 0} (null : A) (value_of : Task → A) (decode_task : Task → ℕ → Option Task)
    (encode_task : A → Task → ℕ → Encoded A) (run : ℕ → Task → A → Outcome A) where
  -- Decoded tasks move to the queue of work, in order, with the numbers from `n` on.
  abbrev pub arrive : ℕ → List Task → List (Slot A)
  arrive n [] = []
  arrive n (t ∷ ts) =
      record { task = t; value = value_of t; id = n; job = t; args = value_of t }
      ∷ arrive (n + 1) ts

  -- What `decode` has answered, and the lock after it.
  abbrev pub claim : RxQueue A → Answer → Lock → Answer × RxQueue A
  claim s nothing lock = (nothing, record s { lock = lock })
  claim s failed lock = (failed, record s { lock = lock })
  claim s decoded lock = (
    decoded,
    record s {
      lock = record lock { resolved = [] };
      to_work = s.to_work ++ arrive s.received lock.resolved;
      received = s.received + length lock.resolved;
    },
  )

  pub enqueue_lock : Bool → RxQueue A → Answer × RxQueue A
  enqueue_lock stealing s =
      if stealing && not (is_empty s.to_work)
      then (nothing, s)
      else let (answer, lock) = decode decode_task s.lock in claim s answer lock

  abbrev pub flagged : Slot A → Bool → Task
  flagged slot should_reject = record slot.task { flags_to_host = if should_reject then 1 else 0 }

  -- Whether the frame was sent, the slot after it, and the queue.
  pub send_return : RxQueue A → Slot A → Bool → Bool × Slot A × RxQueue A
  send_return s slot should_reject =
      let asked = flagged slot should_reject in
      let (ok, task, lock) =
        encode (λ t at. encode_answer (encode_task slot.value t at)) s.return_lock asked in
      if ok
      then (
        true,
        record slot { task = task },
        record s {
          return_lock = lock;
          has_anything_finished = s.has_anything_finished - 1;
          sent = (record slot { task = task }, should_reject) ∷ s.sent;
        },
      )
      else (
        false,
        record slot { task = task; value = value_after encode_task s.return_lock slot.value asked },
        record s { return_lock = lock },
      )

  pub settle_now : RxQueue A → Slot A → Bool → A → Bool → RxQueue A
  settle_now s slot is_error value was_awaited =
      let s1 = record s {
        has_anything_finished = s.has_anything_finished + 1;
        awaiting = if was_awaited && ltb 0 s.awaiting then s.awaiting - 1 else s.awaiting;
      } in
      let (ok, slot', s2) =
        send_return s1 (record slot { value = value })
          (is_error || (slot.task.flags_to_host == 1)) in
      if ok then s2 else record s2 { pending_frames = s2.pending_frames ++ slot' ∷ [] }

  pub write_one : RxQueue A → Bool × RxQueue A
  write_one s = elim s.pending_frames [
    | [] ↦ (false, s)
    | slot ∷ rest ↦
        let (ok, slot', s1) =
          send_return (record s { pending_frames = rest }) slot (slot.task.flags_to_host == 1) in
        if ok then (true, s1) else (false, record s1 { pending_frames = slot' ∷ s1.pending_frames })
  ]

  -- `writeBatch(max)`
  pub write_batch : ℕ → RxQueue A → ℕ × RxQueue A
  write_batch zero s = (0, s)
  write_batch (suc n) s =
      let (ok, s1) = write_one s in
      let rest = write_batch n s1 in if ok then (suc rest.0, rest.1) else (0, s1)

  -- The slot once its runner has returned.
  abbrev pub ran : Slot A → Slot A
  ran slot = record slot { task = record slot.task { flags_to_host = 0 }; value = null }

  pub service : RxQueue A → Slot A → RxQueue A
  service s slot = elim (run (bit_and slot.task.flags_to_host 0xFFFF) slot.task slot.value) [
    | returned v ↦ settle_now s (ran slot) false v false
    | threw e ↦ settle_now s slot true e false
    | promised is_error v ↦ record s {
      awaiting = s.awaiting + 1;
      waiting = s.waiting ++ (ran slot, is_error, v) ∷ [];
    }
  ]

  -- The loop of `serviceBatchImmediate`, with `n` tasks left of its five.
  pub service_batch : ℕ → RxQueue A → ℕ × RxQueue A
  service_batch zero s = (0, s)
  service_batch (suc n) s = elim s.to_work [
    | [] ↦ (0, s)
    | slot ∷ rest ↦
        let (k, s1) = service_batch n (service (record s { to_work = rest }) slot) in (suc k, s1)
  ]

  pub service_batch_immediate : RxQueue A → ℕ × RxQueue A
  service_batch_immediate s = service_batch 5 s
