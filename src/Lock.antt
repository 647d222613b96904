-- ===== src/Lock.antt =====
-- src/memory/lock.ts: the queue of 32 lanes between a sender and a receiver, `lock2`.
--
-- The state joins what the two endpoints share (the words and the headers) with what each keeps.
-- A header is addressed by its lane. The queue of tasks to be sent, a `RingQueue`, is the list that
-- it holds. `selectedSlotIndex` and `selectedSlotBit` are scratch. The payload codec is registered
-- at run time and is a parameter: `encode_task` returns the task that it leaves, `decode_task`
-- returns `none` where it throws.
pub mod Receive
pub mod Queue
pub mod Lanes
pub mod Exactly
pub mod Drain
pub mod Runs
pub mod Batch
mod Agree
pub mod Taken
pub mod Host
mod Tests
use knitting.Base.{
  ℕ, zero, suc, ◌+◌, Bool, true, false, not, ◌||◌, List, [], ◌∷◌, ◌++◌, Option, none, some,
  if◌then◌else◌, ◌==◌, length,
}
use knitting.Base.Lanes.{Word, zeros, bit, not_w, ◌&◌, ◌∣w◌, ◌^w◌, is_zero, lead}
use knitting.Header.{Task, fill_from, has_flag, is_promise_pending, tracked_flag}

pub record Lock : Type 0 where
  -- shared
  pub host_bits : Word
  pub worker_bits : Word
  pub headers : ℕ → Task
  -- the sender's
  pub last_local : Word
  pub worker_shadow : Word
  pub to_be_sent : List Task
  pub deferred : ℕ
  pub pending_promises : ℕ
  -- the receiver's; `last_take` is 32 before the first task
  pub last_worker : Word
  pub last_take : ℕ
  pub resolved : List Task

abbrev pub start : (ℕ → Task) → Lock
start headers = record {
  host_bits = zeros;
  worker_bits = zeros;
  headers = headers;
  last_local = zeros;
  worker_shadow = zeros;
  to_be_sent = [];
  deferred = 0;
  pending_promises = 0;
  last_worker = zeros;
  last_take = 32;
  resolved = [];
}

-- `ensureSenderStateHasFree`: the state is read again only where it shows no free lane.
unfoldable pub ensure_free : Lock → Word → Word × Lock
ensure_free l state =
    if is_zero (not_w state)
    then (l.last_local ^w l.worker_bits, record l { worker_shadow = l.worker_bits })
    else (state, l)

unfoldable pub store_host : Lock → Word → Lock
store_host l b = record l { last_local = l.last_local ^w b; host_bits = l.last_local ^w b }

unfoldable pub store_worker : Lock → Word → Lock
store_worker l b = record l { last_worker = l.last_worker ^w b; worker_bits = l.last_worker ^w b }

-- The header words 0 to 6, and 0 for word 7.
abbrev pub put_header : (ℕ → Task) → ℕ → Task → ℕ → Task
put_header h at task i = if i == at then fill_from task else h i

unfoldable pub encode_at : Lock → Task → ℕ → Lock
encode_at l task at = store_host (record l { headers = put_header l.headers at task }) (bit at)

abbrev pub is_some : Option ℕ → Bool
is_some none = false
is_some (some _) = true

-- `trackDeferredTask`
pub track_deferred : Lock → Task → Task × Lock
track_deferred l task = if has_flag task tracked_flag then (task, l) else (
  record task { local = task.local ∣w bit tracked_flag },
  record l { pending_promises = l.pending_promises + 1 },
)

module _ (encode_task : Task → ℕ → Bool × Task) where
  -- The highest free lane; `none` is the bit 0.
  unfoldable pub encode_with_state : Lock → Task → Word → Option ℕ × Task × Lock
  encode_with_state l task state =
      if is_zero (not_w state) then (none, task, l) else elim (lead (not_w state)) [
        | none ↦ (none, task, l)
        | some at ↦
            let (ok, task') = encode_task task at in
            if ok then (some at, task', encode_at l task' at) else (none, task', l)
      ]

  -- The loop of `encodeManyFrom` over the tasks of a list: how many were sent, and what is left.
  encode_many : Lock → List Task → Word → ℕ × List Task × Lock
  encode_many l [] state = (0, [], l)
  encode_many l (task ∷ list) state =
      let (state1, l1) = ensure_free l state in
      let (lane, task', l2) = encode_with_state l1 task state1 in
      elim lane [
        | none ↦ (0, task' ∷ list, l2)
        | some at ↦ let (n, rest, l3) = encode_many l2 list (state1 ^w bit at) in (suc n, rest, l3)
      ]

  encode_many_from : Lock → List Task → ℕ × List Task × Lock
  encode_many_from l list =
      let (state, l1) = ensure_free l (l.last_local ^w l.worker_shadow) in encode_many l1 list state

  -- The loop of `encodeManyTrackedFrom`: a task whose payload waits for a promise leaves the list
  -- and is counted.
  pub encode_many_tracked : Lock → List Task → Word → ℕ × List Task × Lock
  encode_many_tracked l [] state = (0, [], l)
  encode_many_tracked l (task ∷ list) state =
      let (state1, l1) = ensure_free l state in
      let (lane, task', l2) = encode_with_state l1 task state1 in
      elim lane [
        | none ↦ elim (is_promise_pending task') [
          | true ↦
              let l3 = (track_deferred (record l2 { deferred = l2.deferred + 1 }) task').1 in
              encode_many_tracked l3 list state1
          | false ↦ (0, task' ∷ list, l2)
        ]
        | some at ↦
            let (n, rest, l3) = encode_many_tracked l2 list (state1 ^w bit at) in (suc n, rest, l3)
      ]

  pub encode_many_tracked_from : Lock → List Task → ℕ × List Task × Lock
  encode_many_tracked_from l list =
      let (state, l1) = ensure_free l (l.last_local ^w l.worker_shadow) in
      encode_many_tracked (record l1 { deferred = 0 }) list state

  encode_all : Lock → Bool × Lock
  encode_all l =
      if length l.to_be_sent == 0
      then (true, l)
      else let (n, rest, l1) = encode_many_tracked_from l l.to_be_sent in
        (length rest == 0, record l1 { to_be_sent = rest; deferred = 0 })

  -- `encode`, with its default state
  unfoldable pub encode : Lock → Task → Bool × Task × Lock
  encode l task =
      let (state, l1) = ensure_free l (l.last_local ^w l.worker_shadow) in
      let (lane, task', l2) = encode_with_state l1 task state in (is_some lane, task', l2)

  pub encode_tracked : Lock → Task → Bool × Task × Lock
  encode_tracked l task =
      let (state, l1) = ensure_free (record l { deferred = 0 }) (l.last_local ^w l.worker_shadow) in
      if is_zero (not_w state)
      then (false, task, l1)
      else let (lane, task', l2) = encode_with_state l1 task state in
        elim lane [
          | some _ ↦ (true, task', l2)
          | none ↦
              let (task3, l3) = track_deferred (record l2 { deferred = 1 }) task' in
              if is_promise_pending task' then (false, task3, l3) else (false, task', l2)
        ]

  pub publish : Lock → Task → Bool × Lock
  publish l task =
      let (ok, task', l1) = encode_tracked l task in
      if ok
      then (true, l1)
      else if not (l1.deferred == 0)
      then (false, record l1 { deferred = 0 })
      else (false, record l1 { to_be_sent = l1.to_be_sent ++ task' ∷ [] })

  pub flush_pending : Lock → Bool × Lock
  flush_pending l =
      if length l.to_be_sent == 0
      then (false, l)
      else let (n, rest, l1) = encode_many_tracked_from l l.to_be_sent in
        (not (n == 0), record l1 { to_be_sent = rest; deferred = 0 })

enlist : Lock → Task → Lock
enlist l task = record l { to_be_sent = l.to_be_sent ++ task ∷ [] }

pub reset_pending : Lock → Lock
reset_pending l = record l { to_be_sent = []; deferred = 0; pending_promises = 0 }

take_deferred : Lock → ℕ × Lock
take_deferred l = (l.deferred, record l { deferred = 0 })

-- `hasSpace`
has_space : Lock → Bool
has_space l = not (is_zero (l.host_bits ^w l.last_worker))
