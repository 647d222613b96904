-- ===== src/TxQueue.antt =====
-- src/runtime/tx-queue.ts: `createHostTxQueue`, the calls in flight on the host.
--
-- A slot is an index of `queue`. A deferred goes by the number of its call; `deferred` is none where
-- the slot has the placeholders. `settled` lists what the callers see, the last one first: a promise
-- keeps to what settles it first, whether it is a plain one or a `OneShotDeferred`. `free` has the
-- top of `freeSockets` first. The codec is the parameter of the lock. Finalizers, and the hooks for
-- borrowed buffers, are left out.
mod Runs
mod Sound
mod Enqueue
mod Steps
mod Delivery
mod Capacity
mod Tests
use knitting.Base.{
  ℕ, zero, suc, ◌+◌, ◌-◌, ◌*◌, ◌%◌, ◌^◌, bit_and, bit_or, Bool, true, false, not, ◌&&◌, List, [],
  ◌∷◌, ◌++◌, Option, none, some, ltb, ◌==◌, if◌then◌else◌, length,
}
use knitting.Base.Lanes.{zeros}
use knitting.Base.Maps.{put}
use knitting.Header.{Task, fill_from, reset_local, set_slot_meta, settle}
use knitting.Lock.{Lock, encode_tracked, publish, flush_pending, reset_pending}
use knitting.AbortSignals.{Store, close_now, get_signal, set_signal, reset_signal}

pub record TxQueue (A : Type 0) : Type 0 where
  pub len : ℕ
  pub task : ℕ → Task
  pub value : ℕ → A
  pub deferred : ℕ → Option ℕ
  pub free : List ℕ
  pub in_used : ℕ
  pub lock : Lock
  pub signals : Store
  -- of each call: the signal that its deferred resets, and whether it is settled
  pub signal_of : ℕ → Option ℕ
  pub triggered : ℕ → Bool
  pub calls : ℕ
  pub settled : List (ℕ × Bool × A)

abbrev pub is_held : Option ℕ → Bool
is_held none = false
is_held (some c) = true

-- `n` numbers from `a` on, the last one first: as they lie on the stack when pushed in order.
abbrev pub down_from : ℕ → ℕ → List ℕ
down_from a zero = []
down_from a (suc n) = (a + n) ∷ down_from a n

abbrev pub new_slot : ℕ → Task
new_slot id = record {
  flags_to_host = 0;
  id = id;
  type = 0;
  start = 0;
  end_ = 0;
  payload_len = 0;
  slot_buffer = 0;
  local = zeros;
}

-- What a caller asks for: the function, a time stamp where the task has a timeout, and a signal.
pub record Request : Type 0 where
  pub function_id : ℕ
  pub timer : Option ℕ
  pub use_signal : Bool

module _ {A : Type 0} (null exhausted : A) where
  pub create : ℕ → Lock → Store → TxQueue A
  create max lock signals = record {
    len = max;
    task = new_slot;
    value = λ i. null;
    deferred = λ i. none;
    free = down_from 0 max;
    in_used = 0;
    lock = lock;
    signals = signals;
    signal_of = λ c. none;
    triggered = λ c. false;
    calls = 0;
    settled = [];
  }

  -- `deferred.resolve` and `deferred.reject` of the call `c`: `settleOnce`
  pub settle_once : TxQueue A → ℕ → Bool → A → TxQueue A
  settle_once s c is_error v = if s.triggered c then s else record s {
    triggered = put s.triggered c true;
    settled = (c, is_error, v) ∷ s.settled;
    signals = elim (s.signal_of c) [
      | none ↦ s.signals
      | some signal ↦ (reset_signal s.signals signal).1
    ];
  }

  -- `promise.reject` of a call with a signal and without a reason: the signal is set.
  pub abort : TxQueue A → ℕ → TxQueue A
  abort s c = if s.triggered c then s else elim (s.signal_of c) [
    | none ↦ s
    | some signal ↦ record s { signals = (set_signal s.signals signal).1 }
  ]

  -- 32 more slots
  pub grow : TxQueue A → TxQueue A
  grow s =
      if s.in_used == s.len
      then record s { len = s.in_used + 32; free = down_from s.len 32 ++ s.free }
      else s

  -- The slot is given back: `onReturnResolved`
  pub on_return_resolved : TxQueue A → ℕ → TxQueue A
  on_return_resolved s i = record s {
    in_used = s.in_used - 1;
    task = put s.task i (reset_local (s.task i));
    value = put s.value i null;
    deferred = put s.deferred i none;
    free = i ∷ s.free;
  }

  -- A response: `resolveHost` fills the task that the header names, and settles it if it is active.
  pub complete : TxQueue A → Task → A → TxQueue A
  complete s header v =
      let filled = record s {
        task = put s.task header.id (fill_from header);
        value = put s.value header.id v;
      } in
      elim (s.deferred header.id) [
        | none ↦ filled
        | some c ↦
            let s1 = record filled { task = put s.task header.id (settle (fill_from header)).1 } in
            on_return_resolved (settle_once s1 c (not (header.flags_to_host == 0)) v) header.id
      ]

-- The word with the function's id and, above it, the signal's number plus one.
abbrev pub function_word : ℕ → Option ℕ → ℕ
function_word function_id none = bit_and function_id 0xFFFF
function_word function_id (some signal) =
    bit_or (bit_and (signal + 1) 0xFFFF * 2 ^ 16 % 2 ^ 32) (bit_and function_id 0xFFFF)

abbrev pub stamped : Option ℕ → Task → Task
stamped none t = t
stamped (some now) t = set_slot_meta t (now % 2 ^ 32)

module _ {A : Type 0} (null exhausted : A) (encode_task : Task → ℕ → Bool × Task) where
  -- The slot is filled and published.
  pub admit : TxQueue A → Request → A → ℕ → List ℕ → Option ℕ → Store → TxQueue A
  admit s req args index rest signal signals =
      let task = stamped req.timer (record (s.task index) {
        flags_to_host = function_word req.function_id signal;
        id = index;
      }) in
      record s {
        free = rest;
        task = put s.task index (encode_tracked encode_task s.lock task).1;
        value = put s.value index args;
        deferred = put s.deferred index (some s.calls);
        signal_of = put s.signal_of s.calls signal;
        signals = signals;
        lock = (publish encode_task s.lock task).1;
        in_used = s.in_used + 1;
        calls = s.calls + 1;
      }

  -- The pool has no signal: the call is rejected at once. The slot was popped before.
  pub refuse : TxQueue A → Request → ℕ → List ℕ → TxQueue A
  refuse s req index rest = record s {
    free = rest;
    task =
        put s.task index (record (s.task index) { flags_to_host = bit_and req.function_id 0xFFFF });
    triggered = put s.triggered s.calls true;
    settled = (s.calls, true, exhausted) ∷ s.settled;
    calls = s.calls + 1;
  }

  abbrev pub enqueue_at : TxQueue A → Request → A → List ℕ → Option (TxQueue A)
  enqueue_at s req args [] = none
  enqueue_at s req args (index ∷ rest) =
      if req.use_signal
      then (let (signal, signals) = get_signal s.signals in
          if signal == close_now s.signals
          then some (refuse s req index rest)
          else some (admit s req args index rest (some signal) signals))
      else some (admit s req args index rest none s.signals)

  -- `enqueue(functionID, timeout, abortSignal)(rawArgs)`; `none` where it throws a TypeError, with
  -- no slot to fill.
  pub enqueue : TxQueue A → Request → A → Option (TxQueue A)
  enqueue s req args = let s1 = grow null exhausted s in enqueue_at s1 req args s1.free

  pub settle_promise_payload : TxQueue A → ℕ → Bool → A → Bool × TxQueue A
  settle_promise_payload s i is_rejected v = elim (s.deferred i) [
    | none ↦ (false, s)
    | some c ↦
        if is_rejected
        then (false, on_return_resolved null exhausted (settle_once null exhausted s c true v) i)
        else let (ok, lock) = publish encode_task s.lock (s.task i) in
          (
            ok,
            record s {
              task = put s.task i (encode_tracked encode_task s.lock (s.task i)).1;
              value = put s.value i v;
              lock = lock;
            },
          )
  ]

  pub flush_to_worker : TxQueue A → Bool × TxQueue A
  flush_to_worker s =
      let (ok, lock) = flush_pending encode_task s.lock in (ok, record s { lock = lock })

  -- The loop of `rejectAll` over the slots from `i` on.
  pub reject_slots : TxQueue A → A → ℕ → ℕ → TxQueue A
  reject_slots s reason i zero = s
  reject_slots s reason i (suc n) =
      let s1 = elim (s.deferred i) as (λ _. TxQueue A) [
        | none ↦ s
        | some c ↦
            let t = settle_once null exhausted s c true reason in
            record t {
              task = put t.task i (new_slot i);
              value = put t.value i null;
              deferred = put t.deferred i none;
            }
      ] in
      reject_slots s1 reason (i + 1) n

  pub reject_all : TxQueue A → A → TxQueue A
  reject_all s reason =
      let s1 = reject_slots s reason 0 s.len in
      record s1 { lock = reset_pending s1.lock; in_used = 0 }

-- `txIdle`
pub tx_idle : {A : Type 0} → TxQueue A → Bool
tx_idle s = (length s.lock.to_be_sent == 0) && not (ltb 0 (s.in_used - s.lock.pending_promises))
