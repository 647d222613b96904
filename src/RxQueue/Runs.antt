-- ===== src/RxQueue/Runs.antt =====
-- src/worker/rx-queue.ts: runs of the worker's queue, and its invariant.
use knitting.Base.{ℕ, ◌+◌, bit_and, Bool, true, ◌≡◌, List, [], ◌∷◌, ◌++◌, Option, length, ◌==◌, ltb}
use knitting.Base.Maps.{occurs, one_if}
use knitting.Header.{Task}
use knitting.Lock.{Lock}
use knitting.Inline.{Outcome}
use knitting.Inline.Runs.{outcome}
use knitting.RxQueue.{
  Encoded, rejected, Slot, RxQueue, create_worker_rx_queue, enqueue_lock, settle_now, write_batch,
  service_batch_immediate,
}

module _ {A : Type 0} where
  abbrev pub ids : List (Slot A) → List ℕ
  ids [] = []
  ids (slot ∷ rest) = slot.id ∷ ids rest

  abbrev pub waiting_ids : List (Slot A × Bool × A) → List ℕ
  waiting_ids [] = []
  waiting_ids ((slot, e, v) ∷ rest) = slot.id ∷ waiting_ids rest

  abbrev pub sent_ids : List (Slot A × Bool) → List ℕ
  sent_ids [] = []
  sent_ids ((slot, e) ∷ rest) = slot.id ∷ sent_ids rest

module _ {A : Type 0} (encode_task : A → Task → ℕ → Encoded A) where
  -- What the host may get where the function has come to `own`: that, or, where the codec could not
  -- encode what was to be sent, the codec's reason as a rejection.
  pub data Answers (own : Bool × A) : Bool → A → Type 0 where
    itself : (e : Bool) (v : A) → own ≡ (e, v) → Answers own e v
    instead :
        (e : Bool) (v : A) (task task' : Task) (at : ℕ) (reason : A)
        → Answers own e v
        → encode_task v task at ≡ rejected task' reason
        → Answers own true reason

module _ {A : Type 0} (null : A) (value_of : Task → A) (decode_task : Task → ℕ → Option Task)
    (encode_task : A → Task → ℕ → Encoded A) (run : ℕ → Task → A → Outcome A) where
  -- What a slot is to be answered: its function's result on the task that arrived.
  abbrev pub answer : Slot A → Bool × A
  answer slot = outcome (run (bit_and slot.job.flags_to_host 0xFFFF) slot.job slot.args)

  abbrev pub Ready : List (Slot A) → Type 0
  Ready [] = Unit {0}
  Ready (slot ∷ rest) = (slot.task ≡ slot.job) × (slot.value ≡ slot.args) × Ready rest

  abbrev pub Waits : List (Slot A × Bool × A) → Type 0
  Waits [] = Unit {0}
  Waits ((slot, e, v) ∷ rest) = (answer slot ≡ (e, v)) × (slot.task.flags_to_host ≡ 0) × Waits rest

  abbrev pub Finished : List (Slot A) → Type 0
  Finished [] = Unit {0}
  Finished (slot ∷ rest) =
      Answers encode_task (answer slot) (slot.task.flags_to_host == 1) slot.value × Finished rest

  abbrev pub Right : List (Slot A × Bool) → Type 0
  Right [] = Unit {0}
  Right ((slot, e) ∷ rest) = Answers encode_task (answer slot) e slot.value × Right rest

  -- `hand` are the slots that an operation holds; `extra` and `out` are what it has counted ahead.
  pub record Sound (s : RxQueue A) (hand : List ℕ) (extra out : ℕ) : Type 0 where
    pub conserved :
        (x : ℕ)
        → occurs x (ids s.to_work)
            + occurs x (waiting_ids s.waiting)
            + occurs x (ids s.pending_frames)
            + occurs x (sent_ids s.sent)
            + occurs x hand
          ≡ one_if (ltb x s.received)
    pub ready : Ready s.to_work
    pub waits : Waits s.waiting
    pub finished : Finished s.pending_frames
    pub right : Right s.sent
    pub counted : s.has_anything_finished ≡ length s.pending_frames + extra
    pub awaited : s.awaiting ≡ length s.waiting + out

  -- What happens to the queue: the worker's loop calls an operation, or the callback on a result
  -- runs. The locks are shared, so that they may also change between two steps.
  pub data Step (s : RxQueue A) : RxQueue A → Type 0 where
    claims :
        (stealing : Bool)
        → Step s (enqueue_lock null value_of decode_task encode_task run stealing s).1
    serves : Step s (service_batch_immediate null value_of decode_task encode_task run s).1
    writes : (max : ℕ) → Step s (write_batch null value_of decode_task encode_task run max s).1
    settles :
        (before after : List (Slot A × Bool × A)) (slot : Slot A) (e : Bool) (v : A)
        → s.waiting ≡ before ++ (slot, e, v) ∷ after
        → Step s (
            settle_now null value_of decode_task encode_task run
              (record s { waiting = before ++ after })
              slot
              e
              v
              true)
    outside :
        (lock return_lock : Lock) → Step s (record s { lock = lock; return_lock = return_lock })

  pub data Reach : RxQueue A → Type 0 where
    start : (lock return_lock : Lock) → Reach (create_worker_rx_queue lock return_lock)
    next : {s s' : RxQueue A} → Reach s → Step s s' → Reach s'
