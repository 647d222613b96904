-- ===== src/TxQueue/Runs.antt =====
-- src/runtime/tx-queue.ts: runs of the queue, and the invariant of its slots.
use knitting.Base.{ℕ, ◌+◌, ◌<◌, ◌≤◌, Bool, true, false, ◌≡◌, List, [], ◌∷◌, ◌&&◌, some, ◌==◌}
use knitting.Base.Maps.{one_if, occurs}
use knitting.Base.Slots.{Owned, holding}
use knitting.Header.{Task}
use knitting.Lock.{Lock}
use knitting.AbortSignals.{Store}
use knitting.TxQueue.{
  TxQueue, is_held, Request, create, settle_once, abort, complete, enqueue, settle_promise_payload,
  flush_to_worker, reject_all,
}

module _ {A : Type 0} where
  -- The calls that have been settled.
  abbrev pub ids : List (ℕ × Bool × A) → List ℕ
  ids [] = []
  ids ((c, e, v) ∷ rest) = c ∷ ids rest

  -- `in_used` counts the held slots, except while `rejectAll` is at work: it is `working`.
  pub record Sound (s : TxQueue A) (working : ℕ) : Type 0 where
    pub owned : Owned s.len (λ i. is_held (s.deferred i)) s.deferred s.calls working s.free
    pub once : (x : ℕ) → occurs x (ids s.settled) ≡ one_if (s.triggered x)
    pub old : (x : ℕ) → s.triggered x ≡ true → x < s.calls
    pub known : (x : ℕ) → x < s.calls → 1 ≤ one_if (s.triggered x) + holding s.len s.deferred x

module _ {A : Type 0} (null exhausted : A) (encode_task : Task → ℕ → Bool × Task) where
  -- What happens to the queue, from outside: the lock and the store of signals are shared, so that
  -- they may also change between two steps. The flag is false where a call is refused, and where
  -- the queue is closed.
  pub data Step (s : TxQueue A) : Bool → TxQueue A → Type 0 where
    enqueues :
        (req : Request) (args : A) (s' : TxQueue A)
        → enqueue null exhausted encode_task s req args ≡ some s'
        → Step s (s'.in_used == s.in_used + 1) s'
    completes :
        (header : Task) (v : A)
        → header.id < s.len
        → Step s true (complete null exhausted s header v)
    settles :
        (i : ℕ) (is_rejected : Bool) (v : A)
        → i < s.len
        → Step s true (settle_promise_payload null exhausted encode_task s i is_rejected v).1
    aborts : (c : ℕ) → Step s true (abort null exhausted s c)
    rejects :
        (c signal : ℕ) (reason : A)
        → c < s.calls
        → s.signal_of c ≡ some signal
        → Step s true (settle_once null exhausted s c true reason)
    flushes : Step s true (flush_to_worker null exhausted encode_task s).1
    closes : (reason : A) → Step s false (reject_all null exhausted encode_task s reason)
    others :
        (lock : Lock) (signals : Store) → Step s true (record s { lock = lock; signals = signals })

  pub data Reach : Bool → TxQueue A → Type 0 where
    start :
        (max : ℕ) (lock : Lock) (signals : Store)
        → Reach true (create null exhausted max lock signals)
    next : {ok fine : Bool} {s s' : TxQueue A} → Reach ok s → Step s fine s' → Reach (ok && fine) s'
