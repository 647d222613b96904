-- ===== src/Lock/Queue.antt =====
-- The two endpoints at the grain of their accesses to shared memory.
--
-- The sender reads the receiver's word, fills a header, and publishes the lane by one store. The
-- receiver reads the sender's word once, takes the lanes of that snapshot in any order, and
-- acknowledges by one store: at the end (`decode`), every eight tasks (`resolveHost`), or early
-- where decoding throws. Both interleave freely.
use knitting.Base.{ℕ, ◌<◌, Bool, true, not, ◌&&◌, ◌≡◌, List, [], ◌∷◌, some}
use knitting.Base.Lanes.{Word, xor, zeros, bit, not_w, ◌^w◌, lead}
use knitting.Header.{Task}
use knitting.Lock.{Lock, start, put_header, store_host, store_worker}

pub data Sending : Type 0 where
  ready : Sending
  written : (at : ℕ) → Sending

pub data Receiving : Type 0 where
  idle : Receiving
  taking : (diff consumed : Word) → Receiving

-- The lock, where each endpoint is, and the headers published and taken so far.
pub record Queue : Type 0 where
  pub lock : Lock
  pub sender : Sending
  pub receiver : Receiving
  pub sent : List Task
  pub got : List Task

abbrev pub initial : (ℕ → Task) → Queue
initial headers = record {
  lock = start headers;
  sender = ready;
  receiver = idle;
  sent = [];
  got = [];
}

pub data Step (q : Queue) : Queue → Type 0 where
  refresh :
      q.sender ≡ ready
      → Step q (record q { lock = record q.lock { worker_shadow = q.lock.worker_bits } })
  write :
      (task : Task) (at : ℕ)
      → q.sender ≡ ready
      → lead (not_w (q.lock.last_local ^w q.lock.worker_shadow)) ≡ some at
      → Step q (record q {
        lock = record q.lock { headers = put_header q.lock.headers at task };
        sender = written at;
      })
  post :
      (at : ℕ)
      → q.sender ≡ written at
      → Step q (record q {
        lock = store_host q.lock (bit at);
        sender = ready;
        sent = q.lock.headers at ∷ q.sent;
      })
  load :
      q.receiver ≡ idle
      → Step q (record q { receiver = taking (q.lock.host_bits ^w q.lock.last_worker) zeros })
  take :
      (at : ℕ) {diff consumed : Word}
      → q.receiver ≡ taking diff consumed
      → at < 32
      → diff at ≡ true
      → Step q (record q {
        receiver = taking (diff ^w bit at) (consumed ^w bit at);
        got = q.lock.headers at ∷ q.got;
      })
  acknowledge :
      {diff consumed : Word}
      → q.receiver ≡ taking diff consumed
      → Step q (record q { lock = store_worker q.lock consumed; receiver = taking diff zeros })
  leave :
      {diff consumed : Word}
      → q.receiver ≡ taking diff consumed
      → Step q (record q { lock = store_worker q.lock consumed; receiver = idle })

pub data Reach (headers : ℕ → Task) : Queue → Type 0 where
  begin : Reach headers (initial headers)
  later : {q q' : Queue} → Reach headers q → Step q q' → Reach headers q'

-- A lane whose header is published and not acknowledged.
abbrev pub pending : Lock → ℕ → Bool
pending l i = xor (l.last_local i) (l.last_worker i)

-- The lanes that the receiver has taken and not acknowledged, and those that it has still to take.
abbrev pub consumed_of : Receiving → Word
consumed_of idle = zeros
consumed_of (taking diff consumed) = consumed

abbrev pub diff_of : Receiving → Word
diff_of idle = zeros
diff_of (taking diff consumed) = diff

-- Published and not taken.
abbrev pub outstanding : Queue → Word
outstanding q i = pending q.lock i && not (consumed_of q.receiver i)
