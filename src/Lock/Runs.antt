-- ===== src/Lock/Runs.antt =====
-- src/memory/lock.ts: `encode` as a run of the steps at the grain of memory accesses.
use knitting.Base.{
  ℕ, Bool, true, false, ◌≡◌, refl, ◌∷◌, some, arith, ◌==◌, if◌then◌else◌, Bool-cases, Option-cases,
  inl, inr,
}
use knitting.Base.Lanes.{bit, not_w, ◌^w◌, is_zero, lead}
use knitting.Header.{Task, fill_from}
use knitting.Lock.{
  Lock, is_some, put_header, ensure_free, encode_at, encode_with_state, encode, store_host,
}
use knitting.Lock.Queue.{ready, written, Queue, Step, refresh, write, post}

pub data Run (q : Queue) : Queue → Type 0 where
  stop : Run q q
  more : {q' q'' : Queue} → Run q q' → Step q' q'' → Run q q''

-- What an attempt to send leaves: the lock, and the header where a lane was found.
pub record Sent (q : Queue) (ok : Bool) (task : Task) (l : Lock) : Type 0 where
  pub after : Queue
  pub run : Run q after
  pub lock : after.lock ≡ l
  pub sender : after.sender ≡ ready
  pub receiver : after.receiver ≡ q.receiver
  pub sent : after.sent ≡ (if ok then fill_from task ∷ q.sent else q.sent)
  pub got : after.got ≡ q.got

pub before : {q q' q'' : Queue} → Step q q' → Run q' q'' → Run q q''
before s stop = more stop s
before s (more run t) = more (before s run) t

kept-Sent : {q : Queue} (task : Task) → q.sender ≡ ready → Sent q false task q.lock
kept-Sent {q} task r = record {
  after = q;
  run = stop;
  lock = refl;
  sender = r;
  receiver = refl;
  sent = refl;
  got = refl;
}

refreshed-Sent :
    {q : Queue} {ok : Bool} {task : Task} {l : Lock}
    → q.sender ≡ ready
    → Sent (record q { lock = record q.lock { worker_shadow = q.lock.worker_bits } }) ok task l
    → Sent q ok task l
refreshed-Sent r s = record {
  after = s.after;
  run = before (refresh r) s.run;
  lock = s.lock;
  sender = s.sender;
  receiver = s.receiver;
  sent = s.sent;
  got = s.got;
}

own : (n : ℕ) → (n == n) ≡ true
own n = ground arith

-- A header is filled, then the lane is published.
posted-Sent :
    (q : Queue) (task : Task) (at : ℕ)
    → q.sender ≡ ready
    → lead (not_w (q.lock.last_local ^w q.lock.worker_shadow)) ≡ some at
    → Sent q true task (encode_at q.lock task at)
unfolding encode_at
posted-Sent q task at r e =
    let filled : Queue = record q {
      lock = record q.lock { headers = put_header q.lock.headers at task };
      sender = written at;
    } in
    record {
      after = record filled {
        lock = store_host filled.lock (bit at);
        sender = ready;
        sent = filled.lock.headers at ∷ q.sent;
      };
      run = more (more stop (write task at r e)) (post at refl);
      lock = refl;
      sender = refl;
      receiver = refl;
      sent = rw (own at) refl;
      got = refl;
    }

module _ (encode_task : Task → ℕ → Bool × Task) where
  encode_with_state-Sent :
      (q : Queue) (task : Task)
      → q.sender ≡ ready
      → let (lane, task', l) =
          encode_with_state encode_task q.lock task (q.lock.last_local ^w q.lock.worker_shadow) in
        Sent q (is_some lane) task' l
  unfolding encode_with_state
  encode_with_state-Sent q task r =
      let state = q.lock.last_local ^w q.lock.worker_shadow in
      elim (Bool-cases (is_zero (not_w state))) [
        | inl z ↦ rw (z, encode_with_state) (kept-Sent task r)
        | inr z ↦ elim (Option-cases (lead (not_w state))) [
          | inl e ↦ rw (z, e, encode_with_state) (kept-Sent task r)
          | inr (at, e) ↦ elim (Bool-cases (encode_task task at).0) [
            | inl ok ↦
                rw (z, e, ok, encode_with_state) (posted-Sent q (encode_task task at).1 at r e)
            | inr bad ↦ rw (z, e, bad, encode_with_state) (kept-Sent (encode_task task at).1 r)
          ]
        ]
      ]

  -- For a sender that is not in the middle of a header: a call of `encode` is a run of the
  -- sender's steps. Where it answers true, it has published the header of the task as the codec
  -- has left it; otherwise it has published none.
  pub encode-Sent :
      (q : Queue) (task : Task)
      → q.sender ≡ ready
      → let (ok, task', l) = encode encode_task q.lock task in Sent q ok task' l
  unfolding encode ensure_free
  encode-Sent q task r =
      elim (Bool-cases (is_zero (not_w (q.lock.last_local ^w q.lock.worker_shadow)))) [
        | inl z ↦
            let q' : Queue = record q {
              lock = record q.lock { worker_shadow = q.lock.worker_bits };
            } in
            rw (z, ensure_free) (refreshed-Sent r (encode_with_state-Sent q' task r))
        | inr z ↦ rw (z, ensure_free) (encode_with_state-Sent q task r)
      ]
