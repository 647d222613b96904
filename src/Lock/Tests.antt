-- ===== src/Lock/Tests.antt =====
-- The queue on one task.
use knitting.Base.{ℕ, ◌<◌, Bool, true, false, ◌≡◌, refl, List, [], ◌∷◌, some, arith, length}
use knitting.Base.Count.{count}
use knitting.Base.Lanes.{xor, zeros, bit, ◌^w◌, lead, highest}
use knitting.Header.{Task}
use knitting.Lock.{put_header, store_host, store_worker, encode, encode_many_tracked_from}
use knitting.Lock.Receive.{decode}
use knitting.Lock.Host.{Host, resolve_host}
use knitting.Lock.Host.Resolved.{Taken, resolve_host-Taken}
use knitting.Lock.Queue.{
  Queue, initial, ready, written, idle, taking, write, post, load, take, leave, Reach, begin, later,
  pending, diff_of,
}
use knitting.Lock.Exactly.{Conserved, exactly_once, no_torn_header}
use knitting.Lock.Runs.{Sent, encode-Sent}
use knitting.Lock.Batch.{Batch, opened, encode_many_tracked_from-Batch}
use knitting.Lock.Taken
use knitting.Lock.Taken.{decode-Taken}

abbrev job : ℕ → Task
job n = record {
  flags_to_host = 0;
  id = n;
  type = 0;
  start = 0;
  end_ = 0;
  payload_len = 0;
  slot_buffer = 0;
  local = zeros;
}

abbrev memory : ℕ → Task
memory _ = job 0

-- The task 5 goes through lane 31.
abbrev q1 : Queue
q1 = record (initial memory) {
  lock = record (initial memory).lock { headers = put_header memory 31 (job 5) };
  sender = written 31;
}

abbrev q2 : Queue
q2 = record q1 {
  lock = store_host q1.lock (bit 31);
  sender = ready;
  sent = q1.lock.headers 31 ∷ [];
}

abbrev q3 : Queue
q3 = record q2 { receiver = taking (q2.lock.host_bits ^w q2.lock.last_worker) zeros }

abbrev q4 : Queue
q4 = record q3 {
  receiver = taking (q2.lock.host_bits ^w q2.lock.last_worker ^w bit 31) (zeros ^w bit 31);
  got = q3.lock.headers 31 ∷ [];
}

abbrev q5 : Queue
q5 = record q4 { lock = store_worker q4.lock (zeros ^w bit 31); receiver = idle }

reach1 : Reach memory q1
unfolding lead highest
reach1 = later begin (write (job 5) 31 refl refl)

reach2 : Reach memory q2
reach2 = later reach1 (post 31 refl)

reach5 : Reach memory q5
unfolding store_host
reach5 = later (later (later reach2 (load refl)) (take 31 refl (omega arith) refl)) (leave refl)

exactly_once_example : Conserved q2
exactly_once_example = exactly_once reach2

no_torn_header_example : (pending q1.lock 31 ≡ false) × (diff_of q1.receiver 31 ≡ false) × (31 < 32)
no_torn_header_example = no_torn_header reach1 refl

-- A codec that takes every task as it is.
abbrev plain : Task → ℕ → Bool × Task
plain task at = (true, task)

encode_example : let (ok, task, l) = encode plain q2.lock (job 6) in Sent q2 ok task l
encode_example = encode-Sent plain q2 (job 6) refl

decode_example :
    let (answer, l) = decode (λ task at. some task) q2.lock in
    Taken.Taken (λ task at. some task) q2 answer l
unfolding store_host
decode_example = decode-Taken (λ task at. some task) q2 refl refl

abbrev host : Host
host = record { lock = q2.lock; queue = memory; settled = []; last_resolved = 32 }

resolve_host_example :
    let (n, h) = resolve_host (λ task at. task) (λ task. true) host in
    Taken (λ task at. task) (λ task. true) host (host.lock.host_bits ^w host.lock.last_worker) h
    × (n ≡ count 32 (host.lock.host_bits ^w host.lock.last_worker))
    × ((i : ℕ) → i < 32 → xor (h.lock.host_bits i) (h.lock.last_worker i) ≡ false)
    × (h.lock.host_bits ≡ host.lock.host_bits)
resolve_host_example = resolve_host-Taken (λ task at. task) (λ task. true) host

encode_many_example :
    let (n, rest, l) = encode_many_tracked_from plain q2.lock (job 6 ∷ job 7 ∷ []) in
    (published : List Task) × Batch plain
      (opened plain q2)
      (job 6 ∷ job 7 ∷ [])
      published
      rest
      l.deferred
      l
    × (n ≡ length published)
encode_many_example = encode_many_tracked_from-Batch plain q2 (job 6 ∷ job 7 ∷ []) refl
