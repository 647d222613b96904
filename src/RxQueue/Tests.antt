-- ===== src/RxQueue/Tests.antt =====
-- One task that arrives through lane 31, is run and is answered.
use knitting.Base.{
  ℕ, ◌+◌, min, true, false, ◌≡◌, refl, not, ◌&&◌, ap, sym, [], ◌∷◌, Option, some, ◌==◌,
  if◌then◌else◌, Bool-cases, inr, length, inl,
}
use knitting.Base.Lanes.{zeros, bit, is_zero, any_below, lead, highest}
use knitting.Header.{Task}
use knitting.Lock.{Lock, encode, encode_with_state, ensure_free}
use knitting.Inline.{Outcome, returned}
use knitting.RxQueue.{
  Encoded, written, full, rejected, encode_answer, Slot, RxQueue, create_worker_rx_queue, is_empty,
  has_completed, enqueue_lock, service_batch_immediate, service, settle_now, send_return,
}
use knitting.RxQueue.Runs.{Reach, start, next, claims, serves}
use knitting.RxQueue.Delivery.{batch_runs, loop_tests}

abbrev plain : ℕ → Task
plain f = record {
  flags_to_host = f;
  id = 3;
  type = 0;
  start = 0;
  end_ = 0;
  payload_len = 0;
  slot_buffer = 0;
  local = zeros;
}

abbrev rest_lock : Lock
rest_lock = record {
  host_bits = zeros;
  worker_bits = zeros;
  headers = λ at. plain 0;
  last_local = zeros;
  worker_shadow = zeros;
  to_be_sent = [];
  deferred = 0;
  pending_promises = 0;
  last_worker = zeros;
  last_take = 32;
  resolved = [];
}

-- A codec that has room for every lane but lane 30, and cannot encode the number 13.
abbrev codec : ℕ → Task → ℕ → Encoded ℕ
codec v t at = if v == 13 then rejected t 404 else if at == 30 then full t else written t

codec_keeps :
    (v : ℕ) (t : Task) (at : ℕ) (t' : Task)
    → codec v t at ≡ full t'
    → t'.flags_to_host ≡ t.flags_to_host
codec_keeps v t at t' h = elim (Bool-cases (v == 13)) [
  | inl e ↦ absurd (let h' = rw e at h in cc)
  | inr e ↦ elim (Bool-cases (at == 30)) [
    | inl f ↦
        let h' : full t ≡ full t' = rw (e, f) at h in
        ap (λ (x : Encoded ℕ). (encode_answer x).1.flags_to_host) (sym h')
    | inr f ↦ absurd (let h' = rw (e, f) at h in cc)
  ]
]

abbrev same : Task → ℕ → Option Task
same t at = some t

-- The function adds its index to the value, which is the task's id.
abbrev adds : ℕ → Task → ℕ → Outcome ℕ
adds f t a = returned (f + a)

-- Lane 31 has a task, on memory where every header is that of a call of function 7.
abbrev s0 : RxQueue ℕ
s0 =
    create_worker_rx_queue (record rest_lock { host_bits = bit 31; headers = λ at. plain 7 })
      rest_lock

abbrev s1 : RxQueue ℕ
s1 = (enqueue_lock 0 Task.id same codec adds false s0).1

abbrev s2 : RxQueue ℕ
s2 = (service_batch_immediate 0 Task.id same codec adds s1).1

reach2 : Reach 0 Task.id same codec adds s2
reach2 = next (next (start s0.lock rest_lock) (claims false)) serves

batch_runs_example :
    let (k, s') = service_batch_immediate 0 Task.id same codec adds s1 in
    (k ≡ min 5 (length s1.to_work)) × (length s'.to_work + k ≡ length s1.to_work)
batch_runs_example = batch_runs 0 Task.id same codec adds codec_keeps s1

-- What was sent: the function's index and the task's id are added.
abbrev answered : Slot ℕ
answered = record { task = plain 0; value = 10; id = 0; job = plain 7; args = 3 }

loop_tests_example :
    (has_completed false s2 ≡ not (is_empty s2.pending_frames))
    × (has_completed true s2 ≡ not (is_empty s2.pending_frames) && is_empty s2.to_work)
    × (s2.awaiting ≡ length s2.waiting)
loop_tests_example = loop_tests 0 Task.id same codec adds codec_keeps reach2

-- A result that cannot be encoded stays as a rejection with the codec's reason.
refused : Slot ℕ
refused = record { task = plain 10; value = 3; id = 0; job = plain 10; args = 3 }

refused_frame :
    (service 0 Task.id same codec adds
      (create_worker_rx_queue rest_lock rest_lock)
      refused).pending_frames
    ≡ record refused { task = plain 1; value = 404 } ∷ []
unfolding refused service settle_now send_return encode encode_with_state ensure_free is_zero
    any_below lead highest
refused_frame = refl
