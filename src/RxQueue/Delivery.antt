-- ===== src/RxQueue/Delivery.antt =====
-- src/worker/rx-queue.ts: each task that arrives is answered once, with its own result.
use knitting.Base.{
  ℕ, zero, suc, ◌+◌, ◌-◌, min, bit_and, Bool, true, false, not, ◌&&◌, ◌||◌, ◌≡◌, ◌⊎◌, refl, ap,
  List, [], ◌∷◌, Option, arith, length, ltb, ◌==◌, Bool-cases, List-cases, inl, inr, if◌then◌else◌,
}
use knitting.Header.{Task}
use knitting.Lock.{encode}
use knitting.Inline.{Outcome}
use knitting.Inline.Runs.{Outcome-cases}
use knitting.RxQueue.{
  Encoded, full, encode_answer, Slot, RxQueue, is_empty, has_completed, flagged, send_return,
  settle_now, ran, service, service_batch, service_batch_immediate,
}
use knitting.RxQueue.Runs.{Reach}
use knitting.RxQueue.Steps.{Reach-Sound}

-- The slot was sent, as a rejection or not.
abbrev Returned : {A : Type 0} → List (Slot A × Bool) → Slot A → Bool → Type 0
Returned [] slot e = ⊥
Returned (entry ∷ rest) slot e = (entry ≡ (slot, e)) ⊎ Returned rest slot e

module _ {A : Type 0} (null : A) (value_of : Task → A) (decode_task : Task → ℕ → Option Task)
    (encode_task : A → Task → ℕ → Encoded A) (run : ℕ → Task → A → Outcome A)
    (keeps : (v : A) (t : Task) (at : ℕ) (t' : Task)
      → encode_task v t at ≡ full t'
      → t'.flags_to_host ≡ t.flags_to_host) where
  -- In every run, the worker's loop takes frames to be ready exactly while some wait to be sent,
  -- and, when it resolves after finishing all, while in addition no task is left to run; and its
  -- count of results that it awaits is the number of promises that are out. The codec does not
  -- throw, and leaves the flag in a task alone where it only finds no room.
  pub loop_tests :
      {s : RxQueue A}
      → Reach null value_of decode_task encode_task run s
      → (has_completed false s ≡ not (is_empty s.pending_frames))
        × (has_completed true s ≡ not (is_empty s.pending_frames) && is_empty s.to_work)
        × (s.awaiting ≡ length s.waiting)
  loop_tests {s} r =
      let d = Reach-Sound null value_of decode_task encode_task run keeps r in
      elim (List-cases s.pending_frames) [
        | inl e ↦
            let none_ : s.has_anything_finished ≡ 0 = omega (arith, d.counted, ap length e) in
            (rw (e, none_) refl, rw (e, none_) refl, omega (arith, d.awaited))
        | inr (slot, rest, e) ↦
            let some_ : s.has_anything_finished == 0 ≡ false =
              ground (arith, d.counted, ap length e) in
            (rw (e, some_) refl, rw (e, some_) refl, omega (arith, d.awaited))
      ]

  send_return-to_work :
      (s : RxQueue A) (slot : Slot A) (r : Bool)
      → (send_return null value_of decode_task encode_task run s slot r).2.to_work ≡ s.to_work
  unfolding send_return
  send_return-to_work s slot r =
      elim (Bool-cases
        (encode (λ t at. encode_answer (encode_task slot.value t at)) s.return_lock
          (flagged null value_of decode_task encode_task run slot r)).0) [
            | inl ok ↦ rw ok refl
            | inr ok ↦ rw ok refl
          ]

  settle_now-to_work :
      (s : RxQueue A) (slot : Slot A) (e : Bool) (v : A) (was_awaited : Bool)
      → (settle_now null value_of decode_task encode_task run s slot e v was_awaited).to_work
        ≡ s.to_work
  unfolding settle_now
  settle_now-to_work s slot e v was_awaited =
      let s1 : RxQueue A = record s {
        has_anything_finished = s.has_anything_finished + 1;
        awaiting = if was_awaited && ltb 0 s.awaiting then s.awaiting - 1 else s.awaiting;
      } in
      let slot1 : Slot A = record slot { value = v } in
      let r : Bool = e || (slot.task.flags_to_host == 1) in
      elim (Bool-cases (send_return null value_of decode_task encode_task run s1 slot1 r).0) [
        | inl ok ↦ rw ok (send_return-to_work s1 slot1 r)
        | inr ok ↦ rw ok (send_return-to_work s1 slot1 r)
      ]

  service-to_work :
      (s : RxQueue A) (slot : Slot A)
      → (service null value_of decode_task encode_task run s slot).to_work ≡ s.to_work
  unfolding service
  service-to_work s slot =
      elim (Outcome-cases (run (bit_and slot.task.flags_to_host 0xFFFF) slot.task slot.value)) [
        | inl (v, o) ↦
            rw (service, o)
              (settle_now-to_work s (ran null value_of decode_task encode_task run slot) false v
                false)
        | inr (inl (v, o)) ↦ rw (service, o) (settle_now-to_work s slot true v false)
        | inr (inr (e, v, o)) ↦ rw (service, o) refl
      ]

  service_batch-length :
      (n : ℕ) (s : RxQueue A)
      → let (k, s') = service_batch null value_of decode_task encode_task run n s in
        (k ≡ min n (length s.to_work)) × (length s'.to_work + k ≡ length s.to_work)
  unfolding service_batch
  service_batch-length zero s = (omega arith, omega arith)
  service_batch-length (suc n) s = elim (List-cases s.to_work) [
    | inl e ↦ rw e (omega arith, omega arith)
    | inr (slot, rest, e) ↦
        let s1 : RxQueue A = record s { to_work = rest } in
        let s2 : RxQueue A = service null value_of decode_task encode_task run s1 slot in
        let (count, left) = service_batch-length n s2 in
        let same : length s2.to_work ≡ length rest = ap length (service-to_work s1 slot) in
        rw e (omega (arith, count, same), omega (arith, left, same))
  ]

  -- A batch runs as many tasks as there are, five at most, and takes just these off the queue.
  pub batch_runs :
      (s : RxQueue A)
      → let (k, s') = service_batch_immediate null value_of decode_task encode_task run s in
        (k ≡ min 5 (length s.to_work)) × (length s'.to_work + k ≡ length s.to_work)
  unfolding service_batch_immediate
  batch_runs s = service_batch-length 5 s
