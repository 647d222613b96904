-- ===== src/RxQueue/Sound.antt =====
-- src/worker/rx-queue.ts: what each operation of the worker's queue keeps.
use knitting.Base.{
  ℕ, zero, suc, ◌+◌, ◌-◌, Bool, true, false, ◌&&◌, ◌||◌, ◌≡◌, refl, ap, ◌∙◌, subst, List, [], ◌∷◌,
  ◌++◌, Option, arith, length, ltb, ◌==◌, Bool-cases, List-cases, inl, inr, if◌then◌else◌,
}
use knitting.Base.Lists.{length-append}
use knitting.Base.Maps.{occurs, occurs-append, one_if}
use knitting.Header.{Task}
use knitting.Lock.{encode}
use knitting.Inline.{Outcome}
use knitting.RxQueue.Codec.{encode-Answers}
use knitting.RxQueue.{
  Encoded, full, encode_answer, value_after, Slot, RxQueue, flagged, send_return, settle_now,
  write_one, write_batch,
}
use knitting.RxQueue.Runs.{Answers, itself, ids, waiting_ids, answer, Ready, Waits, Finished, Sound}

pub ids-append : {A : Type 0} (xs ys : List (Slot A)) → ids (xs ++ ys) ≡ ids xs ++ ids ys
ids-append [] ys = refl
ids-append (x ∷ xs) ys = ap (λ r. x.id ∷ r) (ids-append xs ys)

pub waiting_ids-append :
    {A : Type 0} (xs ys : List (Slot A × Bool × A))
    → waiting_ids (xs ++ ys) ≡ waiting_ids xs ++ waiting_ids ys
waiting_ids-append [] ys = refl
waiting_ids-append ((x, e, v) ∷ xs) ys = ap (λ r. x.id ∷ r) (waiting_ids-append xs ys)

module _ {A : Type 0} (null : A) (value_of : Task → A) (decode_task : Task → ℕ → Option Task)
    (encode_task : A → Task → ℕ → Encoded A) (run : ℕ → Task → A → Outcome A)
    (keeps : (v : A) (t : Task) (at : ℕ) (t' : Task)
      → encode_task v t at ≡ full t'
      → t'.flags_to_host ≡ t.flags_to_host) where
  Finished-snoc :
      (xs : List (Slot A)) (slot : Slot A)
      → Finished null value_of decode_task encode_task run xs
      → Answers encode_task
          (answer null value_of decode_task encode_task run slot)
          (slot.task.flags_to_host == 1)
          slot.value
      → Finished null value_of decode_task encode_task run (xs ++ slot ∷ [])
  Finished-snoc [] slot h e = (e, tt)
  Finished-snoc (x ∷ xs) slot (h, hs) e = (h, Finished-snoc xs slot hs e)

  pub Waits-append :
      (xs ys : List (Slot A × Bool × A))
      → Waits null value_of decode_task encode_task run xs
      → Waits null value_of decode_task encode_task run ys
      → Waits null value_of decode_task encode_task run (xs ++ ys)
  Waits-append [] ys h k = k
  Waits-append ((x, e, v) ∷ xs) ys (a, f, h) k = (a, f, Waits-append xs ys h k)

  pub Ready-append :
      (xs ys : List (Slot A))
      → Ready null value_of decode_task encode_task run xs
      → Ready null value_of decode_task encode_task run ys
      → Ready null value_of decode_task encode_task run (xs ++ ys)
  Ready-append [] ys h k = k
  Ready-append (x ∷ xs) ys (a, f, h) k = (a, f, Ready-append xs ys h k)

  flag_read : (r : Bool) → ((if r then 1 else 0) == 1) ≡ r
  flag_read true = refl
  flag_read false = refl

  -- A frame is sent, or it is kept with its flag, at either end of `pending_frames`.
  send_return-Sound :
      {s : RxQueue A} {out : ℕ} (slot : Slot A) (r : Bool)
      → Sound null value_of decode_task encode_task run s (slot.id ∷ []) 1 out
      → Answers encode_task (answer null value_of decode_task encode_task run slot) r slot.value
      → let (ok, slot', s') = send_return null value_of decode_task encode_task run s slot r in
        (ok ≡ true → Sound null value_of decode_task encode_task run s' [] 0 out)
        × (ok ≡ false
            → Sound null value_of decode_task encode_task run
                (record s' { pending_frames = s'.pending_frames ++ slot' ∷ [] })
                []
                0
                out
              × Sound null value_of decode_task encode_task run
                  (record s' { pending_frames = slot' ∷ s'.pending_frames })
                  []
                  0
                  out)
  unfolding send_return
  send_return-Sound {s} slot r d a =
      let asked : Task = flagged null value_of decode_task encode_task run slot r in
      let sent = encode (λ t at. encode_answer (encode_task slot.value t at)) s.return_lock asked in
      elim (Bool-cases sent.0) [
        | inl ok ↦ rw ok (
          λ _. record {
            conserved = λ x. omega (arith, d.conserved x);
            ready = d.ready;
            waits = d.waits;
            finished = d.finished;
            right = (a, d.right);
            counted = omega (arith, d.counted);
            awaited = d.awaited;
          },
          λ no. absurd (cc),
        )
        | inr ok ↦ rw ok (
          λ no. absurd (cc),
          λ _.
              let slot' : Slot A = record slot {
                task = sent.1;
                value = value_after encode_task s.return_lock slot.value asked;
              } in
              let b : Answers encode_task (answer null value_of decode_task encode_task run slot')
                  (slot'.task.flags_to_host == 1) slot'.value =
                encode-Answers encode_task keeps
                  (answer null value_of decode_task encode_task run slot) s.return_lock asked r
                  slot.value (flag_read r) a ok in
              (
                record {
                  conserved = λ x.
                      let split =
                        ap (occurs x) (ids-append s.pending_frames (slot' ∷ []))
                        ∙ occurs-append x (ids s.pending_frames) (slot.id ∷ []) in
                      omega (arith, d.conserved x, split);
                  ready = d.ready;
                  waits = d.waits;
                  finished = Finished-snoc s.pending_frames slot' d.finished b;
                  right = d.right;
                  counted = omega (arith, d.counted, length-append s.pending_frames (slot' ∷ []));
                  awaited = d.awaited;
                },
                record {
                  conserved = λ x. omega (arith, d.conserved x);
                  ready = d.ready;
                  waits = d.waits;
                  finished = (b, d.finished);
                  right = d.right;
                  counted = omega (arith, d.counted);
                  awaited = d.awaited;
                },
              ),
        )
      ]

  -- The slot in hand is settled with its answer.
  pub settle_now-Sound :
      {s : RxQueue A} (slot : Slot A) (e : Bool) (v : A) (was_awaited : Bool)
      → Sound null value_of decode_task encode_task run s (slot.id ∷ []) 0 (one_if was_awaited)
      → answer null value_of decode_task encode_task run slot ≡ (e, v)
      → (e || (slot.task.flags_to_host == 1)) ≡ e
      → Sound null value_of decode_task encode_task run
          (settle_now null value_of decode_task encode_task run s slot e v was_awaited)
          []
          0
          0
  unfolding settle_now
  settle_now-Sound {s} slot e v was_awaited d a same =
      let s1 : RxQueue A = record s {
        has_anything_finished = s.has_anything_finished + 1;
        awaiting = if was_awaited && ltb 0 s.awaiting then s.awaiting - 1 else s.awaiting;
      } in
      let d1 : Sound null value_of decode_task encode_task run s1 (slot.id ∷ []) 1 0 = record {
        conserved = d.conserved;
        ready = d.ready;
        waits = d.waits;
        finished = d.finished;
        right = d.right;
        counted = omega (arith, d.counted);
        awaited = ground (arith, d.awaited);
      } in
      let slot1 : Slot A = record slot { value = v } in
      let (yes_, no_) = send_return-Sound slot1 e d1 (itself e v a) in
      elim (Bool-cases ((send_return null value_of decode_task encode_task run s1 slot1 e).0)) [
        | inl ok ↦ rw (settle_now, same, ok) (yes_ ok)
        | inr ok ↦ rw (settle_now, same, ok) ((no_ ok).0)
      ]

  write_one-Sound :
      {s : RxQueue A}
      → Sound null value_of decode_task encode_task run s [] 0 0
      → Sound null value_of decode_task encode_task run
          (write_one null value_of decode_task encode_task run s).1
          []
          0
          0
  unfolding write_one
  write_one-Sound {s} d = elim (List-cases s.pending_frames) [
    | inl e ↦ rw e (record {
      conserved = λ x. omega (arith, d.conserved x, ap (λ l. occurs x (ids l)) e);
      ready = d.ready;
      waits = d.waits;
      finished = tt;
      right = d.right;
      counted = omega (arith, d.counted, ap length e);
      awaited = d.awaited;
    })
    | inr (slot, rest, e) ↦
        let s1 : RxQueue A = record s { pending_frames = rest } in
        let (first, others) =
          subst (Finished null value_of decode_task encode_task run) e d.finished in
        let d1 : Sound null value_of decode_task encode_task run s1 (slot.id ∷ []) 1 0 = record {
          conserved = λ x. omega (arith, d.conserved x, ap (λ l. occurs x (ids l)) e);
          ready = d.ready;
          waits = d.waits;
          finished = others;
          right = d.right;
          counted = omega (arith, d.counted, ap length e);
          awaited = d.awaited;
        } in
        let r : Bool = slot.task.flags_to_host == 1 in
        let (yes_, no_) = send_return-Sound slot r d1 first in
        elim (Bool-cases ((send_return null value_of decode_task encode_task run s1 slot r).0)) [
          | inl ok ↦ rw (e, ok) (yes_ ok)
          | inr ok ↦ rw (e, ok) ((no_ ok).1)
        ]
  ]

  pub write_batch-Sound :
      (n : ℕ) {s : RxQueue A}
      → Sound null value_of decode_task encode_task run s [] 0 0
      → Sound null value_of decode_task encode_task run
          (write_batch null value_of decode_task encode_task run n s).1
          []
          0
          0
  unfolding write_batch
  write_batch-Sound zero d = d
  write_batch-Sound (suc n) {s} d =
      let d1 = write_one-Sound d in
      elim (Bool-cases (write_one null value_of decode_task encode_task run s).0) [
        | inl ok ↦ rw ok (write_batch-Sound n d1)
        | inr ok ↦ rw ok d1
      ]
