-- ===== src/RxQueue/Steps.antt =====
-- src/worker/rx-queue.ts: each step of a run keeps the invariant.
use knitting.Base.{
  ℕ, zero, suc, ◌+◌, bit_and, Bool, true, false, not, ◌&&◌, ◌≡◌, refl, ap, sym, ◌∙◌, subst, List,
  [], ◌∷◌, ◌++◌, Option, arith, length, ltb, ◌==◌, Bool-cases, List-cases, inl, inr,
}
use knitting.Base.Lists.{length-append}
use knitting.Base.Maps.{occurs, occurs-append, one_if}
use knitting.Header.{Task}
use knitting.Lock.{Lock}
use knitting.Lock.Receive.{Answer, nothing, decoded, failed, decode}
use knitting.Inline.{Outcome}
use knitting.Inline.Runs.{outcome, Outcome-cases}
use knitting.RxQueue.{
  Encoded, full, Slot, RxQueue, is_empty, arrive, claim, enqueue_lock, ran, service, service_batch,
  service_batch_immediate,
}
use knitting.RxQueue.Runs.{
  ids, waiting_ids, answer, Ready, Waits, Sound, Step, claims, serves, writes, settles, outside,
  Reach, start, next,
}
use knitting.RxQueue.Sound.{
  ids-append, waiting_ids-append, Waits-append, Ready-append, settle_now-Sound, write_batch-Sound,
}

waiting_ids-middle :
    {A : Type 0} (before after : List (Slot A × Bool × A)) (slot : Slot A) (e : Bool) (v : A)
    (x : ℕ)
    → occurs x (waiting_ids (before ++ (slot, e, v) ∷ after))
      ≡ one_if (slot.id == x) + occurs x (waiting_ids (before ++ after))
waiting_ids-middle [] after slot e v x = refl
waiting_ids-middle ((y, e', v') ∷ before) after slot e v x =
    omega (arith, waiting_ids-middle before after slot e v x)

module _ {A : Type 0} (null : A) (value_of : Task → A) (decode_task : Task → ℕ → Option Task)
    (encode_task : A → Task → ℕ → Encoded A) (run : ℕ → Task → A → Outcome A)
    (keeps : (v : A) (t : Task) (at : ℕ) (t' : Task)
      → encode_task v t at ≡ full t'
      → t'.flags_to_host ≡ t.flags_to_host) where
  service-Sound :
      {s : RxQueue A} (slot : Slot A)
      → Sound null value_of decode_task encode_task run s (slot.id ∷ []) 0 0
      → slot.task ≡ slot.job
      → slot.value ≡ slot.args
      → Sound null value_of decode_task encode_task run
          (service null value_of decode_task encode_task run s slot)
          []
          0
          0
  unfolding service
  service-Sound {s} slot d t v =
      let mine : Outcome A = run (bit_and slot.task.flags_to_host 0xFFFF) slot.task slot.value in
      let same : answer null value_of decode_task encode_task run slot ≡ outcome mine =
        ap (λ j. outcome (run (bit_and j.flags_to_host 0xFFFF) j slot.args)) (sym t)
        ∙ ap (λ a. outcome (run (bit_and slot.task.flags_to_host 0xFFFF) slot.task a)) (sym v) in
      elim (Outcome-cases mine) [
        | inl (r, o) ↦
            rw (service, o)
              (settle_now-Sound null value_of decode_task encode_task run keeps
                (ran null value_of decode_task encode_task run slot) false r false d
                (same ∙ ap outcome o) refl)
        | inr (inl (r, o)) ↦
            rw (service, o)
              (settle_now-Sound null value_of decode_task encode_task run keeps slot true r false d
                (same ∙ ap outcome o) refl)
        | inr (inr (e, r, o)) ↦
            rw (service, o)
              (record {
                conserved = λ x.
                    let split =
                      ap (occurs x) (
                        waiting_ids-append s.waiting
                          ((ran null value_of decode_task encode_task run slot, e, r) ∷ []))
                      ∙ occurs-append x (waiting_ids s.waiting) (slot.id ∷ []) in
                    omega (arith, d.conserved x, split);
                ready = d.ready;
                waits =
                    Waits-append null value_of decode_task encode_task run keeps s.waiting _ d.waits
                      (same ∙ ap outcome o, refl, tt);
                finished = d.finished;
                right = d.right;
                counted = d.counted;
                awaited = omega (
                  arith,
                  d.awaited,
                  length-append s.waiting
                      ((ran null value_of decode_task encode_task run slot, e, r) ∷ []),
                );
              })
      ]

  service_batch-Sound :
      (n : ℕ) {s : RxQueue A}
      → Sound null value_of decode_task encode_task run s [] 0 0
      → Sound null value_of decode_task encode_task run
          (service_batch null value_of decode_task encode_task run n s).1
          []
          0
          0
  unfolding service_batch
  service_batch-Sound zero d = d
  service_batch-Sound (suc n) {s} d = elim (List-cases s.to_work) [
    | inl e ↦ rw e (record {
      conserved = λ x. omega (arith, d.conserved x, ap (λ l. occurs x (ids l)) e);
      ready = tt;
      waits = d.waits;
      finished = d.finished;
      right = d.right;
      counted = d.counted;
      awaited = d.awaited;
    })
    | inr (slot, rest, e) ↦
        let s1 : RxQueue A = record s { to_work = rest } in
        let (t, v, others) = subst (Ready null value_of decode_task encode_task run) e d.ready in
        let d1 : Sound null value_of decode_task encode_task run s1 (slot.id ∷ []) 0 0 = record {
          conserved = λ x. omega (arith, d.conserved x, ap (λ l. occurs x (ids l)) e);
          ready = others;
          waits = d.waits;
          finished = d.finished;
          right = d.right;
          counted = d.counted;
          awaited = d.awaited;
        } in
        rw e (service_batch-Sound n (service-Sound slot d1 t v))
  ]

  arrive-ids :
      (n x : ℕ) (ts : List Task)
      → occurs x (ids (arrive null value_of decode_task encode_task run n ts)) + one_if (ltb x n)
        ≡ one_if (ltb x (n + length ts))
  arrive-ids n x [] = ground arith
  arrive-ids n x (t ∷ ts) = ground (arith, arrive-ids (n + 1) x ts)

  arrive-Ready :
      (n : ℕ) (ts : List Task)
      → Ready null value_of decode_task encode_task run
          (arrive null value_of decode_task encode_task run n ts)
  arrive-Ready n [] = tt
  arrive-Ready n (t ∷ ts) = (refl, refl, arrive-Ready (n + 1) ts)

  claim-Sound :
      {s : RxQueue A} (a : Answer) (lock : Lock)
      → Sound null value_of decode_task encode_task run s [] 0 0
      → Sound null value_of decode_task encode_task run
          (claim null value_of decode_task encode_task run s a lock).1
          []
          0
          0
  claim-Sound nothing lock d = record {
    conserved = d.conserved;
    ready = d.ready;
    waits = d.waits;
    finished = d.finished;
    right = d.right;
    counted = d.counted;
    awaited = d.awaited;
  }
  claim-Sound failed lock d = record {
    conserved = d.conserved;
    ready = d.ready;
    waits = d.waits;
    finished = d.finished;
    right = d.right;
    counted = d.counted;
    awaited = d.awaited;
  }
  claim-Sound {s} decoded lock d =
      let new = arrive null value_of decode_task encode_task run s.received lock.resolved in
      record {
        conserved = λ x.
            let split =
              ap (occurs x) (ids-append s.to_work new)
              ∙ occurs-append x (ids s.to_work) (ids new) in
            omega (arith, d.conserved x, split, arrive-ids s.received x lock.resolved);
        ready =
            Ready-append null value_of decode_task encode_task run keeps s.to_work new d.ready
              (arrive-Ready s.received lock.resolved);
        waits = d.waits;
        finished = d.finished;
        right = d.right;
        counted = d.counted;
        awaited = d.awaited;
      }

  enqueue_lock-Sound :
      (stealing : Bool) {s : RxQueue A}
      → Sound null value_of decode_task encode_task run s [] 0 0
      → Sound null value_of decode_task encode_task run
          (enqueue_lock null value_of decode_task encode_task run stealing s).1
          []
          0
          0
  unfolding enqueue_lock
  enqueue_lock-Sound stealing {s} d = elim (Bool-cases (stealing && not (is_empty s.to_work))) [
    | inl busy ↦ rw busy d
    | inr free ↦ rw free (claim-Sound (decode decode_task s.lock).0 (decode decode_task s.lock).1 d)
  ]

  without :
      (before after : List (Slot A × Bool × A)) (slot : Slot A) (e : Bool) (v : A)
      → Waits null value_of decode_task encode_task run (before ++ (slot, e, v) ∷ after)
      → Waits null value_of decode_task encode_task run (before ++ after)
        × (answer null value_of decode_task encode_task run slot ≡ (e, v))
        × (slot.task.flags_to_host ≡ 0)
  without [] after slot e v (a, f, w) = (w, a, f)
  without ((x, e', v') ∷ before) after slot e v (a, f, w) =
      let (w', a', f') = without before after slot e v w in ((a, f, w'), a', f')

  -- A callback on a result has been taken out of those that wait.
  taken :
      {s : RxQueue A} (before after : List (Slot A × Bool × A)) (slot : Slot A) (e : Bool) (v : A)
      → Sound null value_of decode_task encode_task run s [] 0 0
      → s.waiting ≡ before ++ (slot, e, v) ∷ after
      → Sound null value_of decode_task encode_task run
          (record s { waiting = before ++ after })
          (slot.id ∷ [])
          0
          1
        × (answer null value_of decode_task encode_task run slot ≡ (e, v))
        × (slot.task.flags_to_host ≡ 0)
  taken {s} before after slot e v d h =
      let (rest, a, f) =
        without before after slot e v
          (subst (Waits null value_of decode_task encode_task run) h d.waits) in
      (
        record {
          conserved = λ x. omega (
            arith,
            d.conserved x,
            ap (λ w. occurs x (waiting_ids w)) h,
            waiting_ids-middle before after slot e v x,
          );
          ready = d.ready;
          waits = rest;
          finished = d.finished;
          right = d.right;
          counted = d.counted;
          awaited = omega (
            arith,
            d.awaited,
            ap length h,
            length-append before after,
            length-append before ((slot, e, v) ∷ after),
          );
        },
        a,
        f,
      )

  step-Sound :
      {s s' : RxQueue A}
      → Step null value_of decode_task encode_task run s s'
      → Sound null value_of decode_task encode_task run s [] 0 0
      → Sound null value_of decode_task encode_task run s' [] 0 0
  unfolding service_batch_immediate
  step-Sound (claims stealing) d = enqueue_lock-Sound stealing d
  step-Sound serves d = service_batch-Sound 5 d
  step-Sound (writes n) d = write_batch-Sound null value_of decode_task encode_task run keeps n d
  step-Sound (settles before after slot e v h) d =
      let (d1, a, f) = taken before after slot e v d h in
      settle_now-Sound null value_of decode_task encode_task run keeps slot e v true d1 a
        (ground arith)
  step-Sound (outside lock return_lock) d = record {
    conserved = d.conserved;
    ready = d.ready;
    waits = d.waits;
    finished = d.finished;
    right = d.right;
    counted = d.counted;
    awaited = d.awaited;
  }

  pub Reach-Sound :
      {s : RxQueue A}
      → Reach null value_of decode_task encode_task run s
      → Sound null value_of decode_task encode_task run s [] 0 0
  Reach-Sound (start lock return_lock) = record {
    conserved = λ x. ground arith;
    ready = tt;
    waits = tt;
    finished = tt;
    right = tt;
    counted = refl;
    awaited = refl;
  }
  Reach-Sound (next r step) = step-Sound step (Reach-Sound r)
