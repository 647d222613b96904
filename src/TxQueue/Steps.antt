-- ===== src/TxQueue/Steps.antt =====
-- src/runtime/tx-queue.ts: each step of a run keeps the slots sound.
use knitting.Base.{
  ℕ, zero, suc, ◌+◌, ◌-◌, ◌<◌, ◌≤◌, Bool, true, false, ◌≡◌, refl, ap, sym, ◌∙◌, subst, none, some,
  arith, ◌==◌, Bool-cases, Option-cases, inl, inr,
}
use knitting.Base.Count.{count-of_none}
use knitting.Base.Maps.{put}
use knitting.Header.{Task}
use knitting.Lock.{Lock}
use knitting.AbortSignals.{Store}
use knitting.TxQueue.{
  TxQueue, is_held, create, settle_once, abort, complete, settle_promise_payload, flush_to_worker,
  reject_all, reject_slots, on_return_resolved, new_slot,
}
use knitting.TxQueue.Runs.{
  Sound, Step, enqueues, completes, settles, aborts, rejects, flushes, closes, others, Reach, start,
  next,
}
use knitting.TxQueue.Sound.{
  drop-Held, frame-Sound, Kept, settle_once-Kept, settle_once-Sound, settle-release,
  occurs-down_from,
}
use knitting.TxQueue.Enqueue.{enqueue-Sound}

module _ {A : Type 0} (null exhausted : A) (encode_task : Task → ℕ → Bool × Task) where
  on_return-in_used :
      (s : TxQueue A) (i : ℕ) → (on_return_resolved null exhausted s i).in_used ≡ s.in_used - 1
  unfolding on_return_resolved
  on_return-in_used s i = refl

  -- A slot is settled and given back, and one less is in use.
  released :
      {s : TxQueue A} (i c : ℕ) (e : Bool) (v : A)
      → Sound s s.in_used
      → s.deferred i ≡ some c
      → let s' = on_return_resolved null exhausted (settle_once null exhausted s c e v) i in
        Sound s' s'.in_used
  released {s} i c e v d h =
      subst (Sound _)
        (sym (
          on_return-in_used (settle_once null exhausted s c e v) i
          ∙ ap (λ n. n - 1) (Kept.in_used (settle_once-Kept null exhausted s c e v))))
        (settle-release null exhausted i c e v d h)

  complete-Sound :
      {s : TxQueue A} (header : Task) (v : A)
      → Sound s s.in_used
      → let s' = complete null exhausted s header v in Sound s' s'.in_used
  unfolding complete
  complete-Sound {s} header v d = elim (Option-cases (s.deferred header.id)) [
    | inl n ↦ rw (complete, n) (frame-Sound null exhausted _ _ s.lock s.signals d)
    | inr (c, h) ↦
        rw (complete, h)
          (released header.id c _ v (frame-Sound null exhausted _ _ s.lock s.signals d) h)
  ]

  settle-Sound :
      {s : TxQueue A} (i : ℕ) (is_rejected : Bool) (v : A)
      → Sound s s.in_used
      → let s' = (settle_promise_payload null exhausted encode_task s i is_rejected v).1 in
        Sound s' s'.in_used
  unfolding settle_promise_payload
  settle-Sound {s} i is_rejected v d = elim (Option-cases (s.deferred i)) [
    | inl n ↦ rw (settle_promise_payload, n) d
    | inr (c, h) ↦ elim (Bool-cases is_rejected) [
      | inl r ↦ rw (settle_promise_payload, h, r) (released i c true v d h)
      | inr r ↦ rw (settle_promise_payload, h, r) (frame-Sound null exhausted _ _ _ s.signals d)
    ]
  ]

  abort-Sound :
      {s : TxQueue A} (c : ℕ)
      → Sound s s.in_used
      → let s' = abort null exhausted s c in Sound s' s'.in_used
  unfolding abort
  abort-Sound {s} c d = elim (Bool-cases (s.triggered c)) [
    | inl t ↦ rw t d
    | inr t ↦ elim (Option-cases (s.signal_of c)) [
      | inl n ↦ rw (t, n) d
      | inr (signal, h) ↦ rw (t, h) (frame-Sound null exhausted s.task s.value s.lock _ d)
    ]
  ]

  -- A slot that is cleared and not given back.
  dropped :
      (t : TxQueue A) (w i : ℕ)
      → Sound (on_return_resolved null exhausted t i) w
      → Sound
          (record t {
            task = put t.task i (new_slot i);
            value = put t.value i null;
            deferred = put t.deferred i none;
          })
          w
  unfolding on_return_resolved
  dropped t w i d = record {
    owned = drop-Held d.owned i t.free refl;
    once = d.once;
    old = d.old;
    known = d.known;
  }

  -- What the loop of `rejectAll` has done after the slots from `i` on, `n` of them.
  record Rejected (s s' : TxQueue A) (i n : ℕ) : Type 0 where
    working : ℕ
    sound : Sound s' working
    len : s'.len ≡ s.len
    swept : (j : ℕ) → i ≤ j → j < i + n → s'.deferred j ≡ none
    stays : (j : ℕ) → s.deferred j ≡ none → s'.deferred j ≡ none

  reject_slots-Rejected :
      (reason : A) (n i : ℕ) {s : TxQueue A} {w : ℕ}
      → Sound s w
      → Rejected s (reject_slots null exhausted encode_task s reason i n) i n
  unfolding reject_slots
  reject_slots-Rejected reason zero i {w = w} d = record {
    working = w;
    sound = d;
    len = refl;
    swept = λ j a b. absurd (omega arith);
    stays = λ j h. h;
  }
  reject_slots-Rejected reason (suc n) i {s} {w} d = elim (Option-cases (s.deferred i)) [
    | inl e ↦
        let r = reject_slots-Rejected reason n (i + 1) d in
        rw e (record {
          working = r.working;
          sound = r.sound;
          len = r.len;
          swept = λ j a b. elim (Bool-cases (j == i)) [
            | inl q ↦
                let at : i ≡ j = ground arith in r.stays j (subst (λ k. s.deferred k ≡ none) at e)
            | inr q ↦ r.swept j (ground arith) (omega arith)
          ];
          stays = r.stays;
        })
    | inr (c, e) ↦
        let t : TxQueue A = settle_once null exhausted s c true reason in
        let k = settle_once-Kept null exhausted s c true reason in
        let s1 : TxQueue A = record t {
          task = put t.task i (new_slot i);
          value = put t.value i null;
          deferred = put t.deferred i none;
        } in
        let d1 : Sound s1 (w - 1) =
          dropped t (w - 1) i (settle-release null exhausted i c true reason d e) in
        let r = reject_slots-Rejected reason n (i + 1) d1 in
        rw e (record {
          working = r.working;
          sound = r.sound;
          len = r.len ∙ k.len;
          swept = λ j a b. elim (Bool-cases (j == i)) [
            | inl q ↦ r.stays j (rw q refl)
            | inr q ↦ r.swept j (ground arith) (omega arith)
          ];
          stays = λ j h. r.stays j (elim (Bool-cases (j == i)) [
            | inl q ↦ rw q refl
            | inr q ↦ rw q (ap (λ f. f j) k.deferred ∙ h)
          ]);
        })
  ]

  close-Sound :
      {s : TxQueue A} (reason : A)
      → Sound s s.in_used
      → let s' = reject_all null exhausted encode_task s reason in Sound s' s'.in_used
  unfolding reject_all
  close-Sound {s} reason d =
      let r = reject_slots-Rejected reason s.len 0 d in
      let s1 : TxQueue A = reject_slots null exhausted encode_task s reason 0 s.len in
      let zero_left : r.working ≡ 0 =
        r.sound.owned.counted
        ∙ count-of_none s1.len (λ i. is_held (s1.deferred i))
            (λ i lt. ap is_held (r.swept i (omega arith) (omega (arith, r.len)))) in
      let d1 = subst (Sound s1) zero_left r.sound in
      record { owned = d1.owned; once = d1.once; old = d1.old; known = d1.known }

  create-Sound :
      (max : ℕ) (lock : Lock) (signals : Store) → Sound (create null exhausted max lock signals) 0
  unfolding create
  create-Sound max lock signals = record {
    owned = record {
      below = λ i p. absurd (cc);
      live = λ i p. absurd (cc);
      dead = λ i p. refl;
      distinct = λ i j id p q. absurd (cc);
      counted = sym (count-of_none max (λ i. false) (λ i lt. refl));
      stack = λ i. ground (arith, occurs-down_from i 0 max);
      stack_below = λ i p. ground (arith, occurs-down_from i 0 max);
    };
    once = λ x. refl;
    old = λ x h. absurd (cc);
    known = λ x h. absurd (omega arith);
  }

  step-Sound :
      {s s' : TxQueue A} {fine : Bool}
      → Step null exhausted encode_task s fine s'
      → Sound s s.in_used
      → Sound s' s'.in_used
  unfolding flush_to_worker
  step-Sound (enqueues req args s' e) d = enqueue-Sound null exhausted encode_task req args d e
  step-Sound (completes header v lt) d = complete-Sound header v d
  step-Sound (settles i is_rejected v lt) d = settle-Sound i is_rejected v d
  step-Sound (aborts c) d = abort-Sound c d
  step-Sound {s = s} (rejects c signal reason lt h) d =
      subst (Sound _) (sym (Kept.in_used (settle_once-Kept null exhausted s c true reason)))
        (settle_once-Sound null exhausted c true reason d lt)
  step-Sound {s = s} flushes d = frame-Sound null exhausted s.task s.value _ s.signals d
  step-Sound (closes reason) d = close-Sound reason d
  step-Sound {s = s} (others lock signals) d =
      frame-Sound null exhausted s.task s.value lock signals d

  pub Reach-Sound :
      {s : TxQueue A} {ok : Bool} → Reach null exhausted encode_task ok s → Sound s s.in_used
  unfolding create
  Reach-Sound (start max lock signals) = create-Sound max lock signals
  Reach-Sound (next r step) = step-Sound step (Reach-Sound r)
