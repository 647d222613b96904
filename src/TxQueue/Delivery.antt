-- ===== src/TxQueue/Delivery.antt =====
-- src/runtime/tx-queue.ts: what callers of the queue can rely on, and the slots that refusals lose.
use knitting.Base.{
  ℕ, ◌+◌, ◌<◌, ◌≤◌, Bool, true, false, not, ◌≡◌, ◌⊎◌, ◌≢◌, refl, ap, ◌∙◌, ◌∷◌, Option, none, some,
  arith, ◌==◌, Bool-cases, Option-cases, inl, inr,
}
use knitting.Base.Count.{count, count-none, count-of_none}
use knitting.Base.Maps.{is_id, occurs}
use knitting.Base.Slots.{holding}
use knitting.Header.{Task}
use knitting.TxQueue.{TxQueue, is_held, settle_once, complete, on_return_resolved}
use knitting.TxQueue.Runs.{ids, Sound, Reach}
use knitting.TxQueue.Sound.{call_of}
use knitting.TxQueue.Steps.{Reach-Sound}

module _ {A : Type 0} (null exhausted : A) (encode_task : Task → ℕ → Bool × Task) where
  pub used :
      {s : TxQueue A} → Sound s s.in_used → (i : ℕ) → is_held (s.deferred i) ≡ true → 0 < s.in_used
  used {s} d i h = elim (Bool-cases (s.in_used == 0)) [
    | inl z ↦ absurd (
        ground (
          arith,
          d.owned.counted,
          count-none s.len (λ j. is_held (s.deferred j)) (ground (arith, d.owned.counted)) i
              (d.owned.below i h),
        ))
    | inr z ↦ ground arith
  ]

  held_by : {o : Option ℕ} {c : ℕ} → is_id o c ≡ true → o ≡ some c
  held_by {o = none} h = absurd (cc)
  held_by {o = some x} h = ground arith

  nowhere :
      {s : TxQueue A} {w : ℕ} (x : ℕ) → Sound s w → s.calls ≤ x → holding s.len s.deferred x ≡ 0
  nowhere {s} x d le =
      count-of_none s.len (λ i. is_id (s.deferred i) x)
        (λ i lt. elim (Option-cases (s.deferred i)) [
          | inl n ↦ ap (λ o. is_id o x) n
          | inr (c, h) ↦ ap (λ o. is_id o x) h ∙ ground (arith, call_of null exhausted i c d h)
        ])

  -- In every run, whatever is refused, aborted or closed, no call is settled twice, a call that was
  -- made is settled or holds a slot, and a number that no call has is never settled.
  pub settled_once :
      {s : TxQueue A} {ok : Bool}
      → Reach null exhausted encode_task ok s
      → (x : ℕ)
      → (occurs x (ids s.settled) ≤ 1)
        × (x < s.calls → (occurs x (ids s.settled) ≡ 1) ⊎ (0 < holding s.len s.deferred x))
        × (s.calls ≤ x → occurs x (ids s.settled) + holding s.len s.deferred x ≡ 0)
  settled_once {s} r x =
      let d = Reach-Sound null exhausted encode_task r in
      (
        ground (arith, d.once x),
        λ lt. ground (arith, d.once x, d.known x lt),
        λ le. ground (arith, d.once x, d.old x, nowhere x d le),
      )

  -- In every run, two slots that are in use belong to different calls, neither lies on the free
  -- stack, and `inUsed` counts them.
  pub slots_apart :
      {s : TxQueue A} {ok : Bool}
      → Reach null exhausted encode_task ok s
      → ((i j c : ℕ) → s.deferred i ≡ some c → s.deferred j ≡ some c → i ≡ j)
        × ((i c : ℕ) → s.deferred i ≡ some c → (i < s.len) × (occurs i s.free ≡ 0))
        × (s.in_used ≡ count s.len (λ i. is_held (s.deferred i)))
  slots_apart {s} r =
      let d = Reach-Sound null exhausted encode_task r in
      (
        d.owned.distinct,
        λ i c h. (d.owned.below i (ap is_held h), ground (arith, d.owned.stack i, ap is_held h)),
        d.owned.counted,
      )

  -- In a run, a response to a slot that an unsettled call holds settles that call with the
  -- response's value, as an error where the header says so; the slot is free again, and no other
  -- slot changes hands.
  pub complete-answers :
      {s : TxQueue A} {ok : Bool}
      → Reach null exhausted encode_task ok s
      → (header : Task) (v : A) (c : ℕ) → s.deferred header.id ≡ some c
      → s.triggered c ≡ false
      → let s' = complete null exhausted s header v in
        (s'.settled ≡ (c, not (header.flags_to_host == 0), v) ∷ s.settled)
        × (s'.free ≡ header.id ∷ s.free)
        × (s'.in_used + 1 ≡ s.in_used)
        × (holding s'.len s'.deferred c ≡ 0)
        × ((i : ℕ) → i ≢ header.id → s'.deferred i ≡ s.deferred i)
  unfolding settle_once on_return_resolved complete count
  complete-answers {s} r header v c h t =
      let d = Reach-Sound null exhausted encode_task r in
      let busy = used d header.id (ap is_held h) in
      rw (complete, h, t)
        (
          refl,
          refl,
          omega arith,
          count-of_none s.len _ (λ i lt. elim (Bool-cases (i == header.id)) [
            | inl q ↦ rw q refl
            | inr q ↦ rw q (elim (Bool-cases (is_id (s.deferred i) c)) [
              | inl same ↦ absurd (ground (arith, d.owned.distinct i header.id c (held_by same) h))
              | inr other ↦ other
            ])
          ]),
          λ i ne. ground arith,
        )
