-- ===== src/Runner/Calls.antt =====
-- src/worker/composable-runners.ts against src/runtime/tx-queue.ts: what the host writes into a
-- task is what the worker reads.
use knitting.Base.{
  ℕ, ◌+◌, ◌-◌, ◌*◌, ◌/◌, ◌<◌, ◌≤◌, ◌%◌, ◌^◌, bit_and, bit_or, Bool, not, ◌≡◌, ◌⊎◌, refl, ap, ◌∙◌,
  Option, none, some, arith, max, ltb, Bool-cases, inl, inr,
}
use knitting.Base.Bits.{bit_and_low, bit_or_low}
use knitting.Header.{Task, get_function_id, get_function_meta, get_slot_meta}
use knitting.Header.Packing.{slot_word}
use knitting.TxQueue.{function_word, stamped}
use knitting.Runner.{
  TimeoutSpec, now_stamp, elapsed, read_signal, expired, raced, apply_timeout_budget,
}

-- The worker reads the function's index, modulo 2^16, and the signal that the host wrote; no
-- signal is read where the host wrote none. A signal is to be below 2^16 - 1.
pub word_read :
    (t : Task) (f : ℕ) (signal : Option ℕ)
    → ((n : ℕ) → signal ≡ some n → n + 1 < 2 ^ 16)
    → let sent = record t { flags_to_host = function_word f signal } in
      (get_function_id sent ≡ f % 2 ^ 16) × (read_signal sent ≡ signal)
unfolding get_function_id get_function_meta
word_read t f none h =
    let low = bit_and_low 16 f in
    let w = bit_and f 0xFFFF in
    let empty : bit_and (w / 2 ^ 16) 0xFFFF ≡ 0 =
      bit_and_low 16 (w / 2 ^ 16) ∙ omega (arith, low) in
    (bit_and_low 16 w ∙ omega (arith, low), rw empty refl)
word_read t f (some n) h =
    let fits = h n refl in
    let low = bit_and_low 16 f in
    let encoded : bit_and (n + 1) 0xFFFF ≡ n + 1 = bit_and_low 16 (n + 1) ∙ omega (arith, fits) in
    let high = bit_and (n + 1) 0xFFFF * 2 ^ 16 % 2 ^ 32 in
    let placed : high ≡ (n + 1) * 2 ^ 16 = omega (arith, encoded, fits) in
    let whole : bit_or high (bit_and f 0xFFFF) ≡ high + bit_and f 0xFFFF =
      bit_or_low 16 high (n + 1) (bit_and f 0xFFFF) placed (omega (arith, low)) in
    let w = bit_or high (bit_and f 0xFFFF) in
    let read : bit_and (w / 2 ^ 16) 0xFFFF ≡ n + 1 =
      bit_and_low 16 (w / 2 ^ 16) ∙ omega (arith, whole, placed, low, fits) in
    (bit_and_low 16 w ∙ omega (arith, whole, placed, low), rw read (ground arith))

module _ {A : Type 0} where
  -- The host stamps a task when its own clock shows `t`, and the job returns a promise when the
  -- worker's clock shows `w`. The budget counts the time `e` as spent, the difference of these
  -- readings, or, where the worker's clock shows less than the stamp, 2^27 less the difference; `e`
  -- is below 2^27. Where the timeout is at most `e`, the result is settled at once, as the timeout
  -- says; where it is above, a timer runs for just the rest. So the time spent is that since the
  -- call only on clocks that agree, and with the worker's clock behind a short timeout has passed
  -- at once.
  pub budget_left :
      (task : Task) (spec : TimeoutSpec A) (t w e : ℕ) (job_error : Bool) (job_value : A)
      → e < 2 ^ 27
      → (w ≡ t + e) ⊎ ((w < t) × (w + 2 ^ 27 ≡ t + e))
      → let ran = apply_timeout_budget job_error job_value (stamped (some t) task) spec w in
        ((spec.ms ≤ e) × (ran ≡ expired (not spec.resolves) spec.value))
        ⊎ ((e < spec.ms)
            × (ran ≡ raced (spec.ms - e) (not spec.resolves) spec.value job_error job_value))
  budget_left task spec t w e job_error job_value lt read =
      let sent : Task = stamped (some t) task in
      let stamp : get_slot_meta sent ≡ t % 2 ^ 32 % 2 ^ 27 = (slot_word task (t % 2 ^ 32)).2 in
      let low = bit_and_low 27 (w % 2 ^ 32) in
      let exact : elapsed w sent ≡ e =
        bit_and_low 27 ((now_stamp w + 2 ^ 32 - get_slot_meta sent) % 2 ^ 32) ∙ elim read [
          | inl r ↦ omega (arith, lt, stamp, low, r)
          | inr r ↦ omega (arith, lt, stamp, low, r.1)
        ] in
      elim (Bool-cases (ltb e spec.ms)) [
        | inl l ↦
            let least : max 1 (spec.ms - e) ≡ spec.ms - e = ground arith in
            inr (
              ground arith,
              rw (exact, l)
                  (ap (λ ms. raced ms (not spec.resolves) spec.value job_error job_value) least),
            )
        | inr l ↦ inl (ground arith, rw (exact, l) refl)
      ]
