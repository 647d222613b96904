-- ===== src/Header/Packing.antt =====
-- src/memory/lock.ts: the fields that share a word of the task header.
use knitting.Base.{
  ℕ, ◌-◌, ◌*◌, ◌/◌, ◌%◌, ◌^◌, ◌<◌, bit_and, bit_or, true, false, not, ◌≡◌, refl, ◌∙◌, ap, arith,
  ◌==◌, Bool-cases, inl, inr,
}
use knitting.Base.Bits.{bit_and_low, bit_and_high, bit_or_low, bit_or_high}
use knitting.Base.Lanes.{bit, ◌&◌, ◌∣w◌, not_w, is_zero, is_zero-lane, is_zero-of_lanes}
use knitting.Header.{
  Task, get_function_id, set_function_id, get_function_meta, set_function_meta, get_slot_index,
  set_slot_index, get_slot_meta, set_slot_meta, has_flag, begin_promise, finish_promise,
  is_promise_pending, pending_flag, tracked_flag,
}

-- The two halves of the function word: what is written is read back modulo 2^16, and the other
-- half is kept.
pub function_word :
    (t : Task) (v : ℕ)
    → (get_function_id (set_function_id t v) ≡ v % 2 ^ 16)
      × (get_function_meta (set_function_id t v) ≡ get_function_meta t)
      × (get_function_meta (set_function_meta t v) ≡ v % 2 ^ 16)
      × (get_function_id (set_function_meta t v) ≡ get_function_id t)
unfolding get_function_id set_function_id get_function_meta set_function_meta
function_word t v =
    let w = t.flags_to_host in
    let high =
      bit_and_high 16 w (2 ^ 16 - 1) ∙ ap (λ x. x * 2 ^ 16) (bit_and_low 16 (w / 2 ^ 16)) in
    let keep = bit_and_low 16 w in
    let given = bit_and_low 16 v in
    let kept = bit_and_low 16 (w / 2 ^ 16) in
    let a =
      bit_or_low 16 (bit_and w 0xFFFF0000) (w / 2 ^ 16 % 2 ^ 16) (bit_and v 0xFFFF) high
        (omega (arith, given)) in
    let encoded = bit_and v 0xFFFF * 2 ^ 16 % 2 ^ 32 in
    let b =
      bit_or_high 16 (bit_and w 0xFFFF) (v % 2 ^ 16) encoded (omega (arith, given))
        (omega (arith, keep)) in
    let first = bit_or (bit_and w 0xFFFF0000) (bit_and v 0xFFFF) in
    let second = bit_or (bit_and w 0xFFFF) encoded in
    (
      omega (arith, bit_and_low 16 first, a, high, given),
      omega (arith, bit_and_low 16 (first / 2 ^ 16), a, high, given, kept),
      omega (arith, bit_and_low 16 (second / 2 ^ 16), b, keep, given),
      omega (arith, bit_and_low 16 second, b, keep, given),
    )

-- The lane and the caller's data in the slot word: what is written is read back modulo the width
-- of its field, and the other field is kept.
pub slot_word :
    (t : Task) (v : ℕ)
    → (get_slot_index (set_slot_index t v) ≡ v % 32)
      × (get_slot_meta (set_slot_index t v) ≡ get_slot_meta t)
      × (get_slot_meta (set_slot_meta t v) ≡ v % 2 ^ 27)
      × (get_slot_index (set_slot_meta t v) ≡ get_slot_index t)
unfolding get_slot_index set_slot_index get_slot_meta set_slot_meta
slot_word t v =
    let w = t.slot_buffer in
    let high = bit_and_high 5 w (2 ^ 27 - 1) ∙ ap (λ x. x * 2 ^ 5) (bit_and_low 27 (w / 2 ^ 5)) in
    let keep = bit_and_low 5 w in
    let low = bit_and_low 5 v in
    let given = bit_and_low 27 v in
    let kept = bit_and_low 27 (w / 2 ^ 5) in
    let a =
      bit_or_low 5 (bit_and w 0xFFFFFFE0) (w / 2 ^ 5 % 2 ^ 27) (bit_and v 31) high
        (omega (arith, low)) in
    let encoded = bit_and v 0x7FFFFFF * 2 ^ 5 % 2 ^ 32 in
    let b =
      bit_or_high 5 (bit_and w 31) (v % 2 ^ 27) encoded (omega (arith, given))
        (omega (arith, keep)) in
    let first = bit_or (bit_and w 0xFFFFFFE0) (bit_and v 31) in
    let second = bit_or (bit_and w 31) encoded in
    (
      omega (arith, bit_and_low 5 first, a, high, low),
      omega (arith, bit_and_low 27 (first / 2 ^ 5), a, high, low, kept),
      omega (arith, bit_and_low 27 (second / 2 ^ 5), b, keep, given),
      omega (arith, bit_and_low 5 second, b, keep, given),
    )

flag_lem : (t : Task) (k : ℕ) → k < 32 → has_flag t k ≡ t.local k
flag_lem t k lt = elim (Bool-cases (t.local k)) [
  | inl e ↦ elim (Bool-cases (is_zero (t.local & bit k))) [
    | inl z ↦ absurd (ground (arith, is_zero-lane (t.local & bit k) k z lt))
    | inr z ↦ ground arith
  ]
  | inr e ↦
      let none_set = is_zero-of_lanes (t.local & bit k) (λ i p. elim (Bool-cases (i == k)) [
        | inl q ↦
            let same : t.local i ≡ t.local k = ap t.local (ground arith) in ground (arith, same)
        | inr q ↦ ground arith
      ]) in
      ground (arith, none_set)
]

-- `beginPromisePayload` answers true where no promise is pending, and marks it, so that a second
-- call answers false; `finishPromisePayload` makes it answer true again. Neither touches the flag
-- of the promises that have been counted.
promise_flags :
    (t : Task)
    → ((begin_promise t).0 ≡ not (is_promise_pending t))
      × (is_promise_pending (begin_promise t).1 ≡ true)
      × ((begin_promise (begin_promise t).1).0 ≡ false)
      × (is_promise_pending (finish_promise t) ≡ false)
      × ((begin_promise (finish_promise t)).0 ≡ true)
      × (has_flag (begin_promise t).1 tracked_flag ≡ has_flag t tracked_flag)
      × (has_flag (finish_promise t) tracked_flag ≡ has_flag t tracked_flag)
unfolding begin_promise finish_promise is_promise_pending
promise_flags t =
    let begun = record t { local = t.local ∣w bit pending_flag } in
    let done = record t { local = t.local & not_w (bit pending_flag) } in
    let set0 : has_flag begun 0 ≡ true = ground (arith, flag_lem begun 0 (omega arith)) in
    let clear0 : has_flag done 0 ≡ false = ground (arith, flag_lem done 0 (omega arith)) in
    let set1 : has_flag begun 1 ≡ has_flag t 1 =
      ground (arith, flag_lem begun 1 (omega arith), flag_lem t 1 (omega arith)) in
    let clear1 : has_flag done 1 ≡ has_flag t 1 =
      ground (arith, flag_lem done 1 (omega arith), flag_lem t 1 (omega arith)) in
    elim (Bool-cases (has_flag t 0)) [
      | inl e ↦ rw (e, clear0) (refl, e, rw e refl, refl, refl, refl, clear1)
      | inr e ↦ rw (e, clear0, set0) (refl, refl, refl, refl, refl, set1, clear1)
    ]
