-- ===== src/Region/Entry.antt =====
-- src/memory/regionRegistry.ts: the entries of the table and the alignment of sizes.
use knitting.Base.{ℕ, ◌+◌, ◌-◌, ◌*◌, ◌/◌, ◌%◌, ◌^◌, ◌<◌, ◌≡◌, ◌∙◌, ap, arith}
use knitting.Base.Bits.{bit_and_low, bit_and_high, bit_or_low}
use knitting.Region.{slot_of, start_of, entry, aligned}

slot_of_lem : (v : ℕ) → slot_of v ≡ v % 32
unfolding slot_of
slot_of_lem v = bit_and_low 5 v

pub slot_of-lt : (v : ℕ) → slot_of v < 32
slot_of-lt v = omega (arith, slot_of_lem v)

pub start_of_lem : (v : ℕ) → start_of v ≡ v / 32 % 2 ^ 27 * 32
unfolding start_of
start_of_lem v = bit_and_high 5 v (2 ^ 27 - 1) ∙ ap (λ t. t * 32) (bit_and_low 27 (v / 32))

entry_lem : (start slot : ℕ) → start % 32 ≡ 0 → slot < 32 → entry start slot ≡ start + slot
unfolding entry
entry_lem start slot a s = bit_or_low 5 start (start / 32) slot (omega arith) s

-- A table entry packs a start, a multiple of 32 below 2^32, and a lane; both are read back.
pub start_of-entry :
    (start slot : ℕ)
    → start % 32 ≡ 0
    → start < 2 ^ 32
    → slot < 32
    → (start_of (entry start slot) ≡ start) × (slot_of (entry start slot) ≡ slot)
start_of-entry start slot a b s = omega (
  arith,
  entry_lem start slot a s,
  start_of_lem (entry start slot),
  slot_of_lem (entry start slot),
)

-- The entry of the first region is its lane alone.
pub start_of-slot : (slot : ℕ) → slot < 32 → (start_of slot ≡ 0) × (slot_of slot ≡ slot)
start_of-slot slot s = omega (arith, start_of_lem slot, slot_of_lem slot)

-- Sizes are rounded up to whole cache lines.
pub aligned_lem : (len : ℕ) → len < 2 ^ 31 → aligned len ≡ (len + 63) / 64 * 64
unfolding aligned
aligned_lem len h =
    bit_and_high 6 ((len + 63) % 2 ^ 32) (2 ^ 26 - 1)
    ∙ ap (λ t. t * 64) (bit_and_low 26 ((len + 63) % 2 ^ 32 / 64))
    ∙ omega arith

pub aligned-mod : (len : ℕ) → aligned len % 64 ≡ 0
unfolding aligned
aligned-mod len = omega (
  arith,
  bit_and_high 6 ((len + 63) % 2 ^ 32) (2 ^ 26 - 1),
  bit_and_low 26 ((len + 63) % 2 ^ 32 / 64),
)
