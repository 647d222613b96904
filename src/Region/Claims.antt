-- ===== src/Region/Claims.antt =====
-- src/memory/regionRegistry.ts: the invariant of the allocator, and the writes that end every
-- successful branch.
use knitting.Base.{
  ℕ, ◌%◌, ◌^◌, ◌-◌, ◌/◌, ◌<◌, Bool, true, false, ◌&&◌, ◌||◌, ◌≡◌, refl, ap, List, some, arith, ◌==◌,
  Bool-cases, inl, inr, bit_or, bit_and,
}
use knitting.Base.Bits.{bit_or_low, bit_and_high}
use knitting.Base.Lanes.{Word, xor}
use knitting.Header.{Task}
use knitting.Region.{Registry, Outcome, start_mask, put}
use knitting.Region.Allocate.{claim}
use knitting.Region.Owners.{tracks, Distinct, place}
use knitting.Region.Layout.{Layout}

-- The table lists disjoint regions in order; `used` has the lanes of the table; a lane that is not
-- used is free: its two toggles agree.
pub record Inv (r : Registry) : Type 0 where
  pub layout : Layout r.sizes 0 r.table
  pub distinct : Distinct r.table
  pub covers : (i : ℕ) → i < 32 → r.used i ≡ tracks r.table i
  pub settled : (i : ℕ) → i < 32 → r.used i ≡ false → r.host_last i ≡ r.worker_bits i

-- A lane whose region has been handed out and not been freed.
abbrev pub live : Registry → ℕ → Bool
live r i = r.used i && xor (r.host_last i) (r.worker_bits i)

-- What became of the regions in use: each is where it was.
abbrev pub Kept : Registry → Registry → Type 0
Kept r r' =
    (j : ℕ)
    → j < 32
    → live r j ≡ true
    → (live r' j ≡ true) × (place r'.table j ≡ place r.table j) × (r'.sizes j ≡ r.sizes j)

-- A region of `size` bytes was handed to the lane `slot`, which was free; the task carries it.
pub record Allocated (r : Registry) (size : ℕ) (o : Outcome) (slot : ℕ) : Type 0 where
  pub inv : Inv o.reg
  pub answer : o.slot ≡ some slot
  pub lane : slot < 32
  pub idle : live r slot ≡ false
  pub owned : live o.reg slot ≡ true
  pub placed : place o.reg.table slot ≡ some o.task.start
  pub sized : o.reg.sizes slot ≡ size
  pub tagged : o.task.slot_buffer % 32 ≡ slot
  pub kept : Kept r o.reg

-- What a branch has to show of the table that it writes.
pub record Fits (r : Registry) (u : Word) (t : List ℕ) (start slot size : ℕ) (fb : Word)
    : Type 0 where
  pub lane : slot < 32
  pub bits : (j : ℕ) → j < 32 → fb j ≡ (j == slot)
  pub unused : u slot ≡ false
  pub layout : Layout (put r.sizes slot size) 0 t
  pub distinct : Distinct t
  pub covers : (j : ℕ) → j < 32 → (u j || (j == slot)) ≡ tracks t j
  pub settled : (j : ℕ) → j < 32 → u j ≡ false → r.host_last j ≡ r.worker_bits j
  pub placed : place t slot ≡ some start
  pub stays : (j : ℕ) → j < 32 → live r j ≡ true → (u j ≡ true) × (place t j ≡ place r.table j)

tagged_lem : (w slot : ℕ) → slot < 32 → bit_or (bit_and w start_mask) slot % 32 ≡ slot
tagged_lem w slot h =
    let e = bit_and_high 5 w (2 ^ 27 - 1) in
    omega (arith, e, bit_or_low 5 (bit_and w start_mask) (bit_and (w / 32) (2 ^ 27 - 1)) slot e h)

module _ {r : Registry} {u : Word} {t : List ℕ} {start slot size : ℕ} {fb : Word} (task : Task)
    (tb : List ℕ) (f : Fits r u t start slot size fb) where
  agree : r.host_last slot ≡ r.worker_bits slot
  agree = f.settled slot f.lane f.unused

  pub claim-Allocated :
      Allocated r size (claim (record r { table = tb; used = u }) task t start slot fb size) slot
  unfolding claim
  claim-Allocated = record {
    inv = record {
      layout = f.layout;
      distinct = f.distinct;
      covers = λ i lt. ground (arith, f.covers i lt, f.bits i lt);
      settled = λ i lt n. ground (arith, f.bits i lt, f.settled i lt);
    };
    answer = refl;
    lane = f.lane;
    idle = ground (arith, agree);
    owned = ground (arith, agree, f.bits slot f.lane);
    placed = f.placed;
    sized = ground arith;
    tagged = tagged_lem task.slot_buffer slot f.lane;
    kept = λ j lt l. elim (Bool-cases (j == slot)) [
      | inl e ↦
          let same : live r j ≡ live r slot = ap (live r) (ground arith) in
          absurd (ground (arith, same, agree))
      | inr n ↦ (ground (arith, f.bits j lt, f.stays j lt l), (f.stays j lt l).1, rw n)
    ];
  }
