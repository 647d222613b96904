-- ===== src/Region.antt =====
-- src/memory/regionRegistry.ts: the allocator of payload regions in the shared arena.
--
-- A mask word is its 32 lanes (`Word`); a table entry, a start or a size is a u32 number. `table` is
-- `startAndIndex[0 .. tableLength)`: what lies behind is EMPTY and never read. Shifting the entries
-- up by one to write at an index is `insert_at`.
pub mod Entry
pub mod Allocate
pub mod Layout
pub mod Owners
pub mod Reuse
pub mod Scanning
pub mod Claims
pub mod Branches
pub mod Reclaim
pub mod Full
pub mod Safety
pub mod Usage
pub mod Lifetime
mod Tests
use knitting.Base.{
  ℕ, zero, suc, length, set, ◌||◌, ◌+◌, ◌-◌, ◌%◌, ◌^◌, bit_and, bit_or, Bool, true, false, not,
  ◌&&◌, List, [], ◌∷◌, ◌++◌, Option, none, some, ltb, leb, ◌==◌, if◌then◌else◌,
}
use knitting.Header.{Task}
use knitting.Base.Lanes.{
  Word, zeros, ones, bit, not_w, ◌&◌, ◌∣w◌, ◌^w◌, is_zero, same, isolate, lead,
}

-- `SLOT_MASK` and `START_MASK`
abbrev pub slot_mask : ℕ
slot_mask = 31

abbrev pub start_mask : ℕ
start_mask = 0xFFFFFFE0

pub slot_of : ℕ → ℕ
slot_of v = bit_and v slot_mask

pub start_of : ℕ → ℕ
start_of v = bit_and v start_mask

-- `(start | slotIndex) >>> 0`
pub entry : ℕ → ℕ → ℕ
entry start slot = bit_or start slot

-- `(a + b) >>> 0` and `(a - b) >>> 0`
abbrev add_u32 : ℕ → ℕ → ℕ
add_u32 a b = (a + b) % 2 ^ 32

abbrev pub sub_u32 : ℕ → ℕ → ℕ
sub_u32 a b = (a + 2 ^ 32 - b) % 2 ^ 32

pub record Registry : Type 0 where
  pub table : List ℕ
  pub sizes : ℕ → ℕ
  pub used : Word
  pub host_last : Word
  -- The two shared words.
  pub host_bits : Word
  pub worker_bits : Word

-- What an allocation leaves: `slot` is `none` for -1.
pub record Outcome : Type 0 where
  pub reg : Registry
  pub task : Task
  pub slot : Option ℕ

abbrev pub empty : Registry
empty = record {
  table = [];
  sizes = λ _. 0;
  used = zeros;
  host_last = zeros;
  host_bits = zeros;
  worker_bits = zeros;
}

abbrev pub put : (ℕ → ℕ) → ℕ → ℕ → ℕ → ℕ
put f k v i = if i == k then v else f i

pub insert_at : ℕ → ℕ → List ℕ → List ℕ
insert_at zero e t = e ∷ t
insert_at (suc i) e [] = e ∷ []
insert_at (suc i) e (v ∷ t) = v ∷ insert_at i e t

abbrev pub is_nil : List ℕ → Bool
is_nil [] = true
is_nil (_ ∷ _) = false

-- The end of the region of an entry.
abbrev pub end_of : (ℕ → ℕ) → ℕ → ℕ
end_of sizes v = add_u32 (start_of v) (sizes (slot_of v))

-- The loop of `compactFreeBitsStable`: the entries of lanes in `free` go, the order stays.
pub compact_free : Word → List ℕ → List ℕ
compact_free free [] = []
compact_free free (v ∷ t) =
    if (v == 0xFFFFFFFF) || free (slot_of v) then compact_free free t else v ∷ compact_free free t

-- `updateTable`
pub update_table : Registry → Registry
update_table r =
    let free = not_w (r.host_last ^w r.worker_bits) in
    if is_nil r.table || is_zero free
    then r
    else if same free ones
    then record r { table = []; used = zeros }
    else if is_zero (free & r.used)
    then r
    else record r {
      table = compact_free (free & r.used) r.table;
      used = r.used & not_w (free & r.used);
    }

-- `(len + 63) & ~63`
pub aligned : ℕ → ℕ
aligned len = bit_and ((len + 63) % 2 ^ 32) 0xFFFFFFC0

-- `setSlotLength`
pub set_slot_length : Registry → ℕ → ℕ → Registry
set_slot_length r slot len = record r { sizes = put r.sizes (bit_and slot slot_mask) (aligned len) }

-- `free`: one atomic toggle of the lane.
pub free : Registry → ℕ → Registry
free r index = record r { worker_bits = r.worker_bits ^w bit (bit_and index slot_mask) }
