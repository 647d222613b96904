-- ===== src/Region/Allocate.antt =====
-- src/memory/regionRegistry.ts: `findAndInsert` and `allocTask`.
use knitting.Base.{
  ℕ, suc, length, set, ◌^◌, bit_and, bit_or, Bool, true, false, not, ◌&&◌, List, [], ◌∷◌, ◌++◌,
  Option, none, some, ltb, leb, ◌==◌, if◌then◌else◌,
}
use knitting.Header.{Task}
use knitting.Base.Lanes.{Word, zeros, bit, not_w, ◌&◌, ◌∣w◌, ◌^w◌, is_zero, same, isolate, lead}
use knitting.Region.{
  start_mask, slot_of, start_of, entry, sub_u32, Registry, Outcome, put, insert_at, is_nil, end_of,
  aligned,
}

-- The exact-fit loop: the first freed entry whose region has the size, with its index.
unfoldable pub exact_fit : Word → (ℕ → ℕ) → ℕ → List ℕ → Option (ℕ × ℕ)
exact_fit free sizes size [] = none
exact_fit free sizes size (v ∷ t) =
    if free (slot_of v) && (sizes (slot_of v) == size)
    then some (0, v)
    else elim (exact_fit free sizes size t) [ none ↦ none | some (i, u) ↦ some (suc i, u) ]

-- What the compacting scan leaves: the survivors, the first gap that is large enough (its index and
-- start), and the end of the last survivor.
pub record Scan : Type 0 where
  pub kept : List ℕ
  pub gap : Option (ℕ × ℕ)
  pub prev_end : ℕ

-- `insertAt` and `insertStart` are set once.
abbrev pub note_gap : Option (ℕ × ℕ) → Bool → ℕ → ℕ → Option (ℕ × ℕ)
note_gap (some g) fits write prev_end = some g
note_gap none fits write prev_end = if fits then some (write, prev_end) else none

-- The compacting scan, from index `write` on.
unfoldable pub scan : Word → (ℕ → ℕ) → ℕ → ℕ → Option (ℕ × ℕ) → ℕ → List ℕ → Scan
scan free sizes size write gap prev_end [] = record { kept = []; gap = gap; prev_end = prev_end }
scan free sizes size write gap prev_end (v ∷ t) = elim (free (slot_of v)) [
  | true ↦ scan free sizes size write gap prev_end t
  | false ↦
      let fits = leb size (sub_u32 (start_of v) prev_end) in
      let rest =
        scan free sizes size (suc write) (note_gap gap fits write prev_end) (end_of sizes v) t in
      record rest { kept = v ∷ rest.kept }
]

-- The scan without frees: the index and start of the first gap between two entries that is large
-- enough, or those of the end of the table.
unfoldable pub find_gap : (ℕ → ℕ) → ℕ → ℕ → List ℕ → ℕ × ℕ
find_gap sizes size v [] = (1, end_of sizes v)
find_gap sizes size v (u ∷ t) =
    let rest = find_gap sizes size u t in
    if ltb (sub_u32 (start_of u) (end_of sizes v)) size
    then (suc rest.0, rest.1)
    else (1, end_of sizes v)

-- The lowest lane that no entry uses, and its bit; `none` where all 32 are used.
abbrev pub available : Word → Word
available used = isolate (not_w used)

unfoldable pub free_slot : Word → Option ℕ
free_slot used = if is_zero (available used) then none else lead (available used)

abbrev pub fail : Registry → Task → Outcome
fail r task = record { reg = r; task = task; slot = none }

-- The writes with which each branch ends.
unfoldable pub claim : Registry → Task → List ℕ → ℕ → ℕ → Word → ℕ → Outcome
claim r task table start slot free_bit size = record {
  reg = record r {
    table = table;
    sizes = put r.sizes slot size;
    used = r.used ∣w free_bit;
    host_last = r.host_last ^w free_bit;
  };
  task = record task {
    start = start;
    slot_buffer = bit_or (bit_and task.slot_buffer start_mask) slot;
  };
  slot = some slot;
}

-- `firstStart >= size`, where `&` has made `firstStart` a signed number.
abbrev pub fits_before : ℕ → ℕ → Bool
fits_before size first = leb size first && ltb first (2 ^ 31)

-- The insertion where nothing was compacted.
unfoldable pub insert_plain : Registry → Task → ℕ → ℕ → List ℕ → Outcome
insert_plain r task size slot [] = claim r task (slot ∷ []) 0 slot (available r.used) size
insert_plain r task size slot (v ∷ t) =
    if fits_before size (start_of v)
    then claim r task (slot ∷ v ∷ t) 0 slot (available r.used) size
    else let (i, start) = find_gap r.sizes size v t in
      claim r task (insert_at i (entry start slot) (v ∷ t)) start slot (available r.used) size

-- The insertion behind the compacting scan.
unfoldable pub insert_compacted : Registry → Task → ℕ → ℕ → Scan → Outcome
insert_compacted r task size slot s =
    if is_nil s.kept then claim r task (slot ∷ []) 0 slot (available r.used) size else elim s.gap [
      | some (i, start) ↦
          claim r task (insert_at i (entry start slot) s.kept) start slot (available r.used) size
      | none ↦
          claim r task (s.kept ++ entry s.prev_end slot ∷ []) s.prev_end slot (available r.used)
            size
    ]

-- From `if (tl >= LockBound.slots)` on.
unfoldable pub finish : Registry → Task → (ℕ → Outcome) → Outcome
finish r task insert =
    if leb 32 (length r.table)
    then fail r task
    else elim (free_slot r.used) [ none ↦ fail r task | some slot ↦ insert slot ]

-- The reuse of a freed region of the very size.
unfoldable pub reuse : Registry → Task → ℕ → ℕ → ℕ → Outcome
reuse r task size i v = elim (free_slot r.used) [
  | none ↦ fail r task
  | some slot ↦
      claim (record r { used = r.used & not_w (bit (slot_of v)) }) task
        (set r.table i (entry (start_of v) slot)) (start_of v) slot (available r.used) size
]

-- The lanes that are tracked and whose toggle is resolved: `freeBits` after `&= usedBits`.
unfoldable pub freed : Registry → Word
freed r = not_w (r.host_last ^w r.worker_bits) & r.used

-- `freeBits === (usedBits >>> 0)`: `&=` has made `freeBits` signed, so it is never equal to the
-- unsigned word when lane 31 is set. (So it never is EMPTY either, and that test always passes.)
abbrev pub all_free : Registry → Bool
all_free r = same (freed r) r.used && not (freed r 31)

unfoldable pub compacted : Registry → Task → ℕ → Outcome
compacted r task size =
    let s = scan (freed r) r.sizes size 0 none 0 r.table in
    let r' = record r { table = s.kept; used = r.used & not_w (freed r) } in
    finish r' task (λ slot. insert_compacted r' task size slot s)

unfoldable pub find_and_insert : Registry → Task → ℕ → Outcome
find_and_insert r task size =
    let restarted = record r { table = []; used = zeros } in
    if is_nil r.table && is_zero r.used
    then claim restarted task (0 ∷ []) 0 0 (bit 0) size
    else if is_nil r.table
    then finish r task (λ slot. insert_plain r task size slot r.table)
    else if all_free r
    then finish restarted task (λ slot. insert_plain restarted task size slot [])
    else if is_zero (freed r)
    then finish r task (λ slot. insert_plain r task size slot r.table)
    else elim (exact_fit (freed r) r.sizes size r.table) [
      | some (i, v) ↦ reuse r task size i v
      | none ↦ compacted r task size
    ]

-- `allocTask`: the toggles are published once the region is found.
unfoldable pub alloc_task : Registry → Task → Outcome
alloc_task r task =
    let o = find_and_insert r task (aligned task.payload_len) in
    elim o.slot [
      | none ↦ o
      | some _ ↦ record o { reg = record o.reg { host_bits = o.reg.host_last } }
    ]
