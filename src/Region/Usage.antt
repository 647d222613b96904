-- ===== src/Region/Usage.antt =====
-- src/memory/regionRegistry.ts: `allocTask`, `free`, `updateTable` and `setSlotLength` in use.
use knitting.Base.{
  ℕ, bit_and, ◌+◌, ◌%◌, ◌≤◌, ◌<◌, true, false, ◌||◌, ◌≡◌, ◌≢◌, refl, sym, ◌∙◌, ap, List, [], ◌∷◌,
  arith, ◌==◌, Bool-cases, inl, inr,
}
use knitting.Base.Bits.{bit_and_low}
use knitting.Base.Lanes.{Word, ones, not_w, ◌&◌, ◌^w◌, is_zero, same, is_zero-lane, lane_ne}
use knitting.Header.{Task}
use knitting.Region.{
  Registry, Outcome, slot_of, start_of, slot_mask, put, is_nil, aligned, free, compact_free,
  update_table, set_slot_length,
}
use knitting.Region.Allocate.{freed, find_and_insert, alloc_task}
use knitting.Region.Entry.{start_of_lem, aligned-mod}
use knitting.Region.Owners.{survivors}
use knitting.Region.Layout.{Layout, Layout-lower, Layout-arena, arena, table_end}
use knitting.Region.Claims.{Inv, live, Kept, Allocated}
use knitting.Region.Reclaim.{idle-Inv, swept-Inv}
use knitting.Region.Safety.{Served, find_and_insert-Served}

-- The shared word shows the toggles that the host keeps.
abbrev pub Published : Registry → Type 0
Published r = r.host_bits ≡ r.host_last

-- The room that is left behind the last region is enough for the payload of the task.
abbrev pub Room : Registry → Task → Type 0
Room r task = table_end r.sizes 0 r.table + aligned task.payload_len ≤ arena

republished :
    {r : Registry} {size slot : ℕ} {o : Outcome}
    → Allocated r size o slot
    → Allocated r size (record o { reg = record o.reg { host_bits = o.reg.host_last } }) slot
republished a = record {
  inv = record {
    layout = a.inv.layout;
    distinct = a.inv.distinct;
    covers = a.inv.covers;
    settled = a.inv.settled;
  };
  answer = a.answer;
  lane = a.lane;
  idle = a.idle;
  owned = a.owned;
  placed = a.placed;
  sized = a.sized;
  tagged = a.tagged;
  kept = a.kept;
}

-- On a sound registry whose toggles are published, and whose arena has room behind the last
-- region, an allocation either hands out a free region, or is refused with an entry for every
-- lane, and then changes no region in use; the toggles are published in both cases.
pub alloc_task-Served :
    (r : Registry) (task : Task)
    → Inv r
    → Published r
    → Room r task
    → Served r task (aligned task.payload_len) (alloc_task r task)
      × Published (alloc_task r task).reg
unfolding alloc_task
alloc_task-Served r task v p room =
    let o = find_and_insert r task (aligned task.payload_len) in
    elim (find_and_insert-Served task v (aligned-mod task.payload_len) room) [
      | inl (slot, a) ↦ rw (a.answer, alloc_task) (inl (slot, republished a), refl)
      | inr a ↦ rw (a.answer, alloc_task) (inr a, a.shared ∙ p ∙ sym a.toggles)
    ]

slot_lane : (i : ℕ) → i < 32 → bit_and i slot_mask ≡ i
slot_lane i lt = bit_and_low 5 i ∙ omega arith

-- On a sound registry, the receiver's toggle of a lane in use frees its region, and no other.
pub free-frees :
    (r : Registry) (i : ℕ)
    → i < 32
    → Inv r
    → live r i ≡ true
    → Inv (free r i)
      × (live (free r i) i ≡ false)
      × ((j : ℕ) → j ≢ i → live (free r i) j ≡ live r j)
unfolding free
free-frees r i lt v l = (
  record {
    layout = v.layout;
    distinct = v.distinct;
    covers = v.covers;
    settled = λ j p n.
        let ne = lane_ne r.used j i n (ground arith) in
        ground (arith, slot_lane i lt, v.settled j p n);
  },
  ground (arith, slot_lane i lt),
  λ j ne. ground (arith, slot_lane i lt),
)

Layout-shrink :
    (sizes : ℕ → ℕ) (slot size p : ℕ) (t : List ℕ)
    → size ≤ sizes slot
    → size % 64 ≡ 0
    → Layout sizes p t
    → Layout (put sizes slot size) p t
Layout-shrink sizes slot size p [] h a l = l
Layout-shrink sizes slot size p (v ∷ t) h a l =
    let rest = Layout-shrink sizes slot size (start_of v + sizes (slot_of v)) t h a l.3 in
    elim (Bool-cases (slot_of v == slot)) [
      | inl e ↦
          let same : sizes (slot_of v) ≡ sizes slot = ap sizes (ground arith) in
          rw e (
            l.0,
            l.1,
            a,
            Layout-lower (put sizes slot size) (start_of v + sizes (slot_of v)) (start_of v + size)
                t (omega (arith, same)) rest,
          )
      | inr e ↦ rw e (l.0, l.1, l.2, rest)
    ]

-- Shrinking a region to what was written keeps the regions apart.
pub set_slot_length-Inv :
    (r : Registry) (slot len : ℕ)
    → slot < 32
    → aligned len ≤ r.sizes slot
    → Inv r
    → Inv (set_slot_length r slot len)
unfolding set_slot_length
set_slot_length-Inv r slot len lt h v = rw (slot_lane slot lt) (record {
  layout = Layout-shrink r.sizes slot (aligned len) 0 r.table h (aligned-mod len) v.layout;
  distinct = v.distinct;
  covers = v.covers;
  settled = v.settled;
})

compact_free-survivors :
    (w : Word) (sizes : ℕ → ℕ) (p : ℕ) (t : List ℕ)
    → Layout sizes p t
    → compact_free w t ≡ survivors w t
unfolding compact_free survivors
compact_free-survivors w sizes p [] l = refl
compact_free-survivors w sizes p (v ∷ t) l =
    let low = Layout-arena sizes (start_of v + sizes (slot_of v)) t l.3 in
    let small : (v == 0xFFFFFFFF) ≡ false = ground (arith, start_of_lem v, low) in
    rw (small, compact_free-survivors w sizes (start_of v + sizes (slot_of v)) t l.3) refl

-- On a sound registry, `updateTable` reclaims; it loses no region in use, and leaves the registry
-- sound.
pub update_table-Kept : (r : Registry) → Inv r → Inv (update_table r) × Kept r (update_table r)
unfolding update_table freed
update_table-Kept r v =
    let w = not_w (r.host_last ^w r.worker_bits) in
    let same_r : Kept r r = λ j lt l. (l, refl, refl) in
    elim (Bool-cases (is_nil r.table || is_zero w)) [
      | inl e ↦ rw e (v, same_r)
      | inr e ↦ elim (Bool-cases (same w ones)) [
        | inl a ↦
            rw (e, a)
              (idle-Inv v (λ i lt. unfold same in ground (arith, is_zero-lane (w ^w ones) i a lt)))
        | inr a ↦ elim (Bool-cases (is_zero (w & r.used))) [
          | inl z ↦ rw (e, a, z) (v, same_r)
          | inr z ↦
              rw (e, a, z, compact_free-survivors (w & r.used) r.sizes 0 r.table v.layout)
                (swept-Inv v)
        ]
      ]
    ]
