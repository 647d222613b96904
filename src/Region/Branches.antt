-- ===== src/Region/Branches.antt =====
-- src/memory/regionRegistry.ts: the branches of `findAndInsert` that insert a region.
use knitting.Base.{
  ℕ, ◌+◌, ◌%◌, ◌≤◌, ◌<◌, false, ◌≡◌, refl, sym, ◌∙◌, ap, subst, List, [], ◌∷◌, some, arith, ◌==◌,
  Bool-cases, inl, inr,
}
use knitting.Base.Lanes.{Word, not_w, is_zero, lead, isolate-bit, lead-isolate, lane_ne}
use knitting.Header.{Task}
use knitting.Region.{Registry, Outcome, slot_of, start_of, entry, put, insert_at}
use knitting.Region.Allocate.{find_gap, available, free_slot, claim, fits_before, insert_plain}
use knitting.Region.Entry.{start_of-entry, start_of-slot}
use knitting.Region.Owners.{tracks, tracks-insert_at, insert_at-Distinct, place-insert_at}
use knitting.Region.Layout.{Layout, Layout-lower, put-Layout, arena, table_end, find_gap-Layout}
use knitting.Region.Claims.{Inv, live, Kept, Allocated, Fits, claim-Allocated}

-- The lane that `31 - clz32` names is the one lane of `freeBit`, and no entry uses it.
pub free_slot_lem :
    (u : Word) {slot : ℕ}
    → free_slot u ≡ some slot
    → (slot < 32) × (u slot ≡ false) × ((j : ℕ) → j < 32 → available u j ≡ (j == slot))
unfolding free_slot
free_slot_lem u {slot} h = elim (Bool-cases (is_zero (available u))) [
  | inl e ↦ absurd (ground arith)
  | inr e ↦
      let l : lead (available u) ≡ some slot = rw e at h in
      let r = lead-isolate (not_w u) {i = slot} l in
      (r.0, ground (arith, r.1), λ j lt. isolate-bit (not_w u) {i = slot} l j lt)
]

-- Behind a reclaiming step that kept the regions in use, an allocation is one of the old registry.
pub reclaimed-Allocated :
    {r b : Registry} {size slot : ℕ} {o : Outcome}
    → Kept r b
    → Allocated b size o slot
    → Allocated r size o slot
reclaimed-Allocated {r} {b} {slot = slot} k a = record {
  inv = a.inv;
  answer = a.answer;
  lane = a.lane;
  idle = elim (Bool-cases (live r slot)) [
    | inl l ↦ absurd (ground (arith, (k slot a.lane l).0, a.idle))
    | inr n ↦ n
  ];
  owned = a.owned;
  placed = a.placed;
  sized = a.sized;
  tagged = a.tagged;
  kept = λ j lt l.
      let (l', p, z) = k j lt l in let (l'', p', z') = a.kept j lt l' in (l'', p' ∙ p, z' ∙ z);
}

pub untracked :
    {b : Registry} {slot : ℕ} → Inv b → free_slot b.used ≡ some slot → tracks b.table slot ≡ false
untracked {b} {slot} v h =
    let (lt, n, _) = free_slot_lem b.used {slot = slot} h in sym (v.covers slot lt) ∙ n

module _ {b : Registry} {slot : ℕ} (size : ℕ) (v : Inv b) (h : free_slot b.used ≡ some slot) where
  open v use {covers, settled, distinct, layout}

  -- A new entry at any index of the table that keeps the regions apart.
  insert-Fits :
      (k e start : ℕ)
      → slot_of e ≡ slot
      → start_of e ≡ start
      → Layout (put b.sizes slot size) 0 (insert_at k e b.table)
      → Fits b b.used (insert_at k e b.table) start slot size (available b.used)
  insert-Fits k e start eo es l =
      let (lt, n, bits) = free_slot_lem b.used {slot = slot} h in
      let free_e : tracks b.table (slot_of e) ≡ false = ap (tracks b.table) eo ∙ untracked v h in
      record {
        lane = lt;
        bits = bits;
        unused = n;
        layout = l;
        distinct = insert_at-Distinct k e b.table free_e distinct;
        covers = λ j p. ground (arith, covers j p, tracks-insert_at k e b.table j);
        settled = settled;
        placed = ground (arith, place-insert_at k e b.table slot free_e);
        stays = λ j p l.
            let ne = lane_ne b.used slot j n (ground arith) in
            (ground arith, ground (arith, place-insert_at k e b.table j free_e, ne));
      }

-- The first region of the arena is the lane's own number.
pub front_Layout :
    (sizes : ℕ → ℕ) (slot size : ℕ) (t : List ℕ)
    → slot < 32
    → size % 64 ≡ 0
    → tracks t slot ≡ false
    → Layout sizes size t
    → Layout (put sizes slot size) 0 (slot ∷ t)
front_Layout sizes slot size t lt whole n l =
    let (s, o) = start_of-slot slot lt in
    let own : put sizes slot size (slot_of slot) ≡ size = ground (arith, o) in
    (
      omega arith,
      omega (arith, s),
      omega (arith, own),
      Layout-lower (put sizes slot size) size (start_of slot + put sizes slot size (slot_of slot)) t
          (omega (arith, s, own)) (put-Layout sizes slot size size t n l),
    )

module _ {b : Registry} {slot size : ℕ} (task : Task) (v : Inv b) (whole : size % 64 ≡ 0)
    (h : free_slot b.used ≡ some slot) where
  -- A written table that is an insertion into the old one.
  pub inserted-Allocated :
      (k e start : ℕ) (t t' : List ℕ)
      → b.table ≡ t
      → insert_at k e t ≡ t'
      → slot_of e ≡ slot
      → start_of e ≡ start
      → Layout (put b.sizes slot size) 0 t'
      → Allocated b size (claim b task t' start slot (available b.used) size) slot
  inserted-Allocated k e start t t' et et' eo es l =
      let whole_eq : insert_at k e b.table ≡ t' = ap (insert_at k e) et ∙ et' in
      claim-Allocated task b.table (
        subst (λ x. Fits b b.used x start slot size (available b.used)) whole_eq
          (insert-Fits size v h k e start eo es
            (subst (λ x. Layout (put b.sizes slot size) 0 x) (sym whole_eq) l)))

  -- Without frees: in front, in the first gap, or at the end.
  pub insert_plain-Allocated :
      (t : List ℕ)
      → b.table ≡ t
      → table_end b.sizes 0 t + size ≤ arena
      → Allocated b size (insert_plain b task size slot t) slot
  unfolding insert_plain insert_at
  insert_plain-Allocated [] e room =
      let (lt, n, bits) = free_slot_lem b.used {slot = slot} h in
      let (s, o) = start_of-slot slot lt in
      inserted-Allocated 0 slot 0 [] (slot ∷ []) e refl o s
        (front_Layout b.sizes slot size [] lt whole refl (omega arith))
  insert_plain-Allocated (u ∷ t) e room =
      let (lt, n, bits) = free_slot_lem b.used {slot = slot} h in
      let (s, o) = start_of-slot slot lt in
      let l : Layout b.sizes 0 (u ∷ t) = subst (λ x. Layout b.sizes 0 x) e v.layout in
      let none_of : tracks (u ∷ t) slot ≡ false = sym (ap (λ x. tracks x slot) e) ∙ untracked v h in
      elim (Bool-cases (fits_before size (start_of u))) [
        | inl f ↦ rw f (
            inserted-Allocated 0 slot 0 (u ∷ t) (slot ∷ u ∷ t) e refl o s (
              front_Layout b.sizes slot size (u ∷ t) lt whole none_of
                (ground arith, l.1, l.2, l.3)))
        | inr f ↦
            let (l', a, top) = find_gap-Layout b.sizes slot size lt whole 0 u t l none_of room in
            let g = find_gap b.sizes size u t in
            let (es, eo) = start_of-entry g.1 slot (omega arith) (omega arith) lt in
            rw f (
              inserted-Allocated g.0 (entry g.1 slot) g.1 (u ∷ t)
                (insert_at g.0 (entry g.1 slot) (u ∷ t)) e refl eo es l')
      ]
