-- ===== src/Region/Reclaim.antt =====
-- src/memory/regionRegistry.ts: what `findAndInsert` does with freed regions: restart, compact,
-- or reuse one of the very size.
use knitting.Base.{
  ℕ, ◌+◌, ◌%◌, ◌≤◌, ◌<◌, true, false, ◌≡◌, refl, sym, ◌∙◌, ap, subst, List, [], ◌∷◌, ◌++◌, Option,
  none, some, arith, ◌==◌, Bool-cases, inl, inr, length,
}
use knitting.Base.Lanes.{zeros, not_w, ◌&◌, ◌^w◌, same, is_zero-lane, lane_ne}
use knitting.Header.{Task}
use knitting.Region.{Registry, slot_of, start_of, entry, put, insert_at}
use knitting.Region.Allocate.{
  exact_fit, scan, Scan, free_slot, insert_compacted, reuse, freed, all_free,
}
use knitting.Region.Entry.{start_of_lem, start_of-entry, start_of-slot}
use knitting.Region.Owners.{
  tracks, survivors, tracks-survivors, survivors-Distinct, place-survivors,
}
use knitting.Region.Layout.{Layout, arena, table_end}
use knitting.Region.Reuse.{exact_fit_sound, tracks-set, set-Distinct, place-set, set-Layout}
use knitting.Region.Scanning.{
  survivors-Layout, scan-kept, scan-prev_end, scan-append_Layout, scan-gap_Layout,
}
use knitting.Region.Claims.{Inv, live, Kept, Allocated, claim-Allocated}
use knitting.Region.Branches.{free_slot_lem, untracked, front_Layout, inserted-Allocated}

abbrev pub restarted : Registry → Registry
restarted r = record r { table = []; used = zeros }

abbrev pub swept : Registry → Registry
swept r = record r { table = survivors (freed r) r.table; used = r.used & not_w (freed r) }

module _ {r : Registry} (v : Inv r) where
  -- Where no lane is live, nothing is in use.
  pub idle-Inv : ((i : ℕ) → i < 32 → live r i ≡ false) → Inv (restarted r) × Kept r (restarted r)
  idle-Inv idle = (
    record {
      layout = omega arith;
      distinct = tt;
      covers = λ i lt. refl;
      settled = λ i lt n. elim (Bool-cases (r.used i)) [
        | inl e ↦ ground (arith, idle i lt)
        | inr e ↦ v.settled i lt e
      ];
    },
    λ j lt l. absurd (ground (arith, idle j lt)),
  )

  pub restarted-Inv : all_free r ≡ true → Inv (restarted r) × Kept r (restarted r)
  unfolding freed same
  restarted-Inv h =
      idle-Inv (λ i lt. ground (arith, is_zero-lane (freed r ^w r.used) i (ground arith) lt))

  -- Compaction drops freed entries alone.
  pub swept-Inv : Inv (swept r) × Kept r (swept r)
  unfolding freed
  swept-Inv = (
    record {
      layout = survivors-Layout (freed r) r.sizes 0 r.table v.layout;
      distinct = survivors-Distinct (freed r) r.table v.distinct;
      covers = λ i lt. ground (arith, v.covers i lt, tracks-survivors (freed r) r.table i);
      settled = λ i lt n. elim (Bool-cases (r.used i)) [
        | inl e ↦ ground arith
        | inr e ↦ v.settled i lt e
      ];
    },
    λ j lt l. (ground arith, place-survivors (freed r) r.table j (ground arith), refl),
  )

insert_at_end : (e : ℕ) (t : List ℕ) → insert_at (length t) e t ≡ t ++ e ∷ []
unfolding insert_at
insert_at_end e [] = refl
insert_at_end e (x ∷ t) = ap (λ y. x ∷ y) (insert_at_end e t)

abbrev pub result : Registry → ℕ → Scan
result r size = scan (freed r) r.sizes size 0 none 0 r.table

module _ {b : Registry} {slot size : ℕ} (task : Task) (v : Inv b) (whole : size % 64 ≡ 0)
    (h : free_slot b.used ≡ some slot) where
  -- In the first gap of the survivors, or behind the last, as the scan has found them.
  found-Allocated :
      (kept : List ℕ) (gap : Option (ℕ × ℕ)) (prev_end : ℕ)
      → b.table ≡ kept
      → size ≤ arena
      → ((i start : ℕ)
          → gap ≡ some (i, start)
          → Layout (put b.sizes slot size) 0 (insert_at i (entry start slot) kept)
            × (start % 64 ≡ 0)
            × (start + size ≤ arena))
      → Layout (put b.sizes slot size) 0 (kept ++ entry prev_end slot ∷ [])
        × (prev_end % 64 ≡ 0)
        × (prev_end + size ≤ arena)
      → Allocated b size
          (insert_compacted b task size slot
            (record { kept = kept; gap = gap; prev_end = prev_end }))
          slot
  unfolding insert_compacted insert_at
  found-Allocated [] gap prev_end e small inside behind =
      let (lt, n, bits) = free_slot_lem b.used {slot = slot} h in
      let (s, o) = start_of-slot slot lt in
      inserted-Allocated task v whole h 0 slot 0 [] (slot ∷ []) e refl o s
        (front_Layout b.sizes slot size [] lt whole refl small)
  found-Allocated (x ∷ kept) none prev_end e small inside (l, a, top) =
      let (lt, n, bits) = free_slot_lem b.used {slot = slot} h in
      let (s, o) = start_of-entry prev_end slot (omega arith) (omega arith) lt in
      inserted-Allocated task v whole h (length (x ∷ kept)) (entry prev_end slot) prev_end
        (x ∷ kept) (x ∷ kept ++ entry prev_end slot ∷ []) e
        (insert_at_end (entry prev_end slot) (x ∷ kept)) o s l
  found-Allocated (x ∷ kept) (some (i, start)) prev_end e small inside behind =
      let (lt, n, bits) = free_slot_lem b.used {slot = slot} h in
      let (l, a, top) = inside i start refl in
      let (s, o) = start_of-entry start slot (omega arith) (omega arith) lt in
      inserted-Allocated task v whole h i (entry start slot) start (x ∷ kept)
        (insert_at i (entry start slot) (x ∷ kept)) e refl o s l

module _ {r : Registry} {slot size : ℕ} (task : Task) (v : Inv r) (whole : size % 64 ≡ 0) where
  pub insert_compacted-Allocated :
      free_slot (swept r).used ≡ some slot
      → table_end r.sizes 0 r.table + size ≤ arena
      → Allocated (swept r) size (insert_compacted (swept r) task size slot (result r size)) slot
  insert_compacted-Allocated h room =
      let (lt, n, bits) = free_slot_lem (swept r).used {slot = slot} h in
      let w = (swept-Inv v).0 in
      let kept = scan-kept (freed r) r.sizes size 0 0 none r.table in
      let s = result r size in
      let last = scan-prev_end (freed r) r.sizes size 0 0 none r.table v.layout in
      let top : s.prev_end + size ≤ arena = omega (arith, last) in
      let (l, a) =
        scan-append_Layout (freed r) r.sizes slot size lt whole 0 0 none r.table v.layout refl
          (untracked w h) top in
      found-Allocated task w whole h s.kept s.gap s.prev_end (sym kept) (omega arith)
        (λ i start g.
          let (k, ek, l', a', b') =
            scan-gap_Layout (freed r) r.sizes slot size lt whole 0 0 r.table v.layout refl
              (untracked w h) g in
          let ik : i ≡ k = omega arith in
          (
            subst (λ x. Layout (put r.sizes slot size) 0 (insert_at i (entry start slot) x))
                (sym kept)
                (subst
                  (λ x.
                    Layout (put r.sizes slot size) 0
                      (insert_at x (entry start slot) (survivors (freed r) r.table)))
                  (sym ik) l'),
            a',
            b',
          ))
        (
          subst (λ x. Layout (put r.sizes slot size) 0 (x ++ entry s.prev_end slot ∷ [])) (sym kept)
              l,
          a,
          top,
        )

  -- Reuse of a freed region of the very size under another lane.
  pub reuse-Allocated :
      (i u : ℕ)
      → exact_fit (freed r) r.sizes size r.table ≡ some (i, u)
      → free_slot r.used ≡ some slot
      → Allocated r size (reuse r task size i u) slot
  unfolding reuse freed
  reuse-Allocated i u f h =
      let (lt, n, bits) = free_slot_lem r.used {slot = slot} h in
      let (at, gone, fit) = exact_fit_sound (freed r) r.sizes size r.table {k = i} {v = u} f in
      let none_of = untracked v h in
      let e = entry (start_of u) slot in
      let (es, eo) =
        start_of-entry (start_of u) slot (omega (arith, start_of_lem u))
          (omega (arith, start_of_lem u)) lt in
      let free_e : tracks r.table (slot_of e) ≡ false = ap (tracks r.table) eo ∙ none_of in
      let other : (slot_of u == slot) ≡ false = ground (arith, lane_ne r.used slot (slot_of u) n) in
      let old : r.host_last (slot_of u) ≡ r.worker_bits (slot_of u) = ground (arith, gone) in
      rw (h, reuse)
        (claim-Allocated task r.table (record {
          lane = lt;
          bits = bits;
          unused = ground arith;
          layout = set-Layout r.sizes slot size 0 r.table i u e none_of at es eo fit v.layout;
          distinct = set-Distinct r.table i u e v.distinct at free_e;
          covers = λ j p. elim (Bool-cases (slot_of u == j)) [
            | inl s ↦ ground (arith, v.covers j p, tracks-set r.table i u e j v.distinct at)
            | inr s ↦ ground (arith, v.covers j p, tracks-set r.table i u e j v.distinct at)
          ];
          settled = λ j p m. elim (Bool-cases (r.used j)) [
            | inl s ↦
                let same : slot_of u ≡ j = ground arith in
                subst (λ x. r.host_last x ≡ r.worker_bits x) same old
            | inr s ↦ v.settled j p s
          ];
          placed = ground (arith, place-set r.table i u e slot v.distinct at free_e other);
          stays = λ j p l. elim (Bool-cases (slot_of u == j)) [
            | inl s ↦
                let same : slot_of u ≡ j = ground arith in
                absurd (ground (arith, subst (λ x. r.host_last x ≡ r.worker_bits x) same old))
            | inr s ↦
                let ne = lane_ne r.used slot j n (ground arith) in
                (ground arith, ground (arith, place-set r.table i u e j v.distinct at free_e s))
          ];
        }))
