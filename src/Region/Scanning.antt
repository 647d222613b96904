-- ===== src/Region/Scanning.antt =====
-- The compacting scan: what survives, where it found room, and where it ended.
use knitting.Base.{
  ℕ, suc, ◌+◌, ◌%◌, ◌≤◌, ◌<◌, false, ◌≡◌, refl, sym, ◌∙◌, ap, List, [], ◌∷◌, ◌++◌, Option, none,
  some, arith, leb, Bool-cases, inl, inr,
}
use knitting.Base.Lanes.{Word}
use knitting.Region.{slot_of, start_of, entry, end_of, put, insert_at, sub_u32}
use knitting.Region.Allocate.{note_gap, scan}
use knitting.Region.Owners.{tracks, survivors}
use knitting.Region.Layout.{
  Layout, Layout-lower, Layout-arena, arena, table_end, end_of_lem, gap-Layout, head-Layout,
}

module _ (free : Word) (sizes : ℕ → ℕ) where
  pub survivors-Layout : (p : ℕ) (t : List ℕ) → Layout sizes p t → Layout sizes p (survivors free t)
  unfolding survivors
  survivors-Layout p [] l = l
  survivors-Layout p (v ∷ t) l = elim (Bool-cases (free (slot_of v))) [
    | inl e ↦ rw e (
        Layout-lower sizes (start_of v + sizes (slot_of v)) p (survivors free t) (omega arith)
          (survivors-Layout (start_of v + sizes (slot_of v)) t l.3))
    | inr e ↦ rw e (l.0, l.1, l.2, survivors-Layout (start_of v + sizes (slot_of v)) t l.3)
  ]

  table_end_mono : (p p' : ℕ) (t : List ℕ) → p' ≤ p → table_end sizes p' t ≤ table_end sizes p t
  table_end_mono p p' [] h = h
  table_end_mono p p' (v ∷ t) h = omega arith

  table_end-survivors :
      (p : ℕ) (t : List ℕ)
      → Layout sizes p t
      → table_end sizes p (survivors free t) ≤ table_end sizes p t
  unfolding survivors
  table_end-survivors p [] l = omega arith
  table_end-survivors p (v ∷ t) l = elim (Bool-cases (free (slot_of v))) [
    | inl e ↦ rw e (
        omega (
          arith,
          table_end_mono (start_of v + sizes (slot_of v)) p (survivors free t) (omega arith),
          table_end-survivors (start_of v + sizes (slot_of v)) t l.3,
        ))
    | inr e ↦ rw e (table_end-survivors (start_of v + sizes (slot_of v)) t l.3)
  ]

  -- The scan keeps the survivors, and ends at the end of the last.
  pub scan-kept :
      (size w p : ℕ) (g : Option (ℕ × ℕ)) (t : List ℕ)
      → (scan free sizes size w g p t).kept ≡ survivors free t
  unfolding scan survivors
  scan-kept size w p g [] = refl
  scan-kept size w p g (v ∷ t) = elim (Bool-cases (free (slot_of v))) [
    | inl e ↦ rw (e, scan) (scan-kept size w p g t)
    | inr e ↦
        rw (e, scan)
          (ap (λ x. v ∷ x)
            (scan-kept size (suc w) (end_of sizes v)
              (note_gap g (leb size (sub_u32 (start_of v) p)) w p) t))
  ]

  pub scan-prev_end :
      (size w p : ℕ) (g : Option (ℕ × ℕ)) (t : List ℕ)
      → Layout sizes p t
      → (scan free sizes size w g p t).prev_end ≤ table_end sizes p t
  unfolding scan
  scan-prev_end size w p g [] l = omega arith
  scan-prev_end size w p g (v ∷ t) l = elim (Bool-cases (free (slot_of v))) [
    | inl e ↦
        rw (e, scan)
          (omega (
            arith,
            scan-prev_end size w p g t
                (Layout-lower sizes (start_of v + sizes (slot_of v)) p t (omega arith) l.3),
            table_end_mono (start_of v + sizes (slot_of v)) p t (omega arith),
          ))
    | inr e ↦
        let low = Layout-arena sizes (start_of v + sizes (slot_of v)) t l.3 in
        rw (e, scan, end_of_lem sizes v low)
          (scan-prev_end size (suc w) (start_of v + sizes (slot_of v))
            (note_gap g (leb size (sub_u32 (start_of v) p)) w p) t l.3)
  ]

  -- Behind the survivors, from `prev_end` on, nothing is tracked.
  pub scan-append_Layout :
      (slot size : ℕ) (si : slot < 32) (sz : size % 64 ≡ 0) (w p : ℕ) (g : Option (ℕ × ℕ))
      (t : List ℕ)
      → Layout sizes p t
      → p % 64 ≡ 0
      → tracks (survivors free t) slot ≡ false
      → let start = (scan free sizes size w g p t).prev_end in
        (start + size ≤ arena)
        → Layout (put sizes slot size) p (survivors free t ++ entry start slot ∷ [])
          × (start % 64 ≡ 0)
  unfolding scan survivors
  scan-append_Layout slot size si sz w p g [] l a n =
      λ b. (gap-Layout sizes slot size si sz p p [] a (omega arith) b refl b, a)
  scan-append_Layout slot size si sz w p g (v ∷ t) l a n = elim (Bool-cases (free (slot_of v))) [
    | inl e ↦
        rw (e, scan)
          (scan-append_Layout slot size si sz w p g t
            (Layout-lower sizes (start_of v + sizes (slot_of v)) p t (omega arith) l.3) a
            (ground arith))
    | inr e ↦
        let low = Layout-arena sizes (start_of v + sizes (slot_of v)) t l.3 in
        rw (e, scan, end_of_lem sizes v low)
          λ b.
            let (l', a') =
              scan-append_Layout slot size si sz (suc w) (start_of v + sizes (slot_of v))
                (note_gap g (leb size (sub_u32 (start_of v) p)) w p) t l.3 (omega arith)
                (ground arith) b in
            (
              head-Layout sizes slot size si sz p v t (survivors free t ++ entry _ slot ∷ []) l
                  (ground arith) l',
              a',
            )
  ]

  scan-gap_some :
      (size w p : ℕ) (g : ℕ × ℕ) (t : List ℕ) → (scan free sizes size w (some g) p t).gap ≡ some g
  unfolding scan
  scan-gap_some size w p g [] = refl
  scan-gap_some size w p g (v ∷ t) = elim (Bool-cases (free (slot_of v))) [
    | inl e ↦ rw (e, scan) (scan-gap_some size w p g t)
    | inr e ↦ rw (e, scan) (scan-gap_some size (suc w) (end_of sizes v) g t)
  ]

  -- A gap that the scan reports has room, at the index that it reports.
  pub scan-gap_Layout :
      (slot size : ℕ)
      → slot < 32
      → size % 64 ≡ 0
      → (w p : ℕ) (t : List ℕ) {i start : ℕ} → Layout sizes p t
      → p % 64 ≡ 0
      → tracks (survivors free t) slot ≡ false
      → (scan free sizes size w none p t).gap ≡ some (i, start)
      → (k : ℕ) × (i ≡ w + k)
        × Layout (put sizes slot size) p (insert_at k (entry start slot) (survivors free t))
        × (start % 64 ≡ 0)
        × (start + size ≤ arena)
  unfolding scan survivors insert_at
  scan-gap_Layout slot size si sz w p [] l a n h = absurd (cc)
  scan-gap_Layout slot size si sz w p (v ∷ t) {i} {start} l a n h =
      let low = Layout-arena sizes (start_of v + sizes (slot_of v)) t l.3 in
      elim (Bool-cases (free (slot_of v))) [
        | inl e ↦
            let h' = rw (e, scan) at h in
            rw e (
              scan-gap_Layout slot size si sz w p t {i = i} {start = start}
                (Layout-lower sizes (start_of v + sizes (slot_of v)) p t (omega arith) l.3) a
                (ground arith) h')
        | inr e ↦ elim (Bool-cases (leb size (sub_u32 (start_of v) p))) [
          | inl fits ↦
              let h' = rw (e, scan, fits) at h in
              let found = sym (scan-gap_some size (suc w) (end_of sizes v) (w, p) t) ∙ h' in
              let ei : i ≡ w + 0 = ground (arith, found) in
              let es : start ≡ p = ground (arith, found) in
              let room : p + size ≤ start_of v = ground (arith, low) in
              rw (e, es)
                (
                  0,
                  ei,
                  gap-Layout sizes slot size si sz p p (v ∷ survivors free t) a (omega arith)
                      (omega (arith, low, room)) (ground arith)
                      (room, l.1, l.2, survivors-Layout (start_of v + sizes (slot_of v)) t l.3),
                  a,
                  omega (arith, low, room),
                )
          | inr tight ↦
              let h' = rw (e, scan, tight, end_of_lem sizes v low) at h in
              let (k, ek, l', a', b') =
                scan-gap_Layout slot size si sz (suc w) (start_of v + sizes (slot_of v)) t {i = i}
                  {start = start} l.3 (omega arith) (ground arith) h' in
              rw e (
                suc k,
                omega arith,
                head-Layout sizes slot size si sz p v t
                    (insert_at k (entry start slot) (survivors free t)) l (ground arith) l',
                a',
                b',
              )
        ]
      ]
