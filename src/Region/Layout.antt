-- ===== src/Region/Layout.antt =====
-- src/memory/regionRegistry.ts: the order of the regions in the table.
use knitting.Base.{
  ℕ, ◌+◌, ◌%◌, ◌^◌, ◌<◌, ◌≤◌, false, ◌≡◌, refl, List, [], ◌∷◌, arith, ltb, ◌==◌, Bool-cases, inl,
  inr,
}
use knitting.Region.{slot_of, start_of, entry, end_of, put, insert_at, sub_u32}
use knitting.Region.Allocate.{find_gap}
use knitting.Region.Entry.{start_of-entry}
use knitting.Region.Owners.{tracks}

-- The arena that the signed comparisons of the source leave.
abbrev pub arena : ℕ
arena = 2 ^ 31

-- Every region starts on a cache line, at or behind the end of the one before; the last ends in
-- the arena.
abbrev pub Layout : (ℕ → ℕ) → ℕ → List ℕ → Type 0
Layout sizes p [] = p ≤ arena
Layout sizes p (v ∷ t) =
    (p ≤ start_of v)
    × (start_of v % 64 ≡ 0)
    × (sizes (slot_of v) % 64 ≡ 0)
    × Layout sizes (start_of v + sizes (slot_of v)) t

-- The end of the last region.
abbrev pub table_end : (ℕ → ℕ) → ℕ → List ℕ → ℕ
table_end sizes p [] = p
table_end sizes p (v ∷ t) = table_end sizes (start_of v + sizes (slot_of v)) t

pub Layout-arena : (sizes : ℕ → ℕ) (p : ℕ) (t : List ℕ) → Layout sizes p t → p ≤ arena
Layout-arena sizes p [] l = l
Layout-arena sizes p (v ∷ t) l =
    omega (arith, Layout-arena sizes (start_of v + sizes (slot_of v)) t l.3)

pub Layout-lower :
    (sizes : ℕ → ℕ) (p p' : ℕ) (t : List ℕ) → p' ≤ p → Layout sizes p t → Layout sizes p' t
Layout-lower sizes p p' [] h l = omega arith
Layout-lower sizes p p' (v ∷ t) h l = (omega arith, l.1, l.2, l.3)

table_end-le : (sizes : ℕ → ℕ) (p : ℕ) (t : List ℕ) → Layout sizes p t → p ≤ table_end sizes p t
table_end-le sizes p [] l = omega arith
table_end-le sizes p (v ∷ t) l =
    omega (arith, table_end-le sizes (start_of v + sizes (slot_of v)) t l.3)

-- The size of a lane that the table does not track is free to change.
pub put-Layout :
    (sizes : ℕ → ℕ) (slot size p : ℕ) (t : List ℕ)
    → tracks t slot ≡ false
    → Layout sizes p t
    → Layout (put sizes slot size) p t
put-Layout sizes slot size p [] h l = l
put-Layout sizes slot size p (v ∷ t) h l = elim (Bool-cases (slot_of v == slot)) [
  | inl e ↦ absurd (ground arith)
  | inr e ↦ rw e (
    l.0,
    l.1,
    l.2,
    put-Layout sizes slot size (start_of v + sizes (slot_of v)) t (ground arith) l.3,
  )
]

-- `end_of` does not wrap in the arena.
pub end_of_lem :
    (sizes : ℕ → ℕ) (v : ℕ)
    → start_of v + sizes (slot_of v) ≤ arena
    → end_of sizes v ≡ start_of v + sizes (slot_of v)
end_of_lem sizes v h = omega arith

module _ (sizes : ℕ → ℕ) (slot size : ℕ) (slot_in : slot < 32) (whole : size % 64 ≡ 0) where
  -- A region for `slot` in a gap before the rest of the table.
  pub gap-Layout :
      (p start : ℕ) (t : List ℕ)
      → start % 64 ≡ 0
      → p ≤ start
      → start + size ≤ arena
      → tracks t slot ≡ false
      → Layout sizes (start + size) t
      → Layout (put sizes slot size) p (entry start slot ∷ t)
  gap-Layout p start t a b c n l =
      let (es, eo) = start_of-entry start slot (omega arith) (omega arith) slot_in in
      let own : put sizes slot size (slot_of (entry start slot)) ≡ size = ground (arith, eo) in
      (
        omega arith,
        omega arith,
        omega arith,
        Layout-lower (put sizes slot size) (start + size) _ t (omega arith)
            (put-Layout sizes slot size (start + size) t n l),
      )

  -- An entry of another lane stays before whatever follows it.
  pub head-Layout :
      (p v : ℕ) (t t' : List ℕ)
      → Layout sizes p (v ∷ t)
      → (slot_of v == slot) ≡ false
      → Layout (put sizes slot size) (start_of v + sizes (slot_of v)) t'
      → Layout (put sizes slot size) p (v ∷ t')
  head-Layout p v t t' l n l' = rw n (l.0, l.1, l.2, l')

  -- The loop over the gaps finds room between two entries, or behind the last.
  pub find_gap-Layout :
      (p v : ℕ) (t : List ℕ)
      → Layout sizes p (v ∷ t)
      → tracks (v ∷ t) slot ≡ false
      → table_end sizes p (v ∷ t) + size ≤ arena
      → let (k, start) = find_gap sizes size v t in
        Layout (put sizes slot size) p (insert_at k (entry start slot) (v ∷ t))
        × (start % 64 ≡ 0)
        × (start + size ≤ arena)
  unfolding find_gap insert_at
  find_gap-Layout p v [] l n b =
      let e = end_of_lem sizes v l.3 in
      (
        head-Layout p v [] (entry (end_of sizes v) slot ∷ []) l (ground arith) (
            gap-Layout (start_of v + sizes (slot_of v)) (end_of sizes v) [] (omega (arith, e))
              (omega (arith, e)) (omega (arith, e)) refl (omega (arith, e))),
        omega (arith, e),
        omega (arith, e),
      )
  find_gap-Layout p v (u ∷ t) l n b =
      let low = Layout-arena sizes (start_of v + sizes (slot_of v)) (u ∷ t) l.3 in
      let e = end_of_lem sizes v low in
      let top = Layout-arena sizes (start_of u + sizes (slot_of u)) t l.3.3 in
      elim (Bool-cases (ltb (sub_u32 (start_of u) (end_of sizes v)) size)) [
        | inl short ↦
            let (l', a, c) =
              find_gap-Layout (start_of v + sizes (slot_of v)) u t l.3 (ground arith) b in
            rw short (head-Layout p v (u ∷ t) _ l (ground arith) l', a, c)
        | inr room ↦
            let fits : start_of v + sizes (slot_of v) + size ≤ start_of u =
              ground (arith, e, low, top) in
            rw room (
              head-Layout p v (u ∷ t) (entry (end_of sizes v) slot ∷ u ∷ t) l (ground arith) (
                  gap-Layout (start_of v + sizes (slot_of v)) (end_of sizes v) (u ∷ t)
                    (omega (arith, e)) (omega (arith, e)) (omega (arith, e, top)) (ground arith)
                    (omega (arith, e), l.3.1, l.3.2, l.3.3)),
              omega (arith, e),
              omega (arith, e, top),
            )
      ]
