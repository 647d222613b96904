-- ===== src/Region/Lifetime.antt =====
-- src/memory/regionRegistry.ts: whole runs of the registry. The sender allocates, sets lengths and
-- reconciles, the receivers free.
use knitting.Base.{
  ℕ, ◌+◌, ◌≤◌, ◌<◌, Bool, true, false, not, ◌||◌, ◌≡◌, ◌≢◌, refl, ap, List, [], ◌∷◌, ◌⊎◌, none,
  some, arith, ◌==◌, if◌then◌else◌, Bool-cases, inl, inr,
}
use knitting.Base.Bits.{bit_and_low}
use knitting.Base.Lanes.{ones, same, is_zero}
use knitting.Header.{Task}
use knitting.Region.{
  Registry, Outcome, slot_of, start_of, empty, is_nil, aligned, free, update_table, set_slot_length,
}
use knitting.Region.Allocate.{exact_fit, freed, alloc_task}
use knitting.Region.Owners.{place}
use knitting.Region.Layout.{Layout, Layout-arena, arena}
use knitting.Region.Claims.{Inv, live, Allocated}
use knitting.Region.Safety.{Served}
use knitting.Region.Usage.{
  Published, Room, alloc_task-Served, free-frees, set_slot_length-Inv, update_table-Kept,
}

-- One operation on the registry, whatever the state is that it meets.
pub data Step (r : Registry) : Registry → Type 0 where
  alloc : (task : Task) → Step r (alloc_task r task).reg
  release : (i : ℕ) → Step r (free r i)
  shrink : (i len : ℕ) → Step r (set_slot_length r i len)
  reconcile : Step r (update_table r)

pub data Reach : Registry → Type 0 where
  start : Reach empty
  later : {r r' : Registry} → Reach r → Step r r' → Reach r'

-- How the callers are to use an operation; the registry itself does not check it. An allocation has
-- room behind the last region, a receiver frees only a lane in use, and a length is set to no more
-- than the region has.
abbrev Proper : {r r' : Registry} → Step r r' → Type 0
Proper {r} (alloc task) = Room r task
Proper {r} (release i) = (i < 32) × (live r i ≡ true)
Proper {r} (shrink i len) = (i < 32) × (aligned len ≤ r.sizes i)
Proper reconcile = Unit {0}

abbrev pub ProperRun : {r : Registry} → Reach r → Type 0
ProperRun start = Unit {0}
ProperRun (later run s) = ProperRun run × Proper s

start-Inv : Inv empty
start-Inv = record {
  layout = omega arith;
  distinct = tt;
  covers = λ i lt. refl;
  settled = λ i lt n. refl;
}

Served-Inv :
    {r : Registry} {task : Task} {size : ℕ} {o : Outcome} → Served r task size o → Inv o.reg
Served-Inv (inl (slot, a)) = a.inv
Served-Inv (inr a) = a.inv

either-Published :
    (b : Bool) (r r' : Registry) → Published r → Published r' → Published (if b then r else r')
either-Published true r r' p q = p
either-Published false r r' p q = q

update_table-Published : (r : Registry) → Published r → Published (update_table r)
unfolding update_table
update_table-Published r p =
    either-Published (is_nil r.table || is_zero _) r _ p
      (either-Published (same _ ones) _ _ p (either-Published (is_zero _) r _ p p))

Step-Inv :
    {r r' : Registry} (s : Step r r') → Proper s → Inv r → Published r → Inv r' × Published r'
unfolding free set_slot_length
Step-Inv {r} (alloc task) room v p =
    let (s, q) = alloc_task-Served r task v p room in (Served-Inv s, q)
Step-Inv {r} (release i) (lt, l) v p = ((free-frees r i lt v l).0, p)
Step-Inv {r} (shrink i len) (lt, h) v p = (set_slot_length-Inv r i len lt h v, p)
Step-Inv {r} reconcile ok v p = ((update_table-Kept r v).0, update_table-Published r p)

-- The invariant holds in every proper run, and the shared word shows the toggles.
pub Reach-Inv : {r : Registry} (run : Reach r) → ProperRun run → Inv r × Published r
Reach-Inv start ok = (start-Inv, refl)
Reach-Inv (later run s) ok = let (v, p) = Reach-Inv run ok.0 in Step-Inv s ok.1 v p

place-bounds :
    (sizes : ℕ → ℕ) (p i a : ℕ) (t : List ℕ)
    → Layout sizes p t
    → place t i ≡ some a
    → (p ≤ a) × (a + sizes i ≤ arena)
place-bounds sizes p i a [] l h = absurd (cc)
place-bounds sizes p i a (v ∷ t) l h =
    let top = Layout-arena sizes (start_of v + sizes (slot_of v)) t l.3 in
    elim (Bool-cases (slot_of v == i)) [
      | inl e ↦
          let same : sizes (slot_of v) ≡ sizes i = ap sizes (ground arith) in
          let at : start_of v ≡ a = ground arith in omega (arith, same, at, top)
      | inr e ↦
          omega
            (arith, place-bounds sizes (start_of v + sizes (slot_of v)) i a t l.3 (ground arith))
    ]

place-apart :
    (sizes : ℕ → ℕ) (p i j a b : ℕ) (t : List ℕ)
    → Layout sizes p t
    → i ≢ j
    → place t i ≡ some a
    → place t j ≡ some b
    → (a + sizes i ≤ b) ⊎ (b + sizes j ≤ a)
place-apart sizes p i j a b [] l ne h k = absurd (cc)
place-apart sizes p i j a b (v ∷ t) l ne h k = elim (Bool-cases (slot_of v == i)) [
  | inl e ↦
      let same : sizes (slot_of v) ≡ sizes i = ap sizes (ground arith) in
      let at : start_of v ≡ a = ground arith in
      inl (ground (arith, same, at, place-bounds sizes (start_of v + sizes (slot_of v)) j b t l.3))
  | inr e ↦ elim (Bool-cases (slot_of v == j)) [
    | inl f ↦
        let same : sizes (slot_of v) ≡ sizes j = ap sizes (ground arith) in
        let at : start_of v ≡ b = ground arith in
        inr
          (ground (arith, same, at, place-bounds sizes (start_of v + sizes (slot_of v)) i a t l.3))
    | inr f ↦
        place-apart sizes (start_of v + sizes (slot_of v)) i j a b t l.3 ne (ground arith)
          (ground arith)
  ]
]

-- Two lanes that are tracked, those in use among them, have regions that lie in the arena of 2^31
-- bytes and do not overlap. This is so after any sequence of operations in which each allocation
-- has room in the arena behind the last region, each release is of a lane in use, and each length
-- is set to no more than the region has: `findAndInsert` and `setSlotLength` check none of this.
pub Reach-disjoint :
    {r : Registry} (run : Reach r)
    → ProperRun run
    → (i j a b : ℕ) → i ≢ j
    → place r.table i ≡ some a
    → place r.table j ≡ some b
    → (a + r.sizes i ≤ arena)
      × (b + r.sizes j ≤ arena)
      × ((a + r.sizes i ≤ b) ⊎ (b + r.sizes j ≤ a))
Reach-disjoint {r} run ok i j a b ne p q =
    let l = (Reach-Inv run ok).0.layout in
    (
      (place-bounds r.sizes 0 i a r.table l p).1,
      (place-bounds r.sizes 0 j b r.table l q).1,
      place-apart r.sizes 0 i j a b r.table l ne p q,
    )

abbrev releases : {r r' : Registry} → Step r r' → ℕ → Bool
releases (alloc _) j = false
releases (release i) j = i == j
releases (shrink _ _) j = false
releases reconcile j = false

-- The size of the region of lane `j` after the step, where the lane is in use.
abbrev resized : {r r' : Registry} → Step r r' → ℕ → ℕ
resized {r} (alloc _) j = r.sizes j
resized {r} (release _) j = r.sizes j
resized {r} (shrink i len) j = if i == j then aligned len else r.sizes j
resized {r} reconcile j = r.sizes j

-- After any sequence of operations in which each allocation has room in the arena behind the last
-- region, each release is of a lane in use, and each length is set to no more than the region has,
-- one more such operation does this to a lane in use: it stays in use unless the operation is its
-- own release, its region stays where it is, and its size is the one that is set for that lane, and
-- else the one that it had.
pub Step-stable :
    {r r' : Registry} (run : Reach r)
    → ProperRun run
    → (s : Step r r') → Proper s
    → (j : ℕ) → j < 32
    → live r j ≡ true
    → (live r' j ≡ not (releases s j))
      × (place r'.table j ≡ place r.table j)
      × (r'.sizes j ≡ resized s j)
unfolding free set_slot_length
Step-stable {r} run ok (alloc task) room j lt l =
    let (v, p) = Reach-Inv run ok in
    elim ((alloc_task-Served r task v p room).0) [
      | inl (slot, a) ↦ a.kept j lt l
      | inr a ↦ a.kept j lt l
    ]
Step-stable {r} run ok (release i) (il, li) j lt l = elim (Bool-cases (i == j)) [
  | inl e ↦
      let same : live (free r i) i ≡ live (free r i) j = ap (live (free r i)) (ground arith) in
      (ground (arith, same, (free-frees r i il (Reach-Inv run ok).0 li).1), refl, refl)
  | inr e ↦
      let others = (free-frees r i il (Reach-Inv run ok).0 li).2 j (ground arith) in
      (ground (arith, others), refl, refl)
]
Step-stable {r} run ok (shrink i len) (il, h) j lt l =
    (l, refl, rw (bit_and_low 5 i) (ground arith))
Step-stable {r} run ok reconcile tt j lt l = (update_table-Kept r (Reach-Inv run ok).0).1 j lt l

-- After any sequence of operations in which each allocation has room in the arena behind the last
-- region, each release is of a lane in use, and each length is set to no more than the region has,
-- an allocation that finds a lane free of use, and room in the arena, succeeds, if no freed region
-- has the very size.
pub alloc_task-succeeds :
    (r : Registry) (task : Task) (i : ℕ) (run : Reach r)
    → ProperRun run
    → Room r task
    → i < 32
    → live r i ≡ false
    → exact_fit (freed r) r.sizes (aligned task.payload_len) r.table ≡ none
    → (slot : ℕ) × Allocated r (aligned task.payload_len) (alloc_task r task) slot
alloc_task-succeeds r task i run ok room lt idle none_fits =
    let (v, p) = Reach-Inv run ok in
    elim ((alloc_task-Served r task v p room).0) [
      | inl a ↦ a
      | inr a ↦ elim a.cause [
        | inl busy ↦ absurd (ground (arith, busy i lt))
        | inr (q, f) ↦ absurd (ground arith)
      ]
    ]
