-- ===== src/Region/Owners.antt =====
-- Which lanes the table tracks, and where the region of a lane starts.
use knitting.Base.{
  ℕ, zero, suc, Bool, true, false, not, ◌&&◌, ◌||◌, ◌≡◌, refl, ap, List, [], ◌∷◌, Option, none,
  some, arith, ◌==◌, if◌then◌else◌, Bool-cases, inl, inr,
}
use knitting.Base.Lanes.{Word}
use knitting.Region.{slot_of, start_of, insert_at}

abbrev pub tracks : List ℕ → ℕ → Bool
tracks [] i = false
tracks (v ∷ t) i = (slot_of v == i) || tracks t i

-- No lane owns two entries.
abbrev pub Distinct : List ℕ → Type 0
Distinct [] = Unit {0}
Distinct (v ∷ t) = (tracks t (slot_of v) ≡ false) × Distinct t

-- The start of the region of a lane.
abbrev pub place : List ℕ → ℕ → Option ℕ
place [] i = none
place (v ∷ t) i = if slot_of v == i then some (start_of v) else place t i

-- The entries whose lane is not in `free`.
unfoldable pub survivors : Word → List ℕ → List ℕ
survivors free [] = []
survivors free (v ∷ t) = if free (slot_of v) then survivors free t else v ∷ survivors free t

pub tracks-insert_at :
    (k e : ℕ) (t : List ℕ) (j : ℕ) → tracks (insert_at k e t) j ≡ (slot_of e == j) || tracks t j
unfolding insert_at
tracks-insert_at zero e t j = refl
tracks-insert_at (suc k) e [] j = refl
tracks-insert_at (suc k) e (v ∷ t) j = ground (arith, tracks-insert_at k e t j)

pub insert_at-Distinct :
    (k e : ℕ) (t : List ℕ) → tracks t (slot_of e) ≡ false → Distinct t → Distinct (insert_at k e t)
unfolding insert_at
insert_at-Distinct zero e t h d = (h, d)
insert_at-Distinct (suc k) e [] h d = (refl, tt)
insert_at-Distinct (suc k) e (v ∷ t) h d = (
  ground (arith, tracks-insert_at k e t (slot_of v)),
  insert_at-Distinct k e t (ground arith) d.1,
)

pub place-insert_at :
    (k e : ℕ) (t : List ℕ) (j : ℕ)
    → tracks t (slot_of e) ≡ false
    → place (insert_at k e t) j ≡ (if slot_of e == j then some (start_of e) else place t j)
unfolding insert_at
place-insert_at zero e t j h = refl
place-insert_at (suc k) e [] j h = refl
place-insert_at (suc k) e (v ∷ t) j h = ground (arith, place-insert_at k e t j)

pub tracks-survivors :
    (free : Word) (t : List ℕ) (j : ℕ) → tracks (survivors free t) j ≡ tracks t j && not (free j)
unfolding survivors
tracks-survivors free [] j = refl
tracks-survivors free (v ∷ t) j = elim (Bool-cases (slot_of v == j)) [
  | inl e ↦
      let same : free (slot_of v) ≡ free j = ap free (let w : slot_of v ≡ j = ground arith in w) in
      ground (arith, same, tracks-survivors free t j)
  | inr e ↦ ground (arith, tracks-survivors free t j)
]

pub survivors-Distinct : (free : Word) (t : List ℕ) → Distinct t → Distinct (survivors free t)
unfolding survivors
survivors-Distinct free [] d = tt
survivors-Distinct free (v ∷ t) d = elim (Bool-cases (free (slot_of v))) [
  | inl e ↦ rw e (survivors-Distinct free t d.1)
  | inr e ↦
      rw e (ground (arith, tracks-survivors free t (slot_of v)), survivors-Distinct free t d.1)
]

pub place-survivors :
    (free : Word) (t : List ℕ) (j : ℕ) → free j ≡ false → place (survivors free t) j ≡ place t j
unfolding survivors
place-survivors free [] j h = refl
place-survivors free (v ∷ t) j h = elim (Bool-cases (slot_of v == j)) [
  | inl e ↦
      let same : free (slot_of v) ≡ free j = ap free (let w : slot_of v ≡ j = ground arith in w) in
      ground (arith, same, place-survivors free t j h)
  | inr e ↦ ground (arith, place-survivors free t j h)
]

-- A lane is tracked exactly when its region has a place.
place-tracks : (t : List ℕ) (j : ℕ) → tracks t j ≡ true → (a : ℕ) × (place t j ≡ some a)
place-tracks [] j h = cc
place-tracks (v ∷ t) j h = elim (Bool-cases (slot_of v == j)) [
  | inl e ↦ (start_of v, rw e)
  | inr e ↦ rw e (place-tracks t j (ground arith))
]
