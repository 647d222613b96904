-- ===== src/Region/Reuse.antt =====
-- The reuse of a freed region of the very size: one entry of the table changes its owner.
use knitting.Base.{
  ℕ, zero, suc, ◌+◌, true, false, ◌&&◌, ◌||◌, ◌≡◌, refl, ap, ◌∙◌, Option-cases, List, [], ◌∷◌, some,
  arith, ◌==◌, if◌then◌else◌, Bool-cases, inl, inr, get_elem?, set,
}
use knitting.Base.Lanes.{Word}
use knitting.Region.{slot_of, start_of, put}
use knitting.Region.Allocate.{exact_fit}
use knitting.Region.Owners.{tracks, Distinct, place}
use knitting.Region.Layout.{Layout, Layout-lower, put-Layout}

-- The entry that the exact-fit loop returns: it stands at the index, is free and has the size.
pub exact_fit_sound :
    (free : Word) (sizes : ℕ → ℕ) (size : ℕ) (t : List ℕ) {k v : ℕ}
    → exact_fit free sizes size t ≡ some (k, v)
    → (get_elem? t k ≡ some v) × (free (slot_of v) ≡ true) × (sizes (slot_of v) ≡ size)
unfolding exact_fit
exact_fit_sound free sizes size [] h = absurd (cc)
exact_fit_sound free sizes size (u ∷ t) {k} {v} h =
    elim (Bool-cases (free (slot_of u) && (sizes (slot_of u) == size))) [
      | inl e ↦
          let ek : k ≡ 0 = ground arith in
          let ev : v ≡ u = ground arith in rw (ek, ev) (refl, ground arith, ground arith)
      | inr e ↦ elim (Option-cases (exact_fit free sizes size t)) [
        | inl f ↦ absurd (ground arith)
        | inr (r, f) ↦
            let ek : k ≡ suc r.0 = ground arith in
            let ev : v ≡ r.1 = ground arith in
            rw (ek, ev) (exact_fit_sound free sizes size t {k = r.0} {v = r.1} f)
      ]
    ]

tracks-get_elem? : (t : List ℕ) (k v : ℕ) → get_elem? t k ≡ some v → tracks t (slot_of v) ≡ true
tracks-get_elem? [] k v h = cc
tracks-get_elem? (u ∷ t) zero v h = ground arith
tracks-get_elem? (u ∷ t) (suc k) v h = ground (arith, tracks-get_elem? t k v h)

-- Replacing an entry of a table hands its place to another lane.
pub tracks-set :
    (t : List ℕ) (k v e j : ℕ)
    → Distinct t
    → get_elem? t k ≡ some v
    → tracks (set t k e) j
      ≡ (if slot_of v == j then slot_of e == j else (slot_of e == j) || tracks t j)
tracks-set [] k v e j d h = absurd (cc)
tracks-set (u ∷ t) zero v e j d h = elim (Bool-cases (slot_of v == j)) [
  | inl f ↦
      let uv : u ≡ v = ground arith in
      let same : tracks t (slot_of u) ≡ tracks t j =
        ap (tracks t) (let w : slot_of u ≡ j = ap slot_of uv ∙ ground arith in w) in
      ground (arith, same)
  | inr f ↦ let uv : slot_of u ≡ slot_of v = ap slot_of (ground arith) in ground arith
]
tracks-set (u ∷ t) (suc k) v e j d h = elim (Bool-cases (slot_of v == j)) [
  | inl f ↦
      let same : tracks t (slot_of v) ≡ tracks t j = ap (tracks t) (ground arith) in
      ground (arith, tracks-set t k v e j d.1 h, tracks-get_elem? t k v h, same, d.0)
  | inr f ↦ ground (arith, tracks-set t k v e j d.1 h)
]

pub set-Distinct :
    (t : List ℕ) (k v e : ℕ)
    → Distinct t
    → get_elem? t k ≡ some v
    → tracks t (slot_of e) ≡ false
    → Distinct (set t k e)
set-Distinct [] k v e d h n = tt
set-Distinct (u ∷ t) zero v e d h n = (ground arith, d.1)
set-Distinct (u ∷ t) (suc k) v e d h n = (
  ground (arith, tracks-set t k v e (slot_of u) d.1 h),
  set-Distinct t k v e d.1 h (ground arith),
)

pub place-set :
    (t : List ℕ) (k v e j : ℕ)
    → Distinct t
    → get_elem? t k ≡ some v
    → tracks t (slot_of e) ≡ false
    → (slot_of v == j) ≡ false
    → place (set t k e) j ≡ (if slot_of e == j then some (start_of e) else place t j)
place-set [] k v e j d h n o = absurd (cc)
place-set (u ∷ t) zero v e j d h n o =
    let uv : slot_of u ≡ slot_of v = ap slot_of (ground arith) in ground arith
place-set (u ∷ t) (suc k) v e j d h n o = ground (arith, place-set t k v e j d.1 h)

-- The new owner has the place and the size of the old one.
pub set-Layout :
    (sizes : ℕ → ℕ) (slot size p : ℕ) (t : List ℕ) (k v e : ℕ)
    → tracks t slot ≡ false
    → get_elem? t k ≡ some v
    → start_of e ≡ start_of v
    → slot_of e ≡ slot
    → sizes (slot_of v) ≡ size
    → Layout sizes p t
    → Layout (put sizes slot size) p (set t k e)
set-Layout sizes slot size p [] k v e n h es eo ez l = l
set-Layout sizes slot size p (u ∷ t) zero v e n h es eo ez l =
    let uv : u ≡ v = ground arith in
    let su : start_of u ≡ start_of e = ap start_of uv ∙ ground arith in
    let zu : sizes (slot_of u) ≡ size = ap (λ x. sizes (slot_of x)) uv ∙ ez in
    let own : (slot_of e == slot) ≡ true = ground arith in
    (
      omega (arith, l.0),
      omega (arith, l.1),
      ground (arith, l.2, zu),
      Layout-lower (put sizes slot size) (start_of u + sizes (slot_of u)) _ t
          (ground (arith, su, zu, own))
          (put-Layout sizes slot size (start_of u + sizes (slot_of u)) t (ground arith) l.3),
    )
set-Layout sizes slot size p (u ∷ t) (suc k) v e n h es eo ez l =
    elim (Bool-cases (slot_of u == slot)) [
      | inl f ↦ absurd (ground arith)
      | inr f ↦ rw f (
        l.0,
        l.1,
        l.2,
        set-Layout sizes slot size (start_of u + sizes (slot_of u)) t k v e (ground arith) h es eo
            ez l.3,
      )
    ]
