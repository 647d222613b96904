-- ===== src/Region/Full.antt =====
-- src/memory/regionRegistry.ts: registries that track all 32 lanes.
use knitting.Base.{
  ℕ, ◌≤◌, ◌<◌, true, ◌≡◌, refl, List, [], ◌∷◌, none, arith, Bool-cases, inl, inr, length,
}
use knitting.Base.Count.{count, count-all, count-add}
use knitting.Base.Lanes.{Word, not_w, is_zero, lead, is_zero-lane, isolate-is_zero, highest-none}
use knitting.Region.{slot_of}
use knitting.Region.Allocate.{free_slot, available}
use knitting.Region.Entry.{slot_of-lt}
use knitting.Region.Owners.{tracks, Distinct}

count-tracks : (t : List ℕ) → Distinct t → count 32 (tracks t) ≡ length t
unfolding count
count-tracks [] d = refl
count-tracks (v ∷ t) d =
    ground (arith, count-tracks t d.1, count-add 32 (slot_of v) (tracks t) (slot_of-lt v) d.0)

-- A table of 32 entries tracks every lane.
pub tracks-full : (t : List ℕ) → Distinct t → 32 ≤ length t → (i : ℕ) → i < 32 → tracks t i ≡ true
tracks-full t d h = count-all 32 (tracks t) (omega (arith, count-tracks t d))

-- No free lane is found only where every lane is used.
pub free_slot-none : (u : Word) → free_slot u ≡ none → (i : ℕ) → i < 32 → u i ≡ true
unfolding free_slot lead
free_slot-none u h i lt =
    let empty : is_zero (available u) ≡ true = elim (Bool-cases (is_zero (available u))) [
      | inl e ↦ e
      | inr e ↦
          let l : lead (available u) ≡ none = rw e at h in
          unfold is_zero in ground (arith, highest-none 32 (available u) l)
    ] in
    ground (arith, is_zero-lane (not_w u) i (rw (← isolate-is_zero (not_w u)) empty) lt)
