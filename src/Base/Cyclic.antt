-- ===== src/Base/Cyclic.antt =====
-- Indices that wrap around once, and regions of one size side by side.
use native.Mathlib.Nat.{mod-eq_of_lt, mod-eq-sub-mod}
use Prim.Native.Nat.{ℕ, zero, suc, ◌+◌, ◌-◌, ◌*◌, ◌%◌, ◌<◌, ◌≤◌}
use mathlib.Core.Path.{◌≡◌, ◌∙◌}
use mathlib.Core.Logic.{◌⊎◌, inl, inr}
use native.Mathlib.Omega.{arith}
use native.Mathlib.Decide.{dec_lt}
use knitting.Base.Tests.{leb, ◌==◌, Bool-cases}

-- One turn at most: an index below twice the capacity wraps once or not at all.
pub wrap_cases : (c x : ℕ) → x < c + c → ((x < c) × (x % c ≡ x)) ⊎ ((c ≤ x) × (x % c ≡ x - c))
wrap_cases c x h = elim (dec_lt x c) [
  | yes p ↦ inl (p, mod-eq_of_lt p)
  | no p ↦ inr (
    omega arith,
    mod-eq-sub-mod {n = x} {m = c} (omega arith) ∙ mod-eq_of_lt {n = x - c} {m = c} (omega arith),
  )
]

-- From a cursor in range, the loop comes by every region.
pub reaches :
    (cursor regions r : ℕ)
    → cursor < regions
    → r < regions
    → (k : ℕ) × (k < regions) × ((cursor + k) % regions ≡ r)
reaches cursor regions r a b = elim (Bool-cases (leb cursor r)) [
  | inl e ↦ (
    r - cursor,
    ground arith,
    elim (wrap_cases regions (cursor + (r - cursor)) (ground arith)) [
      | inl (lt, m) ↦ m ∙ ground arith
      | inr (ge, m) ↦ absurd (ground arith)
    ],
  )
  | inr e ↦ (
    r + regions - cursor,
    ground arith,
    elim (wrap_cases regions (cursor + (r + regions - cursor)) (ground arith)) [
      | inl (lt, m) ↦ absurd (ground arith)
      | inr (ge, m) ↦ m ∙ ground arith
    ],
  )
]

-- A region ends before a later one starts.
pub region_end : (lanes r r' : ℕ) → r < r' → r * lanes + lanes ≤ r' * lanes
region_end lanes r zero h = absurd (omega arith)
region_end lanes r (suc r') h = elim (Bool-cases (r == r')) [
  | inl e ↦ let e' : r ≡ r' = ground arith in rw e' (omega arith)
  | inr e ↦ omega (arith, region_end lanes r r' (ground arith))
]
