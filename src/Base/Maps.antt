-- ===== src/Base/Maps.antt =====
-- Arrays as functions of the index, lists of indices, and how often an index occurs.
use Prim.Native.Nat.{ℕ, zero, suc, ◌+◌, ◌<◌, ◌≤◌}
use mathlib.Core.Path.{◌≡◌, refl, ap}
use mathlib.Core.Logic.{◌≢◌, ◌⊎◌, inl, inr}
use mathlib.Core.Bool.{Bool, true, false}
use mathlib.Core.Option.{Option, none, some}
use mathlib.Core.List.{List, [], ◌∷◌, ◌++◌}
use native.Mathlib.Omega.{arith}
use knitting.Base.Tests.{◌==◌, if◌then◌else◌, Bool-cases}
use knitting.Base.Count.{count}

abbrev pub put {ℓ} : {A : Type ℓ} → (ℕ → A) → ℕ → A → ℕ → A
put f k v i = if i == k then v else f i

abbrev pub is_id : Option ℕ → ℕ → Bool
is_id none x = false
is_id (some y) x = y == x

-- 1 for true
abbrev pub one_if : Bool → ℕ
one_if true = 1
one_if false = 0

-- The numbers from `a` on, `n` of them.
abbrev pub range_from : ℕ → ℕ → List ℕ
range_from a zero = []
range_from a (suc n) = a ∷ range_from (a + 1) n

abbrev pub occurs : ℕ → List ℕ → ℕ
occurs x [] = 0
occurs x (y ∷ ys) = one_if (y == x) + occurs x ys

pub occurs-append : (x : ℕ) (xs ys : List ℕ) → occurs x (xs ++ ys) ≡ occurs x xs + occurs x ys
occurs-append x [] ys = omega arith
occurs-append x (y ∷ xs) ys = omega (arith, occurs-append x xs ys)

pub occurs-range_from :
    (x a n : ℕ)
    → (occurs x (range_from a n) ≡ 1) × (a ≤ x) × (x < a + n)
      ⊎ (occurs x (range_from a n) ≡ 0) × ((x < a) ⊎ (a + n ≤ x))
occurs-range_from x a zero = inr (refl, ground arith)
occurs-range_from x a (suc n) = ground (arith, occurs-range_from x (a + 1) n)

pub put_self {ℓ} : {A : Type ℓ} (f : ℕ → A) (k : ℕ) (v : A) → put f k v k ≡ v
put_self f k v = ground arith

pub put_ne {ℓ} : {A : Type ℓ} (f : ℕ → A) (k i : ℕ) (v : A) → i ≢ k → put f k v i ≡ f i
put_ne f k i v h = ground arith

count-put_above : (n k : ℕ) (f : ℕ → Bool) (b : Bool) → n ≤ k → count n (put f k b) ≡ count n f
unfolding count
count-put_above zero k f b h = refl
count-put_above (suc n) k f b h = ground (arith, count-put_above n k f b (omega arith))

-- What one write changes of a count.
pub count-put :
    (n k : ℕ) (f : ℕ → Bool) (b : Bool)
    → k < n
    → count n (put f k b) + one_if (f k) ≡ count n f + one_if b
unfolding count
count-put zero k f b h = absurd (omega arith)
count-put (suc n) k f b h = elim (Bool-cases (n == k)) [
  | inl e ↦
      let at : n ≡ k = ground arith in
      let same : f n ≡ f k = ap f at in ground (arith, count-put_above n k f b (omega arith), same)
  | inr e ↦ ground (arith, count-put n k f b (ground arith))
]

-- Nothing is counted in what an array has grown by.
pub count-grow :
    (k n : ℕ) (f : ℕ → Bool) → n ≤ k → ((i : ℕ) → n ≤ i → f i ≡ false) → count k f ≡ count n f
unfolding count
count-grow zero zero f le h = refl
count-grow zero (suc n) f le h = absurd (omega arith)
count-grow (suc k) n f le h = elim (Bool-cases (n == suc k)) [
  | inl e ↦ let at : n ≡ suc k = ground arith in rw at refl
  | inr e ↦ ground (arith, count-grow k n f (ground arith) h, h k (ground arith))
]

pub count-same_at : (n : ℕ) (f g : ℕ → Bool) → ((i : ℕ) → i < n → f i ≡ g i) → count n f ≡ count n g
unfolding count
count-same_at zero f g e = refl
count-same_at (suc n) f g e =
    ground (arith, count-same_at n f g (λ i lt. e i (omega arith)), e n (omega arith))
