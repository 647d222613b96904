-- ===== src/Base/Count.antt =====
-- How many lanes of a word are set.
use Prim.Native.Nat.{ℕ, zero, suc, ◌+◌, ◌<◌, ◌≤◌}
use mathlib.Core.Path.{◌≡◌, ◌∙◌, refl, ap}
use mathlib.Core.Logic.{inl, inr}
use mathlib.Core.Bool.{true, false, ◌||◌}
use native.Mathlib.Omega.{arith}
use knitting.Base.Tests.{◌==◌, if◌then◌else◌, Bool-cases}
use knitting.Base.Lanes.{Word, xor, bit, ◌^w◌}

-- How many lanes below `n` are set.
unfoldable pub count : ℕ → Word → ℕ
count zero f = 0
count (suc n) f = (if f n then 1 else 0) + count n f

pub count-le : (n : ℕ) (f : Word) → count n f ≤ n
unfolding count
count-le zero f = omega arith
count-le (suc n) f = ground (arith, count-le n f)

pub count-all : (n : ℕ) (f : Word) → n ≤ count n f → (i : ℕ) → i < n → f i ≡ true
unfolding count
count-all zero f h i lt = absurd (omega arith)
count-all (suc n) f h i lt = elim (Bool-cases (f n)) [
  | inl e ↦ elim (Bool-cases (i == n)) [
    | inl q ↦ let q' : i ≡ n = ground arith in rw q' e
    | inr q ↦ count-all n f (ground arith) i (ground arith)
  ]
  | inr e ↦ absurd (ground (arith, count-le n f))
]

count-above : (n k : ℕ) (f : Word) → n ≤ k → count n (λ j. (k == j) || f j) ≡ count n f
unfolding count
count-above zero k f h = refl
count-above (suc n) k f h = ground (arith, count-above n k f (omega arith))

pub count-add :
    (n k : ℕ) (f : Word) → k < n → f k ≡ false → count n (λ j. (k == j) || f j) ≡ suc (count n f)
unfolding count
count-add zero k f lt h = absurd (omega arith)
count-add (suc n) k f lt h = elim (Bool-cases (k == n)) [
  | inl e ↦
      let e' : k ≡ n = ground arith in
      let fn : f n ≡ false = rw (← e') h in ground (arith, count-above n k f)
  | inr e ↦ ground (arith, count-add n k f (ground arith) h)
]

pub count-none : (n : ℕ) (f : Word) → count n f ≤ 0 → (i : ℕ) → i < n → f i ≡ false
unfolding count
count-none zero f h i lt = absurd (omega arith)
count-none (suc n) f h i lt = elim (Bool-cases (f n)) [
  | inl e ↦ absurd (ground arith)
  | inr e ↦ elim (Bool-cases (i == n)) [
    | inl q ↦ let q' : i ≡ n = ground arith in rw q' e
    | inr q ↦ count-none n f (ground arith) i (ground arith)
  ]
]

count-same : (n : ℕ) (f g : Word) → ((i : ℕ) → f i ≡ g i) → count n f ≡ count n g
unfolding count
count-same zero f g e = refl
count-same (suc n) f g e = ground (arith, count-same n f g e, e n)

-- Taking a set lane away leaves one less.
pub count-toggle :
    (n k : ℕ) (f : Word) → k < n → f k ≡ true → count n f ≡ suc (count n (f ^w bit k))
count-toggle n k f lt h =
    let split = λ (i : ℕ).
      elim (Bool-cases (k == i)) as (λ _. f i ≡ (k == i) || xor (f i) (i == k)) [
        | inl e ↦ let same : f k ≡ f i = ap f (ground arith) in ground (arith, same)
        | inr e ↦ ground arith
      ] in
    count-same n f (λ j. (k == j) || (f ^w bit k) j) split
    ∙ count-add n k (f ^w bit k) lt (ground arith)

pub count-of_none : (n : ℕ) (f : Word) → ((i : ℕ) → i < n → f i ≡ false) → count n f ≡ 0
unfolding count
count-of_none zero f h = refl
count-of_none (suc n) f h =
    ground (arith, h n (omega arith), count-of_none n f (λ i lt. h i (omega arith)))
