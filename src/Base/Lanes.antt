-- ===== src/Base/Lanes.antt =====
-- A 32-bit mask word as the truth value of each of its lanes: the bit string on which `&`, `|`, `^`
-- and `~` act. Lanes from 32 on are never read.
use Prim.Native.Nat.{ℕ, zero, suc, ◌<◌}
use mathlib.Core.Path.{◌≡◌, refl, ap}
use mathlib.Core.Logic.{inl, inr}
use mathlib.Core.Bool.{Bool, true, false, not, ◌&&◌, ◌||◌}
use mathlib.Core.Option.{Option, none, some}
use native.Mathlib.Omega.{arith}
use knitting.Base.Tests.{◌==◌, if◌then◌else◌, Bool-cases}

abbrev pub xor : Bool → Bool → Bool
xor true b = not b
xor false b = b

abbrev pub Word : Type 0
Word = ℕ → Bool

abbrev pub lane_count : ℕ
lane_count = 32

-- 0 and 0xFFFFFFFF
abbrev pub zeros : Word
zeros _ = false

abbrev pub ones : Word
ones _ = true

-- `1 << k`
abbrev pub bit : ℕ → Word
bit k i = i == k

abbrev pub not_w : Word → Word
not_w a i = not (a i)

infixl 60 ◌&◌ ◌^w◌
infixl 55 ◌∣w◌
abbrev pub ◌&◌ : Word → Word → Word
(a & b) i = a i && b i

abbrev pub ◌∣w◌ : Word → Word → Word
(a ∣w b) i = a i || b i

abbrev pub ◌^w◌ : Word → Word → Word
(a ^w b) i = xor (a i) (b i)

-- Is a lane below `n` set?
unfoldable pub any_below : ℕ → Word → Bool
any_below zero a = false
any_below (suc n) a = a n || any_below n a

-- `a === 0`
unfoldable pub is_zero : Word → Bool
is_zero a = not (any_below lane_count a)

-- `a === b`
unfoldable pub same : Word → Word → Bool
same a b = is_zero (a ^w b)

-- `a & -a`
unfoldable pub isolate : Word → Word
isolate a i = a i && not (any_below i a)

-- The highest set lane below `n`; `31 - clz32(a)` at 32, where `none` is -1.
unfoldable pub highest : ℕ → Word → Option ℕ
highest zero a = none
highest (suc n) a = if a n then some n else highest n a

unfoldable pub lead : Word → Option ℕ
lead a = highest lane_count a

pub any_below-false : (n : ℕ) (a : Word) (i : ℕ) → any_below n a ≡ false → i < n → a i ≡ false
unfolding any_below
any_below-false zero a i h lt = absurd (omega arith)
any_below-false (suc n) a i h lt = elim (Bool-cases (i == n)) [
  | inl e ↦ let e' : i ≡ n = ground arith in rw e' (ground arith)
  | inr e ↦ any_below-false n a i (ground arith) (ground arith)
]

pub any_below-true : (n : ℕ) (a : Word) → any_below n a ≡ true → (i : ℕ) × (i < n) × (a i ≡ true)
unfolding any_below
any_below-true zero a h = cc
any_below-true (suc n) a h = elim (Bool-cases (a n)) [
  | inl e ↦ (n, omega arith, e)
  | inr e ↦ let (i, lt, p) = any_below-true n a (ground arith) in (i, omega arith, p)
]

pub any_below-of_lane : (n : ℕ) (a : Word) (i : ℕ) → i < n → a i ≡ true → any_below n a ≡ true
any_below-of_lane n a i lt h = elim (Bool-cases (any_below n a)) [
  | inl e ↦ e
  | inr e ↦ ground (arith, any_below-false n a i)
]

pub is_zero-lane : (a : Word) (i : ℕ) → is_zero a ≡ true → i < 32 → a i ≡ false
unfolding is_zero
is_zero-lane a i h lt = any_below-false 32 a i (ground arith) lt

pub not-is_zero : (a : Word) → is_zero a ≡ false → (i : ℕ) × (i < 32) × (a i ≡ true)
unfolding is_zero
not-is_zero a h = any_below-true 32 a (ground arith)

pub is_zero-of_lanes : (a : Word) → ((i : ℕ) → i < 32 → a i ≡ false) → is_zero a ≡ true
is_zero-of_lanes a h = elim (Bool-cases (is_zero a)) [
  | inl e ↦ e
  | inr e ↦ let (i, lt, p) = not-is_zero a e in ground (arith, h i lt)
]

-- What `highest` finds is set, and is the only such lane when nothing above it is.
pub record IsHighest (n : ℕ) (a : Word) (i : ℕ) : Type 0 where
  pub below : i < n
  pub set : a i ≡ true
  pub above : (j : ℕ) → i < j → j < n → a j ≡ false

pub highest-IsHighest : (n : ℕ) (a : Word) {i : ℕ} → highest n a ≡ some i → IsHighest n a i
unfolding highest
highest-IsHighest zero a h = absurd (cc)
highest-IsHighest (suc n) a {i} h = elim (Bool-cases (a n)) [
  | inl e ↦
      let e' : n ≡ i = ground arith in
      rw (← e') (record { below = omega arith; set = e; above = λ j p q. absurd (omega arith) })
  | inr e ↦
      let r = highest-IsHighest n a {i = i} (ground arith) in
      record {
        below = omega (arith, r.below);
        set = r.set;
        above = λ j p q. elim (Bool-cases (j == n)) [
          | inl f ↦ let f' : j ≡ n = ground arith in rw f' e
          | inr f ↦ r.above j p (ground arith)
        ];
      }
]

pub highest-none : (n : ℕ) (a : Word) → highest n a ≡ none → any_below n a ≡ false
unfolding highest any_below
highest-none zero a h = refl
highest-none (suc n) a h = ground (arith, highest-none n a)

pub lead-none : (a : Word) → lead a ≡ none → (i : ℕ) → i < 32 → a i ≡ false
unfolding lead
lead-none a h i lt = any_below-false 32 a i (highest-none 32 a h) lt

-- The lane that `31 - clz32(a & -a)` names is set, below 32, and the lowest.
pub lead-isolate :
    (a : Word) {i : ℕ}
    → lead (isolate a) ≡ some i
    → (i < 32) × (a i ≡ true) × (any_below i a ≡ false)
unfolding lead isolate
lead-isolate a {i} h =
    let r = highest-IsHighest 32 (λ i. a i && not (any_below i a)) {i = i} h in
    (r.below, ground (arith, r.set), ground (arith, r.set))

least : (n : ℕ) (a : Word) → any_below n a ≡ true → (i : ℕ) × (i < n) × (isolate a i ≡ true)
unfolding any_below isolate
least zero a h = cc
least (suc n) a h = elim (Bool-cases (any_below n a)) [
  | inl e ↦ let (i, lt, p) = least n a e in (i, omega arith, p)
  | inr e ↦ (n, omega arith, ground arith)
]

pub isolate-is_zero : (a : Word) → is_zero (isolate a) ≡ is_zero a
unfolding is_zero
isolate-is_zero a = elim (Bool-cases (any_below 32 a)) [
  | inl e ↦ let (i, lt, p) = least 32 a e in rw (e, any_below-of_lane 32 (isolate a) i lt p)
  | inr e ↦ rw e (
      is_zero-of_lanes (isolate a)
        (λ i lt. unfold isolate in ground (arith, any_below-false 32 a i)))
]

-- `a & -a` has the lane that `31 - clz32` names, and no other.
pub isolate-bit :
    (a : Word) {i : ℕ} → lead (isolate a) ≡ some i → (j : ℕ) → j < 32 → isolate a j ≡ (j == i)
unfolding isolate
isolate-bit a {i} h j lt =
    ground (arith, lead-isolate a {i = i} h, any_below-false i a j, any_below-of_lane j a i)

-- Lanes on which a word differs are different lanes.
pub lane_ne : (a : Word) (i j : ℕ) → a i ≡ false → a j ≡ true → (i == j) ≡ false
lane_ne a i j p q = elim (Bool-cases (i == j)) [
  | inl e ↦
      let same : a i ≡ a j = ap a (let w : i ≡ j = ground arith in w) in
      absurd (ground (arith, same))
  | inr e ↦ e
]
