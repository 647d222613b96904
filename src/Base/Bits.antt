-- ===== src/Base/Bits.antt =====
-- `&` and `|` with a block of low ones, for every width.
use Prim.Native.Nat.{
  ℕ, zero, suc, ◌+◌, ◌-◌, ◌*◌, ◌/◌, ◌%◌, ◌^◌, ◌≤◌, ◌<◌, min, max, bit_and, bit_or, digits,
  bit_and-bitwise, bit_or-bitwise,
}
use mathlib.Core.Path.{◌≡◌, refl, sym, ap, ◌∙◌}
use native.Mathlib.Nat.{pow-suc, div-div-eq-div-mul, mul-add-mod_self_right, mod-eq_of_lt}
use native.Mathlib.Omega.{arith}

-- What `&` and `|` share: a digit operation, and what is left where the first number ends.
module _ (z : ℕ → ℕ) (f : ℕ → ℕ → ℕ) where
  digits-suc : (n x y : ℕ) → x ≤ n → digits z f (suc n) x y ≡ digits z f n x y
  digits-suc zero zero y h = refl
  digits-suc (suc n) zero y h = refl
  digits-suc zero (suc x) y h = absurd (omega arith)
  digits-suc (suc n) (suc x) y h =
      ap (λ t. t * 2 + f (suc x % 2) (y % 2)) (digits-suc n (suc x / 2) (y / 2) (omega arith))

  digits_add : (k n x y : ℕ) → n ≡ k + x → digits z f n x y ≡ digits z f x x y
  digits_add zero n x y e = let same : n ≡ x = omega arith in ap (λ n. digits z f n x y) same
  digits_add (suc k) zero x y e = absurd (omega arith)
  digits_add (suc k) (suc n) x y e =
      digits-suc n x y (omega arith) ∙ digits_add k n x y (omega arith)

  digits-halve :
      ((y : ℕ) → z y ≡ z (y / 2) * 2 + f 0 (y % 2))
      → (x y : ℕ) → digits z f x x y ≡ digits z f (x / 2) (x / 2) (y / 2) * 2 + f (x % 2) (y % 2)
  digits-halve law zero y = law y
  digits-halve law (suc x) y =
      ap (λ t. t * 2 + f (suc x % 2) (y % 2))
        (digits_add (x - suc x / 2) x (suc x / 2) (y / 2) (omega arith))

bit_and-halve : (x y : ℕ) → bit_and x y ≡ bit_and (x / 2) (y / 2) * 2 + min (x % 2) (y % 2)
bit_and-halve x y = omega (
  arith,
  bit_and-bitwise x y,
  bit_and-bitwise (x / 2) (y / 2),
  digits-halve (λ y. zero) min (λ y. omega arith) x y,
)

bit_or-halve : (x y : ℕ) → bit_or x y ≡ bit_or (x / 2) (y / 2) * 2 + max (x % 2) (y % 2)
bit_or-halve x y = omega (
  arith,
  bit_or-bitwise x y,
  bit_or-bitwise (x / 2) (y / 2),
  digits-halve (λ y. y) max (λ y. omega arith) x y,
)

and_none : (n x : ℕ) → digits (λ y. zero) min n x 0 ≡ 0
and_none zero x = refl
and_none (suc n) zero = refl
and_none (suc n) (suc x) = omega (arith, and_none n (suc x / 2))

or_none : (n x : ℕ) → x ≤ n → digits (λ y. y) max n x 0 ≡ x
or_none zero x h = omega arith
or_none (suc n) zero h = refl
or_none (suc n) (suc x) h = omega (arith, or_none n (suc x / 2) (omega arith))

pub pow_pos : (k : ℕ) → 0 < 2 ^ k
pow_pos zero = omega arith
pow_pos (suc k) = omega (arith, pow-suc 2 k, pow_pos k)

mod_double : (x p : ℕ) → 0 < p → x % (p * 2) ≡ x / 2 % p * 2 + x % 2
mod_double x p h =
    let q = x / 2 / p in
    let r = x / 2 % p * 2 + x % 2 in
    let e : x ≡ q * (p * 2) + r = grind arith in
    let small : r < p * 2 = omega arith in
    ap (λ t. t % (p * 2)) e ∙ mul-add-mod_self_right q (p * 2) r ∙ mod-eq_of_lt small

-- `x & (2^k - 1)` is `x mod 2^k`.
pub bit_and_low : (k x : ℕ) → bit_and x (2 ^ k - 1) ≡ x % 2 ^ k
bit_and_low zero x = omega (arith, bit_and-bitwise x 0, and_none x x)
bit_and_low (suc k) x =
    let half : (2 ^ suc k - 1) / 2 ≡ 2 ^ k - 1 = omega (arith, pow-suc 2 k, pow_pos k) in
    let odd : (2 ^ suc k - 1) % 2 ≡ 1 = omega (arith, pow-suc 2 k, pow_pos k) in
    let step = bit_and-halve x (2 ^ suc k - 1) in
    let step' : bit_and x (2 ^ suc k - 1) ≡ bit_and (x / 2) (2 ^ k - 1) * 2 + x % 2 =
      step ∙ rw half (omega (arith, odd)) in
    step' ∙ rw (bit_and_low k (x / 2), pow-suc 2 k) (sym (mod_double x (2 ^ k) (pow_pos k)))

-- `|` with a number below the lowest set bit is a sum.
pub bit_or_low : (k x a b : ℕ) → x ≡ a * 2 ^ k → b < 2 ^ k → bit_or x b ≡ x + b
bit_or_low zero x a b e h =
    let b0 : b ≡ 0 = omega arith in
    rw b0 (omega (arith, bit_or-bitwise x 0, or_none x x (omega arith)))
bit_or_low (suc k) x a b e h =
    let e' : x ≡ a * 2 ^ k * 2 = e ∙ ap (λ t. a * t) (pow-suc 2 k) ∙ omega arith in
    omega (
      arith,
      bit_or-halve x b,
      bit_or_low k (x / 2) a (b / 2) (omega arith) (omega (arith, pow-suc 2 k)),
    )

pub bit_or_high : (k b a x : ℕ) → x ≡ a * 2 ^ k → b < 2 ^ k → bit_or b x ≡ b + x
bit_or_high zero b a x e h =
    let b0 : b ≡ 0 = omega arith in rw b0 (omega (arith, bit_or-bitwise 0 x))
bit_or_high (suc k) b a x e h =
    let e' : x ≡ a * 2 ^ k * 2 = e ∙ ap (λ t. a * t) (pow-suc 2 k) ∙ omega arith in
    omega (
      arith,
      bit_or-halve b x,
      bit_or_high k (b / 2) a (x / 2) (omega arith) (omega (arith, pow-suc 2 k)),
    )

pub pow_split : (a b n : ℕ) → a + b ≡ n → 2 ^ a * 2 ^ b ≡ 2 ^ n
pow_split a zero n e = let e' : n ≡ a = omega arith in rw e' (omega arith)
pow_split a (suc b) zero e = absurd (omega arith)
pow_split a (suc b) (suc n) e =
    let ih = pow_split a b n (omega arith) in
    rw (pow-suc 2 b, pow-suc 2 n) (omega (arith, ap (λ t. t * 2) ih))

-- `&` with a mask that has `k` zeros at the low end acts on the rest.
pub bit_and_high : (k x m : ℕ) → bit_and x (m * 2 ^ k) ≡ bit_and (x / 2 ^ k) m * 2 ^ k
bit_and_high zero x m =
    let e : m * 1 ≡ m = omega arith in
    let d : x / 1 ≡ x = omega arith in
    ap (bit_and x) e ∙ sym (ap (λ t. bit_and t m * 1) d ∙ omega arith)
bit_and_high (suc k) x m =
    let e : m * 2 ^ suc k ≡ m * 2 ^ k * 2 = ap (λ t. m * t) (pow-suc 2 k) ∙ omega arith in
    let half : m * 2 ^ k * 2 / 2 ≡ m * 2 ^ k = omega arith in
    let even : min (x % 2) (m * 2 ^ k * 2 % 2) ≡ 0 = omega arith in
    let quot : x / 2 / 2 ^ k ≡ x / 2 ^ suc k =
      div-div-eq-div-mul x 2 (2 ^ k) ∙ ap (λ t. x / t) (omega (arith, pow-suc 2 k)) in
    let low : bit_and x (m * 2 ^ k * 2) ≡ bit_and (x / 2) (m * 2 ^ k) * 2 =
      bit_and-halve x (m * 2 ^ k * 2)
      ∙ ap (λ t. bit_and (x / 2) t * 2 + min (x % 2) (m * 2 ^ k * 2 % 2)) half
      ∙ omega (arith, even) in
    ap (bit_and x) e
    ∙ low
    ∙ ap (λ t. t * 2) (bit_and_high k (x / 2) m ∙ ap (λ t. bit_and t m * 2 ^ k) quot)
    ∙ sym (ap (λ t. bit_and (x / 2 ^ suc k) m * t) (pow-suc 2 k) ∙ omega arith)
