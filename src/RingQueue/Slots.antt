-- ===== src/RingQueue/Slots.antt =====
-- src/ipc/tools/ring-queue.ts: index arithmetic, and the relation of a ring to the list it holds.
use native.Mathlib.Nat.{mod-eq_of_lt, mod-eq-sub-mod, pow-le-pow_right, mul-add-mod_self_right}
use knitting.Base.{
  ℕ, ◌+◌, ◌-◌, ◌*◌, ◌%◌, ◌^◌, ◌<◌, ◌≤◌, bit_and, ◌≡◌, sym, ◌∙◌, ap, none, List, arith, dec_lt,
  length, get_elem?, get_or,
}
use knitting.Base.Bits.{bit_and_low, pow_pos, pow_split}
use knitting.RingQueue.{RingQueue, before}

-- The ring's capacity is a power of two, and its slots from `head` on hold `xs`.
pub record Holds {ℓ} {A : Type ℓ} (q : RingQueue A) (xs : List A) : Type ℓ where
  pub exp : ℕ
  pub width : q.mask + 1 ≡ 2 ^ exp
  pub narrow : exp ≤ 30
  pub storage : length q.buf ≡ q.mask + 1
  pub head_in : q.head < q.mask + 1
  pub tail_at : q.tail ≡ (q.head + q.size) % (q.mask + 1)
  pub counted : length xs ≡ q.size
  pub fits : q.size ≤ q.mask + 1
  pub held : (i : ℕ) → i < q.size → get_or q.buf ((q.head + i) % (q.mask + 1)) none ≡ get_elem? xs i

module _ {ℓ} {A : Type ℓ} {q : RingQueue A} {xs : List A} (h : Holds q xs) where
  -- `x & mask` is `x` modulo the capacity.
  pub and_mask : (x : ℕ) → bit_and x q.mask ≡ x % (q.mask + 1)
  and_mask x =
      let e : q.mask ≡ 2 ^ h.exp - 1 = omega (arith, h.width) in
      ap (bit_and x) e ∙ bit_and_low h.exp x ∙ ap (λ t. x % t) (sym h.width)

  pub small : q.mask + 1 ≤ 2 ^ 30
  small = rw h.width (pow-le-pow_right (omega arith) h.narrow)

  pub next_head : bit_and (q.head + 1) q.mask ≡ (q.head + 1) % (q.mask + 1)
  next_head = and_mask (q.head + 1)

  -- `(head - 1) & mask` steps back by one, from 0 to the last slot.
  pub prev_head : before q.head q.mask ≡ (q.head + q.mask) % (q.mask + 1)
  prev_head = and_mask ((q.head + 2 ^ 32 - 1) % 2 ^ 32) ∙ go (dec_lt 0 q.head)
    where
      -- The all-ones pattern is a multiple of the capacity and all the mask.
      ones : (2 ^ 32 - 1) % (q.mask + 1) ≡ q.mask
      ones =
          let k = 2 ^ (32 - h.exp) in
          let split : k ≡ k - 1 + 1 = omega (arith, pow_pos (32 - h.exp)) in
          let whole : k * (q.mask + 1) ≡ 2 ^ 32 =
            ap (λ t. k * t) h.width ∙ pow_split (32 - h.exp) h.exp 32 (omega (arith, h.narrow)) in
          let e : 2 ^ 32 - 1 ≡ (k - 1) * (q.mask + 1) + q.mask =
            omega (arith, whole, ap (λ t. t * (q.mask + 1)) split) in
          ap (λ t. t % (q.mask + 1)) e
          ∙ mul-add-mod_self_right (k - 1) (q.mask + 1) q.mask
          ∙ mod-eq_of_lt {n = q.mask} {m = q.mask + 1} (omega arith)

      go :
          Dec (0 < q.head)
          → (q.head + 2 ^ 32 - 1) % 2 ^ 32 % (q.mask + 1) ≡ (q.head + q.mask) % (q.mask + 1)
      go (yes p) =
          let e : (q.head + 2 ^ 32 - 1) % 2 ^ 32 ≡ q.head - 1 = omega (arith, small, h.head_in) in
          ap (λ t. t % (q.mask + 1)) e
          ∙ mod-eq_of_lt {n = q.head - 1} {m = q.mask + 1} (omega (arith, h.head_in))
          ∙ sym (
              mod-eq-sub-mod {n = q.head + q.mask} {m = q.mask + 1} (omega arith)
              ∙ ap (λ t. t % (q.mask + 1))
                  (let w : q.head + q.mask - (q.mask + 1) ≡ q.head - 1 = omega arith in w)
              ∙ mod-eq_of_lt {n = q.head - 1} {m = q.mask + 1} (omega (arith, h.head_in)))
      go (no p) =
          let z : q.head ≡ 0 = omega arith in
          rw z (
            ones
            ∙ sym (
                ap (λ t. t % (q.mask + 1)) (let w : 0 + q.mask ≡ q.mask = omega arith in w)
                ∙ mod-eq_of_lt {n = q.mask} {m = q.mask + 1} (omega arith)))
