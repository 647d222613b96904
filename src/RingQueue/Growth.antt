-- ===== src/RingQueue/Growth.antt =====
-- src/ipc/tools/ring-queue.ts: the doubling loops, and the two copy loops of `#growTo`.
use native.Mathlib.Nat.{pow-suc, pow-le-pow_right, mod-eq_of_lt}
use knitting.Base.{
  ℕ, zero, suc, ◌+◌, ◌-◌, ◌%◌, ◌^◌, ◌<◌, ◌≤◌, min, true, ◌≡◌, ◌≢◌, refl, sym, ◌∙◌, ap, ◌⊎◌, inl,
  inr, Option, none, some, List, arith, leb, Bool-cases, ℕ_discrete, length, get_or, set, replicate,
  length-set, length-replicate, get_or-set_self, get_or-set_ne,
}
use knitting.RingQueue.{RingQueue, shl1, less, doubled, fuel, copy, grow_to, reserve}
use knitting.Base.Cyclic.{wrap_cases}
use knitting.RingQueue.Slots.{Holds}

-- From 2 ^ k, with room to double up to 2 ^ 30 and fuel for each doubling, the loop ends at the
-- first power of two that is large enough.
pub doubled-pow :
    (f k n : ℕ)
    → 30 - k < f
    → k ≤ 30
    → n ≤ 2 ^ 30
    → (e : ℕ) × (doubled f (2 ^ k) n ≡ some (2 ^ e)) × (n ≤ 2 ^ e) × (k ≤ e) × (e ≤ 30)
unfolding doubled
doubled-pow zero k n h b s = absurd (omega arith)
doubled-pow (suc f) k n h b s = elim (Bool-cases (less (2 ^ k) n)) [
  | inl more ↦ rw more (
      let (e, run, big, up, top) =
        doubled-pow f (suc k) n (omega (arith, room more)) (omega (arith, room more)) s in
      (e, ap (λ t. doubled f t n) next ∙ run, big, omega arith, top))
  | inr stop ↦ rw stop (k, refl, ground arith, omega arith, b)
]
  where
    top : 2 ^ k ≤ 2 ^ 30
    top = pow-le-pow_right (omega arith) b

    next : shl1 (2 ^ k) ≡ 2 ^ suc k
    next = omega (arith, top, pow-suc 2 k)

    room : less (2 ^ k) n ≡ true → k ≤ 29
    room more =
        let below : 2 ^ k < 2 ^ 30 = ground (arith, top) in
        let ne : k ≢ 30 = λ e. absurd (omega (arith, ap (λ t. 2 ^ t) e)) in omega arith

pub mod-eq_of_lt' : {x y c : ℕ} → x ≡ y → y < c → x % c ≡ y
mod-eq_of_lt' {c = c} e h = ap (λ t. t % c) e ∙ mod-eq_of_lt h

module _ {A : Type 0} (old : List (Option A)) where
  length-copy :
      (n from at : ℕ) (next : List (Option A)) → length (copy n from at old next) ≡ length next
  unfolding copy
  length-copy zero from at next = refl
  length-copy (suc n) from at next =
      length-copy n (from + 1) (at + 1) (set next from (get_or old at none))
      ∙ length-set next from (get_or old at none)

  -- The loop writes the slots `from .. from + n` and no other.
  get_or-copy_out :
      (n from at : ℕ) (next : List (Option A)) (i : ℕ)
      → (i < from) ⊎ (from + n ≤ i)
      → get_or (copy n from at old next) i none ≡ get_or next i none
  unfolding copy
  get_or-copy_out zero from at next i h = refl
  get_or-copy_out (suc n) from at next i h =
      get_or-copy_out n (from + 1) (at + 1) (set next from (get_or old at none)) i (omega arith)
      ∙ get_or-set_ne next from i (get_or old at none) none (omega arith)

  get_or-copy_in :
      (n from at : ℕ) (next : List (Option A)) (i j : ℕ)
      → from + n ≤ length next
      → from ≤ i
      → i < from + n
      → at + i ≡ j + from
      → get_or (copy n from at old next) i none ≡ get_or old j none
  unfolding copy
  get_or-copy_in zero from at next i j h p q e = absurd (omega arith)
  get_or-copy_in (suc n) from at next i j h p q e = elim (ℕ_discrete from i) [
    | yes f ↦
        get_or-copy_out n (from + 1) (at + 1) (set next from (get_or old at none)) i (omega arith)
        ∙ ap (λ t. get_or (set next from (get_or old at none)) t none) (sym f)
        ∙ get_or-set_self next from (get_or old at none) none (omega arith)
        ∙ ap (λ t. get_or old t none) (let w : at ≡ j = omega arith in w)
    | no ne ↦
        get_or-copy_in n (from + 1) (at + 1) (set next from (get_or old at none)) i j
          (omega (arith, length-set next from (get_or old at none))) (omega arith) (omega arith)
          (omega arith)
  ]

module _ {A : Type 0} {q : RingQueue A} {xs : List A} (h : Holds q xs) where
  abbrev first_len : ℕ
  first_len = min q.size (q.mask + 1 - q.head)

  -- What the first copy loop leaves for the second.
  abbrev first_copy : ℕ → List (Option A)
  first_copy cap = copy first_len 0 q.head q.buf (replicate cap none)

  length-first_copy : (cap : ℕ) → length (first_copy cap) ≡ cap
  length-first_copy cap =
      length-copy q.buf first_len 0 q.head (replicate cap none) ∙ length-replicate cap none

  -- Slot `i` of the new array is slot `head + i` of the ring.
  carried :
      (cap i : ℕ)
      → q.mask + 1 < cap
      → i < q.size
      → get_or (copy (q.size - first_len) first_len 0 q.buf (first_copy cap)) i none
        ≡ get_or q.buf ((q.head + i) % (q.mask + 1)) none
  carried cap i big lt =
      elim (wrap_cases (q.mask + 1) (q.head + i) (omega (arith, h.head_in, h.fits))) [
        | inl (p, e) ↦
            get_or-copy_out q.buf (q.size - first_len) first_len 0 (first_copy cap) i
              (inl (omega arith))
            ∙ get_or-copy_in q.buf first_len 0 q.head (replicate cap none) i (q.head + i)
                (omega (arith, length-replicate {A = Option A} cap none, h.fits)) (omega arith)
                (omega arith) (omega arith)
            ∙ ap (λ t. get_or q.buf t none) (sym e)
        | inr (p, e) ↦
            get_or-copy_in q.buf (q.size - first_len) first_len 0 (first_copy cap) i
              (q.head + i - (q.mask + 1)) (omega (arith, length-first_copy cap, h.fits))
              (omega arith) (omega arith) (omega (arith, h.head_in))
            ∙ ap (λ t. get_or q.buf t none) (sym e)
      ]

  -- `#growTo` at a larger power of two keeps the contents, and leaves room.
  pub grow_to-Holds : (e : ℕ) → e ≤ 30 → q.mask + 1 < 2 ^ e → Holds (grow_to q (2 ^ e)) xs
  unfolding grow_to
  grow_to-Holds e top big =
      let cap : 2 ^ e - 1 + 1 ≡ 2 ^ e = omega arith in
      record {
        exp = e;
        width = cap;
        narrow = top;
        storage =
            length-copy q.buf (q.size - first_len) first_len 0 (first_copy (2 ^ e))
            ∙ length-first_copy (2 ^ e)
            ∙ sym cap;
        head_in = omega arith;
        tail_at = sym (mod-eq_of_lt' (omega arith) (omega (arith, h.fits)));
        counted = h.counted;
        fits = omega (arith, h.fits);
        held = λ i lt.
            ap
              (λ t.
                get_or (copy (q.size - first_len) first_len 0 q.buf (first_copy (2 ^ e))) t none)
              (mod-eq_of_lt' (omega arith) (omega (arith, h.fits)))
            ∙ carried (2 ^ e) i big lt
            ∙ h.held i lt;
      }

  -- `reserve` keeps the contents, and gives the capacity asked for, up to 2^30.
  reserve-Holds :
      (n : ℕ)
      → n ≤ 2 ^ 30
      → (r : RingQueue A) × (reserve q n ≡ some r) × Holds r xs × (n ≤ r.mask + 1)
  unfolding reserve
  reserve-Holds n s = elim (Bool-cases (leb n (q.mask + 1))) [
    | inl enough ↦ (q, rw enough, h, ground arith)
    | inr short ↦
        let (e, run, big, up, top) = doubled-pow fuel h.exp n (omega arith) h.narrow s in
        let run' : doubled fuel (q.mask + 1) n ≡ some (2 ^ e) =
          ap (λ t. doubled fuel t n) h.width ∙ run in
        (
          grow_to q (2 ^ e),
          rw (short, run'),
          grow_to-Holds e top (ground arith),
          unfold grow_to in omega arith,
        )
  ]
