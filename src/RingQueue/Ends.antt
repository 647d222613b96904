-- ===== src/RingQueue/Ends.antt =====
-- src/ipc/tools/ring-queue.ts: writing at either end of a ring that has room, and making the room.
use native.Mathlib.Nat.{mod-add-mod, mod-eq_of_lt, pow-suc, add-mod_right}
use knitting.Base.{
  ℕ, zero, suc, ◌+◌, ◌%◌, ◌^◌, ◌<◌, bit_and, ◌≡◌, ◌≢◌, refl, sym, ◌∙◌, ap, inl, inr, none, some,
  List, [], ◌∷◌, ◌++◌, arith, ◌==◌, Bool-cases, ℕ_discrete, get_elem?, get_or, set, length-set,
  length-append, get_or-set_self, get_or-set_ne, get_elem?-append_left, get_elem?-append_last,
}
use knitting.RingQueue.{RingQueue, shl1, grow_to, grow_if_full, before}
use knitting.Base.Cyclic.{wrap_cases}
use knitting.RingQueue.Slots.{Holds, and_mask, prev_head}
use knitting.RingQueue.Growth.{grow_to-Holds}

-- Slots that differ by less than a turn are different.
pub slot_ne : (c h i j : ℕ) → h < c → i < c → j < c → i ≢ j → (h + i) % c ≢ (h + j) % c
slot_ne c h i j hh hi hj ne =
    ground (arith, wrap_cases c (h + i) (omega arith), wrap_cases c (h + j) (omega arith))

module _ {A : Type 0} {q : RingQueue A} {xs : List A} (h : Holds q xs) where
  abbrev pub cap : ℕ
  cap = q.mask + 1

  pub grow_if_full-Holds :
      q.size < 2 ^ 30
      → Holds (grow_if_full q) xs
        × ((grow_if_full q).size ≡ q.size)
        × (q.size < (grow_if_full q).mask + 1)
  unfolding grow_if_full
  grow_if_full-Holds s = elim (Bool-cases (q.size == q.mask + 1)) [
    | inl full ↦
        let low : 2 ^ h.exp < 2 ^ 30 = ground (arith, h.width) in
        let ne : h.exp ≢ 30 = λ e. absurd (omega (arith, ap (λ t. 2 ^ t) e)) in
        let double : shl1 (q.mask + 1) ≡ 2 ^ suc h.exp = omega (arith, h.width, pow-suc 2 h.exp) in
        rw (full, double)
          (
            grow_to-Holds h (suc h.exp) (omega (arith, h.narrow))
                (omega (arith, h.width, pow-suc 2 h.exp)),
            unfold grow_to in refl,
            unfold grow_to in omega (arith, h.width, pow-suc 2 h.exp, h.fits),
          )
    | inr room ↦ rw room (h, refl, ground (arith, h.fits))
  ]

  pub put-Holds :
      (v : A)
      → q.size < cap
      → Holds
          (record q {
            buf = set q.buf q.tail (some v);
            tail = bit_and (q.tail + 1) q.mask;
            size = q.size + 1;
          })
          (xs ++ v ∷ [])
  put-Holds v room = record {
    exp = h.exp;
    width = h.width;
    narrow = h.narrow;
    storage = length-set q.buf q.tail (some v) ∙ h.storage;
    head_in = h.head_in;
    tail_at =
        and_mask h (q.tail + 1)
        ∙ ap (λ t. (t + 1) % cap) h.tail_at
        ∙ mod-add-mod (q.head + q.size) cap 1
        ∙ ap (λ t. t % cap) (omega arith);
    counted = omega (arith, length-append xs (v ∷ []), h.counted);
    fits = omega arith;
    held = λ i lt. elim (ℕ_discrete i q.size) [
      | yes e ↦
          ap (λ t. get_or (set q.buf q.tail (some v)) t none)
            (ap (λ t. (q.head + t) % cap) e ∙ sym h.tail_at)
          ∙ get_or-set_self q.buf q.tail (some v) none (omega (arith, h.tail_at, h.storage))
          ∙ sym (get_elem?-append_last xs v i (omega (arith, h.counted)))
      | no ne ↦
          get_or-set_ne q.buf q.tail ((q.head + i) % cap) (some v) none (λ e.
            slot_ne cap q.head q.size i h.head_in room (omega arith) (omega arith)
              (sym h.tail_at ∙ e))
          ∙ h.held i (omega arith)
          ∙ sym (get_elem?-append_left xs (v ∷ []) i (omega (arith, h.counted)))
    ];
  }

  pub put_front-Holds :
      (v : A) (at : ℕ)
      → q.size < cap
      → at ≡ before q.head q.mask
      → Holds (record q { buf = set q.buf at (some v); head = at; size = q.size + 1 }) (v ∷ xs)
  put_front-Holds v at room e =
      let back : at ≡ (q.head + q.mask) % cap = e ∙ prev_head h in
      let in_range : at < cap = omega (arith, back) in
      let same : (i : ℕ) → (at + suc i) % cap ≡ (q.head + i) % cap = λ i.
        ap (λ t. (t + suc i) % cap) back
        ∙ mod-add-mod (q.head + q.mask) cap (suc i)
        ∙ ap (λ t. t % cap) (let w : q.head + q.mask + suc i ≡ q.head + i + cap = omega arith in w)
        ∙ add-mod_right (q.head + i) cap in
      record {
        exp = h.exp;
        width = h.width;
        narrow = h.narrow;
        storage = length-set q.buf at (some v) ∙ h.storage;
        head_in = in_range;
        tail_at = h.tail_at ∙ sym (same q.size) ∙ ap (λ t. (at + t) % cap) (omega arith);
        counted = omega (arith, h.counted);
        fits = omega arith;
        held = λ i lt. first_or_rest v at in_range same i lt room;
      }
    where
      first_or_rest :
          (v : A) (at : ℕ)
          → at < cap
          → ((i : ℕ) → (at + suc i) % cap ≡ (q.head + i) % cap)
          → (i : ℕ) → i < q.size + 1
          → q.size < cap
          → get_or (set q.buf at (some v)) ((at + i) % cap) none ≡ get_elem? (v ∷ xs) i
      first_or_rest v at in_range same zero lt room =
          ap (λ t. get_or (set q.buf at (some v)) t none)
            (ap (λ t. t % cap) (let w : at + 0 ≡ at = omega arith in w) ∙ mod-eq_of_lt in_range)
          ∙ get_or-set_self q.buf at (some v) none (omega (arith, h.storage))
      first_or_rest v at in_range same (suc i) lt room =
          get_or-set_ne q.buf at ((at + suc i) % cap) (some v) none (λ e.
            slot_ne cap at 0 (suc i) in_range (omega arith) (omega arith) (omega arith) (
              ap (λ t. t % cap) (let w : at + 0 ≡ at = omega arith in w)
              ∙ mod-eq_of_lt in_range
              ∙ e))
          ∙ ap (λ t. get_or q.buf t none) (same i)
          ∙ h.held i (omega arith)
