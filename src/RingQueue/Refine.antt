-- ===== src/RingQueue/Refine.antt =====
-- src/ipc/tools/ring-queue.ts: each method against the list that the ring holds.
use mathlib.Core.List.{tail}
use native.Mathlib.Nat.{mod-add-mod, mod-eq_of_lt}
use knitting.Base.{
  ℕ, suc, ◌+◌, ◌-◌, ◌%◌, ◌^◌, ◌<◌, ◌≤◌, bit_and, ◌≡◌, ◌≢◌, refl, sym, ◌∙◌, ap, subst, inl, inr,
  Option, none, some, List, [], ◌∷◌, ◌++◌, map, arith, ◌==◌, Bool-cases, length, get_elem?, get_or,
  length-set, length-replicate, get_or-set_ne,
}
use knitting.Base.Bits.{pow_pos}
use knitting.RingQueue.{
  RingQueue, fuel, create, fresh, clear, peek, push, unshift, shift, shift_no_clear, walk, iterate,
  gather, to_array,
}
use knitting.RingQueue.Slots.{Holds, and_mask, next_head}
use knitting.RingQueue.Growth.{doubled-pow, mod-eq_of_lt'}
use knitting.RingQueue.Ends.{cap, slot_ne, grow_if_full-Holds, put-Holds, put_front-Holds}

-- `new RingQueue(n)` makes an empty queue whose capacity is at least `n`, for every `n` up to
-- 2^30.
create-Holds :
    (A : Type 0) (n : ℕ)
    → n ≤ 2 ^ 30
    → (q : RingQueue A) × (create n ≡ some q) × Holds q [] × (n ≤ q.mask + 1)
unfolding create
create-Holds A n small =
    let (e, run, big, low, top) = doubled-pow fuel 1 n (omega arith) (omega arith) small in
    let width : 2 ^ e - 1 + 1 ≡ 2 ^ e = omega (arith, pow_pos e) in
    (
      fresh (2 ^ e),
      rw (run, create),
      record {
        exp = e;
        width = width;
        narrow = top;
        storage = length-replicate (2 ^ e) none ∙ sym width;
        head_in = omega arith;
        tail_at = sym (mod-eq_of_lt {n = 0} {m = 2 ^ e - 1 + 1} (omega arith));
        counted = refl;
        fits = omega arith;
        held = λ i lt. absurd (omega arith);
      },
      omega arith,
    )

pub length-tail : {A : Type 0} (xs : List A) → length (tail xs) ≡ length xs - 1
length-tail [] = refl
length-tail (x ∷ xs) = omega arith

get_elem?-tail : {A : Type 0} (xs : List A) (i : ℕ) → get_elem? (tail xs) i ≡ get_elem? xs (suc i)
get_elem?-tail [] i = refl
get_elem?-tail (x ∷ xs) i = refl

nil_of_length : {A : Type 0} (xs : List A) → length xs ≡ 0 → xs ≡ []
nil_of_length [] e = refl
nil_of_length (x ∷ xs) e = absurd (omega arith)

module _ {A : Type 0} {q : RingQueue A} {xs : List A} (h : Holds q xs) where
  -- While fewer than 2^30 elements are queued, `push` appends to the contents, growing when full.
  pub push-Holds : (v : A) → q.size < 2 ^ 30 → Holds (push q v) (xs ++ v ∷ [])
  unfolding push
  push-Holds v s = let (g, same, room) = grow_if_full-Holds h s in put-Holds g v (omega arith)

  -- While fewer than 2^30 elements are queued, `unshift` puts an element before the contents,
  -- growing when full.
  pub unshift-Holds : (v : A) → q.size < 2 ^ 30 → Holds (unshift q v) (v ∷ xs)
  unfolding unshift
  unshift-Holds v s =
      let (g, same, room) = grow_if_full-Holds h s in put_front-Holds g v _ (omega arith) refl

  pub clear-Holds : Holds (clear q) []
  unfolding clear
  clear-Holds = record {
    exp = h.exp;
    width = h.width;
    narrow = h.narrow;
    storage = h.storage;
    head_in = omega arith;
    tail_at = sym (mod-eq_of_lt {n = 0} {m = q.mask + 1} (omega arith));
    counted = refl;
    fits = omega arith;
    held = λ i lt. absurd (omega arith);
  }

  -- The first slot of a queue that is not empty holds its first element.
  front : q.size ≢ 0 → get_or q.buf q.head none ≡ get_elem? xs 0
  front ne =
      ap (λ t. get_or q.buf t none) (sym (mod-eq_of_lt' (omega arith) h.head_in))
      ∙ h.held 0 (omega arith)

  -- Stepping over the first slot leaves the rest, whatever becomes of that slot.
  drop_front :
      (buf : List (Option A))
      → length buf ≡ length q.buf
      → ((i : ℕ)
          → i < q.size
          → 0 < i
          → get_or buf ((q.head + i) % cap h) none ≡ get_or q.buf ((q.head + i) % cap h) none)
      → q.size ≢ 0
      → Holds
          (record q { buf = buf; head = bit_and (q.head + 1) q.mask; size = q.size - 1 })
          (tail xs)
  drop_front buf len same ne =
      let step : (i : ℕ) → (bit_and (q.head + 1) q.mask + i) % cap h ≡ (q.head + suc i) % cap h =
        λ i.
          ap (λ t. (t + i) % cap h) (next_head h)
          ∙ mod-add-mod (q.head + 1) (cap h) i
          ∙ ap (λ t. t % cap h) (omega arith) in
      record {
        exp = h.exp;
        width = h.width;
        narrow = h.narrow;
        storage = len ∙ h.storage;
        head_in = omega (arith, next_head h);
        tail_at =
            h.tail_at
            ∙ ap (λ t. (q.head + t) % cap h) (let w : q.size ≡ suc (q.size - 1) = omega arith in w)
            ∙ sym (step (q.size - 1));
        counted = omega (arith, length-tail xs, h.counted);
        fits = omega (arith, h.fits);
        held = λ i lt.
            ap (λ t. get_or buf t none) (step i)
            ∙ same (suc i) (omega arith) (omega arith)
            ∙ h.held (suc i) (omega arith)
            ∙ sym (get_elem?-tail xs i);
      }

  nothing : q.size ≡ 0 → (none ≡ get_elem? xs 0) × Holds q (tail xs)
  nothing e =
      let z : xs ≡ [] = nil_of_length xs (omega (arith, h.counted)) in
      (sym (ap (λ t. get_elem? t 0) z), subst (λ t. Holds q t) (z ∙ sym (ap tail z)) h)

  -- `shift` returns the first element and keeps the rest; on an empty queue it returns nothing.
  pub shift-Holds : ((shift q).0 ≡ get_elem? xs 0) × Holds (shift q).1 (tail xs)
  unfolding shift
  shift-Holds = elim (Bool-cases (q.size == 0)) [
    | inl e ↦ rw e (nothing (ground arith))
    | inr e ↦ rw e (
      front (ground arith),
      drop_front _ (length-set q.buf q.head none)
          (λ i lt pos. get_or-set_ne q.buf q.head ((q.head + i) % cap h) none none (λ e.
            slot_ne (cap h) q.head 0 i h.head_in (omega arith) (omega (arith, h.fits)) (omega arith)
              (mod-eq_of_lt' (omega arith) h.head_in ∙ e)))
          (ground arith),
    )
  ]

  -- `shiftNoClear` does the same without clearing the slot.
  pub shift_no_clear-Holds :
      ((shift_no_clear q).0 ≡ get_elem? xs 0) × Holds (shift_no_clear q).1 (tail xs)
  unfolding shift_no_clear
  shift_no_clear-Holds = elim (Bool-cases (q.size == 0)) [
    | inl e ↦ rw e (nothing (ground arith))
    | inr e ↦ rw e (front (ground arith), drop_front q.buf refl (λ i lt pos. refl) (ground arith))
  ]

  pub peek_lem : peek q ≡ get_elem? xs 0
  unfolding peek
  peek_lem = elim (Bool-cases (q.size == 0)) [
    | inl e ↦ rw e (nothing (ground arith)).0
    | inr e ↦ rw e (front (ground arith))
  ]

-- Reading `n` slots from `at` on gives the `n` elements of `ys`, if each slot holds its element.
gather_lem :
    {A : Type 0} (buf : List (Option A)) (mask c at : ℕ) (ys : List A)
    → ((x : ℕ) → bit_and x mask ≡ x % c)
    → ((i : ℕ) → i < length ys → get_or buf ((at + i) % c) none ≡ get_elem? ys i)
    → at < c
    → (gather buf mask at (length ys) ≡ map some ys) × (walk buf mask at (length ys) ≡ ys)
unfolding gather walk
gather_lem buf mask c at [] m held lt = (refl, refl)
gather_lem buf mask c at (y ∷ ys) m held lt =
    let first : get_or buf at none ≡ some y =
      ap (λ t. get_or buf t none) (sym (mod-eq_of_lt' (omega arith) lt)) ∙ held 0 (omega arith) in
    let rest =
      gather_lem buf mask c (bit_and (at + 1) mask) ys m
        (λ i p.
          ap (λ t. get_or buf t none)
            (ap (λ t. (t + i) % c) (m (at + 1))
              ∙ mod-add-mod (at + 1) c i
              ∙ ap (λ t. t % c) (omega arith))
          ∙ held (suc i) (omega arith))
        (omega (arith, m (at + 1))) in
    (ground (arith, first, rest.0), ground (arith, first, rest.1))

module _ {A : Type 0} {q : RingQueue A} {xs : List A} (h : Holds q xs) where
  -- `toArray` and the iterator list the contents, oldest first.
  to_array_lem : (to_array q ≡ map some xs) × (iterate q ≡ xs)
  unfolding to_array iterate
  to_array_lem =
      let r =
        gather_lem q.buf q.mask (q.mask + 1) q.head xs (and_mask h)
          (λ i lt. h.held i (omega (arith, h.counted))) h.head_in in
      (
        ap (gather q.buf q.mask q.head) (sym h.counted) ∙ r.0,
        ap (walk q.buf q.mask q.head) (sym h.counted) ∙ r.1,
      )
