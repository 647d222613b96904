-- ===== src/RingQueue.antt =====
-- src/ipc/tools/ring-queue.ts: the class `RingQueue`, a growing array deque. A method returns the
-- new queue beside its result. `none` stands for `null` and for `undefined`.
pub mod Slots
pub mod Growth
pub mod Ends
pub mod Refine
pub mod Deque
mod Tests
use knitting.Base.{
  ℕ, zero, suc, ◌+◌, ◌-◌, ◌*◌, ◌%◌, ◌^◌, ◌<◌, ◌≤◌, min, bit_and, Bool, true, false, ◌||◌, List, [],
  ◌∷◌, Option, none, some, ltb, leb, ◌==◌, if◌then◌else◌, get_or, set, replicate,
}

pub record RingQueue {ℓ} (A : Type ℓ) : Type ℓ where
  pub buf : List (Option A)
  pub mask : ℕ
  pub head : ℕ
  pub tail : ℕ
  pub size : ℕ

-- `cap <<= 1` on an int32, as its bit pattern.
abbrev pub shl1 : ℕ → ℕ
shl1 c = c * 2 % 2 ^ 32

-- `cap < n` for an int32 pattern and a non-negative number: a set sign bit makes it negative.
abbrev pub less : ℕ → ℕ → Bool
less cap n = leb (2 ^ 31) cap || ltb cap n

-- `while (cap < n) cap <<= 1`, on fuel; `none` when the fuel runs out.
pub doubled : ℕ → ℕ → ℕ → Option ℕ
doubled zero cap n = none
doubled (suc fuel) cap n =
    let rest = doubled fuel (shl1 cap) n in if less cap n then rest else some cap

-- The rounds of the doubling loop: a request of up to 2 ^ 30 takes at most 30 of them.
abbrev pub fuel : ℕ
fuel = 32

-- `(head - 1) & mask` on an int32 pattern.
abbrev pub before : ℕ → ℕ → ℕ
before head mask = bit_and ((head + 2 ^ 32 - 1) % 2 ^ 32) mask

module _ {ℓ} {A : Type ℓ} where
  abbrev fresh : ℕ → RingQueue A
  fresh cap = record { buf = replicate cap none; mask = cap - 1; head = 0; tail = 0; size = 0 }

  -- `constructor(capacity)`; `none` where the doubling loop does not end.
  pub create : ℕ → Option (RingQueue A)
  create n = elim (doubled fuel 2 n) [ none ↦ none | some cap ↦ some (fresh cap) ]

  abbrev is_empty : RingQueue A → Bool
  is_empty q = q.size == 0

  abbrev capacity : RingQueue A → ℕ
  capacity q = q.mask + 1

  pub clear : RingQueue A → RingQueue A
  clear q = record q { head = 0; tail = 0; size = 0 }

  pub peek : RingQueue A → Option A
  peek q = if q.size == 0 then none else get_or q.buf q.head none

  -- `for (i = from; i < from + n; i++) next[i] = old[at + (i - from)]`
  pub copy : ℕ → ℕ → ℕ → List (Option A) → List (Option A) → List (Option A)
  copy zero from at old next = next
  copy (suc n) from at old next =
      copy n (from + 1) (at + 1) old (set next from (get_or old at none))

  -- `#growTo`
  pub grow_to : RingQueue A → ℕ → RingQueue A
  grow_to q new_cap =
      let old_cap = q.mask + 1 in
      let first_len = min q.size (old_cap - q.head) in
      let next = copy first_len 0 q.head q.buf (replicate new_cap none) in
      record q {
        buf = copy (q.size - first_len) first_len 0 q.buf next;
        mask = new_cap - 1;
        head = 0;
        tail = q.size;
      }

  -- `#growIfFull`
  pub grow_if_full : RingQueue A → RingQueue A
  grow_if_full q = if q.size == q.mask + 1 then grow_to q (shl1 (q.mask + 1)) else q

  pub reserve : RingQueue A → ℕ → Option (RingQueue A)
  reserve q n =
      if leb n (capacity q)
      then some q
      else elim (doubled fuel (capacity q) n) [ none ↦ none | some cap ↦ some (grow_to q cap) ]

  pub push : RingQueue A → A → RingQueue A
  push q v =
      let g = grow_if_full q in
      record g {
        buf = set g.buf g.tail (some v);
        tail = bit_and (g.tail + 1) g.mask;
        size = g.size + 1;
      }

  pub unshift : RingQueue A → A → RingQueue A
  unshift q v =
      let g = grow_if_full q in
      let at = before g.head g.mask in
      record g { buf = set g.buf at (some v); head = at; size = g.size + 1 }

  pub shift : RingQueue A → Option A × RingQueue A
  shift q = if q.size == 0 then (none, q) else (
    get_or q.buf q.head none,
    record q { buf = set q.buf q.head none; head = bit_and (q.head + 1) q.mask; size = q.size - 1 },
  )

  pub shift_no_clear : RingQueue A → Option A × RingQueue A
  shift_no_clear q = if q.size == 0 then (none, q) else (
    get_or q.buf q.head none,
    record q { head = bit_and (q.head + 1) q.mask; size = q.size - 1 },
  )

  -- The iterator's loop: a `null` slot is skipped.
  pub walk : List (Option A) → ℕ → ℕ → ℕ → List A
  walk buf mask at zero = []
  walk buf mask at (suc n) =
      let rest = walk buf mask (bit_and (at + 1) mask) n in
      elim (get_or buf at none) [ none ↦ rest | some v ↦ v ∷ rest ]

  pub iterate : RingQueue A → List A
  iterate q = walk q.buf q.mask q.head q.size

  -- The loop of `toArray`.
  unfoldable pub gather : List (Option A) → ℕ → ℕ → ℕ → List (Option A)
  gather buf mask at zero = []
  gather buf mask at (suc n) = get_or buf at none ∷ gather buf mask (bit_and (at + 1) mask) n

  pub to_array : RingQueue A → List (Option A)
  to_array q = gather q.buf q.mask q.head q.size
