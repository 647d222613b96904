-- ===== src/ByteCarpet/Packing.antt =====
-- src/memory/byte-carpet.ts: where `take` puts a slice.
use native.Mathlib.Nat.{mod-lt, div-add-mod', mul-mod_left}
use knitting.Base.{
  ℕ, ◌+◌, ◌-◌, ◌*◌, ◌/◌, ◌%◌, ◌<◌, ◌≤◌, false, ◌≡◌, refl, ◌∙◌, ap, List, [], ◌∷◌, ◌++◌, Option,
  none, some, arith, ltb, ◌==◌,
}
use knitting.ByteCarpet.{align_bytes, Name, Slice, Carpet, create_carpet, place_slice, take}

-- With a positive alignment, `alignBytes` rounds up to the next multiple.
pub align_bytes_lem :
    (value alignment : ℕ)
    → 0 < alignment
    → (r : ℕ) × (align_bytes value alignment ≡ some r)
      × (value ≤ r)
      × (r < value + alignment)
      × (r % alignment ≡ 0)
unfolding align_bytes
align_bytes_lem value alignment pos =
    let some_alignment : (alignment == 0) ≡ false = ground arith in
    let r = (value + alignment - 1) / alignment * alignment in
    let top = value + alignment - 1 in
    let whole = div-add-mod' top alignment in
    let low = mod-lt top pos in
    (
      r,
      rw some_alignment refl,
      omega (arith, whole, low),
      omega (arith, whole, low),
      mul-mod_left (top / alignment) alignment,
    )

-- From `p` on, each slice starts behind the one before, aligned, and has room for its bytes; the last
-- ends by `end_`.
abbrev pub Packed : ℕ → ℕ → List Slice → ℕ → Type 0
Packed align p [] end_ = p ≤ end_
Packed align p (s ∷ t) end_ =
    (p ≤ s.byte_offset)
    × (s.byte_offset % align ≡ 0)
    × (s.byte_length ≤ s.reserved)
    × Packed align (s.byte_offset + s.reserved) t end_

Packed-append :
    (align p end_ : ℕ) (t : List Slice) (s : Slice)
    → Packed align p t end_
    → end_ ≤ s.byte_offset
    → s.byte_offset % align ≡ 0
    → s.byte_length ≤ s.reserved
    → Packed align p (t ++ s ∷ []) (s.byte_offset + s.reserved)
Packed-append align p end_ [] s l b a h = (omega arith, a, h, omega arith)
Packed-append align p end_ (u ∷ t) s l b a h =
    (l.0, l.1, l.2, Packed-append align (u.byte_offset + u.reserved) end_ t s l.3 b a h)

-- A well-formed carpet.
pub record Laid (align : ℕ) (c : Carpet) : Type 0 where
  pub alignment : c.align_to ≡ align
  pub packed : Packed align 0 c.slices c.cursor

-- What `take` gives.
pub record Taken (align : ℕ) (c : Carpet) (len : ℕ) (r : Option (Slice × Carpet)) : Type 0 where
  pub slice : Slice
  pub carpet : Carpet
  pub given : r ≡ some (slice, carpet)
  pub laid : Laid align carpet
  pub length_kept : slice.byte_length ≡ len
  pub behind : c.cursor ≤ slice.byte_offset
  pub ends : carpet.cursor ≡ slice.byte_offset + slice.reserved
  pub covers : len ≤ slice.reserved
  listed : carpet.slices ≡ c.slices ++ slice ∷ []

place_slice_lem :
    (c : Carpet) (name : Name) (len align res off : ℕ)
    → ltb res len ≡ false
    → align_bytes c.cursor align ≡ some off
    → let slice : Slice = record {
      name = name;
      byte_offset = off;
      byte_length = len;
      reserved = res;
    } in
      place_slice c name len align res
      ≡ some (slice, record c { cursor = off + res; slices = c.slices ++ slice ∷ [] })
unfolding place_slice
place_slice_lem c name len align res off a b = rw (a, b, place_slice) refl

take_lem :
    (c : Carpet) (name : Name) (len align res : ℕ)
    → align_bytes len align ≡ some res
    → take c name len align none ≡ place_slice c name len align res
unfolding take
take_lem c name len align res e = rw (e, take) refl

-- With a positive alignment, a slice of any length is placed behind those of a carpet that is
-- laid out.
pub take-Taken :
    (align : ℕ) (c : Carpet) (name : Name) (len : ℕ)
    → 0 < align
    → Laid align c
    → Taken align c len (take c name len c.align_to none)
take-Taken align c name len pos v =
    let (res, er, low, high, m) = align_bytes_lem len align pos in
    let (off, eo, low', high', m') = align_bytes_lem c.cursor align pos in
    let enough : ltb res len ≡ false = ground arith in
    let slice : Slice = record {
      name = name;
      byte_offset = off;
      byte_length = len;
      reserved = res;
    } in
    record {
      slice = slice;
      carpet = record c { cursor = off + res; slices = c.slices ++ slice ∷ [] };
      given =
          ap (λ a. take c name len a none) v.alignment
          ∙ take_lem c name len align res er
          ∙ place_slice_lem c name len align res off enough eo;
      laid = record {
        alignment = v.alignment;
        packed = Packed-append align 0 c.cursor c.slices slice v.packed low' m' low;
      };
      length_kept = refl;
      behind = low';
      ends = refl;
      covers = low;
      listed = refl;
    }

pub create_carpet-Laid :
    (align : ℕ) → 0 < align → (c : Carpet) × (create_carpet align 0 ≡ some c) × Laid align c
unfolding create_carpet
create_carpet-Laid align pos =
    let some_alignment : (align == 0) ≡ false = ground arith in
    (
      record { align_to = align; cursor = 0; slices = [] },
      rw some_alignment refl,
      record { alignment = refl; packed = omega arith },
    )
