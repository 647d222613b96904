-- ===== src/ByteCarpet/Headers.antt =====
-- src/memory/byte-carpet.ts: the parts of the control buffer and the header slots.
use knitting.Base.{
  ℕ, ◌+◌, ◌*◌, ◌-◌, ◌<◌, ◌≤◌, ◌≡◌, false, refl, Option, some, arith, ltb, ◌==◌, Bool-cases, inl,
  inr, ◌⊎◌,
}
use knitting.Base.Cyclic.{region_end}
use knitting.ByteCarpet.{
  Slice, Carpet, Region, span_bytes, HeaderPair, header_block, interleaved_pair, Params, split,
  interleaved, HeaderLayout, bind, take_headers, LockControl, create_lock_control, signals,
  request_lock, return_lock, interleaved_headers, request_headers, return_headers, abort_signals,
}
use knitting.ByteCarpet.Packing.{align_bytes_lem, Packed, Laid, take-Taken, create_carpet-Laid}

-- Where the header of slot `i` starts, in bytes.
abbrev request_at : HeaderPair → ℕ → ℕ
request_at h i = h.request.byte_offset + i * h.stride * 4

abbrev return_at : HeaderPair → ℕ → ℕ
return_at h i = h.return_.byte_offset + i * h.stride * 4

-- A region that is empty, or ends by `high`.
abbrev Ends : Region → ℕ → Type 0
Ends r high = (r.byte_length ≡ 0) ⊎ (r.byte_offset + r.byte_length ≤ high)

-- The regions of both queues lie between `low` and `high`, their slots lie in them, and none overlaps
-- another.
pub record Separate (p : Params) (h : HeaderPair) (low high : ℕ) : Type 0 where
  request_in :
      (i : ℕ) → i < p.count → (low ≤ request_at h i) × (request_at h i + p.stride * 4 ≤ high)
  return_in : (i : ℕ) → i < p.count → (low ≤ return_at h i) × (return_at h i + p.stride * 4 ≤ high)
  crossed :
      (i j : ℕ)
      → i < p.count
      → j < p.count
      → (request_at h i + p.stride * 4 ≤ return_at h j)
        ⊎ (return_at h j + p.stride * 4 ≤ request_at h i)
  starts : (low ≤ h.request.byte_offset) × (low ≤ h.return_.byte_offset)
  pub ends : Ends h.request high × Ends h.return_ high
  holds :
      (i : ℕ)
      → i < p.count
      → (request_at h i + p.stride * 4 ≤ h.request.byte_offset + h.request.byte_length)
        × (return_at h i + p.stride * 4 ≤ h.return_.byte_offset + h.return_.byte_length)
  pub apart :
      (i j : ℕ)
      → i < j
      → (request_at h i + p.stride * 4 ≤ request_at h j)
        × (return_at h i + p.stride * 4 ≤ return_at h j)

-- The last slot of a queue ends where its region does.
span_bytes-covers :
    (count stride i : ℕ)
    → i < count
    → i * (stride * 2) * 4 + stride * 4 ≤ span_bytes count (stride * 2) stride 0
unfolding span_bytes
span_bytes-covers count stride i lt =
    let filled : (count == 0) ≡ false = ground arith in
    elim (Bool-cases (i == count - 1)) [
      | inl e ↦ let same : i ≡ count - 1 = ground arith in rw (filled, same) (omega arith)
      | inr e ↦ rw filled (omega (arith, region_end stride i (count - 1) (ground arith)))
    ]

span_bytes-le :
    (count stride : ℕ)
    → (span_bytes count (stride * 2) stride 0 ≡ 0)
      ⊎ (span_bytes count (stride * 2) stride 0 + stride * 4 ≤ count * stride * 4 * 2)
unfolding span_bytes
span_bytes-le count stride = elim (Bool-cases (count == 0)) [
  | inl e ↦ rw e (inl refl)
  | inr e ↦ rw e (inr (omega (arith, region_end stride (count - 1) count (ground arith))))
]

interleaved-Separate :
    (p : Params) (off low high : ℕ)
    → low ≤ off
    → off + p.count * p.stride * 4 * 2 ≤ high
    → Separate p (interleaved_pair off p.count p.stride) low high
unfolding interleaved_pair
interleaved-Separate p off low high a b = record {
  request_in = λ i lt. (omega arith, omega (arith, region_end p.stride i p.count lt));
  return_in = λ i lt. (omega arith, omega (arith, region_end p.stride i p.count lt));
  crossed = λ i j il jl. elim (Bool-cases (ltb j i)) [
    | inl e ↦ inr (omega (arith, region_end p.stride j i (ground arith)))
    | inr e ↦ elim (Bool-cases (i == j)) [
      | inl f ↦ let same : i ≡ j = ground arith in rw same (inl (omega arith))
      | inr f ↦ inl (omega (arith, region_end p.stride i j (ground arith)))
    ]
  ];
  starts = (omega arith, omega arith);
  ends = elim (span_bytes-le p.count p.stride) [
    | inl z ↦ (inl z, inl z)
    | inr l ↦ (inr (omega (arith, l)), inr (omega (arith, l)))
  ];
  holds = λ i lt. (
    omega (arith, span_bytes-covers p.count p.stride i lt),
    omega (arith, span_bytes-covers p.count p.stride i lt),
  );
  apart = λ i j lt.
      (omega (arith, region_end p.stride i j lt), omega (arith, region_end p.stride i j lt));
}

split-Separate :
    (p : Params) (s t : Slice) (low high : ℕ)
    → low ≤ s.byte_offset
    → s.byte_offset + p.count * p.stride * 4 * 1 ≤ t.byte_offset
    → t.byte_offset + p.count * p.stride * 4 * 1 ≤ high
    → p.count * p.stride * 4 * 1 ≤ s.byte_length
    → p.count * p.stride * 4 * 1 ≤ t.byte_length
    → s.byte_offset + s.byte_length ≤ high
    → t.byte_offset + t.byte_length ≤ high
    → Separate p (record { stride = p.stride; request = bind s; return_ = bind t }) low high
split-Separate p s t low high a b c d e f g = record {
  request_in = λ i lt. (omega arith, omega (arith, region_end p.stride i p.count lt));
  return_in = λ i lt. (omega arith, omega (arith, region_end p.stride i p.count lt));
  crossed = λ i j il jl. inl (omega (arith, region_end p.stride i p.count il));
  starts = (a, omega arith);
  ends = (inr f, inr g);
  holds = λ i lt. (
    omega (arith, region_end p.stride i p.count lt),
    omega (arith, region_end p.stride i p.count lt),
  );
  apart = λ i j lt.
      (omega (arith, region_end p.stride i j lt), omega (arith, region_end p.stride i j lt));
}

-- What the header part gives.
pub record Placed (p : Params) (c : Carpet) (r : Option (HeaderPair × Carpet)) : Type 0 where
  pub pair : HeaderPair
  pub carpet : Carpet
  pub given : r ≡ some (pair, carpet)
  pub laid : Laid p.align_to carpet
  separate : Separate p pair c.cursor carpet.cursor

take_headers-Placed :
    (p : Params) (c : Carpet) → 0 < p.align_to → Laid p.align_to c → Placed p c (take_headers p c)
unfolding take_headers header_block
take_headers-Placed p c pos v = elim (layout_cases p.layout) [
  | inl e ↦
      let (len, el, low, high, m) = align_bytes_lem (p.count * p.stride * 4 * 1) p.align_to pos in
      let a = take-Taken p.align_to c request_headers len pos v in
      let b = take-Taken p.align_to a.carpet return_headers len pos a.laid in
      record {
        pair = record { stride = p.stride; request = bind a.slice; return_ = bind b.slice };
        carpet = b.carpet;
        given = rw (e, el, a.given, b.given, take_headers, header_block) refl;
        laid = b.laid;
        separate =
            split-Separate p a.slice b.slice c.cursor b.carpet.cursor a.behind
              (omega (arith, a.covers, a.ends, b.behind)) (omega (arith, b.covers, b.ends))
              (omega (arith, a.length_kept)) (omega (arith, b.length_kept))
              (omega (arith, a.length_kept, a.covers, a.ends, b.behind, b.ends))
              (omega (arith, b.length_kept, b.covers, b.ends));
      }
  | inr e ↦
      let (len, el, low, high, m) = align_bytes_lem (p.count * p.stride * 4 * 2) p.align_to pos in
      let a = take-Taken p.align_to c interleaved_headers len pos v in
      record {
        pair = interleaved_pair a.slice.byte_offset p.count p.stride;
        carpet = a.carpet;
        given = rw (e, el, a.given, take_headers, header_block) refl;
        laid = a.laid;
        separate =
            interleaved-Separate p a.slice.byte_offset c.cursor a.carpet.cursor a.behind
              (omega (arith, a.covers, a.ends));
      }
]
  where
    layout_cases : (l : HeaderLayout) → (l ≡ split) ⊎ (l ≡ interleaved)
    layout_cases split = inl refl
    layout_cases interleaved = inr refl

-- The control buffer as a whole: its parts one behind the other, the headers between the second lock
-- sector and the abort flags.
pub record Control (p : Params) (l : LockControl) : Type 0 where
  pub packed : Packed p.align_to 0 l.slices l.byte_length
  sectors : l.signals.byte_offset + p.signal_bytes ≤ l.request_sector.byte_offset
  sectors' : l.request_sector.byte_offset + p.sector_bytes ≤ l.return_sector.byte_offset
  pub headers :
      Separate p l.headers
        (l.return_sector.byte_offset + p.sector_bytes)
        l.abort_signals.byte_offset
  pub inside : l.abort_signals.byte_offset + p.abort_bytes ≤ l.byte_length
  lengths :
      (l.signals.byte_length ≡ p.signal_bytes)
      × (l.request_sector.byte_length ≡ p.sector_bytes)
      × (l.return_sector.byte_length ≡ p.sector_bytes)
      × (l.abort_signals.byte_length ≡ p.abort_bytes)

Separate-within :
    {p : Params} {h : HeaderPair} {low low' high high' : ℕ}
    → low' ≤ low
    → high ≤ high'
    → Separate p h low high
    → Separate p h low' high'
Separate-within {high = high} {high' = high'} a b s = record {
  request_in = λ i lt. (omega (arith, s.request_in i lt), omega (arith, s.request_in i lt));
  return_in = λ i lt. (omega (arith, s.return_in i lt), omega (arith, s.return_in i lt));
  crossed = s.crossed;
  starts = (omega (arith, s.starts.0), omega (arith, s.starts.1));
  ends = (Ends-within _ s.ends.0, Ends-within _ s.ends.1);
  holds = s.holds;
  apart = s.apart;
}
  where
    Ends-within : (r : Region) → Ends r high → Ends r high'
    Ends-within r (inl z) = inl z
    Ends-within r (inr l) = inr (omega arith)

-- With a positive alignment, the control buffer is laid out for every choice of sizes and layout.
-- Its slices, the sectors, and the part with the headers lie one behind the other, with room for
-- their bytes; the header region of each queue, where it is not empty, lies whole in that part,
-- each slot lies in the region of its queue, and no two slots overlap, of one queue
-- or of both.
pub create_lock_control-Control :
    (p : Params)
    → 0 < p.align_to
    → (l : LockControl) × (create_lock_control p ≡ some l) × Control p l
unfolding create_lock_control
create_lock_control-Control p pos =
    let (c0, e0, v0) = create_carpet-Laid p.align_to pos in
    let a = take-Taken p.align_to c0 signals p.signal_bytes pos v0 in
    let b = take-Taken p.align_to a.carpet request_lock p.sector_bytes pos a.laid in
    let c = take-Taken p.align_to b.carpet return_lock p.sector_bytes pos b.laid in
    let h = take_headers-Placed p c.carpet pos c.laid in
    let d = take-Taken p.align_to h.carpet abort_signals p.abort_bytes pos h.laid in
    (
      record {
        byte_length = d.carpet.cursor;
        signals = bind a.slice;
        abort_signals = bind d.slice;
        headers = h.pair;
        request_sector = bind b.slice;
        return_sector = bind c.slice;
        slices = d.carpet.slices;
      },
      rw (e0, a.given, b.given, c.given, h.given, d.given, create_lock_control) refl,
      record {
        packed = d.laid.packed;
        sectors = omega (arith, a.covers, a.ends, b.behind);
        sectors' = omega (arith, b.covers, b.ends, c.behind);
        headers = Separate-within (omega (arith, c.covers, c.ends)) d.behind h.separate;
        inside = omega (arith, d.covers, d.ends);
        lengths = (a.length_kept, b.length_kept, c.length_kept, d.length_kept);
      },
    )
