-- ===== src/ByteCarpet.antt =====
-- src/memory/byte-carpet.ts: how one shared buffer is cut into the parts that the endpoints use.
--
-- Byte counts are ℕ, which is what `toNonNegativeInteger` checks; `none` is a RangeError. The source
-- computes in doubles, which are exact below 2^53.
pub mod Packing
pub mod Headers
mod Tests
use knitting.Base.{
  ℕ, ◌+◌, ◌-◌, ◌*◌, ◌/◌, Bool, true, false, List, [], ◌∷◌, ◌++◌, Option, none, some, ltb, ◌==◌,
  if◌then◌else◌, ◌>>=◌,
}

-- `Math.ceil(value / alignment) * alignment`
pub align_bytes : ℕ → ℕ → Option ℕ
align_bytes value alignment =
    if alignment == 0 then none else some ((value + alignment - 1) / alignment * alignment)

pub data Name : Type 0 where
  signals request_lock return_lock interleaved_headers request_headers return_headers
        abort_signals :
      Name

pub record Slice : Type 0 where
  pub name : Name
  pub byte_offset : ℕ
  pub byte_length : ℕ
  pub reserved : ℕ

pub record Carpet : Type 0 where
  pub align_to : ℕ
  pub cursor : ℕ
  pub slices : List Slice

pub create_carpet : ℕ → ℕ → Option Carpet
create_carpet align_to start =
    if align_to == 0
    then none
    else some (record { align_to = align_to; cursor = start; slices = [] })

-- The end of `take`, once the length to reserve is known.
pub place_slice : Carpet → Name → ℕ → ℕ → ℕ → Option (Slice × Carpet)
place_slice c name len align reserved =
    if ltb reserved len then none else elim (align_bytes c.cursor align) [
      | none ↦ none
      | some offset ↦
          let slice : Slice = record {
            name = name;
            byte_offset = offset;
            byte_length = len;
            reserved = reserved;
          } in
          some (slice, record c { cursor = offset + reserved; slices = c.slices ++ slice ∷ [] })
    ]

-- `take`, with the alignment of the slice and the length to reserve, where given
pub take : Carpet → Name → ℕ → ℕ → Option ℕ → Option (Slice × Carpet)
take c name len align (some reserve) =
    if align == 0 then none else place_slice c name len align reserve
take c name len align none = elim (align_bytes len align) [
  | none ↦ none
  | some reserved ↦ place_slice c name len align reserved
]

-- `getStridedSlotOffsetU32` and `getStridedSlotByteOffset`
abbrev slot_offset_u32 : ℕ → ℕ → ℕ → ℕ → ℕ
slot_offset_u32 slot stride base extra = slot * stride + base + extra

abbrev slot_byte_offset : ℕ → ℕ → ℕ → ℕ → ℕ → ℕ
slot_byte_offset slot stride base_bytes base extra =
    base_bytes + slot_offset_u32 slot stride base extra * 4

-- `getStridedRegionSpanBytes`
span_bytes : ℕ → ℕ → ℕ → ℕ → ℕ
span_bytes count stride length base =
    if count == 0 then 0 else (slot_offset_u32 (count - 1) stride base 0 + length) * 4

abbrev interleaved_stride : ℕ → ℕ
interleaved_stride stride = stride * 2

-- `getHeaderBlockByteLength`
pub header_block : ℕ → ℕ → ℕ → ℕ → Option ℕ
header_block count stride queues align = align_bytes (count * stride * 4 * queues) align

pub record Region : Type 0 where
  pub byte_offset : ℕ
  pub byte_length : ℕ

abbrev pub bind : Slice → Region
bind s = record { byte_offset = s.byte_offset; byte_length = s.byte_length }

-- The headers of the two queues, with the distance between the slots of one.
pub record HeaderPair : Type 0 where
  pub stride : ℕ
  pub request : Region
  pub return_ : Region

-- `createInterleavedHeaderPair`
pub interleaved_pair : ℕ → ℕ → ℕ → HeaderPair
interleaved_pair offset count stride =
    let span = span_bytes count (interleaved_stride stride) stride 0 in
    record {
      stride = interleaved_stride stride;
      request = record { byte_offset = offset; byte_length = span };
      return_ = record { byte_offset = offset + stride * 4; byte_length = span };
    }

pub data HeaderLayout : Type 0 where
  split interleaved : HeaderLayout

pub record Params : Type 0 where
  pub signal_bytes : ℕ
  pub abort_bytes : ℕ
  pub sector_bytes : ℕ
  pub stride : ℕ
  pub count : ℕ
  pub layout : HeaderLayout
  pub align_to : ℕ

pub record LockControl : Type 0 where
  pub byte_length : ℕ
  pub signals : Region
  pub abort_signals : Region
  pub headers : HeaderPair
  pub request_sector : Region
  pub return_sector : Region
  pub slices : List Slice

-- The header part of `createLockControlCarpet`.
pub take_headers : Params → Carpet → Option (HeaderPair × Carpet)
take_headers p c = elim p.layout [
  | interleaved ↦ elim (header_block p.count p.stride 2 p.align_to) [
    | none ↦ none
    | some len ↦ elim (take c interleaved_headers len c.align_to none) [
      | none ↦ none
      | some (s, c1) ↦ some (interleaved_pair s.byte_offset p.count p.stride, c1)
    ]
  ]
  | split ↦ elim (header_block p.count p.stride 1 p.align_to) [
    | none ↦ none
    | some len ↦ elim (take c request_headers len c.align_to none) [
      | none ↦ none
      | some (s, c1) ↦ elim (take c1 return_headers len c1.align_to none) [
        | none ↦ none
        | some (t, c2) ↦ some (record { stride = p.stride; request = bind s; return_ = bind t }, c2)
      ]
    ]
  ]
]

pub create_lock_control : Params → Option LockControl
create_lock_control p = do
  c0 ← create_carpet p.align_to 0
  (sig, c1) ← take c0 signals p.signal_bytes c0.align_to none
  (req, c2) ← take c1 request_lock p.sector_bytes c1.align_to none
  (ret, c3) ← take c2 return_lock p.sector_bytes c2.align_to none
  (pair, c4) ← take_headers p c3
  (abort, c5) ← take c4 abort_signals p.abort_bytes c4.align_to none
  some (record {
    byte_length = c5.cursor;
    signals = bind sig;
    abort_signals = bind abort;
    headers = pair;
    request_sector = bind req;
    return_sector = bind ret;
    slices = c5.slices;
  })
