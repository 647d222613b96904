-- ===== src/PayloadConfig.antt =====
-- src/memory/payload-config.ts: `resolvePayloadBufferOptions`.
--
-- `HAS_SAB_GROW` is a parameter, and so is the buffer that a caller passes: its region's length,
-- whether it can grow, and its largest length. A RangeError is `none`.
mod Bounds
mod Tests
use knitting.Base.{
  ℕ, zero, suc, ◌*◌, ◌/◌, ◌%◌, ◌^◌, min, Bool, true, false, not, ◌&&◌, ◌||◌, Option, none, some,
  ltb, ◌==◌, if◌then◌else◌,
}

pub data Mode : Type 0 where
  growable fixed : Mode

-- A number of the options: not there, not finite or negative, or its floor.
pub data Given : Type 0 where
  absent invalid : Given
  floor : ℕ → Given

pub record Options : Type 0 where
  pub mode : Option Mode
  pub payload_initial_bytes : Given
  pub payload_max_byte_length : Given
  pub max_payload_bytes : Given

pub record Backing : Type 0 where
  pub byte_length : ℕ
  can_grow : Bool
  max_byte_length : ℕ

pub record Resolved : Type 0 where
  pub mode : Mode
  pub payload_initial_bytes : ℕ
  pub payload_max_byte_length : ℕ
  pub max_payload_bytes : ℕ

abbrev default_max : ℕ
default_max = 64 * 1024 * 1024

abbrev default_initial : ℕ
default_initial = 4 * 1024 * 1024

abbrev pub positive : ℕ → Option ℕ
positive n = if n == 0 then none else some n

-- `toPositiveInteger`
abbrev pub to_positive_integer : Given → Option ℕ
to_positive_integer absent = none
to_positive_integer invalid = none
to_positive_integer (floor n) = positive n

-- `??`
abbrev pub or_else {ℓ} : {A : Type ℓ} → Option A → A → A
or_else none b = b
or_else (some a) b = a

-- `>> 3`, as an i32; 0 also where it is negative
abbrev pub shr3 : ℕ → ℕ
shr3 n = if ltb (n % 2 ^ 32) (2 ^ 31) then n % 2 ^ 32 / 8 else 0

abbrev pub is_growable : Mode → Bool
is_growable growable = true
is_growable fixed = false

module _ (has_sab_grow : Bool) where
  abbrev backed_mode : Mode → Option Backing → Mode
  backed_mode mode none = mode
  backed_mode mode (some b) =
      if is_growable mode && not (has_sab_grow && b.can_grow) then fixed else mode

  pub resolve_mode : Option Mode → Option Backing → Mode
  resolve_mode requested backing =
      let mode =
        backed_mode (or_else requested (if has_sab_grow then growable else fixed)) backing in
      if is_growable mode && not has_sab_grow then fixed else mode

  -- The buffer's own limits: its region's length, else its largest length.
  abbrev backing_max : Option Backing → ℕ
  backing_max none = default_max
  backing_max (some b) =
      or_else (positive b.byte_length) (or_else (positive b.max_byte_length) default_max)

  pub resolve_max : Options → Option Backing → ℕ
  resolve_max o backing =
      or_else (to_positive_integer o.payload_max_byte_length) (backing_max backing)

  pub resolve_initial : Options → Mode → ℕ → ℕ
  resolve_initial o fixed max = max
  resolve_initial o growable max =
      min (or_else (to_positive_integer o.payload_initial_bytes) default_initial) max

  -- `maxPayloadBytes`, under a ceiling that is positive
  abbrev pub resolve_payload : Given → ℕ → Option ℕ
  resolve_payload absent ceiling = some ceiling
  resolve_payload invalid ceiling = none
  resolve_payload (floor n) ceiling =
      if n == 0 then none else if ltb ceiling n then none else some n

  pub resolve_payload_buffer_options : Options → Option Backing → Option Resolved
  resolve_payload_buffer_options o backing =
      let mode = resolve_mode o.mode backing in
      let max = resolve_max o backing in
      if shr3 max == 0 then none else elim (resolve_payload o.max_payload_bytes (shr3 max)) [
        | none ↦ none
        | some payload ↦ some (record {
          mode = mode;
          payload_initial_bytes = resolve_initial o mode max;
          payload_max_byte_length = max;
          max_payload_bytes = payload;
        })
      ]
