-- ===== src/Header.antt =====
-- src/memory/lock.ts: the eight words of a task and the fields that share a word.
--
-- The words 0 to 6 are u32 numbers; word 7 holds flags that stay local, as lanes. `>>> 0` is the
-- identity on these patterns.
pub mod Packing
mod Tests
use knitting.Base.{
  ℕ, ◌+◌, ◌*◌, ◌/◌, ◌%◌, ◌^◌, bit_and, bit_or, Bool, true, false, not, ◌==◌, if◌then◌else◌,
}
use knitting.Base.Lanes.{Word, zeros, bit, not_w, ◌&◌, ◌∣w◌, is_zero}

-- `flags_to_host` is also the word of the function id; `local` is word 7.
pub record Task : Type 0 where
  pub flags_to_host : ℕ
  pub id : ℕ
  pub type : ℕ
  pub start : ℕ
  pub end_ : ℕ
  pub payload_len : ℕ
  pub slot_buffer : ℕ
  pub local : Word

-- `TASK_SLOT_INDEX_MASK` and `TASK_SLOT_META_PACKED_MASK`
abbrev pub slot_mask : ℕ
slot_mask = 31

abbrev slot_meta_packed : ℕ
slot_meta_packed = 0xFFFFFFE0

abbrev function_mask : ℕ
function_mask = 0xFFFF

abbrev function_meta_packed : ℕ
function_meta_packed = 0xFFFF0000

-- The promise that the payload waits for, and that it has been counted.
abbrev pub pending_flag : ℕ
pending_flag = 0

abbrev pub tracked_flag : ℕ
tracked_flag = 1

unfoldable pub get_function_id : Task → ℕ
get_function_id t = bit_and t.flags_to_host function_mask

pub set_function_id : Task → ℕ → Task
set_function_id t f = record t {
  flags_to_host = bit_or (bit_and t.flags_to_host function_meta_packed) (bit_and f function_mask);
}

unfoldable pub get_function_meta : Task → ℕ
get_function_meta t = bit_and (t.flags_to_host / 2 ^ 16) 0xFFFF

pub set_function_meta : Task → ℕ → Task
set_function_meta t v =
    let encoded = bit_and v 0xFFFF * 2 ^ 16 % 2 ^ 32 in
    record t { flags_to_host = bit_or (bit_and t.flags_to_host function_mask) encoded }

pub get_slot_index : Task → ℕ
get_slot_index t = bit_and t.slot_buffer slot_mask

pub set_slot_index : Task → ℕ → Task
set_slot_index t i = record t {
  slot_buffer = bit_or (bit_and t.slot_buffer slot_meta_packed) (bit_and i slot_mask);
}

pub get_slot_meta : Task → ℕ
get_slot_meta t = bit_and (t.slot_buffer / 2 ^ 5) 0x7FFFFFF

pub set_slot_meta : Task → ℕ → Task
set_slot_meta t v =
    let encoded = bit_and v 0x7FFFFFF * 2 ^ 5 % 2 ^ 32 in
    record t { slot_buffer = bit_or (bit_and t.slot_buffer slot_mask) encoded }

-- `(flags & FLAG) !== 0`
abbrev pub has_flag : Task → ℕ → Bool
has_flag t k = not (is_zero (t.local & bit k))

pub begin_promise : Task → Bool × Task
begin_promise t =
    if has_flag t pending_flag
    then (false, t)
    else (true, record t { local = t.local ∣w bit pending_flag })

pub finish_promise : Task → Task
finish_promise t = record t { local = t.local & not_w (bit pending_flag) }

pub is_promise_pending : Task → Bool
is_promise_pending t = has_flag t pending_flag

pub reset_local : Task → Task
reset_local t = record t { local = zeros }

-- `fillTaskFrom`: what is restored from a header never has the local flags of the sender.
unfoldable pub fill_from : Task → Task
fill_from header = record header { local = zeros }

pub data Settled : Type 0 where
  resolved rejected : Settled

-- `settleTask`: which callback gets the value, and the task after it.
unfoldable pub settle : Task → Settled × Task
settle t =
    if t.flags_to_host == 0 then (resolved, t) else (rejected, record t { flags_to_host = 0 })
