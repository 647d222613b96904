-- ===== src/AbortSignals.antt =====
-- src/shared/abortSignal.ts: `signalAbortFactory`, a pool of abort flags in shared memory.
--
-- A signal is a number; the words are indexed from 0, each with its 32 lanes. The checks that a
-- number is finite and an integer are the type ℕ.
mod Update
pub mod Pool
pub mod Flags
mod Tests
use knitting.Base.{
  ℕ, zero, suc, ◌+◌, ◌-◌, ◌*◌, ◌/◌, ◌%◌, min, Bool, true, false, not, ◌&&◌, Option, none, some, leb,
  ltb, ◌==◌, if◌then◌else◌,
}
use knitting.Base.Bits
use knitting.Base.Lanes.{Word, zeros, bit, not_w, ◌&◌, ◌∣w◌, is_zero, isolate, lead}

pub record Store : Type 0 where
  -- `atomicView.length`
  pub size : ℕ
  pub max : ℕ
  -- `atomicView`, shared
  pub aborted : ℕ → Word
  pub in_use : ℕ → Word
  pub current : ℕ
  pub cursor : ℕ

-- `max`, where `none` is a limit that is not finite
abbrev pub limit : ℕ → Option ℕ → ℕ
limit size none = size * 32
limit size (some parsed) = if parsed == 0 then size * 32 else min parsed (size * 32)

abbrev pub create : ℕ → Option ℕ → (ℕ → Word) → Store
create size max_signals aborted = record {
  size = size;
  max = limit size max_signals;
  aborted = aborted;
  in_use = λ _. zeros;
  current = 0;
  cursor = 0;
}

abbrev pub close_now : Store → ℕ
close_now s = s.max + 1

abbrev pub update : (ℕ → Word) → ℕ → Word → ℕ → Word
update f k v i = if i == k then v else f i

-- `~inUse[word] & allowedMask`
abbrev pub free_bits : Store → ℕ → Word
free_bits s word i = not (s.in_use word i) && ltb i (s.max - word * 32)

-- The loop of `getSignal` with `n` steps left: the first word with a free lane, from the cursor on.
pub find_word : Store → ℕ → ℕ → Option ℕ
find_word s step zero = none
find_word s step (suc n) =
    let word = (s.cursor + step) % s.size in
    let rest = find_word s (suc step) n in
    if leb s.max (word * 32) then rest else if is_zero (free_bits s word) then rest else some word

pub take_lane : Store → ℕ → ℕ → ℕ × Store
take_lane s word lane = (
  word * 32 + lane,
  record s {
    in_use = update s.in_use word (s.in_use word ∣w isolate (free_bits s word));
    current = s.current + 1;
    cursor = (word + 1) % s.size;
    aborted = update s.aborted word (s.aborted word & not_w (isolate (free_bits s word)));
  },
)

unfoldable pub get_signal : Store → ℕ × Store
get_signal s = if leb s.max s.current then (close_now s, s) else elim (find_word s 0 s.size) [
  | none ↦ (close_now s, s)
  | some word ↦ elim (lead (isolate (free_bits s word))) [
    | none ↦ (close_now s, s)
    | some lane ↦ take_lane s word lane
  ]
]

-- 0, -1 and 1
pub data SetSignalResult : Type 0 where
  exhausted invalid done : SetSignalResult

pub set_signal : Store → ℕ → SetSignalResult × Store
set_signal s signal =
    if signal == close_now s then (exhausted, s) else if leb s.max signal then (invalid, s) else (
      done,
      record s {
        aborted = update s.aborted (signal / 32) (s.aborted (signal / 32) ∣w bit (signal % 32));
      },
    )

pub abort_all : Store → ℕ × Store
abort_all s = (
  s.current,
  record s { aborted = λ word. if ltb word s.size then s.in_use word else s.aborted word },
)

pub has_aborted : Store → ℕ → Bool
has_aborted s signal =
    if signal == close_now s
    then true
    else if leb s.max signal
    then false
    else not (is_zero (s.aborted (signal / 32) & bit (signal % 32)))

pub reset_signal : Store → ℕ → Bool × Store
reset_signal s signal =
    let word = signal / 32 in
    let mask = bit (signal % 32) in
    if signal == close_now s
    then (false, s)
    else if leb s.max signal
    then (false, s)
    else if is_zero (s.in_use word & mask)
    then (false, s)
    else (
      true,
      record s {
        in_use = update s.in_use word (s.in_use word & not_w mask);
        current = s.current - 1;
        cursor = word;
        aborted = update s.aborted word (s.aborted word & not_w mask);
      },
    )
