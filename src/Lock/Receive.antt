-- ===== src/Lock/Receive.antt =====
-- src/memory/lock.ts: the receiving side, `decode` and `decodeAt`.
use knitting.Base.{
  ℕ, zero, suc, Bool, true, false, [], ◌∷◌, ◌++◌, Option, none, some, if◌then◌else◌, ◌==◌, ltb,
}
use knitting.Base.Lanes.{Word, zeros, bit, ◌&◌, ◌^w◌, is_zero, lead}
use knitting.Header.{Task, fill_from}
use knitting.Lock.{Lock, store_worker}

-- `(1 << last) - 1`: the lanes below `last`.
abbrev pub lower : ℕ → Word
lower last i = ltb i last

-- The lanes among which the highest is taken next: those below the last one taken, or all.
unfoldable pub pick : ℕ → Word → Word
pick last diff =
    if last == 32 then diff else if is_zero (diff & lower last) then diff else diff & lower last

-- What the loop leaves; `threw` where `decodeTask` did.
pub record Drained : Type 0 where
  pub lock : Lock
  pub diff : Word
  pub last : ℕ
  pub consumed : Word
  pub threw : Bool

-- What a call answers.
pub data Answer : Type 0 where
  nothing decoded failed : Answer

-- `if (consumedBits !== 0) storeWorker(consumedBits)`
unfoldable pub acknowledged : Lock → Word → Lock
acknowledged l consumed = if is_zero consumed then l else store_worker l consumed

module _ (decode_task : Task → ℕ → Option Task) where
  -- `decodeAt`: a recycled shell is filled like a new one.
  unfoldable pub decode_at : Lock → ℕ → Option Lock
  decode_at l at = elim (decode_task (fill_from (l.headers at)) at) [
    | none ↦ none
    | some task ↦ some (record l { resolved = l.resolved ++ task ∷ [] })
  ]

  -- The loop of `decode`. Each round takes a lane of `diff` away, so 32 rounds are enough.
  unfoldable pub drain : ℕ → Lock → Word → ℕ → Word → Drained
  drain zero l diff last consumed = record {
    lock = l;
    diff = diff;
    last = last;
    consumed = consumed;
    threw = false;
  }
  drain (suc n) l diff last consumed = elim (lead (pick last diff)) [
    | none ↦ record { lock = l; diff = diff; last = last; consumed = consumed; threw = false }
    | some at ↦ elim (decode_at l at) [
      | none ↦ record { lock = l; diff = diff; last = last; consumed = consumed; threw = true }
      | some l' ↦ drain n l' (diff ^w bit at) at (consumed ^w bit at)
    ]
  ]

  -- `decode`: what was consumed is acknowledged by one store, also where decoding threw.
  unfoldable pub decode : Lock → Answer × Lock
  decode l =
      let diff = l.host_bits ^w l.last_worker in
      let d = drain 32 l diff l.last_take zeros in
      let l' = acknowledged d.lock d.consumed in
      if is_zero diff
      then (nothing, l)
      else if d.threw
      then (failed, l')
      else (decoded, record l' { last_take = d.last })
