-- ===== src/Serial.antt =====
-- src/api.ts: the serial channel, by which one macrotask checks the lanes of a pool in turn.
--
-- A lane is its index. The queues of the lanes are one state `S`, a parameter: `check` is a lane's
-- dispatcher on it, and gives the lanes that callers sent to meanwhile; `idle` is a lane's `txIdle`.
-- `micros` counts the microtasks on their way to `runSerialChecks`, and `wakes` what each lane's worker
-- is woken. The loop over `serialRerun` runs on fuel.
mod Sends
pub mod Watch
mod Tests
use knitting.Base.{
  ℕ, zero, suc, ◌+◌, Bool, true, false, List, [], ◌∷◌, ◌++◌, Option, none, some, if◌then◌else◌, ltb,
  length, get_elem?, set,
}
use knitting.Base.Maps.{put}

pub record Serial (S : Type 0) : Type 0 where
  pub state : S
  pub active : List ℕ
  pub is_active : ℕ → Bool
  pub scheduled : Bool
  pub in_flight : Bool
  pub rerun : Bool
  pub micros : ℕ
  pub wakes : List ℕ

-- `active.pop()!`, and the array after it
abbrev pub pop : List ℕ → ℕ × List ℕ
pop [] = (0, [])
pop (x ∷ []) = (x, [])
pop (x ∷ y ∷ ys) = let (last, rest) = pop (y ∷ ys) in (last, x ∷ rest)

module _ {S : Type 0} where
  abbrev pub start_serial : S → Serial S
  start_serial state = record {
    state = state;
    active = [];
    is_active = λ lane. false;
    scheduled = false;
    in_flight = false;
    rerun = false;
    micros = 0;
    wakes = [];
  }

  pub mark_active : Serial S → ℕ → Serial S
  mark_active d lane =
      if d.is_active lane
      then d
      else record d { is_active = put d.is_active lane true; active = d.active ++ lane ∷ [] }

  pub schedule_serial_check : Serial S → Serial S
  schedule_serial_check d =
      if d.in_flight
      then record d { rerun = true }
      else if d.scheduled
      then d
      else record d { scheduled = true; micros = d.micros + 1 }

  -- What a lane's `send` is bound to.
  pub send : Serial S → ℕ → Serial S
  send d lane =
      let d1 = schedule_serial_check (mark_active d lane) in record d1 { wakes = lane ∷ d1.wakes }

  abbrev pub sends : Serial S → List ℕ → Serial S
  sends d [] = d
  sends d (lane ∷ lanes) = sends (send d lane) lanes

  -- The lane at `index` leaves: the last one takes its place.
  pub leave : Serial S → ℕ → ℕ → Serial S
  leave d index lane =
      let (last, rest) = pop d.active in
      record d {
        is_active = put d.is_active lane false;
        active = if ltb index (length rest) then set rest index last else rest;
      }

module _ {S : Type 0} (check : ℕ → S → List ℕ × S) (idle : ℕ → S → Bool) where
  pub visit : Serial S → ℕ → ℕ → Serial S
  visit d index lane =
      let (lanes, state) = check lane d.state in
      let d1 = sends (record d { state = state }) lanes in
      if idle lane d1.state then leave d1 index lane else d1

  -- The walk over `active`, from `n - 1` down to 0.
  pub walk : ℕ → Serial S → Serial S
  walk zero d = d
  walk (suc index) d = elim (get_elem? d.active index) [
    | none ↦ walk index d
    | some lane ↦ walk index (visit d index lane)
  ]

  pub rounds : ℕ → Serial S → Option (Serial S)
  rounds zero d = none
  rounds (suc n) d =
      let d1 = walk (length d.active) (record d { rerun = false; scheduled = false }) in
      elim d1.rerun [ true ↦ rounds n d1 | false ↦ some (record d1 { in_flight = false }) ]

  pub run_serial_checks : ℕ → Serial S → Option (Serial S)
  run_serial_checks n d =
      if d.in_flight
      then some (record d { rerun = true })
      else rounds n (record d { in_flight = true })
