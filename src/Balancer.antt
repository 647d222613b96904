-- ===== src/Balancer.antt =====
-- src/runtime/balancer.ts: which lane a call goes to.
--
-- A handler is its lane. `idle` is what the contexts' `txIdle` answer at the time of the call, and
-- `random` what `(Math.random() * n) | 0` gives for `n`, both per call.
pub mod Fair
mod Tests
use knitting.Base.{
  ℕ, zero, suc, ◌+◌, ◌-◌, min, Bool, true, false, not, ◌&&◌, ◌||◌, List, [], ◌∷◌, Option, none,
  some, leb, ltb, ◌==◌, if◌then◌else◌,
}

pub data Strategy : Type 0 where
  round_robin first_idle random_lane first_idle_or_random : Strategy

-- What the call sees of the outside.
pub record Now : Type 0 where
  pub idle : ℕ → Bool
  pub random : ℕ → ℕ

-- The cursor's step, which wraps at `top`.
abbrev advance : ℕ → ℕ → ℕ
advance top cursor = if cursor + 1 == top then 0 else cursor + 1

-- The loop of `firstIdle`, from `lane` on with `n` lanes left.
pub find_idle : (ℕ → Bool) → ℕ → ℕ → Option ℕ
find_idle idle lane zero = none
find_idle idle lane (suc n) =
    let rest = find_idle idle (suc lane) n in if idle lane then some lane else rest

-- One call of the invoker that a strategy makes for `lanes` handlers: the lane, and the cursor.
pub choose : Strategy → ℕ → ℕ → Now → ℕ × ℕ
choose strategy lanes cursor now = if leb lanes 1 then (0, cursor) else elim strategy [
  | round_robin ↦ (cursor, advance lanes cursor)
  | first_idle ↦ elim (find_idle now.idle 0 lanes) [
    | some lane ↦ (lane, cursor)
    | none ↦ (cursor, advance lanes cursor)
  ]
  | random_lane ↦ (now.random lanes, cursor)
  | first_idle_or_random ↦ elim (find_idle now.idle 0 lanes) [
    | some lane ↦ (lane, cursor)
    | none ↦ (now.random lanes, cursor)
  ]
]

-- The gate before the inline lane; `threshold` is that of the source, already rounded down.
pub record Gate : Type 0 where
  pub index : ℕ
  pub threshold : ℕ

pub record Manager : Type 0 where
  pub strategy : Strategy
  pub lanes : ℕ
  -- the gate, where it is in force
  pub gate : Option Gate
  pub all_cursor : ℕ
  pub worker_cursor : ℕ
  pub in_flight : ℕ

pub data Refusal : Type 0 where
  no_threads single_thread no_handlers : Refusal

pub data Made : Type 0 where
  refused : Refusal → Made
  made : Manager → Made

-- The gate that `managerMethod` keeps: none where it would never or always close.
kept_gate : ℕ → Option Gate → Option Gate
kept_gate lanes none = none
kept_gate lanes (some g) =
    if leb g.threshold 1 || leb lanes g.index || (lanes - 1 == 0) then none else some g

pub manager_method : ℕ → Strategy → ℕ → Option Gate → Made
manager_method contexts strategy handlers gate =
    if contexts == 0
    then refused no_threads
    else if ltb contexts 2
    then refused single_thread
    else if handlers == 0
    then refused no_handlers
    else made (record {
      strategy = strategy;
      lanes = handlers;
      gate = kept_gate handlers gate;
      all_cursor = 0;
      worker_cursor = 0;
      in_flight = 0;
    })

-- The handlers but the inline one, in order: which handler is worker `lane`.
abbrev worker_source : ℕ → ℕ → ℕ
worker_source index lane = if ltb lane index then lane else lane + 1

-- What the outside looks like to the invoker of the workers alone.
abbrev pub worker_now : ℕ → Now → Now
worker_now index now = record {
  idle = λ lane. now.idle (worker_source index lane);
  random = now.random;
}

-- One call: the handler that gets it.
pub invoke : Manager → Now → ℕ × Manager
invoke m now = elim m.gate [
  | none ↦
      let (lane, cursor) = choose m.strategy m.lanes m.all_cursor now in
      (lane, record m { all_cursor = cursor })
  | some g ↦
      let (lane, cursor) = choose m.strategy m.lanes m.all_cursor now in
      let (worker, worker_cursor) =
        choose m.strategy (m.lanes - 1) m.worker_cursor (worker_now g.index now) in
      if leb g.threshold (m.in_flight + 1)
      then (lane, record m { all_cursor = cursor; in_flight = m.in_flight + 1 })
      else (
        worker_source g.index worker,
        record m { worker_cursor = worker_cursor; in_flight = m.in_flight + 1 },
      )
]

-- The promise of a call settles, either way.
pub settle : Manager → Manager
settle m = elim m.gate [ none ↦ m | some _ ↦ record m { in_flight = m.in_flight - 1 } ]
