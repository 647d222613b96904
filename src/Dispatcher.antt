-- ===== src/Dispatcher.antt =====
-- src/runtime/dispatcher.ts: `hostDispatcherLoop`, which drains a queue of calls on the host; and
-- `dispatchSend` and `laneWake` of src/runtime/pool.ts, which start it.
--
-- The queue is a parameter: a type of states with the four operations that the loop gets. The first
-- result of `complete_frame` says whether a caller's code ran `check` again meanwhile. `stall_free`
-- and `max_backoff` are the two settings, as the code leaves them: not negative. `rx_status` and
-- `op` are words of the signal box that the worker shares; `wakes` counts notifications.
--
-- The event loop is part of the state: microtasks and messages that are on their way to `check`, and
-- the timer with its delay. A loop runs on fuel, `none` where it is used up.
mod Wake
mod Tests
use knitting.Base.{
  ℕ, zero, suc, ◌+◌, ◌-◌, ◌%◌, ◌^◌, min, Bool, true, false, not, ◌&&◌, ◌||◌, Option, none, some,
  leb, ltb, ◌==◌, if◌then◌else◌,
}

pub record Dispatcher (Q : Type 0) : Type 0 where
  pub queue : Q
  pub tx_status : ℕ
  pub rx_status : ℕ
  pub op : ℕ
  pub wakes : ℕ
  -- `check.isRunning` and `check.rerun`
  pub is_running : Bool
  pub rerun : Bool
  pub in_flight : Bool
  -- an i32, as its bits
  pub stall_count : ℕ
  pub backoff_timer : Option ℕ
  pub micros : ℕ
  pub messages : ℕ

module _ {Q : Type 0} (complete_frame : Q → Bool × ℕ × Q) (has_pending_frames : Q → Bool)
    (flush_to_worker : Q → Bool × Q) (tx_idle : Q → Bool) (stall_free max_backoff : ℕ) where
  abbrev pub host_dispatcher_loop : Q → Dispatcher Q
  host_dispatcher_loop q = record {
    queue = q;
    tx_status = 0;
    rx_status = 0;
    op = 0;
    wakes = 0;
    is_running = false;
    rerun = false;
    in_flight = false;
    stall_count = 0;
    backoff_timer = none;
    micros = 0;
    messages = 0;
  }

  -- `stallCount <= STALL_FREE_LOOPS`
  abbrev pub no_stall : ℕ → Bool
  no_stall count = leb (2 ^ 31) count || leb count stall_free

  pub schedule_notify : Dispatcher Q → Dispatcher Q
  schedule_notify d =
      if no_stall d.stall_count
      then record d { messages = d.messages + 1 }
      else elim d.backoff_timer [
        | none ↦ record d {
          is_running = false;
          backoff_timer = some (min (d.stall_count - stall_free - 1) max_backoff);
        }
        | some delay ↦ d
      ]

  -- The inner loop: frames are flushed while there are any and the flush makes progress.
  flush_loop : ℕ → Bool → Q → Option (Bool × Q)
  flush_loop zero moved q = none
  flush_loop (suc n) moved q = elim (has_pending_frames q) [
    | false ↦ some (moved, q)
    | true ↦ elim ((flush_to_worker q).0) [
      | false ↦ some (moved, (flush_to_worker q).1)
      | true ↦ flush_loop n true (flush_to_worker q).1
    ]
  ]

  -- The loop `while (progressed)`: whether anything progressed, whether `check` was called again,
  -- and the queue.
  pub drain_loop : ℕ → Bool → Bool → Q → Option (Bool × Bool × Q)
  drain_loop zero any rerun q = none
  drain_loop (suc n) any rerun q =
      let (again, resolved, q1) = complete_frame q in
      elim (flush_loop n (ltb 0 resolved) q1) [
        | none ↦ none
        | some (progressed, q2) ↦ elim progressed [
          | false ↦ some (any, rerun || again, q2)
          | true ↦ drain_loop n true (rerun || again) q2
        ]
      ]

  -- The worker is woken where it is parked.
  abbrev pub wake_worker : Dispatcher Q → Dispatcher Q
  wake_worker d = if d.rx_status == 0 then record d { op = 1; wakes = d.wakes + 1 } else d

  -- What follows the loop where the queue is not idle.
  abbrev stall : Bool → Dispatcher Q → Dispatcher Q
  stall any d = schedule_notify (record d {
    stall_count = if any || has_pending_frames d.queue then 0 else (d.stall_count + 1) % 2 ^ 32;
    in_flight = false;
  })

  -- One round of `do ... while (check.rerun)`: whether there is to be another.
  pub round : ℕ → Dispatcher Q → Option (Bool × Dispatcher Q)
  round n d =
      let d1 = wake_worker (record d { rerun = false; tx_status = 1 }) in
      elim (drain_loop n false false d1.queue) [
        | none ↦ none
        | some (any, again, q) ↦
            let d2 = record d1 { queue = q; rerun = again; tx_status = 0 } in
            elim (tx_idle q) [
              | false ↦ some (false, stall any d2)
              | true ↦ elim again [
                | true ↦ some (true, record d2 { stall_count = 0 })
                | false ↦
                    some
                      (false, record d2 { stall_count = 0; is_running = false; in_flight = false })
              ]
            ]
      ]

  pub rounds : ℕ → Dispatcher Q → Option (Dispatcher Q)
  rounds zero d = none
  rounds (suc n) d = elim (round n d) [
    | none ↦ none
    | some (more, d') ↦ elim more [ false ↦ some d' | true ↦ rounds n d' ]
  ]

  pub check : ℕ → Dispatcher Q → Option (Dispatcher Q)
  check n d =
      if d.in_flight
      then some (record d { rerun = true })
      else if tx_idle d.queue
      then some (record d { is_running = false })
      else rounds n (record d { in_flight = true; backoff_timer = none })

  -- The timer's callback
  pub timer_fires : ℕ → Dispatcher Q → Option (Dispatcher Q)
  timer_fires n d =
      if d.is_running
      then some (record d { backoff_timer = none })
      else check n (record d { backoff_timer = none; is_running = true })

  -- `laneWake`
  pub lane_wake : Dispatcher Q → Dispatcher Q
  lane_wake d =
      if d.rx_status == 0 then record d { op = (d.op + 1) % 2 ^ 32; wakes = d.wakes + 1 } else d

  -- `dispatchSend`
  pub dispatch_send : Dispatcher Q → Dispatcher Q
  dispatch_send d =
      if d.is_running then d else lane_wake (record d { is_running = true; micros = d.micros + 1 })
