-- ===== src/Runner/Tests.antt =====
-- Signals, stamps and timers on concrete values.
use knitting.Base.{ℕ, ◌<◌, ◌≤◌, ◌%◌, ◌^◌, true, false, ◌-◌, ◌≡◌, ◌⊎◌, inr, [], ◌∷◌, some, arith}
use knitting.Header.{get_function_id}
use knitting.TxQueue.{new_slot, function_word, stamped}
use knitting.Runner.{TimeoutSpec, read_signal, expired, raced, apply_timeout_budget, start_race}
use knitting.Runner.Calls.{word_read, budget_left}
use knitting.Runner.Timer.{timer, job, race, first_settles}

word_read_example :
    let sent = record (new_slot 4) { flags_to_host = function_word 9 (some 5) } in
    (get_function_id sent ≡ 9 % 2 ^ 16) × (read_signal sent ≡ some 5)
word_read_example = word_read (new_slot 4) 9 (some 5) (λ n e. ground arith)

abbrev in_time : TimeoutSpec ℕ
in_time = record { ms = 50; resolves = true; value = 7 }

-- The worker's clock started 5 seconds after the host's; no time has passed.
budget_left_example :
    let ran = apply_timeout_budget true 8 (stamped (some 6000) (new_slot 4)) in_time 1000 in
    ((50 ≤ 134212728) × (ran ≡ expired false 7))
    ⊎ ((134212728 < 50) × (ran ≡ raced (50 - 134212728) false 7 true 8))
budget_left_example =
    budget_left (new_slot 4) in_time 6000 1000 134212728 true 8 (omega arith)
      (inr (omega arith, omega arith))

first_settles_example :
    ((race {A = ℕ} true 1 false 2 (job ∷ timer ∷ job ∷ []) start_race).settled ≡ (false, 2) ∷ [])
    × ((race {A = ℕ} true 1 false 2 [] start_race).settled ≡ [])
first_settles_example = first_settles {A = ℕ} true 1 false 2 job (timer ∷ job ∷ [])
