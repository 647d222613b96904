-- ===== src/Inline/Tests.antt =====
-- Two calls, one of them with an argument to come, in batches of one.
use knitting.Base.{
  ℕ, zero, suc, ◌+◌, ◌<◌, ◌≤◌, true, false, ◌≡◌, ◌⊎◌, refl, [], ◌∷◌, some, arith, inl,
}
use knitting.Base.Maps.{occurs}
use knitting.Inline.{
  Outcome, returned, promised, Executor, create_inline_executor, call_value, admit, alloc_index,
  enqueue, send, run_micro_loop, process_loop, drain, round, run_slot, settle_if_current, cleanup,
  after_loop, has_pending, schedule_macro,
}
use knitting.Inline.Runs.{Script, value, Reach, start, called, later, call, micro, answer}
use knitting.Base.Slots.{holding}
use knitting.Inline.Phase.{waits}
use knitting.Inline.Sound.{ids}
use knitting.Inline.Delivery.{answered_once, right_answer, no_lost_wakeup, no_stuck_call}

-- Function 0 adds one; function 1 promises its argument.
abbrev runner : ℕ → ℕ → ℕ → Outcome ℕ
runner id zero a = returned (a + 1)
runner id (suc fn) a = promised false a

abbrev work : Script ℕ
work = record { fn = λ id. id; arg = λ id. value (id + 40) }

abbrev s2 : Executor ℕ
s2 = call work (call work (create_inline_executor 0 0))

reach2 : Reach 0 99 runner (some 1) work (1 ∷ 0 ∷ []) s2
unfolding create_inline_executor call_value admit alloc_index enqueue send
reach2 = called (called (start 0))

abbrev s3 : Executor ℕ
s3 = run_micro_loop 0 runner (some 1) (record s2 { micros = 0 })

reach3 : Reach 0 99 runner (some 1) work (1 ∷ 0 ∷ []) s3
unfolding create_inline_executor call_value admit alloc_index enqueue send
reach3 = later reach2 (micro (omega arith))

answered_once_example : (occurs 1 (ids s3.settled) + holding s3.cap s3.task_id 1 ≡ 1) × (1 ≤ 1)
answered_once_example = answered_once 0 99 runner (some 1) work reach3 1

-- The first call has been answered, the second is queued for the message that was posted.
first_answered :
    (s3.settled ≡ (0, false, 41) ∷ []) × (s3.pending_queue ≡ 1 ∷ []) × (s3.messages ≡ 1)
unfolding create_inline_executor call_value admit alloc_index enqueue send run_micro_loop
    process_loop drain round run_slot settle_if_current cleanup after_loop has_pending
    schedule_macro
first_answered = (refl, refl, refl)

right_answer_example :
    (answer runner work 0 ≡ (false, 41)) ⊎ ((s3.open_ ≡ false) × (false ≡ true) × ◌≡◌ {A = ℕ} 41 99)
right_answer_example = right_answer 0 99 runner (some 1) work reach3 0 false 41 (
    unfold create_inline_executor call_value admit alloc_index enqueue send run_micro_loop
      process_loop drain round run_slot settle_if_current cleanup after_loop has_pending
      schedule_macro in
    inl refl)

no_lost_wakeup_example :
    (s2.pending_queue ≡ [])
    ⊎ ((s2.is_in_micro ≡ true) × (0 < s2.micros))
    ⊎ ((s2.is_in_macro ≡ true) × (0 < s2.messages))
no_lost_wakeup_example =
    no_lost_wakeup 0 99 runner (some 1) work reach2
      (unfold create_inline_executor call_value admit alloc_index enqueue send in refl)

no_stuck_call_example :
    occurs 1 s2.pending_queue + waits s2.on_arg s2.on_result (s2.task_id 1) 1 ≡ 1
no_stuck_call_example =
    no_stuck_call 0 99 runner (some 1) work reach2 1
      (unfold create_inline_executor call_value admit alloc_index enqueue send in refl)
