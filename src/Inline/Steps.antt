-- ===== src/Inline/Steps.antt =====
-- src/runtime/inline-executor.ts: each step of a run keeps the invariant.
use knitting.Base.{
  ℕ, ◌+◌, ◌-◌, Bool, true, false, ◌||◌, ◌≡◌, refl, ap, sym, ◌∙◌, List, [], ◌∷◌, ◌++◌, Option, none,
  some, arith, ◌==◌, Bool-cases, List-cases, inl, inr, if◌then◌else◌,
}
use knitting.Base.Count.{count}
use knitting.Base.Maps.{put, is_id}
use knitting.Inline.{
  Outcome, Executor, enqueue, enqueue_if_current, has_pending, schedule_macro, after_loop,
  process_loop, micro_loop, run_micro_loop, call_value, call_promise, arg_resolved, arg_rejected,
  kills, create_inline_executor, admit, alloc_index,
}
use knitting.Inline.Runs.{
  Arg, value, resolves, rejects, Script, is_promise, answer, call_with, settle_arg, Step, tick, arg,
  result, micro, message, kill, Reach, start, called, later,
}
use knitting.Base.Slots.{tick-Owned}
use knitting.Inline.Phase.{tick-Phase}
use knitting.Inline.Sound.{Sound}
use knitting.Inline.Calls.{call-Sound}
use knitting.Inline.Callbacks.{arg_settles-Sound, result_settles-Sound, kills-Sound, create-Sound}
use knitting.Inline.Wake.{
  Wake, settle-Settling, settled-Wake, send-Wake, pending-working, drained, settling, sound, busy,
  left, after_message-Wake, after_micro-Wake,
}

module _ {A : Type 0} (undefined closed : A) (run : ℕ → ℕ → A → Outcome A) (batch_limit : Option ℕ)
    (script : Script A) where
  -- The invariant of every run.
  abbrev Good : List ℕ → Executor A → Type 0
  Good calls s = Sound undefined closed run batch_limit script calls s s.pending_queue × Wake s

  -- A wake-up that comes, or a flag that changes, changes nothing of the calls.
  flags-Sound :
      {calls : List ℕ} {s : Executor A} {queue : List ℕ} (is_in_macro is_in_micro : Bool)
      (micros messages : ℕ)
      → Sound undefined closed run batch_limit script calls s queue
      → Sound undefined closed run batch_limit script calls
          (record s {
            is_in_macro = is_in_macro;
            is_in_micro = is_in_micro;
            micros = micros;
            messages = messages;
          })
          queue
  flags-Sound is_in_macro is_in_micro micros messages d = record {
    owned = d.owned;
    phase = d.phase;
    accounted = d.accounted;
    answered = d.answered;
    room = d.room;
  }

  after_loop-Sound :
      {calls : List ℕ} {s : Executor A} (from_micro is_in_micro : Bool)
      → Sound undefined closed run batch_limit script calls s s.pending_queue
      → let s' = after_loop s from_micro in
        Sound undefined closed run batch_limit script calls s' s'.pending_queue
        × Sound undefined closed run batch_limit script calls
            (record s' { is_in_micro = is_in_micro })
            s'.pending_queue
  unfolding after_loop schedule_macro
  after_loop-Sound {s = s} true m d = elim (Bool-cases (has_pending s)) [
    | inl h ↦ elim (Bool-cases ((s.working == 0) || s.is_in_macro)) [
      | inl e ↦ rw (h, e) (d, flags-Sound s.is_in_macro m s.micros s.messages d)
      | inr e ↦
          let messages = if s.open_ then s.messages + 1 else s.messages in
          rw (h, e)
            (
              flags-Sound true s.is_in_micro s.micros messages d,
              flags-Sound true m s.micros messages d,
            )
    ]
    | inr h ↦ rw h (d, flags-Sound s.is_in_macro m s.micros s.messages d)
  ]
  after_loop-Sound {s = s} false m d =
      let messages = if s.open_ then s.messages + 1 else s.messages in
      elim (Bool-cases (has_pending s)) [
        | inl h ↦ rw h (
          flags-Sound s.is_in_macro s.is_in_micro s.micros messages d,
          flags-Sound s.is_in_macro m s.micros messages d,
        )
        | inr h ↦ rw h (
          flags-Sound false s.is_in_micro s.micros s.messages d,
          flags-Sound false m s.micros s.messages d,
        )
      ]

  message-Good :
      {calls : List ℕ} {s : Executor A}
      → Good calls s
      → Good calls
          (process_loop undefined run batch_limit (record s { messages = s.messages - 1 }) false)
  unfolding process_loop
  message-Good {calls} {s} (d, w) =
      let s0 : Executor A = record s { messages = s.messages - 1 } in
      let d0 = flags-Sound s.is_in_macro s.is_in_micro s.micros (s.messages - 1) d in
      let d1 = sound undefined closed run batch_limit script d w s0 d0 refl refl refl in
      let f = settling undefined closed run batch_limit script d w s0 d0 refl refl refl in
      let s1 = drained undefined closed run batch_limit script d w s0 d0 refl refl refl in
      (
        (after_loop-Sound false false d1).0,
        after_message-Wake s1 (λ m. ground (arith, w.micro, f.micros, f.is_in_micro))
            (λ h o.
              elim (left undefined closed run batch_limit script d w s0 d0 refl refl refl h o) [
                | inl m ↦ inl (f.is_in_micro ∙ m)
                | inr m ↦ inr m
              ]),
      )

  micro_loop-Good :
      {calls : List ℕ} {s : Executor A} (b : Bool)
      → s.is_in_micro ≡ b
      → Good calls s
      → Good calls (micro_loop undefined run batch_limit b (record s { micros = s.micros - 1 }))
  unfolding process_loop
  micro_loop-Good {s = s} false m (d, w) = (
    flags-Sound s.is_in_macro s.is_in_micro (s.micros - 1) s.messages d,
    record { micro = λ x. absurd (ground arith); macro = w.macro; wake = w.wake },
  )
  micro_loop-Good {s = s} true m (d, w) =
      let s0 : Executor A = record s { micros = s.micros - 1 } in
      let d0 = flags-Sound s.is_in_macro s.is_in_micro (s.micros - 1) s.messages d in
      let d1 = sound undefined closed run batch_limit script d w s0 d0 refl refl refl in
      let f = settling undefined closed run batch_limit script d w s0 d0 refl refl refl in
      let s1 = drained undefined closed run batch_limit script d w s0 d0 refl refl refl in
      (
        (after_loop-Sound true false d1).1,
        after_micro-Wake s1
            (λ o h. elim f.is_in_macro [
              | inl same ↦ ground (arith, w.macro (sym f.open_ ∙ o) (sym same ∙ h), f.messages)
              | inr (off, z) ↦ absurd (ground arith)
            ])
            (busy undefined closed run batch_limit script d w s0 d0 refl refl refl),
      )

  settle_arg-Wake :
      {calls : List ℕ} {s : Executor A} (index id : ℕ) (r : Arg A)
      → Good calls s
      → script.arg id ≡ r
      → s.on_arg id ≡ some index
      → let s' =
          settle_arg undefined run script (record s { on_arg = put s.on_arg id none }) index id r in
        Sound undefined closed run batch_limit script calls s' s'.pending_queue → Wake s'
  unfolding arg_resolved arg_rejected enqueue_if_current enqueue
  settle_arg-Wake index id (value a) (d, w) e h d' =
      absurd (ground (arith, ap is_promise e, d.phase.arg_born id index h))
  settle_arg-Wake {s = s} index id (resolves p a) (d, w) e h d' =
      elim (Bool-cases (is_id (s.task_id index) id)) [
        | inl c ↦ elim (Bool-cases (s.pending index)) [
          | inl live ↦
              rw (c, live)
                (send-Wake
                  (record s {
                    on_arg = put s.on_arg id none;
                    args = put s.args index a;
                    pending_queue = s.pending_queue ++ index ∷ [];
                  })
                  (pending-working undefined closed run batch_limit script index d live) w.micro
                  w.macro)
          | inr dead ↦ rw (c, dead) (record { micro = w.micro; macro = w.macro; wake = w.wake })
        ]
        | inr c ↦ rw c (record { micro = w.micro; macro = w.macro; wake = w.wake })
      ]
  settle_arg-Wake {s = s} index id (rejects p v) (d, w) e h d' =
      let (f, q) =
        settle-Settling undefined closed run batch_limit script
          (record s { on_arg = put s.on_arg id none }) index id true v in
      settled-Wake undefined closed run batch_limit script d w
        (record {
          micros = f.micros;
          messages = f.messages;
          open_ = f.open_;
          is_in_micro = f.is_in_micro;
          working = f.working;
          is_in_macro = f.is_in_macro;
        })
        d' q

  call_with-Wake : (s : Executor A) (r : Arg A) → Wake s → Wake (call_with script s r)
  unfolding call_value call_promise admit alloc_index enqueue
  call_with-Wake s (value a) w = elim (List-cases s.free_stack) [
    | inl f ↦ rw f (send-Wake _ (omega arith) w.micro w.macro)
    | inr (i, rest, f) ↦ rw f (send-Wake _ (omega arith) w.micro w.macro)
  ]
  call_with-Wake s (resolves p a) w = elim (List-cases s.free_stack) [
    | inl f ↦ rw f (record { micro = w.micro; macro = w.macro; wake = w.wake })
    | inr (i, rest, f) ↦ rw f (record { micro = w.micro; macro = w.macro; wake = w.wake })
  ]
  call_with-Wake s (rejects p a) w = elim (List-cases s.free_stack) [
    | inl f ↦ rw f (record { micro = w.micro; macro = w.macro; wake = w.wake })
    | inr (i, rest, f) ↦ rw f (record { micro = w.micro; macro = w.macro; wake = w.wake })
  ]

  step-Good :
      {calls : List ℕ} {s s' : Executor A}
      → Step undefined closed run batch_limit script s s'
      → Good calls s
      → Good calls s'
  unfolding run_micro_loop kills
  step-Good {s = s} tick (d, w) = (
    record {
      owned = tick-Owned d.owned;
      phase = tick-Phase script d.owned d.phase;
      accounted =
          λ x. let (count, once, old) = d.accounted x in (count, once, λ h. omega (arith, old h));
      answered = d.answered;
      room = d.room;
    },
    record { micro = w.micro; macro = w.macro; wake = w.wake },
  )
  step-Good (arg id index h) (d, w) =
      let d' = arg_settles-Sound undefined closed run batch_limit script d index id h in
      (d', settle_arg-Wake index id (script.arg id) (d, w) refl h d')
  step-Good {s = s} (result id index h) (d, w) =
      let d' = result_settles-Sound undefined closed run batch_limit script d index id h in
      let (f, q) =
        settle-Settling undefined closed run batch_limit script
          (record s { on_result = put s.on_result id none }) index id (answer run script id).0
          (answer run script id).1 in
      (
        d',
        settled-Wake undefined closed run batch_limit script d w
            (record {
              micros = f.micros;
              messages = f.messages;
              open_ = f.open_;
              is_in_micro = f.is_in_micro;
              working = f.working;
              is_in_macro = f.is_in_macro;
            })
            d' q,
      )
  step-Good {s = s} (micro h) g = micro_loop-Good s.is_in_micro refl g
  step-Good (message h) g = message-Good g
  step-Good kill (d, w) = (
    kills-Sound undefined closed run batch_limit script d,
    record { micro = λ x. absurd (cc); macro = λ o x. absurd (cc); wake = λ o. inl refl },
  )

  pub Reach-Good :
      {calls : List ℕ} {s : Executor A}
      → Reach undefined closed run batch_limit script calls s
      → Good calls s
  unfolding create_inline_executor
  Reach-Good (start counter) = (
    create-Sound undefined closed run batch_limit script counter,
    record { micro = λ x. absurd (cc); macro = λ o x. absurd (cc); wake = λ o. inl refl },
  )
  Reach-Good (called {s = s} r) =
      let (d, w) = Reach-Good r in
      (
        call-Sound undefined closed run batch_limit script d,
        call_with-Wake s (script.arg s.counter) w,
      )
  Reach-Good (later r step) = step-Good step (Reach-Good r)
