-- ===== src/Inline/Wake.antt =====
-- src/runtime/inline-executor.ts: what is queued has a wake-up on its way.
use knitting.Base.{
  ℕ, ◌+◌, ◌-◌, ◌<◌, ◌≤◌, Bool, true, false, ◌&&◌, ◌||◌, ◌≡◌, ◌⊎◌, refl, ap, sym, ◌∙◌, List, [], ◌∷◌,
  Option, arith, ◌==◌, Bool-cases, Option-cases, List-cases, inl, inr,
}
use knitting.Base.Count.{count-none}
use knitting.Base.Maps.{is_id, occurs}
use knitting.Inline.{
  Outcome, returned, threw, promised, Executor, cleanup, settle_if_current, send, has_pending,
  schedule_macro, dispatch, run_slot, round, under_limit, drain, after_loop,
}
use knitting.Inline.Runs.{Script}
use knitting.Inline.Sound.{Sound, drain-Sound}

pub record Wake {A : Type 0} (s : Executor A) : Type 0 where
  pub micro : s.is_in_micro ≡ true → 0 < s.micros
  pub macro : s.open_ ≡ true → s.is_in_macro ≡ true → 0 < s.messages
  pub wake :
      s.open_ ≡ true → (s.pending_queue ≡ []) ⊎ (s.is_in_micro ≡ true) ⊎ (s.is_in_macro ≡ true)

-- What settling changes of the flags: the macro flag goes when no call is left.
pub record Settling {A : Type 0} (s s' : Executor A) : Type 0 where
  pub micros : s'.micros ≡ s.micros
  pub messages : s'.messages ≡ s.messages
  pub open_ : s'.open_ ≡ s.open_
  pub is_in_micro : s'.is_in_micro ≡ s.is_in_micro
  pub working : s'.working ≤ s.working
  pub is_in_macro : (s'.is_in_macro ≡ s.is_in_macro) ⊎ ((s'.is_in_macro ≡ false) × (s'.working ≡ 0))

module _ {A : Type 0} where
  Settling-refl : (s : Executor A) → Settling s s
  Settling-refl s = record {
    micros = refl;
    messages = refl;
    open_ = refl;
    is_in_micro = refl;
    working = omega arith;
    is_in_macro = inl refl;
  }

  Settling-trans : {s s' s'' : Executor A} → Settling s s' → Settling s' s'' → Settling s s''
  Settling-trans f g = record {
    micros = g.micros ∙ f.micros;
    messages = g.messages ∙ f.messages;
    open_ = g.open_ ∙ f.open_;
    is_in_micro = g.is_in_micro ∙ f.is_in_micro;
    working = omega (arith, f.working, g.working);
    is_in_macro = elim g.is_in_macro [
      | inl same ↦ elim f.is_in_macro [
        | inl before ↦ inl (same ∙ before)
        | inr (off, none_left) ↦ inr (same ∙ off, omega (arith, g.working))
      ]
      | inr off ↦ inr off
    ];
  }

  has_pending-queue : (s : Executor A) → has_pending s ≡ false → s.pending_queue ≡ []
  unfolding has_pending
  has_pending-queue s h = elim (List-cases s.pending_queue) [
    | inl e ↦ e
    | inr (x, rest, e) ↦ absurd (ground arith)
  ]

  none-has_pending : (s : Executor A) → s.pending_queue ≡ [] → has_pending s ≡ false
  unfolding has_pending
  none-has_pending s e = ground arith

  -- The end of the loop passes the wake-up on.
  module _ (s : Executor A) (micro : s.is_in_micro ≡ true → 0 < s.micros)
      (left : has_pending s ≡ true
        → s.open_ ≡ true
        → (s.is_in_micro ≡ true) ⊎ (s.is_in_macro ≡ true)) where
    pub after_message-Wake : Wake (after_loop s false)
    unfolding after_loop
    after_message-Wake = elim (Bool-cases (has_pending s)) [
      | inl h ↦
          rw h (record { micro = micro; macro = λ o m. ground arith; wake = λ o. inr (left h o) })
      | inr h ↦ rw h (record {
        micro = micro;
        macro = λ o m. absurd (cc);
        wake = λ o. inl (has_pending-queue s h);
      })
    ]

  pub after_micro-Wake :
      (s : Executor A)
      → (s.open_ ≡ true → s.is_in_macro ≡ true → 0 < s.messages)
      → (has_pending s ≡ true → 0 < s.working)
      → Wake (record (after_loop s true) { is_in_micro = false })
  unfolding after_loop schedule_macro
  after_micro-Wake s macro busy = elim (Bool-cases (has_pending s)) [
    | inl h ↦ elim (Bool-cases (s.is_in_macro)) [
      | inl m ↦
          let stays : (s.working == 0) || s.is_in_macro ≡ true = ground arith in
          rw (h, stays)
            (record { micro = λ x. absurd (cc); macro = macro; wake = λ o. inr (inr m) })
      | inr m ↦
          let goes : (s.working == 0) || s.is_in_macro ≡ false = ground (arith, busy h) in
          rw (h, goes)
            (record {
              micro = λ x. absurd (cc);
              macro = λ o x. ground arith;
              wake = λ o. inr (inr refl);
            })
    ]
    | inr h ↦ rw h (record {
      micro = λ x. absurd (cc);
      macro = macro;
      wake = λ o. inl (has_pending-queue s h);
    })
  ]

  pub send-Wake :
      (s : Executor A)
      → 0 < s.working
      → (s.is_in_micro ≡ true → 0 < s.micros)
      → (s.open_ ≡ true → s.is_in_macro ≡ true → 0 < s.messages)
      → Wake (send s)
  unfolding send
  send-Wake s busy micro macro =
      elim (Bool-cases ((s.working == 0) || s.is_in_macro || s.is_in_micro)) [
        | inl e ↦ rw e (record {
          micro = micro;
          macro = macro;
          wake = λ o. elim (Bool-cases s.is_in_macro) [
            | inl m ↦ inr (inr m)
            | inr m ↦ inr (inl (ground arith))
          ];
        })
        | inr e ↦
            rw e (record { micro = λ x. omega arith; macro = macro; wake = λ o. inr (inl refl) })
      ]

  module _ (undefined closed : A) (run : ℕ → ℕ → A → Outcome A) (batch_limit : Option ℕ)
      (script : Script A) where
    pub settle-Settling :
        (s : Executor A) (index id : ℕ) (e : Bool) (v : A)
        → Settling s (settle_if_current undefined s index id e v)
          × ((settle_if_current undefined s index id e v).pending_queue ≡ s.pending_queue)
    unfolding settle_if_current cleanup
    settle-Settling s index id e v =
        elim (Bool-cases (s.pending index && is_id (s.task_id index) id)) [
          | inl c ↦ rw c (
            record {
              micros = refl;
              messages = refl;
              open_ = refl;
              is_in_micro = refl;
              working = omega arith;
              is_in_macro = elim (Bool-cases (s.working - 1 == 0)) [
                | inl z ↦ inr (rw z refl, ground arith)
                | inr z ↦ inl (rw z refl)
              ];
            },
            refl,
          )
          | inr c ↦ rw c (Settling-refl s, refl)
        ]

    dispatch-Settling :
        (s : Executor A) (index id : ℕ) (o : Outcome A)
        → Settling s (dispatch undefined run batch_limit s index id o)
    dispatch-Settling s index id (returned v) = (settle-Settling s index id false v).0
    dispatch-Settling s index id (threw v) = (settle-Settling s index id true v).0
    dispatch-Settling s index id (promised e v) = record {
      micros = refl;
      messages = refl;
      open_ = refl;
      is_in_micro = refl;
      working = omega arith;
      is_in_macro = inl refl;
    }

    round-Settling :
        (s : Executor A) (index : ℕ) → Settling s (round undefined run batch_limit s index).0
    unfolding round run_slot
    round-Settling s index = elim (Option-cases (s.task_id index)) [
      | inl t ↦ rw (t, round) (Settling-refl s)
      | inr (id, t) ↦ elim (Bool-cases (s.pending index)) [
        | inl p ↦
            rw (t, p, round)
              (dispatch-Settling s index id (run id (s.fn_by_index index) (s.args index)))
        | inr p ↦ rw (t, p, round) (Settling-refl s)
      ]
    ]

    drain-Settling :
        (s : Executor A) (queue : List ℕ) (processed : ℕ)
        → Settling s (drain undefined run batch_limit s queue processed)
    unfolding drain
    drain-Settling s [] processed = record {
      micros = refl;
      messages = refl;
      open_ = refl;
      is_in_micro = refl;
      working = omega arith;
      is_in_macro = inl refl;
    }
    drain-Settling s (index ∷ queue) processed =
        elim (Bool-cases (under_limit undefined run batch_limit processed)) [
          | inl e ↦ rw e (
              Settling-trans (round-Settling s index) (
                drain-Settling (round undefined run batch_limit s index).0 queue
                  (processed + (round undefined run batch_limit s index).1)))
          | inr e ↦ rw e (record {
            micros = refl;
            messages = refl;
            open_ = refl;
            is_in_micro = refl;
            working = omega arith;
            is_in_macro = inl refl;
          })
        ]

    -- Where no call is left, nothing is queued.
    empty_queue :
        {calls : List ℕ} {s : Executor A} {queue : List ℕ}
        → Sound undefined closed run batch_limit script calls s queue
        → s.working ≡ 0
        → queue ≡ []
    empty_queue {calls} {s} {queue} d h = elim (List-cases queue) [
      | inl e ↦ e
      | inr (x, rest, e) ↦
          let phase = d.phase.phase x in
          let here : occurs x queue ≡ 1 + occurs x rest = ap (occurs x) e ∙ ground arith in
          let live : s.pending x ≡ true = ground (arith, here, phase) in
          absurd (
            ground (
              arith,
              live,
              count-none s.cap s.pending (omega (arith, d.owned.counted)) x (d.owned.below x live),
            ))
    ]

    -- The loop leaves something only where something was queued.
    drain-left :
        (s : Executor A)
        → s.pending_queue ≡ []
        → (drain undefined run batch_limit s s.pending_queue 0).pending_queue ≡ []
    unfolding drain
    drain-left s e = rw e refl

    module _ {calls : List ℕ} {s : Executor A}
        (d : Sound undefined closed run batch_limit script calls s s.pending_queue)
        (w : Wake s) where
      -- A callback may settle a call, outside the loop.
      pub settled-Wake :
          {s' : Executor A}
          → Settling s s'
          → Sound undefined closed run batch_limit script calls s' s'.pending_queue
          → s'.pending_queue ≡ s.pending_queue
          → Wake s'
      settled-Wake {s'} f d' q = record {
        micro = λ h. ground (arith, w.micro, f.micros, f.is_in_micro);
        macro = λ o h. elim f.is_in_macro [
          | inl same ↦ ground (arith, w.macro (sym f.open_ ∙ o) (sym same ∙ h), f.messages)
          | inr (off, z) ↦ absurd (ground arith)
        ];
        wake = λ o. elim f.is_in_macro [
          | inl same ↦ elim (w.wake (sym f.open_ ∙ o)) [
            | inl e ↦ inl (q ∙ e)
            | inr (inl m) ↦ inr (inl (f.is_in_micro ∙ m))
            | inr (inr m) ↦ inr (inr (same ∙ m))
          ]
          | inr (off, z) ↦ inl (empty_queue d' z)
        ];
      }

      -- After the loop over `s0`, which is `s` with one wake-up less.
      module _ (s0 : Executor A)
          (d0 : Sound undefined closed run batch_limit script calls s0 s0.pending_queue)
          (queue : s0.pending_queue ≡ s.pending_queue) (still_open : s0.open_ ≡ s.open_)
          (in_macro : s0.is_in_macro ≡ s.is_in_macro) where
        abbrev pub drained : Executor A
        drained = drain undefined run batch_limit s0 s0.pending_queue 0

        pub settling : Settling s0 drained
        settling = drain-Settling s0 s0.pending_queue 0

        pub sound :
            Sound undefined closed run batch_limit script calls drained drained.pending_queue
        sound = drain-Sound undefined closed run batch_limit script s0 s0.pending_queue 0 d0

        pub busy : has_pending drained ≡ true → 0 < drained.working
        busy h = elim (Bool-cases (drained.working == 0)) [
          | inl z ↦
              absurd (ground (arith, none-has_pending drained (empty_queue sound (ground arith))))
          | inr z ↦ ground arith
        ]

        -- The wake-up that there was for what is left.
        pub left :
            has_pending drained ≡ true
            → drained.open_ ≡ true
            → (s.is_in_micro ≡ true) ⊎ (drained.is_in_macro ≡ true)
        left h o = elim (w.wake (sym still_open ∙ sym settling.open_ ∙ o)) [
          | inl none_queued ↦
              absurd
                (ground (arith, none-has_pending drained (drain-left s0 (queue ∙ none_queued))))
          | inr (inl m) ↦ inl m
          | inr (inr m) ↦ elim settling.is_in_macro [
            | inl same ↦ inr (same ∙ in_macro ∙ m)
            | inr (off, z) ↦ absurd (ground (arith, busy h))
          ]
        ]

    -- A slot that is pending is counted.
    pub pending-working :
        {calls : List ℕ} {s : Executor A} {queue : List ℕ} (index : ℕ)
        → Sound undefined closed run batch_limit script calls s queue
        → s.pending index ≡ true
        → 0 < s.working
    pending-working {s = s} index d live = elim (Bool-cases (s.working == 0)) [
      | inl z ↦ absurd (
          ground (
            arith,
            live,
            count-none s.cap s.pending (ground (arith, d.owned.counted)) index
                (d.owned.below index live),
          ))
      | inr z ↦ ground arith
    ]
