-- ===== src/Inline/Delivery.antt =====
-- src/runtime/inline-executor.ts: every call is answered once, with its own answer, and none is stuck.
use knitting.Base.{
  ℕ, ◌+◌, ◌<◌, ◌≤◌, Bool, true, false, ◌≡◌, ◌⊎◌, sym, List, [], ◌∷◌, Option, arith, inl, inr,
}
use knitting.Base.Maps.{occurs}
use knitting.Inline.{Outcome, Executor}
use knitting.Inline.Runs.{Script, answer, Reach}
use knitting.Base.Slots.{holding}
use knitting.Inline.Phase.{waits}
use knitting.Inline.Sound.{ids, Answered}
use knitting.Inline.Steps.{Reach-Good}

-- Is the call `id` settled with the value `v`, as an error or not?
abbrev Settles : {A : Type 0} → List (ℕ × Bool × A) → ℕ → Bool → A → Type 0
Settles [] id e v = ⊥
Settles (entry ∷ rest) id e v = (entry ≡ (id, e, v)) ⊎ Settles rest id e v

module _ {A : Type 0} (undefined closed : A) (run : ℕ → ℕ → A → Outcome A) (batch_limit : Option ℕ)
    (script : Script A) where
  -- In every run, also after a shutdown, a call that was made has been settled once and holds no
  -- slot, or has not been settled and holds one slot; nothing else is settled or holds a slot.
  pub answered_once :
      {calls : List ℕ} {s : Executor A}
      → Reach undefined closed run batch_limit script calls s
      → (x : ℕ)
      → (occurs x (ids s.settled) + holding s.cap s.task_id x ≡ occurs x calls)
        × (occurs x calls ≤ 1)
  answered_once r x =
      let (d, w) = Reach-Good undefined closed run batch_limit script r in
      let (count, once, old) = d.accounted x in (sym count, once)

  right :
      {open_ : Bool} (settled : List (ℕ × Bool × A)) (id : ℕ) (e : Bool) (v : A)
      → Answered undefined closed run batch_limit script open_ settled
      → Settles settled id e v
      → (answer run script id ≡ (e, v)) ⊎ ((open_ ≡ false) × (e ≡ true) × (v ≡ closed))
  right [] id e v h m = elim m [ ]
  right ((id', e', v') ∷ rest) id e v (h, hs) (inl m) = ground (arith, h, m)
  right ((id', e', v') ∷ rest) id e v (h, hs) (inr m) = right rest id e v hs m

  -- In every run, what a call is settled with is what its own function gives on its own argument:
  -- the value, the error, or what the promise comes to; only a shutdown may reject it instead.
  pub right_answer :
      {calls : List ℕ} {s : Executor A}
      → Reach undefined closed run batch_limit script calls s
      → (id : ℕ) (e : Bool) (v : A) → Settles s.settled id e v
      → (answer run script id ≡ (e, v)) ⊎ ((s.open_ ≡ false) × (e ≡ true) × (v ≡ closed))
  right_answer {s = s} r id e v m =
      let (d, w) = Reach-Good undefined closed run batch_limit script r in
      right s.settled id e v d.answered m

  -- In every run before a shutdown, while a slot is queued, a microtask or a message that will take
  -- it is on its way.
  pub no_lost_wakeup :
      {calls : List ℕ} {s : Executor A}
      → Reach undefined closed run batch_limit script calls s
      → s.open_ ≡ true
      → (s.pending_queue ≡ [])
        ⊎ ((s.is_in_micro ≡ true) × (0 < s.micros))
        ⊎ ((s.is_in_macro ≡ true) × (0 < s.messages))
  no_lost_wakeup r o =
      let (d, w) = Reach-Good undefined closed run batch_limit script r in
      elim (w.wake o) [
        | inl e ↦ inl e
        | inr (inl m) ↦ inr (inl (m, w.micro m))
        | inr (inr m) ↦ inr (inr (m, w.macro o m))
      ]

  -- In every run, a slot that a call holds is queued once, or one callback will come for it: on the
  -- call's argument or on its result.
  pub no_stuck_call :
      {calls : List ℕ} {s : Executor A}
      → Reach undefined closed run batch_limit script calls s
      → (index : ℕ) → s.pending index ≡ true
      → occurs index s.pending_queue + waits s.on_arg s.on_result (s.task_id index) index ≡ 1
  no_stuck_call r index live =
      let (d, w) = Reach-Good undefined closed run batch_limit script r in
      ground (arith, d.phase.phase index)
