-- ===== src/Inline/Calls.antt =====
-- src/runtime/inline-executor.ts: calls, the callbacks on promises, and the shutdown.
use knitting.Base.{
  ℕ, zero, suc, ◌+◌, ◌-◌, ◌*◌, ◌<◌, ◌≤◌, true, false, ◌||◌, ◌≡◌, refl, ap, sym, subst, List, [],
  ◌∷◌, ◌++◌, Option, some, arith, ◌==◌, Bool-cases, List-cases, inl, inr,
}
use knitting.Base.Count.{count}
use knitting.Base.Maps.{put, is_id, one_if, occurs, count-grow, range_from, occurs-range_from}
use knitting.Inline.{Outcome, Executor, admit, alloc_index, call_value, call_promise, enqueue, send}
use knitting.Base.Slots.{Owned, holding, holding-put, admit-Owned, grow-Owned, not_pending}
use knitting.Inline.Runs.{Arg, value, resolves, rejects, Script, given, is_promise, call_with, call}
use knitting.Inline.Phase.{call_value-Phase, call_promise-Phase}
use knitting.Inline.Sound.{ids, Sound}

-- What `admit` does to the slots, when `cap` and `free` are what `allocIndex` leaves.
pub record Admitted {A : Type 0} (s : Executor A) (cap : ℕ) (free : List ℕ) (index : ℕ)
    : Type 0 where
  pub owned :
      Owned cap
        (put s.pending index true)
        (put s.task_id index (some s.counter))
        (s.counter + 1)
        (s.working + 1)
        free
  pub idle : s.pending index ≡ false
  pub inside : index < cap
  pub same : (x : ℕ) → holding cap s.task_id x ≡ holding s.cap s.task_id x

range_from-cons : (a n : ℕ) → 0 < n → range_from a n ≡ a ∷ range_from (a + 1) (n - 1)
range_from-cons a zero h = absurd (omega arith)
range_from-cons a (suc n) h =
    let e : suc n - 1 ≡ n = omega arith in ap (λ n. a ∷ range_from (a + 1) n) (sym e)

module _ {A : Type 0} where
  popped-Admitted :
      (s : Executor A) (index : ℕ) (rest : List ℕ)
      → s.free_stack ≡ index ∷ rest
      → Owned s.cap s.pending s.task_id s.counter s.working s.free_stack
      → Admitted s s.cap rest index
  popped-Admitted s index rest e o =
      let popped = ap (occurs index) e in
      let own : index == index ≡ true = ground arith in
      record {
        owned = admit-Owned o index rest e;
        idle = ground (arith, o.stack index);
        inside = o.stack_below index (ground arith);
        same = λ x. refl;
      }

  grown-Admitted :
      (s : Executor A)
      → s.free_stack ≡ []
      → Owned s.cap s.pending s.task_id s.counter s.working s.free_stack
      → 0 < s.cap
      → Admitted s (s.cap * 2) (range_from (s.cap + 1) (s.cap - 1)) s.cap
  grown-Admitted s e o room = record {
    owned =
        admit-Owned
          (grow-Owned o (s.cap * 2) (range_from s.cap s.cap) (omega arith)
            (λ i. elim (occurs-range_from i s.cap s.cap) [
              | inl (one, low, high) ↦ inl (one, low, omega arith)
              | inr (zero_, inl lt) ↦ inr (zero_, inl lt)
              | inr (zero_, inr le) ↦ inr (zero_, inr (omega arith))
            ])
            e)
          s.cap (range_from (s.cap + 1) (s.cap - 1)) (range_from-cons s.cap s.cap room);
    idle = not_pending o s.cap (omega arith);
    inside = omega arith;
    same = λ x.
        count-grow (s.cap * 2) s.cap (λ i. is_id (s.task_id i) x) (omega arith)
          (λ i le. ap (λ t. is_id t x) (o.dead i (not_pending o i le)));
  }

  module _ (undefined closed : A) (run : ℕ → ℕ → A → Outcome A) (batch_limit : Option ℕ)
      (script : Script A) where
    send-Sound :
        {calls : List ℕ} {s : Executor A} {queue : List ℕ}
        → Sound undefined closed run batch_limit script calls s queue
        → Sound undefined closed run batch_limit script calls (send s) queue
    unfolding send
    send-Sound {s = s} d = elim (Bool-cases ((s.working == 0) || s.is_in_macro || s.is_in_micro)) [
      | inl e ↦ rw e d
      | inr e ↦ rw e (record {
        owned = d.owned;
        phase = d.phase;
        accounted = d.accounted;
        answered = d.answered;
        room = d.room;
      })
    ]

    send-queue : (s : Executor A) → (send s).pending_queue ≡ s.pending_queue
    unfolding send
    send-queue s = ground arith

    pub enqueued-Sound :
        {calls : List ℕ} {s : Executor A} {queue : List ℕ}
        → Sound undefined closed run batch_limit script calls s queue
        → let s' = send (record s { pending_queue = queue }) in
          Sound undefined closed run batch_limit script calls s' s'.pending_queue
    enqueued-Sound {calls} {s} {queue} d =
        subst
          (Sound undefined closed run batch_limit script calls
            (send (record s { pending_queue = queue })))
          (sym (send-queue (record s { pending_queue = queue })))
          (send-Sound (record {
            owned = d.owned;
            phase = d.phase;
            accounted = d.accounted;
            answered = d.answered;
            room = d.room;
          }))

    -- The state that `admit` leaves.
    abbrev admitted : Executor A → ℕ → List ℕ → ℕ → ℕ → A → Executor A
    admitted s cap free index fn arg = record s {
      cap = cap;
      free_stack = free;
      counter = s.counter + 1;
      task_id = put s.task_id index (some s.counter);
      args = put s.args index arg;
      fn_by_index = put s.fn_by_index index fn;
      pending = put s.pending index true;
      working = s.working + 1;
    }

    Admitted-accounted :
        {calls : List ℕ} {s : Executor A} {queue : List ℕ} {cap index : ℕ} {free : List ℕ}
        → Sound undefined closed run batch_limit script calls s queue
        → Admitted s cap free index
        → (x : ℕ)
        → (occurs x (s.counter ∷ calls)
            ≡ occurs x (ids s.settled) + holding cap (put s.task_id index (some s.counter)) x)
          × (occurs x (s.counter ∷ calls) ≤ 1)
          × (0 < occurs x (s.counter ∷ calls) → x < s.counter + 1)
    Admitted-accounted {s = s} {cap = cap} {index = index} d m x =
        let (count, once, old) = d.accounted x in
        (
          omega (
            arith,
            count,
            m.same x,
            holding-put cap s.task_id index (some s.counter) x m.inside,
            ap (λ o. one_if (is_id o x)) (d.owned.dead index m.idle),
          ),
          ground (arith, old),
          λ h. ground (arith, old),
        )

    value-Sound :
        {calls : List ℕ} {s : Executor A} {queue : List ℕ} {cap index : ℕ} {free : List ℕ} (a : A)
        → Sound undefined closed run batch_limit script calls s queue
        → Admitted s cap free index
        → given (script.arg s.counter) ≡ some a
        → Sound undefined closed run batch_limit script
            (s.counter ∷ calls)
            (admitted s cap free index (script.fn s.counter) a)
            (queue ++ index ∷ [])
    value-Sound {index = index} a d m g = record {
      owned = m.owned;
      phase = call_value-Phase script d.owned d.phase index a m.idle g;
      accounted = Admitted-accounted d m;
      answered = d.answered;
      room = omega (arith, m.inside);
    }

    promise-Sound :
        {calls : List ℕ} {s : Executor A} {queue : List ℕ} {cap index : ℕ} {free : List ℕ} (p : A)
        → Sound undefined closed run batch_limit script calls s queue
        → Admitted s cap free index
        → is_promise (script.arg s.counter) ≡ true
        → let s' = admitted s cap free index (script.fn s.counter) p in
          Sound undefined closed run batch_limit script
            (s.counter ∷ calls)
            (record s' { on_arg = put s.on_arg s.counter (some index) })
            queue
    promise-Sound {index = index} p d m g = record {
      owned = m.owned;
      phase = call_promise-Phase script d.owned d.phase index p m.idle g;
      accounted = Admitted-accounted d m;
      answered = d.answered;
      room = omega (arith, m.inside);
    }

    call_with-Sound :
        {calls : List ℕ} (s : Executor A) (r : Arg A)
        → Sound undefined closed run batch_limit script calls s s.pending_queue
        → script.arg s.counter ≡ r
        → let s' = call_with script s r in
          Sound undefined closed run batch_limit script (s.counter ∷ calls) s' s'.pending_queue
    unfolding call_value call_promise admit alloc_index enqueue
    call_with-Sound s (value a) d e = elim (List-cases s.free_stack) [
      | inl f ↦
          rw f (enqueued-Sound (value-Sound a d (grown-Admitted s f d.owned d.room) (ap given e)))
      | inr (i, rest, f) ↦
          rw f (enqueued-Sound (value-Sound a d (popped-Admitted s i rest f d.owned) (ap given e)))
    ]
    call_with-Sound s (resolves p a) d e = elim (List-cases s.free_stack) [
      | inl f ↦ rw f (promise-Sound p d (grown-Admitted s f d.owned d.room) (ap is_promise e))
      | inr (i, rest, f) ↦
          rw f (promise-Sound p d (popped-Admitted s i rest f d.owned) (ap is_promise e))
    ]
    call_with-Sound s (rejects p a) d e = elim (List-cases s.free_stack) [
      | inl f ↦ rw f (promise-Sound p d (grown-Admitted s f d.owned d.room) (ap is_promise e))
      | inr (i, rest, f) ↦
          rw f (promise-Sound p d (popped-Admitted s i rest f d.owned) (ap is_promise e))
    ]

    pub call-Sound :
        {calls : List ℕ} {s : Executor A}
        → Sound undefined closed run batch_limit script calls s s.pending_queue
        → Sound undefined closed run batch_limit script
            (s.counter ∷ calls)
            (call script s)
            (call script s).pending_queue
    call-Sound {s = s} d = call_with-Sound s (script.arg s.counter) d refl
