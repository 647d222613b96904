-- ===== src/Inline/Phase.antt =====
-- src/runtime/inline-executor.ts: where each call stands. Its argument is awaited, or its slot is
-- queued once, or its result is awaited.
use knitting.Base.{
  ℕ, ◌+◌, ◌<◌, Bool, true, false, ◌≡◌, ◌≢◌, ◌⊎◌, refl, ap, sym, ◌∙◌, List, [], ◌∷◌, ◌++◌, Option,
  none, some, arith, ◌==◌, Bool-cases, Option-cases, inl, inr,
}
use knitting.Base.Maps.{put, is_id, one_if, occurs, occurs-append, put_ne}
use knitting.Base.Slots.{Owned, born}
use knitting.Inline.Runs.{Script, given, is_promise}

-- How many callbacks are to come for a slot.
abbrev pub waits : (ℕ → Option ℕ) → (ℕ → Option ℕ) → Option ℕ → ℕ → ℕ
waits on_arg on_result none i = 0
waits on_arg on_result (some id) i = one_if (is_id (on_arg id) i) + one_if (is_id (on_result id) i)

-- Only what waits for the slot's own call counts.
waits-same :
    {f g f' g' : ℕ → Option ℕ} (t : Option ℕ) (i : ℕ)
    → ((id : ℕ) → t ≡ some id → (f' id ≡ f id) × (g' id ≡ g id))
    → waits f' g' t i ≡ waits f g t i
waits-same none i h = refl
waits-same (some id) i h = let (a, b) = h id refl in rw (a, b) refl

-- A callback that goes takes nothing from a slot that its call does not hold.
clear-stale :
    (task_id f : ℕ → Option ℕ) (index id : ℕ)
    → f id ≡ some index
    → is_id (task_id index) id ≡ false
    → (i x : ℕ) → task_id i ≡ some x
    → is_id (put f id none x) i ≡ is_id (f x) i
clear-stale task_id f index id w t i x t' = elim (Bool-cases (x == id)) [
  | inl e ↦
      let at : x ≡ id = ground arith in
      let other : (index == i) ≡ false = elim (Bool-cases (index == i)) [
        | inl q ↦ let here : index ≡ i = ground arith in absurd (ground (arith, ap task_id here))
        | inr q ↦ q
      ] in
      rw (e, at, w) (sym other)
  | inr e ↦ rw e refl
]

module _ {A : Type 0} (script : Script A) where
  pub record Phase (pending : ℕ → Bool) (task_id : ℕ → Option ℕ) (counter : ℕ) (fn_by_index : ℕ → ℕ)
      (args : ℕ → A) (on_arg on_result : ℕ → Option ℕ) (queue : List ℕ) : Type 0 where
    pub phase : (i : ℕ) → occurs i queue + waits on_arg on_result (task_id i) i ≡ one_if (pending i)
    pub fns : (i id : ℕ) → task_id i ≡ some id → fn_by_index i ≡ script.fn id
    pub readied :
        (i id : ℕ)
        → task_id i ≡ some id
        → is_id (on_arg id) i ≡ false
        → given (script.arg id) ≡ some (args i)
    pub arg_born :
        (id i : ℕ) → on_arg id ≡ some i → (id < counter) × (is_promise (script.arg id) ≡ true)
    pub result_born : (id i : ℕ) → on_result id ≡ some i → id < counter

  module _ {cap : ℕ} {pending : ℕ → Bool} {task_id : ℕ → Option ℕ} {counter working : ℕ}
      {free : List ℕ} {fn_by_index : ℕ → ℕ} {args : ℕ → A} {on_arg on_result : ℕ → Option ℕ}
      {queue : List ℕ} (o : Owned cap pending task_id counter working free)
      (p : Phase pending task_id counter fn_by_index args on_arg on_result queue) where
    pub tick-Phase : Phase pending task_id (counter + 1) fn_by_index args on_arg on_result queue
    tick-Phase = record {
      phase = p.phase;
      fns = p.fns;
      readied = p.readied;
      arg_born = λ id i h. (omega (arith, p.arg_born id i h), (p.arg_born id i h).1);
      result_born = λ id i h. omega (arith, p.result_born id i h);
    }

    not_awaited : (i : ℕ) → waits on_arg on_result (some counter) i ≡ 0
    not_awaited i =
        let a : is_id (on_arg counter) i ≡ false = elim (Option-cases (on_arg counter)) [
          | inl e ↦ rw e refl
          | inr (j, e) ↦ absurd (omega (arith, (p.arg_born counter j e).0))
        ] in
        let b : is_id (on_result counter) i ≡ false = elim (Option-cases (on_result counter)) [
          | inl e ↦ rw e refl
          | inr (j, e) ↦ absurd (omega (arith, p.result_born counter j e))
        ] in
        rw (a, b) refl

    -- A slot that is free has nothing queued and no id.
    not_queued : (i : ℕ) → pending i ≡ false → occurs i queue ≡ 0
    not_queued i h = ground (arith, p.phase i)

    -- A call whose argument is at hand takes a slot and is queued.
    pub call_value-Phase :
        (index : ℕ) (a : A)
        → pending index ≡ false
        → given (script.arg counter) ≡ some a
        → Phase
            (put pending index true)
            (put task_id index (some counter))
            (counter + 1)
            (put fn_by_index index (script.fn counter))
            (put args index a)
            on_arg
            on_result
            (queue ++ index ∷ [])
    call_value-Phase index a idle g =
        let fits = λ (i : ℕ). occurs-append i queue (index ∷ []) in
        record {
          phase = λ i. elim (Bool-cases (i == index)) [
            | inl e ↦
                let at : i ≡ index = ground arith in
                let none_queued : occurs i queue ≡ 0 = rw at (not_queued index idle) in
                rw e (ground (arith, fits i, none_queued, not_awaited i))
            | inr e ↦ rw e (ground (arith, fits i, p.phase i))
          ];
          fns = λ i id t. elim (Bool-cases (i == index)) [
            | inl e ↦ rw e (let t' = rw e at t in ap script.fn (ground arith))
            | inr e ↦ rw e (p.fns i id (rw e at t))
          ];
          readied = λ i id t w. elim (Bool-cases (i == index)) [
            | inl e ↦
                let t' : some counter ≡ some id = rw e at t in
                let at : id ≡ counter = ground arith in rw (e, at) g
            | inr e ↦ rw e (p.readied i id (rw e at t) w)
          ];
          arg_born = λ id i h. (omega (arith, p.arg_born id i h), (p.arg_born id i h).1);
          result_born = λ id i h. omega (arith, p.result_born id i h);
        }

    pub call_promise-Phase :
        (index : ℕ) (a : A)
        → pending index ≡ false
        → is_promise (script.arg counter) ≡ true
        → Phase
            (put pending index true)
            (put task_id index (some counter))
            (counter + 1)
            (put fn_by_index index (script.fn counter))
            (put args index a)
            (put on_arg counter (some index))
            on_result
            queue
    call_promise-Phase index a idle g = record {
      phase = λ i. elim (Bool-cases (i == index)) [
        | inl e ↦
            let at : i ≡ index = ground arith in
            let none_queued : occurs i queue ≡ 0 = rw at (not_queued index idle) in
            let quiet = not_awaited i in rw e (ground (arith, none_queued, quiet))
        | inr e ↦ rw e (
            ap (λ n. occurs i queue + n)
              (waits-same (task_id i) i (λ id t.
                (put_ne on_arg counter id (some index) (omega (arith, (born o i id t).0)), refl)))
            ∙ p.phase i)
      ];
      fns = λ i id t. elim (Bool-cases (i == index)) [
        | inl e ↦ rw e (let t' = rw e at t in ap script.fn (ground arith))
        | inr e ↦ rw e (p.fns i id (rw e at t))
      ];
      readied = λ i id t w. elim (Bool-cases (i == index)) [
        | inl e ↦ let t' : some counter ≡ some id = rw e at t in absurd (ground arith)
        | inr e ↦
            let t' : task_id i ≡ some id = rw e at t in
            rw e (
              p.readied i id t' (
                ap (λ w. is_id w i)
                  (sym (put_ne on_arg counter id (some index) (omega (arith, (born o i id t').0))))
                ∙ w))
      ];
      arg_born = λ id i h. elim (Bool-cases (id == counter)) [
        | inl e ↦ let at : id ≡ counter = ground arith in rw at (omega arith, g)
        | inr e ↦ let (lt, q) = p.arg_born id i (rw e at h) in (omega arith, q)
      ];
      result_born = λ id i h. omega (arith, p.result_born id i h);
    }

    -- The argument of a call is there: its slot is queued.
    pub arg_resolved-Phase :
        (index id : ℕ) (a : A)
        → on_arg id ≡ some index
        → task_id index ≡ some id
        → given (script.arg id) ≡ some a
        → Phase pending task_id counter fn_by_index
            (put args index a)
            (put on_arg id none)
            on_result
            (queue ++ index ∷ [])
    arg_resolved-Phase index id a w t g =
        let live = (born o index id t).1 in
        let kept : (i x : ℕ) → (i == index) ≡ false → task_id i ≡ some x → x ≢ id =
          λ i x e t' q. ground (arith, o.distinct i index id (t' ∙ ap some q) t) in
        record {
          phase = λ i. elim (Bool-cases (i == index)) [
            | inl e ↦
                let at : i ≡ index = ground arith in
                let own : task_id i ≡ some id = ap task_id at ∙ t in
                let there : pending i ≡ true = ap pending at ∙ live in
                let before = p.phase i in
                let before' = rw (own, there, w) at before in
                rw (own, there) (ground (arith, occurs-append i queue (index ∷ [])))
            | inr e ↦
                let untouched =
                  waits-same {f' = put on_arg id none} {g' = on_result} (task_id i) i
                    (λ x t'. (put_ne on_arg id x none (kept i x e t'), refl)) in
                ground (arith, occurs-append i queue (index ∷ []), p.phase i, untouched)
          ];
          fns = p.fns;
          readied = λ i x t' q. elim (Bool-cases (i == index)) [
            | inl e ↦
                let at : i ≡ index = ground arith in
                let own : x ≡ id = ground (arith, ap task_id at) in rw (e, own) g
            | inr e ↦ rw e (
                p.readied i x t'
                  (ap (λ w. is_id w i) (sym (put_ne on_arg id x none (kept i x e t'))) ∙ q))
          ];
          arg_born = λ x i h. elim (Bool-cases (x == id)) [
            | inl e ↦ absurd (ground arith)
            | inr e ↦ p.arg_born x i (rw e at h)
          ];
          result_born = p.result_born;
        }

    -- A callback of a call that no longer has its slot is dropped.
    pub stale_arg-Phase :
        (index id : ℕ)
        → on_arg id ≡ some index
        → is_id (task_id index) id ≡ false
        → Phase pending task_id counter fn_by_index args (put on_arg id none) on_result queue
    stale_arg-Phase index id w t =
        let same = λ (i x : ℕ). clear-stale task_id on_arg index id w t i x in
        record {
          phase = λ i. elim (Option-cases (task_id i)) [
            | inl n ↦ let before = p.phase i in let before' = rw n at before in rw n before'
            | inr (x, t') ↦
                let before = p.phase i in
                let before' = rw t' at before in rw t' (ground (arith, same i x t', before'))
          ];
          fns = p.fns;
          readied = λ i x t' q. p.readied i x t' (sym (same i x t') ∙ q);
          arg_born = λ x i h. elim (Bool-cases (x == id)) [
            | inl e ↦ absurd (ground arith)
            | inr e ↦ p.arg_born x i (rw e at h)
          ];
          result_born = p.result_born;
        }

    pub stale_result-Phase :
        (index id : ℕ)
        → on_result id ≡ some index
        → is_id (task_id index) id ≡ false
        → Phase pending task_id counter fn_by_index args on_arg (put on_result id none) queue
    stale_result-Phase index id w t =
        let same = λ (i x : ℕ). clear-stale task_id on_result index id w t i x in
        record {
          phase = λ i. elim (Option-cases (task_id i)) [
            | inl n ↦ let before = p.phase i in let before' = rw n at before in rw n before'
            | inr (x, t') ↦
                let before = p.phase i in
                let before' = rw t' at before in rw t' (ground (arith, same i x t', before'))
          ];
          fns = p.fns;
          readied = p.readied;
          arg_born = p.arg_born;
          result_born = λ x i h. elim (Bool-cases (x == id)) [
            | inl e ↦ absurd (ground arith)
            | inr e ↦ p.result_born x i (rw e at h)
          ];
        }

    -- The slot's turn has come, and its result is a promise.
    pub promise-Phase :
        (index id : ℕ) (rest : List ℕ)
        → task_id index ≡ some id
        → queue ≡ index ∷ rest
        → Phase pending task_id counter fn_by_index args on_arg (put on_result id (some index)) rest
    promise-Phase index id rest t e =
        let live = (born o index id t).1 in
        let popped : (i : ℕ) → occurs i queue ≡ one_if (index == i) + occurs i rest =
          λ i. ap (occurs i) e in
        let kept : (i x : ℕ) → (i == index) ≡ false → task_id i ≡ some x → x ≢ id =
          λ i x e t' q. ground (arith, o.distinct i index id (t' ∙ ap some q) t) in
        record {
          phase = λ i. elim (Bool-cases (i == index)) [
            | inl e ↦
                let at : i ≡ index = ground arith in
                let own : task_id i ≡ some id = ap task_id at ∙ t in
                let there : pending i ≡ true = ap pending at ∙ live in
                let before = p.phase i in
                let before' = rw (own, there) at before in
                rw (own, there) (ground (arith, popped i))
            | inr e ↦
                let untouched =
                  waits-same {f' = on_arg} {g' = put on_result id (some index)} (task_id i) i
                    (λ x t'. (refl, put_ne on_result id x (some index) (kept i x e t'))) in
                ground (arith, popped i, p.phase i, untouched)
          ];
          fns = p.fns;
          readied = p.readied;
          arg_born = p.arg_born;
          result_born = λ x i h. elim (Bool-cases (x == id)) [
            | inl e ↦ let at : x ≡ id = ground arith in rw at (born o index id t).0
            | inr e ↦ p.result_born x i (rw e at h)
          ];
        }

    -- A slot is given up, with nothing queued for it; callbacks of its call may be gone.
    pub cleanup-Phase :
        (index id : ℕ) (undefined : A) (on_arg' on_result' : ℕ → Option ℕ) (rest : List ℕ)
        → task_id index ≡ some id
        → ((i : ℕ) → i ≢ index → occurs i rest ≡ occurs i queue)
        → occurs index rest ≡ 0
        → ((x : ℕ) → x ≢ id → on_arg' x ≡ on_arg x)
        → ((x : ℕ) → x ≢ id → on_result' x ≡ on_result x)
        → (on_arg' id ≡ on_arg id) ⊎ (on_arg' id ≡ none)
        → (on_result' id ≡ on_result id) ⊎ (on_result' id ≡ none)
        → Phase
            (put pending index false)
            (put task_id index none)
            counter
            (put fn_by_index index 0)
            (put args index undefined)
            on_arg'
            on_result'
            rest
    cleanup-Phase index id undefined on_arg' on_result' rest t others absent oa or_ ia ir =
        let kept : (i x : ℕ) → (i == index) ≡ false → task_id i ≡ some x → x ≢ id =
          λ i x e t' q. ground (arith, o.distinct i index id (t' ∙ ap some q) t) in
        record {
          phase = λ i. elim (Bool-cases (i == index)) [
            | inl e ↦
                let at : i ≡ index = ground arith in
                rw e (ap (λ n. n + 0) (ap (λ i. occurs i rest) at ∙ absent))
            | inr e ↦ rw e (
                ap (λ n. n + waits on_arg' on_result' (task_id i) i) (others i (ground arith))
                ∙ ap (λ n. occurs i queue + n)
                    (waits-same (task_id i) i
                      (λ x t'. (oa x (kept i x e t'), or_ x (kept i x e t'))))
                ∙ p.phase i)
          ];
          fns = λ i x t'. elim (Bool-cases (i == index)) [
            | inl e ↦ absurd (ground arith)
            | inr e ↦ rw e (p.fns i x (rw e at t'))
          ];
          readied = λ i x t' q. elim (Bool-cases (i == index)) [
            | inl e ↦ absurd (ground arith)
            | inr e ↦
                let own : task_id i ≡ some x = rw e at t' in
                rw e (p.readied i x own (ap (λ w. is_id w i) (sym (oa x (kept i x e own))) ∙ q))
          ];
          arg_born = λ x i h. elim (Bool-cases (x == id)) [
            | inl e ↦
                let at : x ≡ id = ground arith in
                elim ia [
                  | inl same ↦ p.arg_born x i (ap on_arg at ∙ sym same ∙ ap on_arg' (sym at) ∙ h)
                  | inr gone ↦ absurd (ground (arith, ap on_arg' at))
                ]
            | inr e ↦ p.arg_born x i (sym (oa x (ground arith)) ∙ h)
          ];
          result_born = λ x i h. elim (Bool-cases (x == id)) [
            | inl e ↦
                let at : x ≡ id = ground arith in
                elim ir [
                  | inl same ↦
                      p.result_born x i (ap on_result at ∙ sym same ∙ ap on_result' (sym at) ∙ h)
                  | inr gone ↦ absurd (ground (arith, ap on_result' at))
                ]
            | inr e ↦ p.result_born x i (sym (or_ x (ground arith)) ∙ h)
          ];
        }
