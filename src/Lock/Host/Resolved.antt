-- ===== src/Lock/Host/Resolved.antt =====
-- src/memory/lock.ts: what `resolveHost` does with the lanes that are pending.
use knitting.Base.{
  ℕ, zero, suc, ◌+◌, ◌%◌, ◌<◌, ◌≤◌, Bool, true, false, ◌≡◌, refl, sym, ◌∙◌, ap, List, [], ◌∷◌, ◌++◌,
  arith, ◌==◌, if◌then◌else◌, Bool-cases, Option-cases, inl, inr,
}
use mathlib.Core.List.{append_assoc, append-nil}
use knitting.Base.Count.{count, count-le, count-none, count-toggle}
use knitting.Base.Lanes.{Word, xor, zeros, bit, ◌^w◌, is_zero, lead, is_zero-lane}
use knitting.Base.Maps.{occurs, one_if}
use knitting.Header.{Task, Settled, fill_from, settle}
use knitting.Lock.{Lock, store_worker}
use knitting.Lock.Receive.{pick, acknowledged}
use knitting.Lock.Drain.{pick-some, pick-none}
use knitting.Lock.Host.{
  Host, resolve_at, resolve_loop, resolve_host, resolve_at-lock, resolve_host-Emptied,
}

acknowledged-headers : (l : Lock) (c : Word) → (acknowledged l c).headers ≡ l.headers
unfolding acknowledged store_worker
acknowledged-headers l c = elim (Bool-cases (is_zero c)) [ inl z ↦ rw z refl | inr z ↦ rw z refl ]

module _ (decode_task : Task → ℕ → Task) (should_settle : Task → Bool) where
  -- The task that the header of a lane is decoded to.
  abbrev delivered : (ℕ → Task) → ℕ → Task
  delivered headers at = decode_task (fill_from (headers at)) at

  -- The callbacks that lanes in this order are to have.
  abbrev answers : (ℕ → Task) → List ℕ → List (ℕ × Settled)
  answers headers [] = []
  answers headers (at ∷ rest) =
      if should_settle (delivered headers at)
      then ((headers at).id, (settle (delivered headers at)).0) ∷ answers headers rest
      else answers headers rest

  -- The host's tasks after it, each as it was settled or decoded last.
  abbrev filled : (ℕ → Task) → (ℕ → Task) → List ℕ → ℕ → Task
  filled headers queue [] = queue
  filled headers queue (at ∷ rest) =
      let task = delivered headers at in
      filled headers
        (λ i.
          if i == (headers at).id
          then (if should_settle task then (settle task).1 else task)
          else queue i)
        rest

  -- The lanes of `diff` were taken in `order`, each once.
  pub record Taken (h : Host) (diff : Word) (h' : Host) : Type 0 where
    order : List ℕ
    each : (i : ℕ) → i < 32 → occurs i order ≡ one_if (diff i)
    pub settled : h'.settled ≡ h.settled ++ answers h.lock.headers order
    pub queue : h'.queue ≡ filled h.lock.headers h.queue order

  one_lane :
      (h : Host) (at : ℕ) (diff : Word) (h' : Host)
      → diff at ≡ true
      → at < 32
      → (h1 : Host) → h1.lock.headers ≡ h.lock.headers
      → h1.settled ≡ (resolve_at decode_task should_settle h at).settled
      → h1.queue ≡ (resolve_at decode_task should_settle h at).queue
      → Taken h1 (diff ^w bit at) h'
      → Taken h diff h'
  unfolding resolve_at
  one_lane h at diff h' s lt h1 hs st q t =
      let task = delivered h.lock.headers at in
      record {
        order = at ∷ t.order;
        each = λ i il. elim (Bool-cases (at == i)) [
          | inl e ↦
              let same : diff at ≡ diff i = ap diff (ground arith) in
              ground (arith, t.each i il, same)
          | inr e ↦ ground (arith, t.each i il)
        ];
        settled =
            t.settled
            ∙ ap (λ x. h1.settled ++ answers x t.order) hs
            ∙ ap (λ x. x ++ answers h.lock.headers t.order) st
            ∙ elim (Bool-cases (should_settle task)) [
              | inl e ↦ rw e (append_assoc h.settled (_ ∷ []) _)
              | inr e ↦ rw e refl
            ];
        queue =
            t.queue
            ∙ ap (λ x. filled x h1.queue t.order) hs
            ∙ ap (λ x. filled h.lock.headers x t.order) q
            ∙ elim (Bool-cases (should_settle task)) [ inl e ↦ rw e refl | inr e ↦ rw e refl ];
      }

  resolve_loop-Taken :
      (n : ℕ) (h : Host) (diff : Word) (last : ℕ) (consumed : Word) (modified : ℕ)
      → count 32 diff ≤ n
      → Taken h diff (resolve_loop decode_task should_settle n h diff last consumed modified).host
  unfolding resolve_loop
  resolve_loop-Taken zero h diff last consumed modified few = record {
    order = [];
    each = λ i lt. ground (arith, count-none 32 diff (omega arith) i lt);
    settled = sym (append-nil h.settled);
    queue = refl;
  }
  resolve_loop-Taken (suc n) h diff last consumed modified few =
      elim (Option-cases (lead (pick last diff))) [
        | inl e ↦
            rw (e, resolve_loop)
              (record {
                order = [];
                each = λ i lt. ground (arith, pick-none last diff e i lt);
                settled = sym (append-nil h.settled);
                queue = refl;
              })
        | inr (at, e) ↦
            let (lt, s) = pick-some last diff {at = at} e in
            let toggle = count-toggle 32 at diff lt s in
            let h1 = resolve_at decode_task should_settle h at in
            let same = ap Lock.headers (resolve_at-lock decode_task should_settle h at) in
            let consumed1 = consumed ^w bit at in
            let h2 : Host = record h1 { lock = acknowledged h1.lock consumed1 } in
            elim (Bool-cases ((modified + 1) % 8 == 0)) [
              | inl b ↦
                  rw (e, b, resolve_loop)
                    (one_lane h at diff _ s lt h2 (acknowledged-headers h1.lock consumed1 ∙ same)
                      refl refl
                      (resolve_loop-Taken n h2 (diff ^w bit at) at zeros (modified + 1)
                        (omega (arith, toggle))))
              | inr b ↦
                  rw (e, b, resolve_loop)
                    (one_lane h at diff _ s lt h1 same refl refl (
                      resolve_loop-Taken n h1 (diff ^w bit at) at consumed1 (modified + 1)
                        (omega (arith, toggle))))
            ]
      ]

  -- A call takes the lanes that are pending in some order, each once: in that order their headers
  -- are decoded, the tasks with these ids are filled, and those that wait are settled. It answers
  -- how many lanes there were, and leaves none pending. The codec does not throw.
  pub resolve_host-Taken :
      (h : Host)
      → let (n, h') = resolve_host decode_task should_settle h in
        Taken h (h.lock.host_bits ^w h.lock.last_worker) h'
        × (n ≡ count 32 (h.lock.host_bits ^w h.lock.last_worker))
        × ((i : ℕ) → i < 32 → xor (h'.lock.host_bits i) (h'.lock.last_worker i) ≡ false)
        × (h'.lock.host_bits ≡ h.lock.host_bits)
  unfolding resolve_host
  resolve_host-Taken h =
      let diff = h.lock.host_bits ^w h.lock.last_worker in
      let t = resolve_loop-Taken 32 h diff h.last_resolved zeros 0 (count-le 32 diff) in
      let (n, none_left, kept) = resolve_host-Emptied decode_task should_settle h in
      let taken : Taken h diff (resolve_host decode_task should_settle h).1 =
        elim (Bool-cases (is_zero diff)) [
          | inl z ↦ rw z (record {
            order = [];
            each = λ i lt. ground (arith, is_zero-lane diff i z lt);
            settled = sym (append-nil h.settled);
            queue = refl;
          })
          | inr z ↦
              rw z (record { order = t.order; each = t.each; settled = t.settled; queue = t.queue })
        ] in
      (taken, n, none_left, kept)
