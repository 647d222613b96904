-- ===== src/Lock/Host.antt =====
-- src/memory/lock.ts: `resolveHost`, the receiver of the results on the host.
--
-- Both loops of the source differ in how they ask whether a task is still to be settled: that test is
-- the parameter `should_settle`. Here the codec does not throw.
pub mod Resolved
use knitting.Base.{
  ℕ, zero, suc, ◌+◌, ◌%◌, ◌<◌, ◌≤◌, Bool, true, false, ◌≡◌, refl, sym, ◌∙◌, ap, List, [], ◌∷◌, ◌++◌,
  none, some, arith, ◌==◌, if◌then◌else◌, Bool-cases, Option-cases, inl, inr,
}
use knitting.Base.Count.{count, count-le, count-none, count-toggle, count-of_none}
use knitting.Base.Lanes.{Word, xor, zeros, bit, ◌^w◌, is_zero, lead, is_zero-lane}
use knitting.Header.{Task, Settled, fill_from, settle}
use knitting.Lock.{Lock, store_worker}
use knitting.Lock.Receive.{pick, acknowledged}
use knitting.Lock.Drain.{pick-some, pick-none}

-- The host's tasks by id, and which callback each settled task has had.
pub record Host : Type 0 where
  pub lock : Lock
  pub queue : ℕ → Task
  pub settled : List (ℕ × Settled)
  pub last_resolved : ℕ

pub record Loop : Type 0 where
  pub host : Host
  pub diff : Word
  pub last : ℕ
  pub consumed : Word
  modified : ℕ

module _ (decode_task : Task → ℕ → Task) (should_settle : Task → Bool) where
  -- One lane: the waiting task is filled, decoded and settled.
  pub resolve_at : Host → ℕ → Host
  resolve_at h at =
      let header = h.lock.headers at in
      let task = decode_task (fill_from header) at in
      let (how, done) = settle task in
      if should_settle task
      then record h {
        queue = λ i. if i == header.id then done else h.queue i;
        settled = h.settled ++ (header.id, how) ∷ [];
      }
      else record h { queue = λ i. if i == header.id then task else h.queue i }

  -- Every eighth task, what was consumed is acknowledged.
  pub resolve_loop : ℕ → Host → Word → ℕ → Word → ℕ → Loop
  resolve_loop zero h diff last consumed modified = record {
    host = h;
    diff = diff;
    last = last;
    consumed = consumed;
    modified = modified;
  }
  resolve_loop (suc n) h diff last consumed modified = elim (lead (pick last diff)) [
    | none ↦ record { host = h; diff = diff; last = last; consumed = consumed; modified = modified }
    | some at ↦
        let h1 = resolve_at h at in
        let consumed1 = consumed ^w bit at in
        elim ((modified + 1) % 8 == 0) [
          | true ↦
              resolve_loop n (record h1 { lock = acknowledged h1.lock consumed1 }) (diff ^w bit at)
                at zeros (modified + 1)
          | false ↦ resolve_loop n h1 (diff ^w bit at) at consumed1 (modified + 1)
        ]
  ]

  pub resolve_host : Host → ℕ × Host
  resolve_host h =
      let diff = h.lock.host_bits ^w h.lock.last_worker in
      let d = resolve_loop 32 h diff h.last_resolved zeros 0 in
      if is_zero diff then (0, h) else (
        d.modified,
        record d.host { lock = acknowledged d.host.lock d.consumed; last_resolved = d.last },
      )

  pub resolve_at-lock : (h : Host) (at : ℕ) → (resolve_at h at).lock ≡ h.lock
  unfolding resolve_at
  resolve_at-lock h at =
      elim (Bool-cases (should_settle (decode_task (fill_from (h.lock.headers at)) at))) [
        | inl e ↦ rw e refl
        | inr e ↦ rw e refl
      ]

  acknowledged-lanes :
      (l : Lock) (c : Word) (i : ℕ)
      → i < 32
      → ((acknowledged l c).last_worker i ≡ xor (l.last_worker i) (c i))
        × ((acknowledged l c).host_bits ≡ l.host_bits)
  unfolding acknowledged store_worker
  acknowledged-lanes l c i lt = elim (Bool-cases (is_zero c)) [
    | inl z ↦ rw z (ground (arith, is_zero-lane c i z lt), refl)
    | inr z ↦ rw z (refl, refl)
  ]

  -- Enough rounds empty the snapshot, counting each lane; what is not acknowledged is in `consumed`.
  resolve_loop-Emptied :
      (n : ℕ) (h : Host) (diff : Word) (last : ℕ) (consumed : Word) (modified : ℕ)
      → count 32 diff ≤ n
      → let d = resolve_loop n h diff last consumed modified in
        (d.modified ≡ modified + count 32 diff)
        × (d.host.lock.host_bits ≡ h.lock.host_bits)
        × ((i : ℕ)
            → i < 32
            → xor (d.host.lock.last_worker i) (d.consumed i)
              ≡ xor (xor (h.lock.last_worker i) (consumed i)) (diff i))
  unfolding resolve_loop
  resolve_loop-Emptied zero h diff last consumed modified few =
      (omega arith, refl, λ i lt. ground (arith, count-none 32 diff (omega arith) i lt))
  resolve_loop-Emptied (suc n) h diff last consumed modified few =
      elim (Option-cases (lead (pick last diff))) [
        | inl e ↦
            rw (e, resolve_loop)
              (
                omega (arith, count-of_none 32 diff (pick-none last diff e)),
                refl,
                λ i lt. ground (arith, pick-none last diff e i lt),
              )
        | inr (at, e) ↦
            let (lt, s) = pick-some last diff {at = at} e in
            let toggle = count-toggle 32 at diff lt s in
            let h1 = resolve_at h at in
            let same = resolve_at-lock h at in
            let consumed1 = consumed ^w bit at in
            let h2 : Host = record h1 { lock = acknowledged h1.lock consumed1 } in
            elim (Bool-cases ((modified + 1) % 8 == 0)) [
              | inl b ↦
                  let (m, hb, total) =
                    resolve_loop-Emptied n h2 (diff ^w bit at) at zeros (modified + 1)
                      (omega (arith, toggle)) in
                  rw (e, b, resolve_loop)
                    (
                      omega (arith, m, toggle),
                      hb
                          ∙ (acknowledged-lanes h1.lock consumed1 0 (omega arith)).1
                          ∙ ap (λ x. x.host_bits) same,
                      λ i il.
                          total i il
                          ∙ ground (
                            arith,
                            (acknowledged-lanes h1.lock consumed1 i il).0,
                            ap (λ (x : Lock). x.last_worker i) same,
                          ),
                    )
              | inr b ↦
                  let (m, hb, total) =
                    resolve_loop-Emptied n h1 (diff ^w bit at) at consumed1 (modified + 1)
                      (omega (arith, toggle)) in
                  rw (e, b, resolve_loop)
                    (
                      omega (arith, m, toggle),
                      hb ∙ ap (λ x. x.host_bits) same,
                      λ i il. total i il ∙ ground (arith, ap (λ (x : Lock). x.last_worker i) same),
                    )
            ]
      ]

  -- A call returns the number of lanes that were pending, and leaves none pending.
  pub resolve_host-Emptied :
      (h : Host)
      → let (n, h') = resolve_host h in
        (n ≡ count 32 (h.lock.host_bits ^w h.lock.last_worker))
        × ((i : ℕ) → i < 32 → xor (h'.lock.host_bits i) (h'.lock.last_worker i) ≡ false)
        × (h'.lock.host_bits ≡ h.lock.host_bits)
  unfolding resolve_host
  resolve_host-Emptied h =
      let diff = h.lock.host_bits ^w h.lock.last_worker in
      let d = resolve_loop 32 h diff h.last_resolved zeros 0 in
      let (m, hb, total) =
        resolve_loop-Emptied 32 h diff h.last_resolved zeros 0 (count-le 32 diff) in
      elim (Bool-cases (is_zero diff)) [
        | inl z ↦ rw z (
          sym (count-of_none 32 diff (λ i lt. is_zero-lane diff i z lt)),
          λ i lt. is_zero-lane diff i z lt,
          refl,
        )
        | inr z ↦
            let kept = (acknowledged-lanes d.host.lock d.consumed 0 (omega arith)).1 ∙ hb in
            rw z (
              omega (arith, m),
              λ i lt. ground (
                arith,
                ap (λ f. f i) kept,
                (acknowledged-lanes d.host.lock d.consumed i lt).0,
                total i lt,
              ),
              kept,
            )
      ]
