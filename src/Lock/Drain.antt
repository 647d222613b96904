-- ===== src/Lock/Drain.antt =====
-- src/memory/lock.ts: the loop of `decode` over its snapshot.
use knitting.Base.{
  ℕ, zero, suc, ◌<◌, ◌≤◌, true, false, ◌≡◌, refl, ◌∙◌, Option, none, some, arith, ◌==◌, Bool-cases,
  Option-cases, inl, inr,
}
use knitting.Base.Count.{count, count-none, count-toggle}
use knitting.Base.Lanes.{Word, xor, bit, ◌&◌, ◌^w◌, is_zero, lead, lead-none, not-is_zero}
use knitting.Header.{Task}
use knitting.Lock.{Lock}
use knitting.Lock.Receive.{lower, pick, decode_at, drain}
use knitting.Lock.Lanes.{lead_lem}

-- A lane that is picked is one of the snapshot.
pub pick-some :
    (last : ℕ) (diff : Word) {at : ℕ}
    → lead (pick last diff) ≡ some at
    → (at < 32) × (diff at ≡ true)
unfolding pick
pick-some last diff {at} h = elim (Bool-cases (last == 32)) [
  | inl e ↦ lead_lem diff {i = at} (rw e at h)
  | inr e ↦ elim (Bool-cases (is_zero (diff & lower last))) [
    | inl z ↦ lead_lem diff {i = at} (rw (e, z) at h)
    | inr z ↦
        let r = lead_lem (diff & lower last) {i = at} (rw (e, z) at h) in (r.0, ground (arith, r.1))
  ]
]

-- No lane is picked only where none is left.
pub pick-none :
    (last : ℕ) (diff : Word) → lead (pick last diff) ≡ none → (i : ℕ) → i < 32 → diff i ≡ false
unfolding pick
pick-none last diff h = elim (Bool-cases (last == 32)) [
  | inl e ↦ lead-none diff (rw e at h)
  | inr e ↦ elim (Bool-cases (is_zero (diff & lower last))) [
    | inl z ↦ lead-none diff (rw (e, z) at h)
    | inr z ↦
        let (i, lt, s) = not-is_zero (diff & lower last) z in
        absurd (ground (arith, lead-none (diff & lower last) (rw (e, z) at h) i lt))
  ]
]

module _ (decode_task : Task → ℕ → Option Task) where
  -- With a round for each lane, the loop ends with none left, unless decoding threw.
  pub drain-empties :
      (n : ℕ) (l : Lock) (diff : Word) (last : ℕ) (consumed : Word)
      → count 32 diff ≤ n
      → let d = drain decode_task n l diff last consumed in
        d.threw ≡ false → (i : ℕ) → i < 32 → d.diff i ≡ false
  unfolding drain
  drain-empties zero l diff last consumed few = λ t. count-none 32 diff (omega arith)
  drain-empties (suc n) l diff last consumed few = elim (Option-cases (lead (pick last diff))) [
    | inl e ↦ rw (e, drain) (λ t. pick-none last diff e)
    | inr (at, e) ↦
        let (lt, s) = pick-some last diff {at = at} e in
        elim (Option-cases (decode_at decode_task l at)) [
          | inl f ↦ rw (e, f, drain) (λ t. absurd (cc))
          | inr (l', f) ↦
              rw (e, f, drain)
                (drain-empties n l' (diff ^w bit at) at (consumed ^w bit at)
                  (omega (arith, count-toggle 32 at diff lt s)))
        ]
  ]

  -- What leaves the snapshot is consumed, and nothing else is.
  pub drain-consumed :
      (n : ℕ) (l : Lock) (diff : Word) (last : ℕ) (consumed : Word) (i : ℕ)
      → let d = drain decode_task n l diff last consumed in
        xor (d.diff i) (d.consumed i) ≡ xor (diff i) (consumed i)
  unfolding drain
  drain-consumed zero l diff last consumed i = refl
  drain-consumed (suc n) l diff last consumed i = elim (Option-cases (lead (pick last diff))) [
    | inl e ↦ rw (e, drain) refl
    | inr (at, e) ↦ elim (Option-cases (decode_at decode_task l at)) [
      | inl f ↦ rw (e, f, drain) refl
      | inr (l', f) ↦
          let rest = drain-consumed n l' (diff ^w bit at) at (consumed ^w bit at) i in
          rw (e, f, drain) (rest ∙ ground arith)
    ]
  ]
