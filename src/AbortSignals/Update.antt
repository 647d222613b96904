-- ===== src/AbortSignals/Update.antt =====
-- src/shared/abortSignal.ts: a signal as a lane of a word.
use knitting.Base.{
  ℕ, ◌+◌, ◌*◌, ◌/◌, ◌%◌, ◌<◌, not, ◌&&◌, ◌||◌, ◌≡◌, ap, arith, ◌==◌, Bool-cases, inl, inr,
}
use knitting.Base.Lanes.{Word, not_w, ◌&◌, ◌∣w◌}
use knitting.AbortSignals.{update}

same_id :
    (id word lane : ℕ)
    → lane < 32
    → (id / 32 == word) && (id % 32 == lane) ≡ (id == word * 32 + lane)
same_id id word lane lt = ground arith

-- Setting or clearing one lane of one word is doing it to one signal.
pub update_or :
    (f : ℕ → Word) (word lane : ℕ) (m : Word) (j : ℕ)
    → lane < 32
    → ((i : ℕ) → i < 32 → m i ≡ (i == lane))
    → update f word (f word ∣w m) (j / 32) (j % 32) ≡ f (j / 32) (j % 32) || (j == word * 32 + lane)
update_or f word lane m j lt bits =
    let at = bits (j % 32) (omega arith) in
    let id = same_id j word lane lt in
    elim (Bool-cases (j / 32 == word)) [
      | inl e ↦
          let same : f word (j % 32) ≡ f (j / 32) (j % 32) =
            ap (λ w. f w (j % 32)) (ground arith) in
          rw (e, same, at) (ground (arith, id))
      | inr e ↦ rw e (ground (arith, id))
    ]

pub update_clear :
    (f : ℕ → Word) (word lane : ℕ) (m : Word) (j : ℕ)
    → lane < 32
    → ((i : ℕ) → i < 32 → m i ≡ (i == lane))
    → update f word (f word & not_w m) (j / 32) (j % 32)
      ≡ f (j / 32) (j % 32) && not (j == word * 32 + lane)
update_clear f word lane m j lt bits =
    let at = bits (j % 32) (omega arith) in
    let id = same_id j word lane lt in
    elim (Bool-cases (j / 32 == word)) [
      | inl e ↦
          let same : f word (j % 32) ≡ f (j / 32) (j % 32) =
            ap (λ w. f w (j % 32)) (ground arith) in
          rw (e, same, at) (ground (arith, id))
      | inr e ↦ rw e (ground (arith, id))
    ]
