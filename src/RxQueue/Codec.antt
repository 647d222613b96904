-- ===== src/RxQueue/Codec.antt =====
-- src/worker/rx-queue.ts: a result that was not sent, and what is left in its task.
use knitting.Base.{
  ℕ, Bool, false, ◌≡◌, refl, sym, subst, ◌⊎◌, inl, inr, ◌==◌, Bool-cases, Option-cases,
}
use knitting.Base.Lanes.{not_w, ◌^w◌, is_zero, lead}
use knitting.Header.{Task}
use knitting.Lock.{Lock, ensure_free, encode_with_state, encode}
use knitting.RxQueue.{Encoded, written, full, rejected, encode_answer, value_after}
use knitting.RxQueue.Runs.{Answers, instead}

module _ {A : Type 0} (encode_task : A → Task → ℕ → Encoded A)
    (keeps : (v : A) (t : Task) (at : ℕ) (t' : Task)
      → encode_task v t at ≡ full t'
      → t'.flags_to_host ≡ t.flags_to_host) where
  Encoded-cases :
      (e : Encoded A)
      → ((t : Task) × (e ≡ written t))
        ⊎ (((t : Task) × (e ≡ full t)) ⊎ ((t : Task) × (r : A) × (e ≡ rejected t r)))
  Encoded-cases (written t) = inl (t, refl)
  Encoded-cases (full t) = inr (inl (t, refl))
  Encoded-cases (rejected t r) = inr (inr (t, r, refl))

  -- Where `encode` fails, the flag and the value in the task are still an answer.
  pub encode-Answers :
      (own : Bool × A) (l : Lock) (t : Task) (e : Bool) (v : A)
      → (t.flags_to_host == 1) ≡ e
      → Answers encode_task own e v
      → (encode (λ t at. encode_answer (encode_task v t at)) l t).0 ≡ false
      → Answers encode_task own
          ((encode (λ t at. encode_answer (encode_task v t at)) l t).1.flags_to_host == 1)
          (value_after encode_task l v t)
  unfolding encode encode_with_state
  encode-Answers own l t e v f a no_ =
      let (state, l1) = ensure_free l (l.last_local ^w l.worker_shadow) in
      let same : Answers encode_task own (t.flags_to_host == 1) v =
        subst (λ b. Answers encode_task own b v) (sym f) a in
      elim (Bool-cases (is_zero (not_w state))) [
        | inl z ↦ rw z same
        | inr z ↦ elim (Option-cases (lead (not_w state))) [
          | inl n ↦ rw (z, n) same
          | inr (at, h) ↦ elim (Encoded-cases (encode_task v t at)) [
            | inl (t', c) ↦ absurd (let no' = rw (z, h, c) at no_ in cc)
            | inr (inl (t', c)) ↦
                rw (z, h, c)
                  (subst (λ n. Answers encode_task own (n == 1) v) (sym (keeps v t at t' c)) same)
            | inr (inr (t', r, c)) ↦ rw (z, h, c) (instead e v t t' at r a c)
          ]
        ]
      ]
