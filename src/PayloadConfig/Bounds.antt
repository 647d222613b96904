-- ===== src/PayloadConfig/Bounds.antt =====
-- src/memory/payload-config.ts: the bounds of what is resolved, and when it is refused.
use knitting.Base.{
  ℕ, ◌*◌, ◌/◌, ◌%◌, ◌^◌, ◌<◌, ◌≤◌, Bool, true, false, not, ◌&&◌, ◌≡◌, refl, ap, sym, ◌∙◌, subst,
  Option, none, some, ltb, ◌==◌, arith, Bool-cases, Option-cases, inl, inr,
}
use knitting.PayloadConfig.{
  Mode, growable, fixed, Given, absent, invalid, floor, Options, Backing, Resolved,
  to_positive_integer, or_else, shr3, is_growable, resolve_mode, resolve_max, resolve_initial,
  resolve_payload, resolve_payload_buffer_options,
}

to_positive-positive : (g : Given) (d : ℕ) → 0 < d → 0 < or_else (to_positive_integer g) d
to_positive-positive absent d h = h
to_positive-positive invalid d h = h
to_positive-positive (floor n) d h = ground arith

abbrev pub succeeds : {A : Type 0} → Option A → Bool
succeeds none = false
succeeds (some r) = true

-- Is the number, where it is given, from one up to the ceiling?
abbrev pub in_range : Given → ℕ → Bool
in_range absent ceiling = true
in_range invalid ceiling = false
in_range (floor n) ceiling = ltb 0 n && not (ltb ceiling n)

module _ (has_sab_grow : Bool) where
  resolve_mode-grows :
      (m : Option Mode) (b : Option Backing)
      → is_growable (resolve_mode has_sab_grow m b) ≡ true
      → has_sab_grow ≡ true
  unfolding resolve_mode
  resolve_mode-grows m b h = ground arith

  resolve_payload-bounds :
      (g : Given) (ceiling payload : ℕ)
      → 0 < ceiling
      → resolve_payload has_sab_grow g ceiling ≡ some payload
      → (0 < payload) × (payload ≤ ceiling)
  resolve_payload-bounds absent ceiling payload h e = ground arith
  resolve_payload-bounds invalid ceiling payload h e = absurd (cc)
  resolve_payload-bounds (floor n) ceiling payload h e = ground arith

  initial-bounds :
      (o : Options) (m : Mode) (max : ℕ)
      → 0 < max
      → let initial = resolve_initial has_sab_grow o m max in (0 < initial) × (initial ≤ max)
  unfolding resolve_initial
  initial-bounds o fixed max h = (h, omega arith)
  initial-bounds o growable max h =
      let some_ : 0 < or_else (to_positive_integer o.payload_initial_bytes) (4 * 1024 * 1024) =
        to_positive-positive o.payload_initial_bytes _ (omega arith) in
      (omega (arith, some_), omega arith)

  -- What the options come to keeps the bounds: the buffer starts with at least one byte and within
  -- its limit, at the limit when it cannot grow; it grows only where the runtime can; and a payload
  -- may have from one byte up to an eighth of the limit.
  pub record Bounded (r : Resolved) : Type 0 where
    initial : 0 < r.payload_initial_bytes
    within : r.payload_initial_bytes ≤ r.payload_max_byte_length
    whole : is_growable r.mode ≡ false → r.payload_initial_bytes ≡ r.payload_max_byte_length
    able : is_growable r.mode ≡ true → has_sab_grow ≡ true
    payload : 0 < r.max_payload_bytes
    eighth : r.max_payload_bytes * 8 ≤ r.payload_max_byte_length

  initial-whole :
      (o : Options) (m : Mode) (max : ℕ)
      → is_growable m ≡ false
      → resolve_initial has_sab_grow o m max ≡ max
  unfolding resolve_initial
  initial-whole o fixed max h = refl
  initial-whole o growable max h = absurd (cc)

  shr3-eighth : (max payload : ℕ) → payload ≤ shr3 max → payload * 8 ≤ max
  shr3-eighth max payload h = elim (Bool-cases (ltb (max % 2 ^ 32) (2 ^ 31))) [
    | inl s ↦ let h' : payload ≤ max % 2 ^ 32 / 8 = rw s at h in omega arith
    | inr s ↦ let h' : payload ≤ 0 = rw s at h in omega arith
  ]

  -- Where `resolvePayloadBufferOptions` does not throw, the result keeps all the bounds.
  pub resolved-Bounded :
      (o : Options) (backing : Option Backing) (r : Resolved)
      → resolve_payload_buffer_options has_sab_grow o backing ≡ some r
      → Bounded r
  unfolding resolve_payload_buffer_options
  resolved-Bounded o backing r e =
      let mode = resolve_mode has_sab_grow o.mode backing in
      let max = resolve_max has_sab_grow o backing in
      elim (Bool-cases (shr3 max == 0)) [
        | inl z ↦ let e' = rw (resolve_payload_buffer_options, z) at e in absurd (cc)
        | inr z ↦
            elim (Option-cases (resolve_payload has_sab_grow o.max_payload_bytes (shr3 max))) [
              | inl n ↦ let e' = rw (resolve_payload_buffer_options, z, n) at e in absurd (cc)
              | inr (payload, h) ↦
                  let found : Resolved = record {
                    mode = mode;
                    payload_initial_bytes = resolve_initial has_sab_grow o mode max;
                    payload_max_byte_length = max;
                    max_payload_bytes = payload;
                  } in
                  let to : found ≡ r =
                    let e' = rw (resolve_payload_buffer_options, z, h) at e in cc in
                  let ceiling : 0 < shr3 max = ground arith in
                  let (some_, most) =
                    resolve_payload-bounds o.max_payload_bytes (shr3 max) payload ceiling h in
                  let eighth = shr3-eighth max payload most in
                  let (start, within) = initial-bounds o mode max (omega (arith, some_, eighth)) in
                  subst Bounded to (record {
                    initial = start;
                    within = within;
                    whole = initial-whole o mode max;
                    able = resolve_mode-grows o.mode backing;
                    payload = some_;
                    eighth = eighth;
                  })
            ]
      ]

  resolve_payload-succeeds :
      (g : Given) (ceiling : ℕ)
      → succeeds (resolve_payload has_sab_grow g ceiling) ≡ in_range g ceiling
  resolve_payload-succeeds absent ceiling = refl
  resolve_payload-succeeds invalid ceiling = refl
  resolve_payload-succeeds (floor n) ceiling = ground arith

  -- `resolvePayloadBufferOptions` returns exactly where an eighth of the limit, as an i32, is
  -- positive and `maxPayloadBytes`, where it is given, is a number from one to that eighth.
  pub accepts :
      (o : Options) (backing : Option Backing)
      → let ceiling = shr3 (resolve_max has_sab_grow o backing) in
        succeeds (resolve_payload_buffer_options has_sab_grow o backing)
        ≡ ltb 0 ceiling && in_range o.max_payload_bytes ceiling
  unfolding resolve_payload_buffer_options
  accepts o backing =
      let ceiling = shr3 (resolve_max has_sab_grow o backing) in
      let same = resolve_payload-succeeds o.max_payload_bytes ceiling in
      elim (Bool-cases (ceiling == 0)) [
        | inl z ↦
            let none_ : ltb 0 ceiling ≡ false = ground arith in
            rw (resolve_payload_buffer_options, z, none_) refl
        | inr z ↦
            let some_ : ltb 0 ceiling ≡ true = ground arith in
            elim (Option-cases (resolve_payload has_sab_grow o.max_payload_bytes ceiling)) [
              | inl n ↦
                  rw (resolve_payload_buffer_options, z, n, some_) (sym (ap succeeds n) ∙ same)
              | inr (payload, h) ↦
                  rw (resolve_payload_buffer_options, z, h, some_) (sym (ap succeeds h) ∙ same)
            ]
      ]
