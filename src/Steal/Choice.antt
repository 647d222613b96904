-- ===== src/Steal/Choice.antt =====
-- src/memory/lock.ts: which region a stealing consumer goes for, and the lanes that it takes.
use native.Mathlib.Nat.{mod-lt}
use knitting.Base.{
  ℕ, zero, suc, ◌+◌, ◌*◌, ◌%◌, ◌<◌, ◌≤◌, true, false, not, ◌&&◌, ◌≡◌, subst, Option, none, some,
  arith, leb, ltb, ◌==◌, if◌then◌else◌, Bool-cases, inl, inr, ◌⊎◌,
}
use knitting.Base.Lanes.{
  Word, not_w, ◌&◌, is_zero, any_below, any_below-false, any_below-true, is_zero-lane, not-is_zero,
}
use knitting.Base.Cyclic.{reaches, region_end}

-- `stealLaneMask`
abbrev pub lane_mask : ℕ → ℕ → Word
lane_mask lanes region i = leb (region * lanes) i && ltb i (region * lanes + lanes)

-- What one consumer reads before it decides.
pub record View : Type 0 where
  pub consumers : ℕ
  pub self : ℕ
  pub lanes : ℕ
  pub regions : ℕ
  pub cursor : ℕ
  pub live : Word
  pub want : ℕ → Word
  -- `hostBits ^ LastWorker ^ stealPeerAcks()`
  pub pending : Word

abbrev pub pending_regions : View → Word
pending_regions v r =
    if v.regions == 1
    then r == 0
    else ltb r v.regions && not (is_zero (v.pending & lane_mask v.lanes r))

-- The intents of the live peers, and those of the peers with a smaller id.
abbrev pub peer_intent : View → Word
peer_intent v r = any_below v.consumers (λ c. not (c == v.self) && v.live c && v.want c r)

abbrev pub senior_intent : View → Word
senior_intent v r =
    any_below v.consumers (λ c. not (c == v.self) && v.live c && ltb c v.self && v.want c r)

abbrev not_senior : View → Word
not_senior v = pending_regions v & not_w (senior_intent v)

abbrev pub clean : View → Word
clean v = pending_regions v & not_w (peer_intent v)

abbrev candidates : View → Word
candidates v = if not (is_zero (clean v)) then clean v else not_senior v

-- The loop from the cursor on, with `n` regions left to look at.
unfoldable pub search : Word → ℕ → ℕ → ℕ → ℕ → Option ℕ
search found cursor regions step zero = none
search found cursor regions step (suc n) =
    let rest = search found cursor regions (suc step) n in
    if found ((cursor + step) % regions) then some ((cursor + step) % regions) else rest

unfoldable pub choose_region : View → Option ℕ
choose_region v =
    if is_zero v.pending
    then none
    else if is_zero (not_senior v)
    then none
    else search (candidates v) v.cursor v.regions 0 v.regions

search-some :
    (found : Word) (cursor regions step n : ℕ) {r : ℕ}
    → 0 < regions
    → search found cursor regions step n ≡ some r
    → (found r ≡ true) × (r < regions)
unfolding search
search-some found cursor regions step zero pos h = absurd (cc)
search-some found cursor regions step (suc n) {r} pos h =
    elim (Bool-cases (found ((cursor + step) % regions))) [
      | inl e ↦
          let at : (cursor + step) % regions ≡ r = ground arith in
          rw (← at) (e, mod-lt (cursor + step) pos)
      | inr e ↦ search-some found cursor regions (suc step) n {r = r} pos (ground arith)
    ]

search-none :
    (found : Word) (cursor regions step n : ℕ)
    → search found cursor regions step n ≡ none
    → (k : ℕ) → step ≤ k
    → k < step + n
    → found ((cursor + k) % regions) ≡ false
unfolding search
search-none found cursor regions step zero h k low high = absurd (omega arith)
search-none found cursor regions step (suc n) h k low high = elim (Bool-cases (k == step)) [
  | inl e ↦ let at : k ≡ step = ground arith in rw at (ground arith)
  | inr e ↦
      search-none found cursor regions (suc step) n (ground arith) k (ground arith) (omega arith)
]

module _ (v : View) (some_region : 0 < v.regions) (few : v.regions ≤ 32)
    (in_range : v.cursor < v.regions) where
  in_regions : (r : ℕ) → pending_regions v r ≡ true → r < v.regions
  in_regions r h = elim (Bool-cases (v.regions == 1)) [
    | inl e ↦ let h' = rw e at h in ground arith
    | inr e ↦ let h' = rw e at h in ground arith
  ]

  peer_of_senior : (r : ℕ) → peer_intent v r ≡ false → senior_intent v r ≡ false
  peer_of_senior r h = elim (Bool-cases (senior_intent v r)) [
    | inl e ↦
        let (c, lt, s) =
          any_below-true v.consumers
            (λ c. not (c == v.self) && v.live c && ltb c v.self && v.want c r) e in
        absurd (
          ground (
            arith,
            any_below-false v.consumers (λ c. not (c == v.self) && v.live c && v.want c r) c h lt,
          ))
    | inr e ↦ e
  ]

  -- The region chosen has pending lanes and no senior wants it; where some pending region is wanted
  -- by no peer at all, it is such a one.
  pub choose_region_sound :
      {r : ℕ}
      → choose_region v ≡ some r
      → (r < v.regions)
        × (pending_regions v r ≡ true)
        × (senior_intent v r ≡ false)
        × (not (is_zero (clean v)) && peer_intent v r ≡ false)
  unfolding choose_region
  choose_region_sound {r} h = elim (Bool-cases (is_zero v.pending)) [
    | inl z ↦ let h' = rw z at h in absurd (cc)
    | inr z ↦ elim (Bool-cases (is_zero (not_senior v))) [
      | inl y ↦ let h' = rw (z, y) at h in absurd (cc)
      | inr y ↦ elim (Bool-cases (is_zero (clean v))) [
        | inl c ↦
            let h' = rw (z, y, c) at h in
            let (f, lt) =
              search-some (not_senior v) v.cursor v.regions 0 v.regions {r = r} some_region h' in
            (lt, ground arith, ground arith, ground arith)
        | inr c ↦
            let h' = rw (z, y, c) at h in
            let (f, lt) =
              search-some (clean v) v.cursor v.regions 0 v.regions {r = r} some_region h' in
            (lt, ground arith, peer_of_senior r (ground arith), ground arith)
      ]
    ]
  ]

  -- Where no region is chosen, nothing is pending, or a senior wants every region that has lanes.
  choose_region-none :
      choose_region v ≡ none
      → (is_zero v.pending ≡ true)
        ⊎ ((r : ℕ) → r < v.regions → pending_regions v r ≡ true → senior_intent v r ≡ true)
  unfolding choose_region
  choose_region-none h = elim (Bool-cases (is_zero v.pending)) [
    | inl z ↦ inl z
    | inr z ↦ inr (elim (Bool-cases (is_zero (not_senior v))) [
      | inl y ↦ λ r lt p. ground (arith, is_zero-lane (not_senior v) r y)
      | inr y ↦ elim (Bool-cases (is_zero (clean v))) [
        | inl c ↦
            let h' = rw (z, y, c) at h in
            λ r lt p.
              let (k, kl, at) = reaches v.cursor v.regions r in_range lt in
              let missed =
                subst (λ x. not_senior v x ≡ false) at
                  (search-none (not_senior v) v.cursor v.regions 0 v.regions h' k (omega arith)
                    (omega arith)) in
              ground arith
        | inr c ↦
            let h' = rw (z, y, c) at h in
            let (i, il, s) = not-is_zero (clean v) c in
            let (k, kl, at) = reaches v.cursor v.regions i in_range (in_regions i (ground arith)) in
            let missed =
              subst (λ x. clean v x ≡ false) at
                (search-none (clean v) v.cursor v.regions 0 v.regions h' k (omega arith)
                  (omega arith)) in
            absurd (ground arith)
      ]
    ])
  ]

-- Lanes of different regions are different.
pub lane_mask-disjoint :
    (lanes r r' i : ℕ) → lane_mask lanes r i ≡ true → lane_mask lanes r' i ≡ true → r ≡ r'
lane_mask-disjoint lanes r r' i h k = elim (Bool-cases (ltb r r')) [
  | inl e ↦ absurd (ground (arith, region_end lanes r r'))
  | inr e ↦ elim (Bool-cases (ltb r' r)) [
    | inl f ↦ absurd (ground (arith, region_end lanes r' r))
    | inr f ↦ ground arith
  ]
]
