-- ===== src/Steal/Invariant.antt =====
-- src/memory/lock.ts: the invariant of the claims of `decodeSteal`. Of two consumers with an
-- intent for the same region, not both have read that the other has none.
use knitting.Base.{
  ℕ, ◌<◌, Bool, true, false, ◌&&◌, ◌||◌, ◌≡◌, ◌≢◌, refl, sym, ◌∙◌, subst, arith, ltb, ◌==◌,
  Bool-cases, inl, inr,
}
use knitting.Base.Lanes.{Word, bit, ◌∣w◌}
use knitting.Steal.{Pc, idle, chosen, checking, waiting, claimed, Arena, put, initial}

-- Is the intent for region `x` published?
abbrev pub active : Pc → ℕ → Bool
active idle x = false
active (chosen _ _) x = false
active (checking _ region _ _ _) x = region == x
active (waiting _ region _) x = region == x
active (claimed region) x = region == x

-- What consumer `c` knows of a live peer `d`.
abbrev Seen : Pc → Word → ℕ → ℕ → Type 0
Seen idle cleared c d = Unit {0}
Seen (chosen live _) cleared c d = live d ≡ true
Seen (checking live _ peer senior junior) cleared c d =
    (live d ≡ true) × (d < peer → cleared d || (ltb d c && senior) || (ltb c d && junior) ≡ true)
Seen (waiting live _ peer) cleared c d =
    (live d ≡ true) × (d < c → cleared d ≡ true) × (c < d → d < peer → cleared d ≡ true)
Seen (claimed _) cleared c d = cleared d ≡ true

pub record Inv (n : ℕ) (a : Arena) : Type 0 where
  pub intent : (c x : ℕ) → active (a.pc c) x ≡ true → a.want c x ≡ true
  pub apart :
      (c d x : ℕ)
      → c ≢ d
      → active (a.pc c) x ≡ true
      → active (a.pc d) x ≡ true
      → a.cleared c d && a.cleared d c ≡ false
  pub seen : (c d : ℕ) → d < n → d ≢ c → a.live d ≡ true → Seen (a.pc c) (a.cleared c) c d

pub initial-Inv : (n : ℕ) → Inv n initial
initial-Inv n = record {
  intent = λ c x h. absurd (cc);
  apart = λ c d x ne h k. refl;
  seen = λ c d lt ne l. tt;
}

-- A step of one consumer has to answer for its own place only.
pub local-Inv :
    {n : ℕ} {a : Arena} (c : ℕ) (pc : Pc) (want cleared : Word)
    → Inv n a
    → ((x : ℕ) → active pc x ≡ true → want x ≡ true)
    → ((d x : ℕ)
        → c ≢ d
        → active pc x ≡ true
        → active (a.pc d) x ≡ true
        → cleared d && a.cleared d c ≡ false)
    → ((d : ℕ) → d < n → d ≢ c → a.live d ≡ true → Seen pc cleared c d)
    → Inv n (record a {
      want = put a.want c want;
      pc = put a.pc c pc;
      cleared = put a.cleared c cleared;
    })
local-Inv {a = a} c pc want cleared v own others knows = record {
  intent = λ i x h. elim (Bool-cases (i == c)) [
    | inl e ↦ rw e (own x (rw e at h))
    | inr e ↦ rw e (v.intent i x (rw e at h))
  ];
  apart = λ i d x ne h k. elim (Bool-cases (i == c)) [
    | inl e ↦ elim (Bool-cases (d == c)) [
      | inl f ↦ absurd (ground arith)
      | inr f ↦
          let at_c : i ≡ c = ground arith in
          rw (e, f, at_c) (others d x (λ q. ne (at_c ∙ q)) (rw e at h) (rw f at k))
    ]
    | inr e ↦ elim (Bool-cases (d == c)) [
      | inl f ↦
          let at_c : d ≡ c = ground arith in
          let o = others i x (λ q. ne (sym q ∙ sym at_c)) (rw f at k) (rw e at h) in
          rw (e, f, at_c) (ground arith)
      | inr f ↦ rw (e, f) (v.apart i d x ne (rw e at h) (rw f at k))
    ]
  ];
  seen = λ i d lt ne l. elim (Bool-cases (i == c)) [
    | inl e ↦
        let at_c : i ≡ c = ground arith in rw (e, at_c) (knows d lt (λ q. ne (q ∙ sym at_c)) l)
    | inr e ↦ rw e (v.seen i d lt ne l)
  ];
}

-- A peer that was read not to want the region does not have it.
not_active :
    {n : ℕ} {a : Arena} (v : Inv n a) (peer region : ℕ)
    → a.want peer region ≡ false
    → active (a.pc peer) region ≡ false
not_active {a = a} v peer region h = elim (Bool-cases (active (a.pc peer) region)) [
  | inl e ↦ absurd (ground (arith, v.intent peer region e))
  | inr e ↦ e
]

module _ {n : ℕ} {a : Arena} {c : ℕ} (v : Inv n a) where
  -- What the invariant says of a consumer at a known place.
  pub at_place :
      {pc : Pc}
      → a.pc c ≡ pc
      → ((x : ℕ) → active pc x ≡ true → a.want c x ≡ true)
        × ((d x : ℕ)
            → c ≢ d
            → active pc x ≡ true
            → active (a.pc d) x ≡ true
            → a.cleared c d && a.cleared d c ≡ false)
        × ((d : ℕ) → d < n → d ≢ c → a.live d ≡ true → Seen pc (a.cleared c) c d)
  at_place {pc} e =
      subst
        (λ (p : Pc).
          ((x : ℕ) → active p x ≡ true → a.want c x ≡ true)
          × ((d x : ℕ)
              → c ≢ d
              → active p x ≡ true
              → active (a.pc d) x ≡ true
              → a.cleared c d && a.cleared d c ≡ false)
          × ((d : ℕ) → d < n → d ≢ c → a.live d ≡ true → Seen p (a.cleared c) c d))
        e (v.intent c, v.apart c, v.seen c)

  -- Clearing such a peer keeps the regions apart.
  pub clear_apart :
      (peer region : ℕ)
      → a.want peer region ≡ false
      → ((d x : ℕ)
          → c ≢ d
          → (region == x) ≡ true
          → active (a.pc d) x ≡ true
          → a.cleared c d && a.cleared d c ≡ false)
      → (d x : ℕ) → c ≢ d
      → (region == x) ≡ true
      → active (a.pc d) x ≡ true
      → (a.cleared c ∣w bit peer) d && a.cleared d c ≡ false
  clear_apart peer region h apart d x ne e k = elim (Bool-cases (d == peer)) [
    | inl f ↦
        let there : d ≡ peer = ground arith in
        let same : region ≡ x = ground arith in
        let k' : active (a.pc peer) region ≡ true =
          subst (λ y. active (a.pc peer) y ≡ true) (sym same)
            (subst (λ y. active (a.pc y) x ≡ true) there k) in
        absurd (ground (arith, not_active v peer region h))
    | inr f ↦ ground (arith, apart d x ne e k)
  ]
