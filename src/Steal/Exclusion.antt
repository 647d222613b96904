-- ===== src/Steal/Exclusion.antt =====
-- src/memory/lock.ts: what a claim of `decodeSteal` excludes.
use knitting.Base.{
  ℕ, ◌<◌, true, false, ◌&&◌, ◌≡◌, ◌≢◌, sym, ◌∙◌, ap, subst, arith, ◌==◌, Bool-cases, inl, inr,
}
use knitting.Steal.{Arena, claimed, Reach}
use knitting.Steal.Choice.{lane_mask, lane_mask-disjoint}
use knitting.Steal.Invariant.{active, at_place}
use knitting.Steal.Moves.{Reach-Inv}

-- In every run of any number of consumers, however their accesses interleave, no two live ones
-- have claimed the same region at once.
pub mutual_exclusion :
    {n : ℕ} {a : Arena}
    → Reach n a
    → (c d region : ℕ) → c < n
    → d < n
    → a.live c ≡ true
    → a.live d ≡ true
    → a.pc c ≡ claimed region
    → a.pc d ≡ claimed region
    → c ≡ d
mutual_exclusion {n} {a} run c d region cn dn cl dl pc pd = elim (Bool-cases (c == d)) [
  | inl e ↦ ground arith
  | inr e ↦
      let v = Reach-Inv run in
      let both =
        v.apart c d region (ground arith) (ap (λ p. active p region) pc ∙ ground arith)
          (ap (λ p. active p region) pd ∙ ground arith) in
      let (i, p, s) = at_place v pc in
      let (i', p', s') = at_place v pd in
      absurd (ground (arith, s d dn (ground arith) dl, s' c cn (ground arith) cl))
]

-- In every run, two live consumers that hold claims at once take no lane in common.
pub claims_disjoint :
    {n : ℕ} {a : Arena}
    → Reach n a
    → (lanes c d r r' i : ℕ) → c < n
    → d < n
    → c ≢ d
    → a.live c ≡ true
    → a.live d ≡ true
    → a.pc c ≡ claimed r
    → a.pc d ≡ claimed r'
    → lane_mask lanes r i && lane_mask lanes r' i ≡ false
claims_disjoint {a = a} run lanes c d r r' i cn dn ne cl dl pc pd =
    elim (Bool-cases (lane_mask lanes r i && lane_mask lanes r' i)) [
      | inl e ↦
          let same = lane_mask-disjoint lanes r r' i (ground arith) (ground arith) in
          let pd' = subst (λ x. a.pc d ≡ claimed x) (sym same) pd in
          absurd (ne (mutual_exclusion run c d r cn dn cl dl pc pd'))
      | inr e ↦ e
    ]
