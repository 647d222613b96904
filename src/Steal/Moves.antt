-- ===== src/Steal/Moves.antt =====
-- src/memory/lock.ts: the accesses of `decodeSteal` and the invariant of the claims.
use knitting.Base.{
  ℕ, suc, true, false, ◌||◌, ◌≡◌, refl, subst, arith, ltb, ◌==◌, Bool-cases, inl, inr,
}
use knitting.Base.Lanes.{Word, zeros, bit, ◌∣w◌}
use knitting.Steal.{
  Pc, idle, chosen, checking, waiting, claimed, Arena, put, Move, choose, intend, pass, conflict,
  clear, withdraw, wait, enter, wait_pass, wait_clear, wait_again, wait_enter, retire, Step, move,
  deactivate, Reach, start, later,
}
use knitting.Steal.Invariant.{Inv, initial-Inv, local-Inv, at_place, clear_apart}

module _ {n : ℕ} {a : Arena} {c : ℕ} (v : Inv n a) where
  Move-Inv :
      {pc : Pc} {want cleared : Word}
      → Move n a c pc want cleared
      → Inv n (record a {
        want = put a.want c want;
        pc = put a.pc c pc;
        cleared = put a.cleared c cleared;
      })
  Move-Inv (choose region e) =
      local-Inv c (chosen a.live region) (a.want c) (a.cleared c) v (λ x h. absurd (cc))
        (λ d x ne h k. absurd (cc)) (λ d lt ne l. l)
  Move-Inv (intend {live} {region} e) =
      let (i, p, s) = at_place v e in
      local-Inv c (checking live region 0 false false) (bit region) zeros v (λ x h. ground arith)
        (λ d x ne h k. refl) (λ d lt ne l. (s d lt ne l, λ q. absurd (omega arith)))
  Move-Inv (pass {live} {region} {peer} {senior} {junior} e lt skip) =
      let (i, p, s) = at_place v e in
      local-Inv c (checking live region (suc peer) senior junior) (a.want c) (a.cleared c) v i p
        (λ d dlt ne l. (
          (s d dlt ne l).0,
          λ q. elim (Bool-cases (d == peer)) [
            | inl f ↦
                let there : d ≡ peer = ground arith in
                let lp : live peer ≡ true = subst (λ y. live y ≡ true) there (s d dlt ne l).0 in
                absurd (ground (arith, ne))
            | inr f ↦ (s d dlt ne l).1 (ground arith)
          ],
        ))
  Move-Inv (conflict {live} {region} {peer} {senior} {junior} e lt ne_c alive w) =
      let (i, p, s) = at_place v e in
      local-Inv c (checking live region (suc peer) (senior || ltb peer c) (junior || ltb c peer))
        (a.want c) (a.cleared c) v i p
        (λ d dlt ne l. (
          (s d dlt ne l).0,
          λ q. elim (Bool-cases (d == peer)) [
            | inl f ↦ ground (arith, ne)
            | inr f ↦ ground (arith, (s d dlt ne l).1)
          ],
        ))
  Move-Inv (clear {live} {region} {peer} {senior} {junior} e lt ne_c alive w) =
      let (i, p, s) = at_place v e in
      local-Inv c (checking live region (suc peer) senior junior) (a.want c)
        (a.cleared c ∣w bit peer) v i (clear_apart v peer region w p)
        (λ d dlt ne l. (
          (s d dlt ne l).0,
          λ q. elim (Bool-cases (d == peer)) [
            | inl f ↦ ground arith
            | inr f ↦ ground (arith, (s d dlt ne l).1)
          ],
        ))
  Move-Inv (withdraw e) =
      local-Inv c idle zeros (a.cleared c) v (λ x h. absurd (cc)) (λ d x ne h k. absurd (cc))
        (λ d lt ne l. tt)
  Move-Inv (wait {live} {region} e) =
      let (i, p, s) = at_place v e in
      local-Inv c (waiting a.live region (suc c)) (a.want c) (a.cleared c) v i p
        (λ d lt ne l. (l, λ q. ground (arith, (s d lt ne l).1 lt), λ q r. absurd (omega arith)))
  Move-Inv (enter {live} {region} e) =
      let (i, p, s) = at_place v e in
      local-Inv c (claimed region) (a.want c) (a.cleared c) v i p
        (λ d lt ne l. ground (arith, (s d lt ne l).1 lt))
  Move-Inv (wait_pass {live} {region} {peer} e lt skip) =
      let (i, p, s) = at_place v e in
      local-Inv c (waiting live region (suc peer)) (a.want c) (a.cleared c) v i p (λ d dlt ne l.
        let (lv, below, above) = s d dlt ne l in
        (
          lv,
          below,
          λ q r. elim (Bool-cases (d == peer)) [
            | inl f ↦
                let lp : live peer ≡ true = subst (λ y. live y ≡ true) (ground arith) lv in
                absurd (ground arith)
            | inr f ↦ above q (ground arith)
          ],
        ))
  Move-Inv (wait_clear {live} {region} {peer} e lt alive w) =
      let (i, p, s) = at_place v e in
      local-Inv c (waiting live region (suc peer)) (a.want c) (a.cleared c ∣w bit peer) v i
        (clear_apart v peer region w p)
        (λ d dlt ne l.
          let (lv, below, above) = s d dlt ne l in
          (
            lv,
            λ q. ground (arith, below q),
            λ q r. elim (Bool-cases (d == peer)) [
              | inl f ↦ ground arith
              | inr f ↦ ground (arith, above q)
            ],
          ))
  Move-Inv (wait_again {live} {region} {peer} e lt alive w) =
      let (i, p, s) = at_place v e in
      local-Inv c (waiting a.live region (suc c)) (a.want c) (a.cleared c) v i p
        (λ d dlt ne l. (l, (s d dlt ne l).1, λ q r. absurd (omega arith)))
  Move-Inv (wait_enter {live} {region} e) =
      let (i, p, s) = at_place v e in
      local-Inv c (claimed region) (a.want c) (a.cleared c) v i p
        (λ d lt ne l. ground (arith, (s d lt ne l).1, (s d lt ne l).2, lt))
  Move-Inv (retire e) =
      local-Inv c idle zeros (a.cleared c) v (λ x h. absurd (cc)) (λ d x ne h k. absurd (cc))
        (λ d lt ne l. tt)

Step-Inv : {n : ℕ} {a a' : Arena} → Step n a a' → Inv n a → Inv n a'
Step-Inv (move c lt l m) v = Move-Inv v m
Step-Inv (deactivate c) v = record {
  intent = v.intent;
  apart = v.apart;
  seen = λ i d lt ne l. v.seen i d lt ne (ground arith);
}

pub Reach-Inv : {n : ℕ} {a : Arena} → Reach n a → Inv n a
Reach-Inv {n} start = initial-Inv n
Reach-Inv (later run s) = Step-Inv s (Reach-Inv run)
