-- ===== src/Region/Safety.antt =====
-- src/memory/regionRegistry.ts: what a caller of `findAndInsert` gets on every path.
use knitting.Base.{
  ℕ, ◌+◌, ◌%◌, ◌≤◌, ◌<◌, true, ◌≡◌, refl, ap, List, [], ◌∷◌, ◌⊎◌, none, some, arith, leb,
  Bool-cases, Option-cases, inl, inr, length,
}
use knitting.Base.Lanes.{bit, is_zero, is_zero-lane, not-is_zero}
use knitting.Header.{Task}
use knitting.Region.{Registry, Outcome, is_nil}
use knitting.Region.Allocate.{
  exact_fit, free_slot, claim, fail, finish, insert_plain, insert_compacted, reuse, freed, all_free,
  compacted, scan, find_and_insert,
}
use knitting.Region.Entry.{start_of-slot}
use knitting.Region.Owners.{tracks}
use knitting.Region.Layout.{arena, table_end}
use knitting.Region.Claims.{Inv, live, Kept, Allocated, claim-Allocated}
use knitting.Region.Branches.{reclaimed-Allocated, insert_plain-Allocated, front_Layout}
use knitting.Region.Scanning.{scan-kept}
use knitting.Region.Reclaim.{
  restarted, swept, restarted-Inv, swept-Inv, result, insert_compacted-Allocated, reuse-Allocated,
}
use knitting.Region.Full.{tracks-full, free_slot-none}

abbrev pub Full : Registry → Type 0
Full r = (i : ℕ) → i < 32 → r.used i ≡ true

-- Why an allocation can be refused: all 32 lanes are in use, or some freed region has the very size.
abbrev Cause : Registry → ℕ → Type 0
Cause r size =
    ((i : ℕ) → i < 32 → live r i ≡ true)
    ⊎ ((p : ℕ × ℕ) × (exact_fit (freed r) r.sizes size r.table ≡ some p))

-- The answer -1: the task is untouched, the regions in use are where they were, and each of the 32
-- lanes had a region in the table.
pub record Refused (r : Registry) (task : Task) (size : ℕ) (o : Outcome) : Type 0 where
  pub answer : o.slot ≡ none
  pub inv : Inv o.reg
  pub kept : Kept r o.reg
  untouched : o.task ≡ task
  pub toggles : o.reg.host_last ≡ r.host_last
  pub shared : o.reg.host_bits ≡ r.host_bits
  pub full : Full r
  pub cause : Cause r size

abbrev pub Served : Registry → Task → ℕ → Outcome → Type 0
Served r task size o = ((slot : ℕ) × Allocated r size o slot) ⊎ Refused r task size o

Kept-refl : (r : Registry) → Kept r r
Kept-refl r j lt l = (l, refl, refl)

fail-Refused :
    {r b : Registry} (size : ℕ) (task : Task)
    → Inv b
    → Kept r b
    → b.host_last ≡ r.host_last
    → b.host_bits ≡ r.host_bits
    → Full r × Cause r size
    → Refused r task size (fail b task)
fail-Refused size task v k h p (f, c) = record {
  answer = refl;
  inv = v;
  kept = k;
  untouched = refl;
  toggles = h;
  shared = p;
  full = f;
  cause = c;
}

-- The tail of the function behind a reclaiming step from `r` to `b`.
finish-Served :
    {r b : Registry} {size : ℕ} (task : Task) (insert : ℕ → Outcome)
    → Inv b
    → Kept r b
    → b.host_last ≡ r.host_last
    → b.host_bits ≡ r.host_bits
    → (Full b → Full r × Cause r size)
    → ((slot : ℕ) → free_slot b.used ≡ some slot → Allocated b size (insert slot) slot)
    → Served r task size (finish b task insert)
unfolding finish
finish-Served {b} {size} task insert v k hl hb c f = elim (Bool-cases (leb 32 (length b.table))) [
  | inl e ↦ rw e (
      inr (
        fail-Refused size task v k hl hb (
          c (λ i lt.
            ground (arith, v.covers i lt, tracks-full b.table v.distinct (ground arith) i lt)))))
  | inr e ↦ elim (Option-cases (free_slot b.used)) [
    | inl n ↦
        rw (e, n, finish) (inr (fail-Refused size task v k hl hb (c (free_slot-none b.used n))))
    | inr (slot, s) ↦ rw (e, s, finish) (inl (slot, reclaimed-Allocated k (f slot s)))
  ]
]

is_nil-nil : (t : List ℕ) → is_nil t ≡ true → t ≡ []
is_nil-nil [] h = refl
is_nil-nil (x ∷ t) h = cc

module _ {r : Registry} {size : ℕ} (task : Task) (v : Inv r) (whole : size % 64 ≡ 0)
    (room : table_end r.sizes 0 r.table + size ≤ arena) where
  -- Into the empty registry: lane 0, at the start of the arena.
  first-Allocated :
      is_zero r.used ≡ true
      → Allocated r size (claim (restarted r) task (0 ∷ []) 0 0 (bit 0) size) 0
  first-Allocated h =
      let (s, o) = start_of-slot 0 (omega arith) in
      claim-Allocated task [] (record {
        lane = omega arith;
        bits = λ j lt. refl;
        unused = refl;
        layout = front_Layout r.sizes 0 size [] (omega arith) whole refl (omega arith);
        distinct = (refl, tt);
        covers = λ j lt. ground (arith, o);
        settled = λ j lt n. v.settled j lt (is_zero-lane r.used j h lt);
        placed = ground (arith, s, o);
        stays = λ j lt l. absurd (ground (arith, is_zero-lane r.used j h lt));
      })

  plain-Served :
      (Full r → (i : ℕ) → i < 32 → live r i ≡ true)
      → Served r task size (finish r task (λ slot. insert_plain r task size slot r.table))
  plain-Served busy =
      finish-Served task (λ slot. insert_plain r task size slot r.table) v (Kept-refl r) refl refl
        (λ g. (g, inl (busy g))) (λ slot h. insert_plain-Allocated task v whole h r.table refl room)

  restarted-Served :
      all_free r ≡ true
      → Served r task size
          (finish (restarted r) task (λ slot. insert_plain (restarted r) task size slot []))
  restarted-Served h =
      let (w, k) = restarted-Inv v h in
      finish-Served {b = restarted r} task (λ slot. insert_plain (restarted r) task size slot []) w
        k refl refl (λ g. absurd (ground (arith, g 0 (omega arith))))
        (λ slot h. insert_plain-Allocated task w whole h [] refl (omega arith))

  reuse-Served :
      (i u : ℕ)
      → exact_fit (freed r) r.sizes size r.table ≡ some (i, u)
      → Served r task size (reuse r task size i u)
  unfolding reuse
  reuse-Served i u f = elim (Option-cases (free_slot r.used)) [
    | inl n ↦
        rw (n, reuse)
          (inr (
            fail-Refused size task v (Kept-refl r) refl refl
              (free_slot-none r.used n, inr ((i, u), f))))
    | inr (slot, h) ↦ inl (slot, reuse-Allocated task v whole i u f h)
  ]

  compacted-Served : Served r task size (compacted r task size)
  unfolding compacted scan
  compacted-Served =
      let (w, k) = swept-Inv v in
      rw (scan-kept (freed r) r.sizes size 0 0 none r.table) (
        finish-Served {b = swept r} task
          (λ slot. insert_compacted (swept r) task size slot (result r size)) w k refl refl
          (λ g.
            let busy : (i : ℕ) → i < 32 → live r i ≡ true =
              λ i lt. unfold freed in ground (arith, g i lt) in
            (λ i lt. ground (arith, busy i lt), inl busy))
          (λ slot h. insert_compacted-Allocated task v whole h room))

  -- Whatever branch is taken, the lane handed out was free, its region lies in the arena apart from
  -- every other, and no region in use is moved or lost; or all 32 lanes had one.
  pub find_and_insert-Served : Served r task size (find_and_insert r task size)
  unfolding find_and_insert
  find_and_insert-Served = elim (Bool-cases (is_nil r.table)) [
    | inl e ↦ elim (Bool-cases (is_zero r.used)) [
      | inl z ↦ rw (e, z) (inl (0, first-Allocated z))
      | inr z ↦
          let (i, lt, p) = not-is_zero r.used z in
          let nil : r.table ≡ [] = is_nil-nil r.table e in
          rw (e, z)
            (plain-Served (λ g. absurd (ground (arith, v.covers i lt, ap (λ t. tracks t i) nil))))
    ]
    | inr e ↦ elim (Bool-cases (all_free r)) [
      | inl a ↦ rw (e, a) (restarted-Served a)
      | inr a ↦ elim (Bool-cases (is_zero (freed r))) [
        | inl n ↦
            rw (e, a, n)
              (plain-Served
                (λ g i lt. unfold freed in ground (arith, g i lt, is_zero-lane (freed r) i n lt)))
        | inr n ↦ elim (Option-cases (exact_fit (freed r) r.sizes size r.table)) [
          | inl x ↦ rw (e, a, n, x, find_and_insert) compacted-Served
          | inr (p, x) ↦ rw (e, a, n, x, find_and_insert) (reuse-Served p.0 p.1 x)
        ]
      ]
    ]
  ]
