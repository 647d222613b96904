-- ===== src/Lock/Exactly.antt =====
-- src/memory/lock.ts: what is sent against what is taken, in runs of both endpoints.
use mathlib.Core.List.{Perm, perm_middle}
use mathlib.Core.List.Perm
use knitting.Base.{
  ℕ, zero, suc, ◌<◌, true, false, ◌≡◌, refl, sym, ◌∙◌, ap, subst, List, [], ◌∷◌, ◌++◌, arith, ◌==◌,
  if◌then◌else◌, Bool-cases, inl, inr,
}
use knitting.Base.Lanes.{Word, not_w, ◌^w◌}
use knitting.Header.{Task}
use knitting.Lock.{put_header, store_host, store_worker}
use knitting.Lock.Queue.{
  written, Queue, Step, Reach, begin, later, refresh, write, post, load, take, acknowledge, leave,
  pending, consumed_of, diff_of, outstanding,
}
use knitting.Lock.Lanes.{Inv, writing, lead_lem, Reach-Inv}

-- The headers of the set lanes below `n`, from the highest.
unfoldable pub gather : ℕ → Word → (ℕ → Task) → List Task
gather zero f h = []
gather (suc n) f h = if f n then h n ∷ gather n f h else gather n f h

gather-same :
    (n : ℕ) (f g : Word) (h k : ℕ → Task)
    → ((i : ℕ) → i < n → f i ≡ g i)
    → ((i : ℕ) → i < n → g i ≡ true → h i ≡ k i)
    → gather n f h ≡ gather n g k
unfolding gather
gather-same zero f g h k e s = refl
gather-same (suc n) f g h k e s =
    let rest = gather-same n f g h k (λ i lt. e i (omega arith)) (λ i lt. s i (omega arith)) in
    elim (Bool-cases (g n)) [
      | inl p ↦ rw (e n (omega arith), p, s n (omega arith) p, rest) refl
      | inr p ↦ rw (e n (omega arith), p, rest) refl
    ]

-- One lane more is one header more.
gather-add :
    (n at : ℕ) (f g : Word) (h : ℕ → Task)
    → at < n
    → f at ≡ false
    → g at ≡ true
    → ((i : ℕ) → (i == at) ≡ false → f i ≡ g i)
    → Perm (gather n g h) (h at ∷ gather n f h)
unfolding gather
gather-add zero at f g h lt p q e = absurd (omega arith)
gather-add (suc n) at f g h lt p q e = elim (Bool-cases (n == at)) [
  | inl s ↦
      let top : at ≡ n = ground arith in
      let gn : g n ≡ true = subst (λ x. g x ≡ true) top q in
      let fn : f n ≡ false = subst (λ x. f x ≡ false) top p in
      let below = gather-same n g f h h (λ i l. sym (e i (ground arith))) (λ i l _. refl) in
      rw (gn, fn, below, top) (Perm.refl _)
  | inr s ↦
      let rest = gather-add n at f g h (ground arith) p q e in
      elim (Bool-cases (g n)) [
        | inl gn ↦
            rw (e n s, gn)
              (Perm.trans (Perm.cons (h n) rest) (Perm.swap (h at) (h n) (gather n f h)))
        | inr gn ↦ rw (e n s, gn) rest
      ]
]

-- The headers that were published are those that were taken and those that are outstanding.
abbrev pub Conserved : Queue → Type 0
Conserved q = Perm q.sent (q.got ++ gather 32 (outstanding q) q.lock.headers)

same-Conserved :
    (q : Queue) (f : Word) (h : ℕ → Task)
    → Conserved q
    → ((i : ℕ) → f i ≡ outstanding q i)
    → ((i : ℕ) → outstanding q i ≡ true → h i ≡ q.lock.headers i)
    → Perm q.sent (q.got ++ gather 32 f h)
same-Conserved q f h c e s =
    subst (λ x. Perm q.sent (q.got ++ x))
      (sym (gather-same 32 f (outstanding q) h q.lock.headers (λ i lt. e i) (λ i lt. s i))) c

Step-Conserved : {q q' : Queue} → Step q q' → Inv q → Conserved q → Conserved q'
unfolding store_host store_worker
Step-Conserved (refresh r) v c = c
Step-Conserved {q} (write task at r h) v c =
    let l = lead_lem (not_w (q.lock.last_local ^w q.lock.worker_shadow)) {i = at} h in
    same-Conserved q (outstanding q) (put_header q.lock.headers at task) c (λ i. refl)
      (λ i o. elim (Bool-cases (i == at)) [
        | inl e ↦
            let same : pending q.lock i ≡ pending q.lock at = ap (pending q.lock) (ground arith) in
            absurd (ground (arith, same, v.stale at))
        | inr e ↦ rw e refl
      ])
Step-Conserved {q} {q'} (post at r) v c =
    let here : writing q.sender at ≡ true = ap (λ s. writing s at) r ∙ ground arith in
    let (free, lt) = v.spare at here in
    let more =
      gather-add 32 at (outstanding q) (outstanding q') q.lock.headers lt
        (ground (arith, v.stale at free)) (ground (arith, v.stale at free, v.taken at))
        (λ i n. ground arith) in
    Perm.trans (Perm.cons (q.lock.headers at) c) (
      Perm.trans (Perm.symm (perm_middle q.got (gather 32 (outstanding q) q.lock.headers)))
        (Perm.append_left q.got (Perm.symm more)))
Step-Conserved {q} (load r) v c =
    same-Conserved q _ q.lock.headers c (λ i. ground (arith, ap (λ s. consumed_of s i) r))
      (λ i o. refl)
Step-Conserved {q} {q'} (take at r lt d) v c =
    let hand = v.in_hand at (ap (λ s. diff_of s at) r ∙ d) in
    let used = λ (i : ℕ). ap (λ s. consumed_of s i) r in
    let less =
      gather-add 32 at (outstanding q') (outstanding q) q.lock.headers lt
        (ground (arith, hand, used at)) (ground (arith, hand)) (λ i n. ground (arith, used i)) in
    Perm.trans c (
      Perm.trans (Perm.append_left q.got less)
        (perm_middle q.got (gather 32 (outstanding q') q.lock.headers)))
Step-Conserved {q} (acknowledge r) v c =
    same-Conserved q _ q.lock.headers c
      (λ i. ground (arith, ap (λ s. consumed_of s i) r, v.taken i)) (λ i o. refl)
Step-Conserved {q} (leave r) v c =
    same-Conserved q _ q.lock.headers c
      (λ i. ground (arith, ap (λ s. consumed_of s i) r, v.taken i)) (λ i o. refl)

-- However the steps of the two endpoints interleave, no published header is lost, taken twice or
-- taken in another form: those taken and those outstanding are the published ones, up to order.
pub exactly_once : {headers : ℕ → Task} {q : Queue} → Reach headers q → Conserved q
unfolding gather
exactly_once begin = Perm.refl []
exactly_once (later run s) = Step-Conserved s (Reach-Inv run) (exactly_once run)

-- In every run, the sender never writes the header of a lane that is pending, nor one that the
-- receiver has in hand: what the receiver reads is not torn.
pub no_torn_header :
    {headers : ℕ → Task} {q : Queue} {at : ℕ}
    → Reach headers q
    → q.sender ≡ written at
    → (pending q.lock at ≡ false) × (diff_of q.receiver at ≡ false) × (at < 32)
no_torn_header {q = q} {at = at} run w =
    let v = Reach-Inv run in
    let (free, lt) = v.spare at (ap (λ s. writing s at) w ∙ ground arith) in
    let idle_lane = v.stale at free in (idle_lane, ground (arith, v.in_hand at), lt)
