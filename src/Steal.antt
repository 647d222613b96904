-- ===== src/Steal.antt =====
-- src/memory/lock.ts: `decodeSteal`, by which several receivers share the lanes of one sender.
--
-- The lanes are split in regions. Each consumer has a word of intents in shared memory, written by
-- it alone; all its accesses are sequentially consistent. A step is one access of one consumer. The
-- mask of live consumers only loses bits; a consumer that has been deactivated executes no more.
pub mod Choice
mod Invariant
mod Moves
pub mod Exclusion
mod Tests
use knitting.Base.{
  ℕ, suc, ◌+◌, ◌<◌, Bool, true, false, not, ◌&&◌, ◌||◌, ◌≡◌, ◌≢◌, Option, some, ltb, ◌==◌,
  if◌then◌else◌,
}
use knitting.Base.Lanes.{Word, zeros, ones, bit, ◌∣w◌}

-- Where a consumer is. `live` is the mask that it has read, `region` the one it wants, `peer` the
-- next peer whose intents it reads.
pub data Pc : Type 0 where
  idle : Pc
  chosen : (live : Word) (region : ℕ) → Pc
  checking : (live : Word) (region peer : ℕ) (senior junior : Bool) → Pc
  waiting : (live : Word) (region peer : ℕ) → Pc
  claimed : (region : ℕ) → Pc

-- `cleared c d`: since its last intent, `c` has read that `d` does not want the same region.
pub record Arena : Type 0 where
  pub want : ℕ → Word
  pub live : Word
  pub pc : ℕ → Pc
  pub cleared : ℕ → Word

abbrev pub put : {A : Type 0} → (ℕ → A) → ℕ → A → ℕ → A
put f k v i = if i == k then v else f i

abbrev pub initial : Arena
initial = record { want = λ _. zeros; live = ones; pc = λ _. idle; cleared = λ _. zeros }

-- One access of consumer `c` of `n`: its place, its intents and what it has cleared after it.
pub data Move (n : ℕ) (a : Arena) (c : ℕ) : Pc → Word → Word → Type 0 where
  choose : (region : ℕ) → a.pc c ≡ idle → Move n a c (chosen a.live region) (a.want c) (a.cleared c)
  intend :
      {live : Word} {region : ℕ}
      → a.pc c ≡ chosen live region
      → Move n a c (checking live region 0 false false) (bit region) zeros
  -- itself, or a peer that was not live
  pass :
      {live : Word} {region peer : ℕ} {senior junior : Bool}
      → a.pc c ≡ checking live region peer senior junior
      → peer < n
      → (peer == c) || not (live peer) ≡ true
      → Move n a c (checking live region (suc peer) senior junior) (a.want c) (a.cleared c)
  conflict :
      {live : Word} {region peer : ℕ} {senior junior : Bool}
      → a.pc c ≡ checking live region peer senior junior
      → peer < n
      → peer ≢ c
      → live peer ≡ true
      → a.want peer region ≡ true
      → Move n a c
          (checking live region (suc peer) (senior || ltb peer c) (junior || ltb c peer))
          (a.want c)
          (a.cleared c)
  clear :
      {live : Word} {region peer : ℕ} {senior junior : Bool}
      → a.pc c ≡ checking live region peer senior junior
      → peer < n
      → peer ≢ c
      → live peer ≡ true
      → a.want peer region ≡ false
      → Move n a c
          (checking live region (suc peer) senior junior)
          (a.want c)
          (a.cleared c ∣w bit peer)
  -- a junior withdraws for a senior
  withdraw :
      {live : Word} {region : ℕ} {junior : Bool}
      → a.pc c ≡ checking live region n true junior
      → Move n a c idle zeros (a.cleared c)
  -- a senior waits for its juniors
  wait :
      {live : Word} {region : ℕ}
      → a.pc c ≡ checking live region n false true
      → Move n a c (waiting a.live region (suc c)) (a.want c) (a.cleared c)
  enter :
      {live : Word} {region : ℕ}
      → a.pc c ≡ checking live region n false false
      → Move n a c (claimed region) (a.want c) (a.cleared c)
  -- the loop of `stealJuniorWants`
  wait_pass :
      {live : Word} {region peer : ℕ}
      → a.pc c ≡ waiting live region peer
      → peer < n
      → live peer ≡ false
      → Move n a c (waiting live region (suc peer)) (a.want c) (a.cleared c)
  wait_clear :
      {live : Word} {region peer : ℕ}
      → a.pc c ≡ waiting live region peer
      → peer < n
      → live peer ≡ true
      → a.want peer region ≡ false
      → Move n a c (waiting live region (suc peer)) (a.want c) (a.cleared c ∣w bit peer)
  wait_again :
      {live : Word} {region peer : ℕ}
      → a.pc c ≡ waiting live region peer
      → peer < n
      → live peer ≡ true
      → a.want peer region ≡ true
      → Move n a c (waiting a.live region (suc c)) (a.want c) (a.cleared c)
  wait_enter :
      {live : Word} {region : ℕ}
      → a.pc c ≡ waiting live region n
      → Move n a c (claimed region) (a.want c) (a.cleared c)
  -- after the acknowledgement, or where nothing was left to take
  retire : {region : ℕ} → a.pc c ≡ claimed region → Move n a c idle zeros (a.cleared c)

pub data Step (n : ℕ) (a : Arena) : Arena → Type 0 where
  move :
      (c : ℕ) {pc : Pc} {want cleared : Word}
      → c < n
      → a.live c ≡ true
      → Move n a c pc want cleared
      → Step n a (record a {
        want = put a.want c want;
        pc = put a.pc c pc;
        cleared = put a.cleared c cleared;
      })
  -- `deactivateStealConsumer`
  deactivate : (c : ℕ) → Step n a (record a { live = λ i. a.live i && not (i == c) })

pub data Reach (n : ℕ) : Arena → Type 0 where
  start : Reach n initial
  later : {a a' : Arena} → Reach n a → Step n a a' → Reach n a'
