-- ===== src/AbortSignals/Pool.antt =====
-- src/shared/abortSignal.ts: `getSignal` and the invariant of the pool.
use native.Mathlib.Nat.{mod-lt}
use knitting.Base.{
  ℕ, zero, suc, ◌+◌, ◌*◌, ◌/◌, ◌%◌, ◌<◌, ◌≤◌, true, false, not, ◌||◌, ◌≡◌, ◌≢◌, ◌⊎◌, refl, ◌∙◌, ap,
  subst, fun_ext, none, some, arith, leb, ◌==◌, Bool-cases, Option-cases, inl, inr,
}
use knitting.Base.Cyclic.{reaches}
use knitting.Base.Count.{count, count-all, count-toggle}
use knitting.Base.Lanes.{
  Word, bit, ◌&◌, ◌^w◌, is_zero, isolate, lead, lead-isolate, isolate-bit, is_zero-lane,
  is_zero-of_lanes, isolate-is_zero, lead-none,
}
use knitting.AbortSignals.Update.{update_or, update_clear}
use knitting.AbortSignals.{
  Store, close_now, free_bits, find_word, take_lane, get_signal, has_aborted,
}

-- Is the signal handed out?
abbrev pub used : Store → Word
used s id = s.in_use (id / 32) (id % 32)

-- Is its flag set?
abbrev pub flagged : Store → Word
flagged s id = s.aborted (id / 32) (id % 32)

pub record Inv (s : Store) : Type 0 where
  pub counted : s.current ≡ count s.max (used s)
  pub room : s.max ≤ s.size * 32
  pub cursor_in : 0 < s.max → s.cursor < s.size

-- `(word & (1 << i)) !== 0` is lane `i`.
pub test_lane : (w : Word) (i : ℕ) → i < 32 → is_zero (w & bit i) ≡ not (w i)
test_lane w i lt = elim (Bool-cases (w i)) [
  | inl e ↦ elim (Bool-cases (is_zero (w & bit i))) [
    | inl z ↦ absurd (ground (arith, is_zero-lane (w & bit i) i z lt))
    | inr z ↦ ground arith
  ]
  | inr e ↦ ground (
    arith,
    is_zero-of_lanes (w & bit i) (λ j p. elim (Bool-cases (j == i)) [
      | inl q ↦ let same : w j ≡ w i = ap w (ground arith) in ground (arith, same)
      | inr q ↦ ground arith
    ]),
  )
]

pub has_aborted_lem : (s : Store) (id : ℕ) → id < s.max → has_aborted s id ≡ flagged s id
unfolding has_aborted
has_aborted_lem s id lt =
    let below : leb s.max id ≡ false = ground arith in
    let not_closed : (id == s.max + 1) ≡ false = ground arith in
    rw (not_closed, below, test_lane (s.aborted (id / 32)) (id % 32) (omega arith)) (ground arith)

-- The word and the lane give the signal.
pub count-ext : (n : ℕ) (f g : Word) → ((i : ℕ) → f i ≡ g i) → count n f ≡ count n g
count-ext n f g e = ap (count n) (fun_ext e)

find_word-some :
    (s : Store) (step n : ℕ) {w : ℕ}
    → 0 < s.size
    → find_word s step n ≡ some w
    → (w < s.size) × (w * 32 < s.max) × (is_zero (free_bits s w) ≡ false)
unfolding find_word
find_word-some s step zero pos h = absurd (cc)
find_word-some s step (suc n) {w} pos h =
    let word = (s.cursor + step) % s.size in
    elim (Bool-cases (leb s.max (word * 32))) [
      | inl e ↦ find_word-some s (suc step) n {w = w} pos (rw e at h)
      | inr e ↦ elim (Bool-cases (is_zero (free_bits s word))) [
        | inl z ↦ find_word-some s (suc step) n {w = w} pos (rw (e, z) at h)
        | inr z ↦
            let at : word ≡ w = ground arith in
            rw (← at) (mod-lt (s.cursor + step) pos, ground arith, z)
      ]
    ]

find_word-none :
    (s : Store) (step n : ℕ)
    → find_word s step n ≡ none
    → (k : ℕ) → step ≤ k
    → k < step + n
    → let word = (s.cursor + k) % s.size in
      leb s.max (word * 32) || is_zero (free_bits s word) ≡ true
unfolding find_word
find_word-none s step zero h k low high = absurd (omega arith)
find_word-none s step (suc n) h k low high =
    let word = (s.cursor + step) % s.size in
    elim (Bool-cases (leb s.max (word * 32) || is_zero (free_bits s word))) [
      | inl e ↦ elim (Bool-cases (k == step)) [
        | inl f ↦ let at : k ≡ step = ground arith in rw at e
        | inr f ↦ find_word-none s (suc step) n (ground arith) k (ground arith) (omega arith)
      ]
      | inr e ↦ absurd (ground arith)
    ]

-- Where no word has a free lane, every signal is handed out.
no_word-full :
    (s : Store) → Inv s → find_word s 0 s.size ≡ none → (id : ℕ) → id < s.max → used s id ≡ true
no_word-full s v h id lt =
    let in_size : id / 32 < s.size = omega (arith, v.room) in
    let (k, kl, at) = reaches s.cursor s.size (id / 32) (v.cursor_in (omega arith)) in_size in
    let word_full : leb s.max (id / 32 * 32) || is_zero (free_bits s (id / 32)) ≡ true =
      subst (λ w. leb s.max (w * 32) || is_zero (free_bits s w) ≡ true) at
        (find_word-none s 0 s.size h k (omega arith) (omega arith)) in
    ground (arith, is_zero-lane (free_bits s (id / 32)) (id % 32))

-- What `getSignal` gives: a signal that was not in use, now in use and not aborted, every other as
-- it was; or the sentinel, with every signal in use.
pub record Fresh (s : Store) (id : ℕ) (s' : Store) : Type 0 where
  pub below : id < s.max
  pub idle : used s id ≡ false
  pub taken : used s' id ≡ true
  pub quiet : has_aborted s' id ≡ false
  pub others :
      (j : ℕ) → j < s.max → j ≢ id → (used s' j ≡ used s j) × (has_aborted s' j ≡ has_aborted s j)
  pub inv : Inv s'

take_lane-Fresh :
    (s : Store) (word lane : ℕ)
    → Inv s
    → word < s.size
    → lead (isolate (free_bits s word)) ≡ some lane
    → Fresh s (take_lane s word lane).0 (take_lane s word lane).1
unfolding take_lane
take_lane-Fresh s word lane v ws h =
    let (lt, f, low) = lead-isolate (free_bits s word) {i = lane} h in
    let mask = isolate (free_bits s word) in
    let bits = λ (j : ℕ) (p : j < 32). isolate-bit (free_bits s word) {i = lane} h j p in
    let s' = (take_lane s word lane).1 in
    let id = word * 32 + lane in
    let w_of : id / 32 ≡ word = omega arith in
    let l_of : id % 32 ≡ lane = omega arith in
    let is_free : used s id ≡ false =
      ap (λ w. s.in_use w (id % 32)) w_of ∙ ap (λ l. s.in_use word l) l_of ∙ ground arith in
    let below : id < s.max = ground arith in
    let now = λ (j : ℕ). update_or s.in_use word lane mask j lt bits in
    let flag = λ (j : ℕ). update_clear s.aborted word lane mask j lt bits in
    let own : (id == id) ≡ true = ground arith in
    let taken : used s' id ≡ true = now id ∙ rw own (ground arith) in
    let less : count s.max (used s' ^w bit id) ≡ count s.max (used s) =
      count-ext s.max (used s' ^w bit id) (used s) (λ j. elim (Bool-cases (j == id)) [
        | inl e ↦
            let same : used s j ≡ used s id = ap (used s) (ground arith) in
            ground (arith, now j, same)
        | inr e ↦ ground (arith, now j)
      ]) in
    record {
      below = below;
      idle = is_free;
      taken = taken;
      quiet = has_aborted_lem s' id below ∙ flag id ∙ rw own (ground arith);
      others = λ j jl ne. (
        ground (arith, now j),
        has_aborted_lem s' j jl ∙ flag j ∙ ground (arith, has_aborted_lem s j jl),
      );
      inv = record {
        counted = ground (arith, v.counted, count-toggle s.max id (used s') below taken, less);
        room = v.room;
        cursor_in = λ p. mod-lt (word + 1) (omega arith);
      };
    }

-- On a sound store, `getSignal` hands out a signal that was free, and clears its flag; or it answers
-- `closeNow`, and then all `max` signals are handed out.
pub get_signal-Fresh :
    (s : Store)
    → Inv s
    → let (id, s') = get_signal s in
      Fresh s id s' ⊎ ((id ≡ close_now s) × (s' ≡ s) × ((j : ℕ) → j < s.max → used s j ≡ true))
unfolding get_signal
get_signal-Fresh s v = elim (Bool-cases (leb s.max s.current)) [
  | inl e ↦ rw e (inr (refl, refl, count-all s.max (used s) (ground (arith, v.counted))))
  | inr e ↦ elim (Option-cases (find_word s 0 s.size)) [
    | inl n ↦ rw (e, n, get_signal) (inr (refl, refl, no_word-full s v n))
    | inr (word, f) ↦
        let (ws, below, some_free) =
          find_word-some s 0 s.size {w = word} (ground (arith, v.room)) f in
        elim (Option-cases (lead (isolate (free_bits s word)))) [
          | inl n ↦ absurd (
              ground (
                arith,
                isolate-is_zero (free_bits s word),
                is_zero-of_lanes (isolate (free_bits s word))
                    (lead-none (isolate (free_bits s word)) n),
              ))
          | inr (lane, l) ↦ rw (e, f, l, get_signal) (inl (take_lane-Fresh s word lane v ws l))
        ]
  ]
]
