-- ===== src/AbortSignals/Flags.antt =====
-- src/shared/abortSignal.ts: `setSignal`, `abortAll`, `resetSignal` and `closeNow`.
use knitting.Base.{
  ℕ, ◌+◌, ◌-◌, ◌*◌, ◌/◌, ◌%◌, ◌<◌, true, false, not, ◌&&◌, ◌||◌, ◌≡◌, ◌≢◌, refl, sym, ◌∙◌, ap,
  arith, leb, ltb, ◌==◌, if◌then◌else◌, Bool-cases, inl, inr, Option, none, some,
}
use knitting.Base.Count.{count, count-toggle, count-of_none}
use knitting.Base.Lanes.{Word, zeros, bit, not_w, ◌&◌, ◌∣w◌, ◌^w◌, is_zero}
use knitting.AbortSignals.{
  Store, limit, create, close_now, update, exhausted, done, set_signal, abort_all, has_aborted,
  reset_signal,
}
use knitting.AbortSignals.Update.{update_or, update_clear}
use knitting.AbortSignals.Pool.{Inv, used, flagged, test_lane, has_aborted_lem, count-ext}

-- A new store satisfies the invariant, whatever the limit asked for.
pub create-Inv :
    (size : ℕ) (max_signals : Option ℕ) (aborted : ℕ → Word) → Inv (create size max_signals aborted)
create-Inv size none aborted = record {
  counted = sym (count-of_none (size * 32) zeros (λ i lt. refl));
  room = omega arith;
  cursor_in = λ p. omega arith;
}
create-Inv size (some k) aborted = record {
  counted = sym (count-of_none (limit size (some k)) zeros (λ i lt. refl));
  room = ground arith;
  cursor_in = λ p. ground arith;
}

module _ (s : Store) (id : ℕ) (below : id < s.max) where
  not_sentinel : (id == s.max + 1) ≡ false
  not_sentinel = ground arith

  valid : leb s.max id ≡ false
  valid = ground arith

  whole : id / 32 * 32 + id % 32 ≡ id
  whole = omega arith

  one_lane : (i : ℕ) → i < 32 → bit (id % 32) i ≡ (i == id % 32)
  one_lane i lt = refl

  -- For a signal of the pool, `setSignal` succeeds and flags that signal; it touches no other,
  -- and changes nothing of what is in use.
  set_signal_lem :
      let (r, s') = set_signal s id in
      (r ≡ done)
      × ((j : ℕ) → j < s.max → has_aborted s' j ≡ has_aborted s j || (j == id))
      × ((j : ℕ) → used s' j ≡ used s j)
  unfolding set_signal
  set_signal_lem =
      let s' = record s {
        aborted = update s.aborted (id / 32) (s.aborted (id / 32) ∣w bit (id % 32));
      } in
      rw (not_sentinel, valid)
        (
          refl,
          λ j jl.
              has_aborted_lem s' j jl
              ∙ update_or s.aborted (id / 32) (id % 32) (bit (id % 32)) j (omega arith) one_lane
              ∙ ap (λ x. flagged s j || (j == x)) whole
              ∙ ground (arith, has_aborted_lem s j jl),
          λ j. refl,
        )

  -- For a signal of a sound pool, `resetSignal` answers whether it was in use; it is then neither
  -- in use nor, if it was, aborted, and no other signal is touched.
  reset_signal_lem :
      Inv s
      → let (r, s') = reset_signal s id in
        (r ≡ used s id)
        × Inv s'
        × (used s' id ≡ false)
        × (has_aborted s' id ≡ has_aborted s id && not r)
        × ((j : ℕ)
            → j < s.max
            → j ≢ id
            → (used s' j ≡ used s j) × (has_aborted s' j ≡ has_aborted s j))
  unfolding reset_signal
  reset_signal_lem v =
      let test = test_lane (s.in_use (id / 32)) (id % 32) (omega arith) in
      elim (Bool-cases (used s id)) [
        | inl e ↦
            let some_used : is_zero (s.in_use (id / 32) & bit (id % 32)) ≡ false = ground arith in
            let s' : Store = record s {
              in_use = update s.in_use (id / 32) (s.in_use (id / 32) & not_w (bit (id % 32)));
              current = s.current - 1;
              cursor = id / 32;
              aborted = update s.aborted (id / 32) (s.aborted (id / 32) & not_w (bit (id % 32)));
            } in
            let now : (j : ℕ) → used s' j ≡ used s j && not (j == id) = λ j.
              update_clear s.in_use (id / 32) (id % 32) (bit (id % 32)) j (omega arith) one_lane
              ∙ ap (λ x. used s j && not (j == x)) whole in
            let flag : (j : ℕ) → flagged s' j ≡ flagged s j && not (j == id) = λ j.
              update_clear s.aborted (id / 32) (id % 32) (bit (id % 32)) j (omega arith) one_lane
              ∙ ap (λ x. flagged s j && not (j == x)) whole in
            let own : (id == id) ≡ true = ground arith in
            let gone : used s' id ≡ false = now id ∙ rw own (ground arith) in
            rw (not_sentinel, valid, some_used, e)
              (
                refl,
                record {
                  counted = ground (
                    arith,
                    v.counted,
                    count-toggle s.max id (used s) below e,
                    count-ext s.max (used s') (used s ^w bit id) (λ j. elim (Bool-cases (j == id)) [
                      | inl q ↦
                          let same : used s j ≡ used s id = ap (used s) (ground arith) in
                          ground (arith, now j, same)
                      | inr q ↦ ground (arith, now j)
                    ]),
                  );
                  room = v.room;
                  cursor_in = λ p. omega (arith, v.room);
                },
                gone,
                has_aborted_lem s' id below
                    ∙ flag id
                    ∙ rw own (ground (arith, has_aborted_lem s id below)),
                λ j jl ne. (
                  ground (arith, now j),
                  has_aborted_lem s' j jl ∙ flag j ∙ ground (arith, has_aborted_lem s j jl),
                ),
              )
        | inr e ↦
            let none_used : is_zero (s.in_use (id / 32) & bit (id % 32)) ≡ true = ground arith in
            rw (not_sentinel, valid, none_used, e)
              (refl, v, refl, ground arith, λ j jl ne. (refl, refl))
      ]

-- On a sound pool, `abortAll` flags the signals that are in use and no other, and answers their
-- number.
abort_all_lem :
    (s : Store)
    → Inv s
    → (j : ℕ) → j < s.max
    → (has_aborted (abort_all s).1 j ≡ used s j) × ((abort_all s).0 ≡ count s.max (used s))
unfolding abort_all
abort_all_lem s v j jl =
    let s' = record s {
      aborted = λ word. if ltb word s.size then s.in_use word else s.aborted word;
    } in
    let inside : ltb (j / 32) s.size ≡ true = ground (arith, v.room) in
    (has_aborted_lem s' j jl ∙ rw inside refl, v.counted)

-- `closeNow` counts as aborted in every store; `setSignal` and `resetSignal` refuse it and change
-- nothing.
sentinel :
    (s : Store)
    → (has_aborted s (close_now s) ≡ true)
      × (set_signal s (close_now s) ≡ (exhausted, s))
      × (reset_signal s (close_now s) ≡ (false, s))
unfolding has_aborted set_signal reset_signal
sentinel s = let same : (s.max + 1 == s.max + 1) ≡ true = ground arith in rw same (refl, refl, refl)
