-- ===== src/AbortSignals/Tests.antt =====
-- The pool on a store of one word and three signals.
use knitting.Base.{ℕ, ◌<◌, true, ◌≡◌, ◌⊎◌, refl, some}
use knitting.Base.Lanes.{zeros, is_zero, any_below, isolate, lead, highest}
use knitting.AbortSignals.{Store, create, find_word, take_lane, get_signal}
use knitting.AbortSignals.Pool.{Inv, Fresh, used, get_signal-Fresh}
use knitting.AbortSignals.Flags.{create-Inv}

abbrev new : Store
new = create 1 (some 3) (λ _. zeros)

new-Inv : Inv new
new-Inv = create-Inv 1 (some 3) (λ _. zeros)

first : (get_signal new).0 ≡ 0
unfolding get_signal find_word take_lane is_zero any_below isolate lead highest
first = refl

get_signal_example :
    let (id, s) = get_signal new in
    Fresh new id s ⊎ ((id ≡ 4) × (s ≡ new) × ((j : ℕ) → j < 3 → used new j ≡ true))
get_signal_example = get_signal-Fresh new new-Inv
