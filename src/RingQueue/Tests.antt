-- ===== src/RingQueue/Tests.antt =====
-- The ring on concrete queues.
use knitting.Base.{
  ℕ, zero, suc, ◌+◌, ◌%◌, ◌<◌, ◌≡◌, refl, none, some, List, [], ◌∷◌, arith, get_elem?, get_or,
}
use knitting.RingQueue.{
  RingQueue, create, grow_to, reserve, push, unshift, shift, shift_no_clear, clear, to_array,
  iterate,
}
use knitting.RingQueue.Slots.{Holds}
use knitting.RingQueue.Deque.{
  Call, pushes, unshifts, shifts, shifts_no_clear, peeks, clears, run, deque_run, run_refines,
}

-- A full ring of two slots whose first element stands in the last slot.
abbrev wrapped : RingQueue ℕ
wrapped = record { buf = some 3 ∷ some 1 ∷ []; mask = 1; head = 1; tail = 1; size = 2 }

wrapped_held : (i : ℕ) → i < 2 → get_or wrapped.buf ((1 + i) % 2) none ≡ get_elem? (1 ∷ 3 ∷ []) i
wrapped_held zero lt = refl
wrapped_held (suc zero) lt = refl
wrapped_held (suc (suc i)) lt = absurd (omega arith)

wrapped-Holds : Holds wrapped (1 ∷ 3 ∷ [])
wrapped-Holds = record {
  exp = 1;
  width = refl;
  narrow = omega arith;
  storage = refl;
  head_in = omega arith;
  tail_at = refl;
  counted = refl;
  fits = omega arith;
  held = wrapped_held;
}

grown : to_array (push wrapped 5) ≡ some 1 ∷ some 3 ∷ some 5 ∷ []
unfolding to_array push knitting.RingQueue.grow_if_full grow_to knitting.RingQueue.gather
    knitting.RingQueue.copy
grown = refl

abbrev calls : List (Call ℕ)
calls = pushes 5 ∷ shifts ∷ unshifts 9 ∷ peeks ∷ shifts_no_clear ∷ clears ∷ shifts ∷ []

run_refines_example : run wrapped calls ≡ deque_run (1 ∷ 3 ∷ []) calls
run_refines_example = run_refines calls wrapped-Holds (omega arith)
