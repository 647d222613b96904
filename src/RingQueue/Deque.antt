-- ===== src/RingQueue/Deque.antt =====
-- src/ipc/tools/ring-queue.ts: a run of calls on the ring and on a plain list.
use mathlib.Core.List.{tail}
use knitting.Base.{
  ◌+◌, ◌^◌, ◌≤◌, ◌≡◌, refl, ◌∙◌, ap, Option, none, List, [], ◌∷◌, ◌++◌, arith, length,
  length-append, get_elem?,
}
use knitting.RingQueue.{RingQueue, clear, peek, push, unshift, shift, shift_no_clear}
use knitting.RingQueue.Slots.{Holds}
use knitting.RingQueue.Refine.{
  push-Holds, unshift-Holds, shift-Holds, shift_no_clear-Holds, clear-Holds, peek_lem, length-tail,
}

pub data Call (A : Type 0) : Type 0 where
  pushes unshifts : A → Call A
  shifts shifts_no_clear peeks clears : Call A

module _ {A : Type 0} where
  -- What a client of the class sees: the replies, in order.
  pub run : RingQueue A → List (Call A) → List (Option A)
  run q [] = []
  run q (pushes v ∷ cs) = none ∷ run (push q v) cs
  run q (unshifts v ∷ cs) = none ∷ run (unshift q v) cs
  run q (shifts ∷ cs) = (shift q).0 ∷ run (shift q).1 cs
  run q (shifts_no_clear ∷ cs) = (shift_no_clear q).0 ∷ run (shift_no_clear q).1 cs
  run q (peeks ∷ cs) = peek q ∷ run q cs
  run q (clears ∷ cs) = none ∷ run (clear q) cs

  -- The same calls on a double-ended queue.
  pub deque_run : List A → List (Call A) → List (Option A)
  deque_run xs [] = []
  deque_run xs (pushes v ∷ cs) = none ∷ deque_run (xs ++ v ∷ []) cs
  deque_run xs (unshifts v ∷ cs) = none ∷ deque_run (v ∷ xs) cs
  deque_run xs (shifts ∷ cs) = get_elem? xs 0 ∷ deque_run (tail xs) cs
  deque_run xs (shifts_no_clear ∷ cs) = get_elem? xs 0 ∷ deque_run (tail xs) cs
  deque_run xs (peeks ∷ cs) = get_elem? xs 0 ∷ deque_run xs cs
  deque_run xs (clears ∷ cs) = none ∷ deque_run [] cs

  -- A client whose calls and whose elements queued at the start are at most 2^30 together cannot
  -- tell the ring from a double-ended queue: every reply is the same, however the ring wraps and
  -- grows.
  pub run_refines :
      (cs : List (Call A)) {q : RingQueue A} {xs : List A}
      → Holds q xs
      → length xs + length cs ≤ 2 ^ 30
      → run q cs ≡ deque_run xs cs
  unfolding run deque_run
  run_refines [] h s = refl
  run_refines (pushes v ∷ cs) {q} {xs} h s =
      ap (λ t. none ∷ t)
        (run_refines cs (push-Holds h v (omega (arith, h.counted)))
          (omega (arith, length-append xs (v ∷ []))))
  run_refines (unshifts v ∷ cs) h s =
      ap (λ t. none ∷ t)
        (run_refines cs (unshift-Holds h v (omega (arith, h.counted))) (omega arith))
  run_refines (shifts ∷ cs) {q} {xs} h s =
      let (out, rest) = shift-Holds h in
      ap (λ t. t ∷ run (shift q).1 cs) out
      ∙ ap (λ t. get_elem? xs 0 ∷ t) (run_refines cs rest (omega (arith, length-tail xs)))
  run_refines (shifts_no_clear ∷ cs) {q} {xs} h s =
      let (out, rest) = shift_no_clear-Holds h in
      ap (λ t. t ∷ run (shift_no_clear q).1 cs) out
      ∙ ap (λ t. get_elem? xs 0 ∷ t) (run_refines cs rest (omega (arith, length-tail xs)))
  run_refines (peeks ∷ cs) {q} {xs} h s =
      ap (λ t. t ∷ run q cs) (peek_lem h)
      ∙ ap (λ t. get_elem? xs 0 ∷ t) (run_refines cs h (omega arith))
  run_refines (clears ∷ cs) h s = ap (λ t. none ∷ t) (run_refines cs (clear-Holds h) (omega arith))
