-- ===== src/Region/Tests.antt =====
-- The allocator on concrete registries.
use knitting.Base.{ℕ, ◌+◌, ◌≤◌, ◌≡◌, ◌⊎◌, true, false, refl, none, some, [], ◌∷◌, arith}
use knitting.Base.Lanes.{zeros, is_zero, any_below, isolate, lead, highest, same}
use knitting.Header.{Task}
use knitting.Region.{Registry, empty, entry, start_of, slot_of, aligned, free, insert_at}
use knitting.Region.Allocate.{
  exact_fit, freed, alloc_task, find_and_insert, claim, finish, insert_plain, free_slot, find_gap,
}
use knitting.Region.Owners.{place}
use knitting.Region.Layout.{arena}
use knitting.Region.Claims.{live, Allocated}
use knitting.Region.Entry.{aligned_lem}
use knitting.Region.Safety.{Served}
use knitting.Region.Usage.{Published, Room, alloc_task-Served}
use knitting.Region.Lifetime.{
  Reach, start, later, alloc, release, ProperRun, Reach-Inv, Reach-disjoint, Step-stable,
  alloc_task-succeeds,
}

abbrev job : ℕ → Task
job len = record {
  flags_to_host = 0;
  id = 0;
  type = 0;
  start = 0;
  end_ = 0;
  payload_len = len;
  slot_buffer = 0xFFFFFFE7;
  local = zeros;
}

-- Two regions, of one and of two cache lines.
abbrev two : Registry
two = (alloc_task (alloc_task empty (job 10)).reg (job 100)).reg

two_table : two.table ≡ 0 ∷ 65 ∷ []
unfolding alloc_task find_and_insert claim aligned finish insert_plain free_slot is_zero any_below
    isolate lead highest find_gap insert_at slot_of start_of entry same freed
two_table = refl

Room-first : (len : ℕ) → len ≤ 1000 → Room empty (job len)
unfolding aligned
Room-first len h = omega (arith, aligned_lem len (omega arith))

alloc_task-Served_example :
    Served empty (job 10) (aligned 10) (alloc_task empty (job 10))
    × Published (alloc_task empty (job 10)).reg
alloc_task-Served_example =
    alloc_task-Served empty (job 10) (Reach-Inv start tt).0 refl (Room-first 10 (omega arith))

abbrev one : Registry
one = (alloc_task empty (job 10)).reg

one-Reach : Reach one
one-Reach = later start (alloc (job 10))

one-Proper : ProperRun one-Reach
unfolding one-Reach
one-Proper = (tt, Room-first 10 (omega arith))

Room-second : Room one (job 100)
unfolding alloc_task find_and_insert claim aligned finish insert_plain free_slot is_zero any_below
    isolate lead highest find_gap insert_at slot_of start_of entry same freed
Room-second = omega arith

two-Reach : Reach two
two-Reach = later one-Reach (alloc (job 100))

two-Proper : ProperRun two-Reach
unfolding two-Reach
two-Proper = (one-Proper, Room-second)

lanes_live : (live two 0 ≡ true) × (live two 1 ≡ true) × (live two 2 ≡ false)
unfolding alloc_task find_and_insert claim aligned finish insert_plain free_slot is_zero any_below
    isolate lead highest find_gap insert_at slot_of start_of entry same freed
lanes_live = (refl, refl, refl)

places : (place two.table 0 ≡ some 0) × (place two.table 1 ≡ some 64)
unfolding alloc_task find_and_insert claim aligned finish insert_plain free_slot is_zero any_below
    isolate lead highest find_gap insert_at slot_of start_of entry same freed
places = (refl, refl)

Reach-disjoint_example :
    (0 + two.sizes 0 ≤ arena)
    × (64 + two.sizes 1 ≤ arena)
    × ((0 + two.sizes 0 ≤ 64) ⊎ (64 + two.sizes 1 ≤ 0))
Reach-disjoint_example =
    Reach-disjoint two-Reach two-Proper 0 1 0 64 (omega arith) places.0 places.1

Step-stable_example :
    (live (free two 0) 1 ≡ true)
    × (place (free two 0).table 1 ≡ place two.table 1)
    × ((free two 0).sizes 1 ≡ two.sizes 1)
Step-stable_example =
    Step-stable two-Reach two-Proper (release 0) (omega arith, lanes_live.0) 1 (omega arith)
      lanes_live.1

Room-third : Room two (job 40)
unfolding alloc_task find_and_insert claim aligned finish insert_plain free_slot is_zero any_below
    isolate lead highest find_gap insert_at slot_of start_of entry same freed
Room-third = omega arith

nothing_freed : exact_fit (freed two) two.sizes (aligned 40) two.table ≡ none
unfolding alloc_task find_and_insert claim aligned finish insert_plain free_slot is_zero any_below
    isolate lead highest find_gap insert_at slot_of start_of entry same freed exact_fit
nothing_freed = refl

alloc_task-succeeds_example : (slot : ℕ) × Allocated two (aligned 40) (alloc_task two (job 40)) slot
alloc_task-succeeds_example =
    alloc_task-succeeds two (job 40) 2 two-Reach two-Proper Room-third (omega arith) lanes_live.2
      nothing_freed
