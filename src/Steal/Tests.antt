-- ===== src/Steal/Tests.antt =====
-- Two consumers that claim the two halves of the lanes.
use knitting.Base.{ℕ, ◌<◌, true, false, not, ◌&&◌, ◌≡◌, refl, some, none, arith, ◌==◌}
use knitting.Base.Lanes.{Word, zeros, ones, bit, ◌∣w◌, is_zero, any_below}
use knitting.Steal.{
  Pc, chosen, checking, claimed, Arena, put, initial, choose, intend, pass, clear, enter, move,
  Reach, start, later,
}
use knitting.Steal.Choice.{
  lane_mask, View, pending_regions, senior_intent, peer_intent, clean, search, choose_region,
  choose_region_sound,
}
use knitting.Steal.Exclusion.{mutual_exclusion, claims_disjoint}

abbrev after : Arena → ℕ → Pc → Word → Word → Arena
after a c pc want cleared = record a {
  want = put a.want c want;
  pc = put a.pc c pc;
  cleared = put a.cleared c cleared;
}

-- Consumer 0 claims region 0, then consumer 1 claims region 1.
abbrev s1 : Arena
s1 = after initial 0 (chosen initial.live 0) (initial.want 0) (initial.cleared 0)

abbrev s2 : Arena
s2 = after s1 0 (checking initial.live 0 0 false false) (bit 0) zeros

abbrev s3 : Arena
s3 = after s2 0 (checking initial.live 0 1 false false) (s2.want 0) (s2.cleared 0)

abbrev s4 : Arena
s4 = after s3 0 (checking initial.live 0 2 false false) (s3.want 0) (s3.cleared 0 ∣w bit 1)

abbrev s5 : Arena
s5 = after s4 0 (claimed 0) (s4.want 0) (s4.cleared 0)

abbrev t1 : Arena
t1 = after s5 1 (chosen s5.live 1) (s5.want 1) (s5.cleared 1)

abbrev t2 : Arena
t2 = after t1 1 (checking s5.live 1 0 false false) (bit 1) zeros

abbrev t3 : Arena
t3 = after t2 1 (checking s5.live 1 1 false false) (t2.want 1) (t2.cleared 1 ∣w bit 0)

abbrev t4 : Arena
t4 = after t3 1 (checking s5.live 1 2 false false) (t3.want 1) (t3.cleared 1)

abbrev t5 : Arena
t5 = after t4 1 (claimed 1) (t4.want 1) (t4.cleared 1)

reach_s : Reach 2 s5
reach_s =
    later
      (later
        (later
          (later (later start (move 0 (omega arith) refl (choose 0 refl)))
            (move 0 (omega arith) refl (intend refl)))
          (move 0 (omega arith) refl (pass refl (omega arith) refl)))
        (move 0 (omega arith) refl (clear refl (omega arith) (omega arith) refl refl)))
      (move 0 (omega arith) refl (enter refl))

reach_t : Reach 2 t5
reach_t =
    later
      (later
        (later
          (later (later reach_s (move 1 (omega arith) refl (choose 1 refl)))
            (move 1 (omega arith) refl (intend refl)))
          (move 1 (omega arith) refl (clear refl (omega arith) (omega arith) refl refl)))
        (move 1 (omega arith) refl (pass refl (omega arith) refl)))
      (move 1 (omega arith) refl (enter refl))

mutual_exclusion_example : ◌≡◌ {A = ℕ} 0 0
mutual_exclusion_example =
    mutual_exclusion reach_t 0 0 0 (omega arith) (omega arith) refl refl refl refl

claims_disjoint_example : lane_mask 16 0 20 && lane_mask 16 1 20 ≡ false
claims_disjoint_example =
    claims_disjoint reach_t 16 0 1 0 1 20 (omega arith) (omega arith) (omega arith) refl refl refl
      refl

-- Consumer 1 of two, with the lanes 3 and 20 pending, while consumer 0 wants region 0.
abbrev view : View
view = record {
  consumers = 2;
  self = 1;
  lanes = 16;
  regions = 2;
  cursor = 0;
  live = ones;
  want = λ c r. (c == 0) && (r == 0);
  pending = bit 3 ∣w bit 20;
}

chosen_one : choose_region view ≡ some 1
unfolding choose_region search is_zero any_below
chosen_one = refl

choose_region-sound_example :
    (1 < 2)
    × (pending_regions view 1 ≡ true)
    × (senior_intent view 1 ≡ false)
    × (not (is_zero (clean view)) && peer_intent view 1 ≡ false)
choose_region-sound_example =
    choose_region_sound view (omega arith) (omega arith) (omega arith) {r = 1} chosen_one

abbrev blocked : View
blocked = record view { pending = bit 3 }

blocked-none : choose_region blocked ≡ none
unfolding choose_region search is_zero any_below
blocked-none = refl
