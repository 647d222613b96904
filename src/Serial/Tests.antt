-- ===== src/Serial/Tests.antt =====
-- Two lanes; the state is the lanes that have work, and a check ends the lane's work.
use knitting.Base.{ℕ, ◌<◌, ◌≤◌, Bool, false, not, ◌≡◌, ◌≢◌, ◌⊎◌, refl, List, [], arith, ◌==◌, inl}
use knitting.Base.Maps.{put, occurs}
use knitting.Serial.{Serial, start_serial, send}
use knitting.Serial.Watch.{Reach, start, next, sent, busy_lanes}

abbrev finish : ℕ → (ℕ → Bool) → List ℕ × (ℕ → Bool)
finish lane s = ([], put s lane false)

abbrev no_work : ℕ → (ℕ → Bool) → Bool
no_work lane s = not (s lane)

finish-calm :
    (i : ℕ) (s : ℕ → Bool) (j : ℕ)
    → j ≢ i
    → no_work j (finish i s).1 ≡ false
    → (no_work j s ≡ false) ⊎ (0 < occurs j (finish i s).0)
finish-calm i s j ne h = inl (ground (arith, h))

abbrev sent_2 : Serial (ℕ → Bool)
sent_2 = send (record (start_serial (λ lane. false)) { state = λ lane. lane == 2 }) 2

reach2 : Reach finish no_work sent_2
reach2 =
    next (start (λ lane. false) (λ lane. refl))
      (sent 2 (λ lane. lane == 2) (λ j ne h. ground (arith, h)))

busy_lanes_example :
    ((lane : ℕ) → no_work lane sent_2.state ≡ false → occurs lane sent_2.active ≡ 1)
    × ((lane : ℕ) → occurs lane sent_2.active ≤ 1)
    × ((lane : ℕ) → (0 < (send sent_2 lane).micros) × (occurs lane (send sent_2 lane).active ≡ 1))
busy_lanes_example = busy_lanes finish no_work finish-calm reach2
