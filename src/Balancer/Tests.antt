-- ===== src/Balancer/Tests.antt =====
-- The balancer on concrete lanes.
use knitting.Base.{◌<◌, ◌≡◌, ◌≢◌, refl, [], ◌∷◌, some, none, arith, ◌==◌}
use knitting.Balancer.{
  round_robin, first_idle, Now, Manager, invoke, settle, refused, no_threads, manager_method,
}
use knitting.Balancer.Fair.{run_robin, round_robin_lem, invoke-gated}

-- Lane 2 is idle.
abbrev now : Now
now = record { idle = λ lane. lane == 2; random = λ n. 0 }

abbrev gated : Manager
gated = record {
  strategy = first_idle;
  lanes = 4;
  gate = some (record { index = 1; threshold = 3 });
  all_cursor = 0;
  worker_cursor = 1;
  in_flight = 0;
}

no_lanes : manager_method 0 round_robin 2 none ≡ refused no_threads
unfolding manager_method
no_lanes = refl

round_robin_example : run_robin 3 1 now 4 ≡ 1 ∷ 2 ∷ 0 ∷ 1 ∷ []
round_robin_example = round_robin_lem 3 1 4 now (omega arith) (omega arith)

invoke-gated_example :
    let (lane, m) = invoke gated now in
    (lane ≢ 1) × (lane < 4) × (m.in_flight ≡ 1) × ((settle m).in_flight ≡ 0)
invoke-gated_example =
    invoke-gated gated now (record { index = 1; threshold = 3 }) refl (omega arith) (omega arith)
      (omega arith) (omega arith)
