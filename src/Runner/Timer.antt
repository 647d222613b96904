-- ===== src/Runner/Timer.antt =====
-- src/worker/composable-runners.ts: `raceTimeout` settles once, by what comes first.
use knitting.Base.{Bool, true, false, ◌≡◌, refl, List, [], ◌∷◌}
use knitting.Runner.{Race, start_race, timer_fires, promise_settles}

pub data Event : Type 0 where
  timer job : Event

module _ {A : Type 0} (time_error : Bool) (time_value : A) (job_error : Bool) (job_value : A) where
  abbrev happens : Event → Race A → Race A
  happens timer r = timer_fires time_error time_value r
  happens job r = promise_settles job_error job_value r

  abbrev pub race : List Event → Race A → Race A
  race [] r = r
  race (e ∷ es) r = race es (happens e r)

  abbrev outcome_of : Event → Bool × A
  outcome_of timer = (time_error, time_value)
  outcome_of job = (job_error, job_value)

  over :
      (es : List Event) (out : List (Bool × A))
      → (race es (record { done = true; armed = false; settled = out })).settled ≡ out
  over [] out = refl
  over (timer ∷ es) out = over es out
  over (job ∷ es) out = over es out

  -- Whatever happens, and however often, the promise is settled by what happens first and by
  -- nothing later: with the timeout's outcome, or with the job's.
  pub first_settles :
      (e : Event) (es : List Event)
      → ((race (e ∷ es) start_race).settled ≡ outcome_of e ∷ [])
        × ((race [] (start_race {A = A})).settled ≡ [])
  first_settles timer es = (over es (outcome_of timer ∷ []), refl)
  first_settles job es = (over es (outcome_of job ∷ []), refl)
