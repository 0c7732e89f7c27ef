-- ===== src/Contradictions/Shadow/Tests.antt =====
-- Runs of the scheduler.
use total_recall.Base.{ℕ, ◌+◌, ◌≡◌, refl, true, false, List, [], ◌∷◌, arith, Bool}
use total_recall.Contradictions.Reasons.{shadow_shutdown, shadow_saturated, provider_error}
use total_recall.Contradictions.Shadow.{
  Scheduler, ShadowEvent, schedules, settles, closes, report, start, schedule, start_next,
  wake_idle, close_and_drain, take_out, finish, settle, step, run, new_scheduler,
}
use total_recall.Contradictions.Shadow.Bounds.{IsBounded, run-IsBounded}
use total_recall.Contradictions.Shadow.Drained.{settle_all, settle_all-drains}
use total_recall.Contradictions.Shadow.Kept.{places, asked, run-keeps_jobs}

-- Two slots and one place: the fourth job is refused, the third starts when the first rejects.
abbrev busy : List ShadowEvent
busy =
    schedules 1
    ∷ schedules 2
    ∷ schedules 3
    ∷ schedules 4
    ∷ settles 1 true
    ∷ schedules 5
    ∷ closes
    ∷ []

abbrev closing : Scheduler
closing = run busy (new_scheduler 2 1)

closing_run :
    (closing.running ≡ 3 ∷ 2 ∷ [])
    × (closing.metrics ≡ (5, shadow_shutdown) ∷ (1, provider_error) ∷ (4, shadow_saturated) ∷ [])
    × (closing.idle_waiters ≡ 1)
    × (closing.drained ≡ 0)
unfolding step schedule settle close_and_drain take_out finish report start start_next wake_idle
closing_run = (refl, refl, refl, refl)

run-IsBounded_example : IsBounded (run busy (new_scheduler 2 1))
run-IsBounded_example = run-IsBounded busy 2 1 (omega arith)

abbrev both_end : List (ℕ × Bool)
both_end = (1, false) ∷ (0, true) ∷ []

settle_all-drains_example :
    ((settle_all both_end closing).active ≡ 0)
    × ((settle_all both_end closing).idle_waiters ≡ 0)
    × ((settle_all both_end closing).drained ≡ closing.drained + closing.idle_waiters)
unfolding step schedule settle close_and_drain take_out finish report start start_next wake_idle
settle_all-drains_example =
    settle_all-drains both_end closing (omega arith) (run-IsBounded busy 2 1 (omega arith)) refl
      (omega arith, (omega arith, refl))

run-keeps_jobs_example : places 4 (run busy (new_scheduler 2 1)) ≡ asked 4 busy
run-keeps_jobs_example = run-keeps_jobs 4 busy 2 1
