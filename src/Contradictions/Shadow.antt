-- ===== src/Contradictions/Shadow.antt =====
-- src/contradictions.ts: BoundedShadowScheduler, with the tasks that the event loop has for it. A job
-- is a number; `running` holds the jobs that were started and have not settled, `metrics` what was
-- reported for which job, and `drained` counts the calls of closeAndDrain that have returned.
pub mod Bounds
mod Drained
pub mod Kept
mod Tests
use total_recall.Base.{
  ℕ, zero, suc, ◌+◌, ◌-◌, ◌==◌, ltb, leb, Bool, true, false, not, ◌&&◌, Option, none, some, List,
  [], ◌∷◌, ◌++◌, map, if◌then◌else◌, length,
}
use total_recall.Contradictions.Reasons.{
  ContradictionReason, shadow_shutdown, shadow_saturated, provider_error,
}

pub record Scheduler : Type 0 where
  pub max_in_flight : ℕ
  pub max_queued : ℕ
  pub active : ℕ
  pub accepting : Bool
  pub queue : List ℕ
  pub idle_waiters : ℕ
  pub running : List ℕ
  pub settled : List ℕ
  pub metrics : List (ℕ × ContradictionReason)
  pub drained : ℕ

abbrev pub new_scheduler : ℕ → ℕ → Scheduler
new_scheduler max_in_flight max_queued = record {
  max_in_flight = max_in_flight;
  max_queued = max_queued;
  active = 0;
  accepting = true;
  queue = [];
  idle_waiters = 0;
  running = [];
  settled = [];
  metrics = [];
  drained = 0;
}

unfoldable pub report : ℕ → ContradictionReason → Scheduler → Scheduler
report job reason s = record s { metrics = (job, reason) ∷ s.metrics }

unfoldable pub start : ℕ → Scheduler → Scheduler
start job s = record s { active = s.active + 1; running = job ∷ s.running }

unfoldable pub schedule : ℕ → Scheduler → Bool × Scheduler
unfolding report start
schedule job s =
    if not s.accepting
    then (false, report job shadow_shutdown s)
    else if ltb s.active s.max_in_flight
    then (true, start job s)
    else if leb s.max_queued (length s.queue)
    then (false, report job shadow_saturated s)
    else (true, record s { queue = s.queue ++ job ∷ [] })

unfoldable pub close_and_drain : Scheduler → Scheduler
close_and_drain s =
    if s.active == 0
    then record s {
      accepting = false;
      queue = [];
      metrics = map (λ job. (job, shadow_shutdown)) s.queue ++ s.metrics;
      drained = s.drained + 1;
    }
    else record s {
      accepting = false;
      queue = [];
      metrics = map (λ job. (job, shadow_shutdown)) s.queue ++ s.metrics;
      idle_waiters = s.idle_waiters + 1;
    }

-- `const next = this.accepting ? this.queue.shift() : undefined; if (next) this.start(next)`
unfoldable pub start_next : Scheduler → List ℕ → Scheduler
unfolding start
start_next s [] = s
start_next s (next ∷ rest) = if s.accepting then start next (record s { queue = rest }) else s

unfoldable pub wake_idle : Scheduler → Scheduler
wake_idle s =
    if s.active == 0 && length s.queue == 0
    then record s { drained = s.drained + s.idle_waiters; idle_waiters = 0 }
    else s

-- The i-th of the jobs that run, and the others.
unfoldable pub take_out : List ℕ → ℕ → Option (ℕ × List ℕ)
take_out [] i = none
take_out (job ∷ jobs) zero = some (job, jobs)
take_out (job ∷ jobs) (suc i) = elim (take_out jobs i) [
  | none ↦ none
  | some found ↦ some (found.0, job ∷ found.1)
]

-- The task of a job that runs ends, or rejects.
unfoldable pub finish : ℕ → List ℕ → Bool → Scheduler → Scheduler
unfolding start_next wake_idle report
finish job others rejects s =
    let told = if rejects then report job provider_error s else s in
    wake_idle (
      start_next
        (record told { active = s.active - 1; running = others; settled = job ∷ s.settled })
        s.queue)

unfoldable pub settle : ℕ → Bool → Scheduler → Scheduler
unfolding finish take_out
settle i rejects s = elim (take_out s.running i) [
  | none ↦ s
  | some found ↦ finish found.0 found.1 rejects s
]

pub data ShadowEvent : Type 0 where
  schedules : ℕ → ShadowEvent
  settles : ℕ → Bool → ShadowEvent
  closes : ShadowEvent

unfoldable pub step : ShadowEvent → Scheduler → Scheduler
unfolding schedule settle close_and_drain
step (schedules job) s = (schedule job s).1
step (settles i rejects) s = settle i rejects s
step closes s = close_and_drain s

abbrev pub run : List ShadowEvent → Scheduler → Scheduler
run [] s = s
run (e ∷ es) s = run es (step e s)
