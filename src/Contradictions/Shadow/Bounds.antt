-- ===== src/Contradictions/Shadow/Bounds.antt =====
-- src/contradictions.ts: what the scheduler of shadow classifications never exceeds.
use total_recall.Base.{
  ℕ, zero, suc, ◌≤◌, ◌<◌, ◌≡◌, refl, Bool, false, some, List, [], ◌∷◌, arith, length, length-append,
  Option-cases, inl, inr,
}
use total_recall.Contradictions.Shadow.{
  Scheduler, ShadowEvent, schedules, settles, closes, report, start, schedule, start_next,
  wake_idle, close_and_drain, take_out, finish, settle, step, run, new_scheduler,
}

-- The jobs that run are counted and fit their slots, those that wait fit the queue; a job waits only
-- while every slot is taken, none after the close, and a drain waits only for a job that runs.
abbrev pub IsBounded : Scheduler → Type 0
IsBounded s =
    (length s.running ≡ s.active)
    × (s.active ≤ s.max_in_flight)
    × (length s.queue ≤ s.max_queued)
    × (0 < length s.queue → s.active ≡ s.max_in_flight)
    × (s.accepting ≡ false → length s.queue ≡ 0)
    × (0 < s.idle_waiters → 0 < s.active)

pub length-take_out :
    (jobs : List ℕ) (i job : ℕ) (others : List ℕ)
    → take_out jobs i ≡ some (job, others)
    → length jobs ≡ suc (length others)
unfolding take_out
length-take_out [] i job others e = cc
length-take_out (j ∷ jobs) zero job others e = ground arith
length-take_out (j ∷ jobs) (suc i) job others e = elim (Option-cases (take_out jobs i)) [
  | inl missing ↦ absurd (ground arith)
  | inr (found, got) ↦ ground (arith, length-take_out jobs i found.0 found.1)
]

schedule-IsBounded : (job : ℕ) (s : Scheduler) → IsBounded s → IsBounded (schedule job s).1
unfolding schedule report start
schedule-IsBounded job s h = ground (arith, length-append s.queue (job ∷ []))

close-IsBounded : (s : Scheduler) → IsBounded s → IsBounded (close_and_drain s)
unfolding close_and_drain
close-IsBounded s h = ground arith

finish-IsBounded :
    (job : ℕ) (others : List ℕ) (rejects : Bool) (s : Scheduler)
    → 0 < s.max_in_flight
    → length s.running ≡ suc (length others)
    → IsBounded s
    → IsBounded (finish job others rejects s)
unfolding finish report start_next start wake_idle
finish-IsBounded job others rejects s slots out h = ground arith

step-max_in_flight : (e : ShadowEvent) (s : Scheduler) → (step e s).max_in_flight ≡ s.max_in_flight
unfolding step schedule settle close_and_drain finish report start_next start wake_idle
step-max_in_flight (schedules job) s = ground arith
step-max_in_flight (settles i rejects) s = ground arith
step-max_in_flight closes s = ground arith

pub settle-IsBounded :
    (i : ℕ) (rejects : Bool) (s : Scheduler)
    → 0 < s.max_in_flight
    → IsBounded s
    → IsBounded (settle i rejects s)
unfolding settle
settle-IsBounded i rejects s slots h = elim (Option-cases (take_out s.running i)) [
  | inl missing ↦ rw (missing, settle) h
  | inr ((job, others), found) ↦
      rw (found, settle)
        (finish-IsBounded job others rejects s slots (length-take_out s.running i job others found)
          h)
]

step-IsBounded :
    (e : ShadowEvent) (s : Scheduler) → 0 < s.max_in_flight → IsBounded s → IsBounded (step e s)
unfolding step
step-IsBounded (schedules job) s slots h = schedule-IsBounded job s h
step-IsBounded (settles i rejects) s slots h = settle-IsBounded i rejects s slots h
step-IsBounded closes s slots h = close-IsBounded s h

run-IsBounded_from :
    (es : List ShadowEvent) (s : Scheduler)
    → 0 < s.max_in_flight
    → IsBounded s
    → IsBounded (run es s)
run-IsBounded_from [] s slots h = h
run-IsBounded_from (e ∷ es) s slots h =
    run-IsBounded_from es (step e s) (omega (arith, step-max_in_flight e s))
      (step-IsBounded e s slots h)

-- With at least one slot, after any calls and ends of tasks from a new scheduler: `active` counts the
-- jobs that run and does not exceed the slots, the queue does not exceed its limit, a job waits only
-- while every slot is taken, nothing waits after the close, and a drain waits only for a running job.
pub run-IsBounded :
    (es : List ShadowEvent) (slots room : ℕ)
    → 0 < slots
    → IsBounded (run es (new_scheduler slots room))
run-IsBounded es slots room h =
    run-IsBounded_from es (new_scheduler slots room) h
      ((refl, omega arith, omega arith, λ p. absurd (omega arith), λ p. refl, λ p. p))
