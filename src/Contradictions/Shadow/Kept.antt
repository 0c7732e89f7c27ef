-- ===== src/Contradictions/Shadow/Kept.antt =====
-- src/contradictions.ts: no shadow job is lost, and none is done twice.
use total_recall.Base.{
  ℕ, zero, suc, ◌+◌, ◌≡◌, refl, ◌==◌, Bool, some, List, [], ◌∷◌, ◌++◌, map, arith, if◌then◌else◌,
  Option-cases, inl, inr,
}
use total_recall.Contradictions.Reasons.{ContradictionReason, shadow_shutdown, shadow_saturated}
use total_recall.Contradictions.Shadow.{
  Scheduler, ShadowEvent, schedules, settles, closes, report, start, schedule, start_next,
  wake_idle, close_and_drain, take_out, finish, settle, step, run, new_scheduler,
}

abbrev pub times : ℕ → List ℕ → ℕ
times j [] = 0
times j (x ∷ xs) = (if x == j then 1 else 0) + times j xs

-- The reasons with which a job is turned away.
abbrev turns_away : ContradictionReason → ℕ
turns_away shadow_shutdown = 1
turns_away shadow_saturated = 1
turns_away other = 0

abbrev pub refusals : ℕ → List (ℕ × ContradictionReason) → ℕ
refusals j [] = 0
refusals j ((x, reason) ∷ xs) = (if x == j then turns_away reason else 0) + refusals j xs

-- How often a job stands anywhere: it runs, waits, has settled or was refused.
abbrev pub places : ℕ → Scheduler → ℕ
places j s = times j s.running + times j s.queue + times j s.settled + refusals j s.metrics

-- How often the calls schedule a job.
abbrev pub asked : ℕ → List ShadowEvent → ℕ
asked j [] = 0
asked j (schedules job ∷ es) = (if job == j then 1 else 0) + asked j es
asked j (e ∷ es) = asked j es

times-append : (j : ℕ) (xs ys : List ℕ) → times j (xs ++ ys) ≡ times j xs + times j ys
times-append j [] ys = omega arith
times-append j (x ∷ xs) ys = omega (arith, times-append j xs ys)

refusals-shutdown :
    (j : ℕ) (jobs : List ℕ) (log : List (ℕ × ContradictionReason))
    → refusals j (map (λ job. (job, shadow_shutdown)) jobs ++ log) ≡ times j jobs + refusals j log
refusals-shutdown j [] log = omega arith
refusals-shutdown j (x ∷ xs) log = omega (arith, refusals-shutdown j xs log)

times-take_out :
    (j : ℕ) (jobs : List ℕ) (i job : ℕ) (others : List ℕ)
    → take_out jobs i ≡ some (job, others)
    → times j jobs ≡ (if job == j then 1 else 0) + times j others
unfolding take_out
times-take_out j [] i job others e = cc
times-take_out j (x ∷ jobs) zero job others e = ground arith
times-take_out j (x ∷ jobs) (suc i) job others e = elim (Option-cases (take_out jobs i)) [
  | inl missing ↦ absurd (ground arith)
  | inr (found, got) ↦ ground (arith, times-take_out j jobs i found.0 found.1)
]

places-schedule :
    (j job : ℕ) (s : Scheduler)
    → places j (schedule job s).1 ≡ places j s + (if job == j then 1 else 0)
unfolding schedule report start
places-schedule j job s = ground (arith, times-append j s.queue (job ∷ []))

places-close : (j : ℕ) (s : Scheduler) → places j (close_and_drain s) ≡ places j s
unfolding close_and_drain
places-close j s = ground (arith, refusals-shutdown j s.queue s.metrics)

places-finish :
    (j job : ℕ) (others : List ℕ) (rejects : Bool) (s : Scheduler)
    → times j s.running ≡ (if job == j then 1 else 0) + times j others
    → places j (finish job others rejects s) ≡ places j s
unfolding finish report start_next start wake_idle
places-finish j job others rejects s out = ground arith

places-settle :
    (j i : ℕ) (rejects : Bool) (s : Scheduler) → places j (settle i rejects s) ≡ places j s
unfolding settle
places-settle j i rejects s = elim (Option-cases (take_out s.running i)) [
  | inl missing ↦ rw (missing, settle) refl
  | inr ((job, others), found) ↦
      rw (found, settle)
        (places-finish j job others rejects s (times-take_out j s.running i job others found))
]

places-run :
    (j : ℕ) (es : List ShadowEvent) (s : Scheduler) → places j (run es s) ≡ places j s + asked j es
unfolding step
places-run j [] s = omega arith
places-run j (schedules job ∷ es) s =
    omega (arith, places-run j es (schedule job s).1, places-schedule j job s)
places-run j (settles i rejects ∷ es) s =
    omega (arith, places-run j es (settle i rejects s), places-settle j i rejects s)
places-run j (closes ∷ es) s = omega (arith, places-run j es (close_and_drain s), places-close j s)

-- After any calls and ends of tasks from a new scheduler, a job that was scheduled n times stands n
-- times among the jobs that run, that wait, that have settled and that a metric reported as refused
-- for saturation or shutdown: none is lost, none is doubled.
pub run-keeps_jobs :
    (j : ℕ) (es : List ShadowEvent) (slots room : ℕ)
    → places j (run es (new_scheduler slots room)) ≡ asked j es
run-keeps_jobs j es slots room = omega (arith, places-run j es (new_scheduler slots room))
