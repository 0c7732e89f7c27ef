-- ===== src/Contradictions/Shadow/Drained.antt =====
-- src/contradictions.ts: a close of the scheduler comes to its end.
use total_recall.Base.{
  ℕ, zero, suc, ◌+◌, ◌<◌, ◌≡◌, refl, Bool, false, some, List, [], ◌∷◌, arith, length, subst,
}
use total_recall.Contradictions.Shadow.{
  Scheduler, report, start, start_next, wake_idle, take_out, finish, settle,
}
use total_recall.Contradictions.Shadow.Bounds.{IsBounded, settle-IsBounded, length-take_out}

-- The tasks end one after the other, each named by its place among those that still run.
abbrev pub settle_all : List (ℕ × Bool) → Scheduler → Scheduler
settle_all [] s = s
settle_all ((i, rejects) ∷ ends) s = settle_all ends (settle i rejects s)

-- One end for each of n running jobs.
abbrev pub EndsAll : List (ℕ × Bool) → ℕ → Type 0
EndsAll [] n = n ≡ 0
EndsAll ((i, rejects) ∷ ends) zero = ⊥
EndsAll ((i, rejects) ∷ ends) (suc n) = (i < suc n) × EndsAll ends n

take_out_found :
    (jobs : List ℕ) (i : ℕ)
    → i < length jobs
    → (found : ℕ × List ℕ) × (take_out jobs i ≡ some found)
unfolding take_out
take_out_found [] i h = absurd (omega arith)
take_out_found (job ∷ jobs) zero h = (_, refl)
take_out_found (job ∷ jobs) (suc i) h =
    let (found, e) = take_out_found jobs i (omega arith) in ((found.0, job ∷ found.1), rw e refl)

EndsAll-cons :
    (i : ℕ) (rejects : Bool) (ends : List (ℕ × Bool)) (n : ℕ)
    → EndsAll ((i, rejects) ∷ ends) n
    → (i < n) × ((m : ℕ) → suc m ≡ n → EndsAll ends m)
EndsAll-cons i rejects ends zero h = absurd h
EndsAll-cons i rejects ends (suc n) h =
    (h.0, λ m e. let same : n ≡ m = omega arith in subst (EndsAll ends) same h.1)

-- After the close one job less runs, and the last one wakes every drain.
finish_closed :
    (job : ℕ) (others : List ℕ) (rejects : Bool) (s : Scheduler)
    → length s.running ≡ suc (length others)
    → IsBounded s
    → s.accepting ≡ false
    → ((finish job others rejects s).accepting ≡ false)
      × (length (finish job others rejects s).running ≡ length others)
      × ((finish job others rejects s).drained + (finish job others rejects s).idle_waiters
          ≡ s.drained + s.idle_waiters)
unfolding finish report start_next start wake_idle
finish_closed job others rejects s out h closed = ground arith

settle_closed :
    (i : ℕ) (rejects : Bool) (s : Scheduler)
    → i < length s.running
    → IsBounded s
    → s.accepting ≡ false
    → ((settle i rejects s).accepting ≡ false)
      × (suc (length (settle i rejects s).running) ≡ length s.running)
      × ((settle i rejects s).drained + (settle i rejects s).idle_waiters
          ≡ s.drained + s.idle_waiters)
unfolding settle
settle_closed i rejects s h bounded closed =
    let ((job, others), found) = take_out_found s.running i h in
    let out = length-take_out s.running i job others found in
    let (a, b, c) = finish_closed job others rejects s out bounded closed in
    rw (found, settle) (a, omega (arith, out, b), c)

settle-max_in_flight :
    (i : ℕ) (rejects : Bool) (s : Scheduler) → (settle i rejects s).max_in_flight ≡ s.max_in_flight
unfolding settle finish report start_next start wake_idle
settle-max_in_flight i rejects s = ground arith

-- A scheduler that is closed and within its bounds, with tasks that all end, in any order and whether
-- they reject or not: then nothing is active, no drain waits any more, and every drain that waited has
-- returned.
pub settle_all-drains :
    (ends : List (ℕ × Bool)) (s : Scheduler)
    → 0 < s.max_in_flight
    → IsBounded s
    → s.accepting ≡ false
    → EndsAll ends (length s.running)
    → ((settle_all ends s).active ≡ 0)
      × ((settle_all ends s).idle_waiters ≡ 0)
      × ((settle_all ends s).drained ≡ s.drained + s.idle_waiters)
settle_all-drains [] s slots h closed all_end = ground arith
settle_all-drains ((i, rejects) ∷ ends) s slots h closed all_end =
    let (here, rest) = EndsAll-cons i rejects ends (length s.running) all_end in
    let (a, b, c) = settle_closed i rejects s here h closed in
    let bounded = settle-IsBounded i rejects s slots h in
    let slots' : 0 < (settle i rejects s).max_in_flight =
      omega (arith, settle-max_in_flight i rejects s) in
    let (x, y, z) =
      settle_all-drains ends (settle i rejects s) slots' bounded a
        (rest (length (settle i rejects s).running) b) in
    (x, y, omega arith)
