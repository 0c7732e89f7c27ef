-- ===== src/Contradictions/Revise/Balance.antt =====
-- src/contradictions.ts: what a classification leaves behind in the runtime, however it ends.
use total_recall.Base.{
  ℕ, ◌+◌, ◌≤◌, ◌≡◌, ◌⊎◌, refl, Bool, true, false, not, Option, none, some, List, [], ◌∷◌, String,
  Result, ok, err, arith, Result-cases, Option-cases, inl, inr, if_lem, length, if◌then◌else◌,
}
use total_recall.Contradictions.Reasons.{ContradictionReason}
use total_recall.Contradictions.Budget.{BudgetConfig, estimate, try_reserve}
use total_recall.Contradictions.Policy.{
  Decimals, ContradictionPolicy, ApprovedBudget, policy_allows_scope,
}
use total_recall.Contradictions.Revision.{RevisionResult}
use total_recall.Contradictions.Classify.{
  RuntimeState, Process, Verdict, declines, commits, Outcome, ErrorCode, commit_outcome, is_stale,
  begin_classification, finish_classification, wait_for_classifications,
}
use total_recall.Contradictions.Revise.{
  Request, declining, revision, coded, classify_contradiction, verdict, outcome_of, runtime_state,
  shut_runtime, classify_within, maybe_revise_belief,
}

-- A reservation grows, within a limit that it kept.
abbrev pub Grows : BudgetConfig → ℕ → ℕ → Type 0
Grows budget before after = (before ≤ after) × (before ≤ budget.limit → after ≤ budget.limit)

try_reserve-Grows :
    (budget : BudgetConfig) (reserved input_bytes max_output_bytes : ℕ) (a : Bool × ℕ)
    → try_reserve budget reserved input_bytes max_output_bytes ≡ ok a
    → Grows budget reserved a.1
unfolding try_reserve
try_reserve-Grows budget reserved i o a e = elim (Result-cases (estimate budget i o)) [
  | inl (cost, known) ↦ ground arith
  | inr (x, failed) ↦ ground arith
]

abbrev pub is_ok : Result ErrorCode (Option RevisionResult) → Bool
is_ok (ok r) = true
is_ok (err code) = false

-- One metric, and no row; or a new row; or the error of a commit that may have taken effect.
abbrev pub IsReported : Outcome → Type 0
IsReported o =
    ((length o.metrics ≡ 1) × (is_ok o.answer ≡ true))
    ⊎ ((o.metrics ≡ []) × (is_ok o.answer ≡ false))

finish-begin :
    (shut : Bool) (reserved : ℕ) (rt : RuntimeState)
    → ((finish_classification (
          shut_runtime shut
            (record (begin_classification rt) { reserved = reserved }))).active_classifications
        ≡ rt.active_classifications)
      × ((finish_classification
            (shut_runtime shut (record (begin_classification rt) { reserved = reserved }))).reserved
          ≡ reserved)
      × ((finish_classification
              (shut_runtime shut (record (begin_classification rt) { reserved = reserved }))).woken
            + (finish_classification (
                shut_runtime shut
                  (record (begin_classification rt) { reserved = reserved }))).idle_waiters
          ≡ rt.woken + rt.idle_waiters + (if shut then 1 else 0))
unfolding finish_classification wait_for_classifications
finish-begin shut reserved rt = ground arith

abbrev pub Balanced : BudgetConfig → RuntimeState → Outcome × Process → Type 0
Balanced budget rt r =
    ((after : RuntimeState) × (r.1.runtime ≡ some after)
      × (after.active_classifications ≡ rt.active_classifications)
      × Grows budget rt.reserved after.reserved)
    × IsReported r.0

module _ (d : Decimals) (lower : String → String) where
  open d use {Value}

  classify-Grows :
      (q : Request Value) (budget : BudgetConfig) (ids : List String) (reserved : ℕ)
      → Grows budget reserved (classify_contradiction d lower q budget ids reserved).1
  unfolding classify_contradiction
  classify-Grows q budget ids reserved =
      elim (Result-cases (try_reserve budget reserved q.input_bytes 1_024)) [
        | inl (a, e) ↦
            let grown = try_reserve-Grows budget reserved q.input_bytes 1_024 a e in ground arith
        | inr (x, e) ↦ ground arith
      ]

  verdict-Grows :
      (q : Request Value) (budget : BudgetConfig) (reserved : ℕ)
      → Grows budget reserved (verdict d lower q budget reserved).1
  unfolding verdict
  verdict-Grows q budget reserved = elim (Result-cases q.candidates) [
    | inl ([], found) ↦ ground arith
    | inl (x ∷ xs, found) ↦ ground (arith, classify-Grows q budget (x ∷ xs) reserved)
    | inr (code, failed) ↦ ground arith
  ]

  outcome-IsReported : (q : Request Value) (v : Verdict) → IsReported (outcome_of d lower q v)
  unfolding commit_outcome
  outcome-IsReported q (declines reason) = inl (refl, refl)
  outcome-IsReported q (commits id) = elim (Result-cases (coded q.code_of (revision q id).answer)) [
    | inl (none, e) ↦ rw (e, commit_outcome) (inl (refl, refl))
    | inl (some r, e) ↦ rw (e, commit_outcome) (inl (refl, refl))
    | inr (code, e) ↦
        rw (e, commit_outcome)
          (if_lem IsReported (is_stale code) (inl (refl, refl)) (inr (refl, refl)))
  ]

  module _ (key_of : ContradictionPolicy Value → ApprovedBudget → String) where
    runtime_state_kept :
        (policy : ContradictionPolicy Value) (p : Process) (rt rt' : RuntimeState)
        (budget : BudgetConfig) (approved : ApprovedBudget)
        → p.runtime ≡ some rt
        → policy.budget ≡ some approved
        → runtime_state d lower key_of policy p ≡ some (budget, rt')
        → (rt' ≡ rt) × (budget ≡ approved.amounts)
    unfolding runtime_state
    runtime_state_kept policy p rt rt' budget approved h known e = ground arith

    within-Balanced :
        (q : Request Value) (budget : BudgetConfig) (rt : RuntimeState) (p : Process)
        → Balanced budget rt (classify_within d lower key_of q budget rt p)
    unfolding classify_within
    within-Balanced q budget rt p =
        let judged = verdict d lower q budget rt.reserved in
        let (active, kept, _) = finish-begin q.shut_meanwhile judged.1 rt in
        let grown = verdict-Grows q budget rt.reserved in
        ((_, refl, active, ground arith), outcome-IsReported q judged.0)

    unchanged-Balanced :
        (q : Request Value) (budget : BudgetConfig) (rt : RuntimeState) (p : Process)
        (reason : ContradictionReason)
        → p.runtime ≡ some rt
        → Balanced budget rt (declining q reason, p)
    unchanged-Balanced q budget rt p reason h =
        ((rt, h, refl, (omega arith, λ k. k)), inl (refl, refl))

    -- However a call ends, the count of active classifications is again what it was, the reservation
    -- has not shrunk and keeps a limit of the policy's budget that it kept before, and either one metric
    -- is reported and the call returns, or none is and it throws the error of its commit.
    pub maybe_revise-Balanced :
        (q : Request Value) (p : Process) (rt : RuntimeState) (approved : ApprovedBudget)
        → p.runtime ≡ some rt
        → q.policy.budget ≡ some approved
        → Balanced approved.amounts rt (maybe_revise_belief d lower key_of q p)
    unfolding maybe_revise_belief
    maybe_revise-Balanced q p rt approved h known =
        if_lem (Balanced approved.amounts rt)
          (not (policy_allows_scope d q.policy q.memory.namespace q.access_level))
          (unchanged-Balanced q approved.amounts rt p _ h)
          (elim (Option-cases (runtime_state d lower key_of q.policy p)) [
            | inl missing ↦ rw missing (unchanged-Balanced q approved.amounts rt p _ h)
            | inr ((budget, rt'), found) ↦
                let (same, amounts) =
                  runtime_state_kept q.policy p rt rt' budget approved h known found in
                rw found (
                  rw same (
                    rw amounts (
                      if_lem (Balanced approved.amounts rt) (not p.accepting)
                        (unchanged-Balanced q approved.amounts rt (record p { runtime = some rt }) _
                          refl)
                        (within-Balanced q approved.amounts rt p))))
          ])
