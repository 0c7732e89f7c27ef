-- ===== src/Contradictions/Revise.antt =====
-- src/contradictions.ts: classifyContradiction and maybeReviseBelief. A request carries what the world
-- answers: the ids of the candidates, whether the runtime was shut down meanwhile, the time that has
-- passed, the bytes of the prompt, the provider's answer and what JSON.parse makes of its text, and what
-- the commit meets; `code_of` is the SQLSTATE of an error. `access_level` is the memory's. `lower` stands for toLowerCase, `key_of` for the joined text of runtimeConfigKey.
mod Safety
mod History
mod Balance
mod Tests
use total_recall.Base.{
  ℕ, leb, ltb, Bool, true, false, not, ◌&&◌, Option, none, some, List, [], ◌∷◌, String, str_eq,
  if◌then◌else◌, includes, map, Result, ok, err,
}
use total_recall.Auth.Levels.{AccessLevel}
use total_recall.Auth.Keys.{AuthContext}
use total_recall.Db.{Session, Faults, After, Thrown}
use total_recall.Memory.Beliefs.{BeliefTables}
use total_recall.Contradictions.Reasons.{
  ContradictionReason, disabled, budget_model_missing, shadow_shutdown, runtime_config_changed,
  outside_approved_scope, no_candidates, candidate_query_error, candidate_timeout, provider_timeout,
  low_confidence, review_only, idempotent_mutation_disallowed,
}
use total_recall.Contradictions.Budget.{BudgetConfig, try_reserve}
use total_recall.Contradictions.Policy.{
  Decimals, ContradictionPolicy, ApprovedBudget, policy_allows_scope,
}
use total_recall.Contradictions.Revision.{
  RevisionResult, RevisionError, RevisionRun, SemanticMemoryInsert, commit_automatic_revision,
}
use total_recall.Contradictions.Classify.{
  ContradictionLabel, contradiction, ContradictionClassification, ClassifyError, exhausted,
  input_over, invalid, unknown_id, other, ProviderAnswer, output, fails, ErrorCode, ParsedOutput,
  RuntimeState, Process, new_runtime, begin_classification, finish_classification,
  wait_for_classifications, reason_of, Verdict, declines, commits, Outcome, declined,
  commit_outcome, validate,
}

pub record Request (V : Type 0) : Type 0 where
  pub policy : ContradictionPolicy V
  pub auth : AuthContext
  pub memory : SemanticMemoryInsert
  pub access_level : AccessLevel
  pub allow_mutation : Option Bool
  pub candidates : Result ErrorCode (List String)
  pub shut_meanwhile : Bool
  pub elapsed_ms : ℕ
  pub input_bytes : ℕ
  pub provider : ProviderAnswer
  pub parse : String → Option (ParsedOutput V)
  pub run : RevisionRun
  pub faults : Faults
  pub session : Session BeliefTables
  pub code_of : Thrown RevisionError → ErrorCode

-- The commit of a revision of the memory with an id, and its answer with the code of what it throws.
abbrev pub revision :
    {V : Type 0} → Request V → String → After BeliefTables RevisionError (Option RevisionResult)
revision q id = commit_automatic_revision q.auth q.memory id q.run q.faults q.session

abbrev pub coded :
    {A : Type 0}
    → (Thrown RevisionError → ErrorCode)
    → Result (Thrown RevisionError) A
    → Result ErrorCode A
coded code_of (ok a) = ok a
coded code_of (err e) = err (code_of e)

abbrev pub declining : {V : Type 0} → Request V → ContradictionReason → Outcome
declining q = declined q.session.store

abbrev pub is_contradiction : ContradictionLabel → Bool
is_contradiction contradiction = true
is_contradiction label = false

abbrev pub is_no_match : ContradictionLabel → Bool
is_no_match ContradictionLabel.no_match = true
is_no_match label = false

-- `error.code === '57014'`
abbrev pub query_reason : ErrorCode → ContradictionReason
query_reason none = candidate_query_error
query_reason (some code) = if str_eq code "57014" then candidate_timeout else candidate_query_error

abbrev pub is_disallowed : Option Bool → Bool
is_disallowed none = false
is_disallowed (some allowed) = not allowed

-- A runtime whose shutdown begins while a classification is active.
abbrev pub shut_runtime : Bool → RuntimeState → RuntimeState
shut_runtime shut rt = if shut then wait_for_classifications rt else rt

module _ (d : Decimals) (lower : String → String) where
  open d use {Value, leq}

  -- The answer's text, read and checked against the candidates.
  unfoldable pub read_output :
      List String
      → Option (ParsedOutput Value)
      → Result ClassifyError (ContradictionClassification Value)
  unfolding validate
  read_output candidates none = err invalid
  read_output candidates (some p) = elim (validate d p) [
    | none ↦ err invalid
    | some c ↦ elim c.candidate_id [
      | none ↦ ok c
      | some id ↦
          if includes (map lower candidates) (lower id)
          then ok (record c { candidate_id = some (lower id) })
          else err unknown_id
    ]
  ]

  -- With the reservation afterwards.
  unfoldable pub classify_contradiction :
      Request Value
      → BudgetConfig
      → List String
      → ℕ
      → Result ClassifyError (ContradictionClassification Value) × ℕ
  unfolding read_output
  classify_contradiction q budget candidates reserved =
      if ltb 65_536 q.input_bytes
      then (err input_over, reserved)
      else elim (try_reserve budget reserved q.input_bytes 1_024) [
        | err e ↦ (err other, reserved)
        | ok answer ↦ if not answer.0 then (err exhausted, answer.1) else elim q.provider [
          | fails e ↦ (err e, answer.1)
          | output text ↦ (read_output candidates (q.parse text), answer.1)
        ]
      ]

  -- From the classification on.
  unfoldable pub judge : Request Value → ContradictionClassification Value → Verdict
  judge q c =
      if is_no_match c.classification
      then declines ContradictionReason.no_match
      else if not (leq q.policy.mutation_confidence c.confidence)
      then declines low_confidence
      else if not (is_contradiction c.classification && q.policy.mutation_enabled)
      then declines review_only
      else if is_disallowed q.allow_mutation
      then declines idempotent_mutation_disallowed
      else elim c.candidate_id [ none ↦ declines review_only | some id ↦ commits id ]

  abbrev pub judge_result :
      Request Value → Result ClassifyError (ContradictionClassification Value) → Verdict
  judge_result q (err e) = declines (reason_of e)
  judge_result q (ok c) = judge q c

  -- From the candidates on, with the reservation afterwards.
  unfoldable pub verdict : Request Value → BudgetConfig → ℕ → Verdict × ℕ
  unfolding classify_contradiction
  verdict q budget reserved = elim q.candidates [
    | err code ↦ (declines (query_reason code), reserved)
    | ok [] ↦ (declines no_candidates, reserved)
    | ok (id ∷ ids) ↦
        if q.shut_meanwhile
        then (declines shadow_shutdown, reserved)
        else if leb q.policy.timeout_ms q.elapsed_ms
        then (declines provider_timeout, reserved)
        else let classified = classify_contradiction q budget (id ∷ ids) reserved in
          (judge_result q classified.0, classified.1)
  ]

  abbrev pub outcome_of : Request Value → Verdict → Outcome
  outcome_of q (declines reason) = declining q reason
  outcome_of q (commits id) =
      commit_outcome (revision q id).store (coded q.code_of (revision q id).answer)

  module _ (key_of : ContradictionPolicy Value → ApprovedBudget → String) where
    -- runtimeState: the runtime of the policy's configuration, made at its first use.
    unfoldable pub runtime_state :
        ContradictionPolicy Value → Process → Option (BudgetConfig × RuntimeState)
    runtime_state policy p = elim policy.budget [
      | none ↦ none
      | some approved ↦ elim p.runtime [
        | none ↦ some (approved.amounts, new_runtime (key_of policy approved))
        | some rt ↦
            if str_eq rt.config_key (key_of policy approved)
            then some (approved.amounts, rt)
            else none
      ]
    ]

    abbrev pub runtime_unavailable_reason :
        ContradictionPolicy Value → Process → ContradictionReason
    runtime_unavailable_reason policy p = elim policy.budget [
      | none ↦ budget_model_missing
      | some approved ↦ elim p.runtime [
        | none ↦ budget_model_missing
        | some rt ↦ runtime_config_changed
      ]
    ]

    abbrev pub scope_reason : ContradictionPolicy Value → ContradictionReason
    scope_reason policy =
        if policy.classification_enabled
        then outside_approved_scope
        else elim policy.reason [ none ↦ disabled | some reason ↦ reason ]

    -- The classification within its begin and its end.
    unfoldable pub classify_within :
        Request Value → BudgetConfig → RuntimeState → Process → Outcome × Process
    unfolding verdict finish_classification
    classify_within q budget rt p =
        let begun = begin_classification rt in
        let judged = verdict q budget begun.reserved in
        (
          outcome_of q judged.0,
          record {
            runtime = some (
                finish_classification
                  (shut_runtime q.shut_meanwhile (record begun { reserved = judged.1 })));
            accepting = p.accepting && not q.shut_meanwhile;
          },
        )

    unfoldable pub maybe_revise_belief : Request Value → Process → Outcome × Process
    unfolding policy_allows_scope runtime_state classify_within
    maybe_revise_belief q p =
        if not (policy_allows_scope d q.policy q.memory.namespace q.access_level)
        then (declining q (scope_reason q.policy), p)
        else elim (runtime_state q.policy p) [
          | none ↦ (declining q (runtime_unavailable_reason q.policy p), p)
          | some (budget, rt) ↦
              if not p.accepting
              then (declining q shadow_shutdown, record p { runtime = some rt })
              else classify_within q budget rt p
        ]
