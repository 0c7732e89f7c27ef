-- ===== src/Contradictions/Classify.antt =====
-- src/contradictions.ts: classifyContradiction and maybeReviseBelief. What the provider answers, what
-- JSON.parse and the schema's field types make of it, the candidates of the query are given; other calls of the process in the pauses between are left out.
use total_recall.Base.{
  ℕ, ◌+◌, ◌-◌, ◌==◌, Bool, true, false, not, ◌&&◌, Option, none, some, List, [], ◌∷◌, String,
  str_eq, if◌then◌else◌, Result, ok, err, is_some, includes,
}
use total_recall.Contradictions.Reasons.{
  ContradictionReason, budget_exhausted, input_too_large, provider_timeout, provider_error,
  output_too_large, invalid_output, stale_candidate, mutated,
}
use total_recall.Contradictions.Policy.{Decimals}
use total_recall.Memory.Beliefs.{BeliefTables}
use total_recall.Contradictions.Revision.{RevisionResult}

pub data ContradictionLabel : Type 0 where
  duplicate refinement contradiction no_match : ContradictionLabel

pub record ContradictionClassification (V : Type 0) : Type 0 where
  pub classification : ContradictionLabel
  pub confidence : V
  pub candidate_id : Option String

-- The errors by which maybeReviseBelief tells its reasons; `other` stands for every other one.
pub data ClassifyError : Type 0 where
  exhausted timed_out input_over output_over invalid unknown_id other : ClassifyError

pub data ProviderAnswer : Type 0 where
  output : String → ProviderAnswer
  fails : ClassifyError → ProviderAnswer

-- The SQLSTATE of an error, where it has one.
abbrev pub ErrorCode : Type 0
ErrorCode = Option String

abbrev pub label_of : String → Option ContradictionLabel
label_of s =
    if str_eq s "duplicate"
    then some duplicate
    else if str_eq s "refinement"
    then some refinement
    else if str_eq s "contradiction"
    then some contradiction
    else if str_eq s "no_match"
    then some no_match
    else none

-- What the text holds: the label, the confidence and the id, each of the schema's type.
pub record ParsedOutput (V : Type 0) : Type 0 where
  pub label : String
  pub confidence : V
  pub candidate_id : Option String

abbrev pub is_unmatched : ContradictionLabel → Bool
is_unmatched no_match = true
is_unmatched label = false

-- `processRuntime`, with the count of the promises of waitForClassifications that were resolved.
pub record RuntimeState : Type 0 where
  pub config_key : String
  pub reserved : ℕ
  pub active_classifications : ℕ
  pub idle_waiters : ℕ
  pub woken : ℕ

pub record Process : Type 0 where
  pub runtime : Option RuntimeState
  pub accepting : Bool

abbrev pub new_runtime : String → RuntimeState
new_runtime key = record {
  config_key = key;
  reserved = 0;
  active_classifications = 0;
  idle_waiters = 0;
  woken = 0;
}

abbrev pub begin_classification : RuntimeState → RuntimeState
begin_classification rt = record rt { active_classifications = rt.active_classifications + 1 }

unfoldable pub finish_classification : RuntimeState → RuntimeState
finish_classification rt =
    if rt.active_classifications - 1 == 0
    then record rt {
      active_classifications = 0;
      idle_waiters = 0;
      woken = rt.woken + rt.idle_waiters;
    }
    else record rt { active_classifications = rt.active_classifications - 1 }

-- waitForClassifications of a runtime that is shut down
unfoldable pub wait_for_classifications : RuntimeState → RuntimeState
wait_for_classifications rt =
    if rt.active_classifications == 0
    then record rt { woken = rt.woken + 1 }
    else record rt { idle_waiters = rt.idle_waiters + 1 }

abbrev pub reason_of : ClassifyError → ContradictionReason
reason_of exhausted = budget_exhausted
reason_of timed_out = provider_timeout
reason_of input_over = input_too_large
reason_of output_over = output_too_large
reason_of invalid = invalid_output
reason_of unknown_id = invalid_output
reason_of other = provider_error

pub data Verdict : Type 0 where
  declines : ContradictionReason → Verdict
  commits : String → Verdict

-- The metrics, the answer, and the tables that the call leaves.
pub record Outcome : Type 0 where
  pub metrics : List ContradictionReason
  pub answer : Result ErrorCode (Option RevisionResult)
  pub store : BeliefTables

abbrev pub declined : BeliefTables → ContradictionReason → Outcome
declined store reason = record { metrics = reason ∷ []; answer = ok none; store = store }

-- SQLSTATEs of a commit that was rolled back.
abbrev pub stale_codes : List String
stale_codes = "23503" ∷ "23505" ∷ "23514" ∷ "40001" ∷ "40P01" ∷ []

abbrev pub is_stale : ErrorCode → Bool
is_stale none = false
is_stale (some code) = includes stale_codes code

unfoldable pub commit_outcome : BeliefTables → Result ErrorCode (Option RevisionResult) → Outcome
commit_outcome store (ok (some r)) = record {
  metrics = mutated ∷ [];
  answer = ok (some r);
  store = store;
}
commit_outcome store (ok none) = declined store stale_candidate
commit_outcome store (err code) =
    if is_stale code
    then declined store stale_candidate
    else record { metrics = []; answer = err code; store = store }

module _ (d : Decimals) where
  open d use {Value, leq, nought, unit}

  -- classificationSchema
  unfoldable pub validate : ParsedOutput Value → Option (ContradictionClassification Value)
  validate p = elim (label_of p.label) [
    | none ↦ none
    | some l ↦
        if leq nought p.confidence
          && leq p.confidence unit
          && (if is_unmatched l then not (is_some p.candidate_id) else is_some p.candidate_id)
        then some (record {
          classification = l;
          confidence = p.confidence;
          candidate_id = p.candidate_id;
        })
        else none
  ]
