-- ===== src/Contradictions/Policy.antt =====
-- src/contradictions.ts: the approvals in the environment, and the policy that they make. `Number` on a
-- text, the numbers that it yields and their order are a parameter (`Decimals`). The texts that the code
-- joins with NUL bytes are kept apart, since no environment variable holds a NUL byte.
mod Approvals
mod Limits
pub mod Tests
use total_recall.Base.{
  ℕ, zero, suc, ◌+◌, ◌*◌, ◌==◌, leb, ltb, Bool, true, false, not, ◌&&◌, ◌||◌, Option, none, some,
  List, [], ◌∷◌, String, str_eq, if◌then◌else◌, get, get_or, codes, decimal?, is_safe_integer, any,
  length,
}
use total_recall.Auth.Levels.{AccessLevel, normal, level_name}
use total_recall.Connector.Attribution.{trim}
use total_recall.Contradictions.Reasons.{
  ContradictionReason, disabled, processing_approval_missing, provider_model_approval_missing,
  terms_approval_missing, scope_approval_missing, budget_approval_missing, budget_model_missing,
}
use total_recall.Contradictions.Budget.{BudgetConfig}

-- Finite numbers of the language: `Number(s)` where it is finite, and `<=`.
pub record Decimals : Type 1 where
  pub Value : Type 0
  pub value_of : String → Option Value
  pub leq : Value → Value → Bool
  pub nought : Value
  pub unit : Value
  pub default_mutation_confidence : Value

abbrev pub Environment : Type 0
Environment = List (String × String)

pub record ApprovedBudget : Type 0 where
  pub amounts : BudgetConfig
  pub fingerprint : List String

pub record ContradictionPolicy (V : Type 0) : Type 0 where
  pub classification_enabled : Bool
  pub reason : Option ContradictionReason
  pub provider : Option String
  pub model : Option String
  pub endpoint : Option String
  pub api_key : Option String
  pub namespace : Option String
  pub timeout_ms : ℕ
  pub mutation_confidence : V
  pub mutation_enabled : Bool
  pub budget : Option ApprovedBudget
  pub shadow_max_in_flight : ℕ
  pub shadow_max_queued : ℕ

-- `raw.split('.')`, where the text holds at most one point
abbrev pub split_point : List ℕ → List ℕ × Option (List ℕ)
split_point [] = ([], none)
split_point (c ∷ cs) =
    let rest = split_point cs in if c == b'.' then ([], some cs) else (c ∷ rest.0, rest.1)

-- `fraction.padEnd(n, '0')`, of at most n digits
abbrev pub pad_end : ℕ → List ℕ → List ℕ
pad_end zero cs = cs
pad_end (suc n) [] = b'0' ∷ pad_end n []
pad_end (suc n) (c ∷ cs) = c ∷ pad_end n cs

abbrev pub micro_usd : Option ℕ → Option ℕ → Option ℕ
micro_usd (some whole) (some fraction) = some (whole * 1_000_000 + fraction)
micro_usd whole fraction = none

abbrev pub usd_of : List ℕ × Option (List ℕ) → Option ℕ
unfolding decimal?
usd_of (whole, none) = micro_usd (decimal? whole) (some 0)
usd_of (whole, some fraction) =
    if ltb 0 (length fraction) && leb (length fraction) 6
    then micro_usd (decimal? whole) (decimal? (pad_end 6 fraction))
    else none

unfoldable pub parse_usd_to_micro_usd : Option String → Option ℕ
parse_usd_to_micro_usd none = none
parse_usd_to_micro_usd (some raw) = usd_of (split_point (codes (trim raw)))

unfoldable pub bounded_integer : Option String → ℕ → ℕ → ℕ → ℕ
unfolding decimal?
bounded_integer none fallback low high = fallback
bounded_integer (some raw) fallback low high = elim (decimal? (codes raw)) [
  | none ↦ fallback
  | some n ↦ if is_safe_integer n && (leb low n && leb n high) then n else fallback
]

-- `env[name] === 'true'`
abbrev pub is_approved : Environment → String → Bool
is_approved env name = elim (get name env) [ none ↦ false | some s ↦ str_eq s "true" ]

-- `env[name]?.trim()`; what is not set reads as the empty text, which every test below treats alike
abbrev pub setting : Environment → String → String
setting env name = elim (get name env) [ none ↦ "" | some s ↦ trim s ]

abbrev pub is_unset : String → Bool
is_unset s = str_eq s ""

abbrev pub has_comma : String → Bool
has_comma s = any (λ c. c == b',') (codes s)

unfoldable pub mutation_approved : Environment → Bool
mutation_approved env =
    is_approved env "CONTRADICTION_AUTO_MUTATION_ENABLED"
    && (is_approved env "CONTRADICTION_MUTATION_APPROVED"
        && (is_approved env "CONTRADICTION_SHADOW_METRICS_REVIEWED"
            && (not (is_unset (setting env "DEPLOYMENT_ENVIRONMENT"))
                && str_eq (setting env "CONTRADICTION_MUTATION_ENVIRONMENT")
                    (setting env "DEPLOYMENT_ENVIRONMENT"))))

abbrev pub set_text : String → Option String
set_text s = if is_unset s then none else some s

abbrev pub budget_of : ℕ → Option ℕ → Option ℕ → Option ℕ → Option BudgetConfig
budget_of limit (some request) (some input) (some output) =
    if request + input + output == 0
    then none
    else some (record {
      limit = limit;
      request = request;
      input_per_million_bytes = input;
      output_per_million_bytes = output;
    })
budget_of limit request input output = none

abbrev pub usd_setting : Environment → String → Option ℕ
unfolding parse_usd_to_micro_usd
usd_setting env name = parse_usd_to_micro_usd (get name env)

module _ (d : Decimals) where
  open d use {Value, value_of, leq, nought, unit, default_mutation_confidence}

  unfoldable pub bounded_number : Option String → Value → Value → Value → Value
  bounded_number none fallback low high = fallback
  bounded_number (some raw) fallback low high =
      if str_eq (trim raw) "" then fallback else elim (value_of raw) [
        | none ↦ fallback
        | some n ↦ if leq low n && leq n high then n else fallback
      ]

  abbrev pub disabled_for : ContradictionReason → ContradictionPolicy Value
  disabled_for reason = record {
    classification_enabled = false;
    reason = some reason;
    provider = none;
    model = none;
    endpoint = none;
    api_key = none;
    namespace = none;
    timeout_ms = 10_000;
    mutation_confidence = default_mutation_confidence;
    mutation_enabled = false;
    budget = none;
    shadow_max_in_flight = 2;
    shadow_max_queued = 8;
  }

  abbrev pub enabled_policy : Environment → BudgetConfig → ContradictionPolicy Value
  unfolding bounded_integer bounded_number mutation_approved
  enabled_policy env amounts = record {
    classification_enabled = true;
    reason = none;
    provider = some (setting env "CONTRADICTION_PROVIDER");
    model = some (setting env "CONTRADICTION_MODEL");
    endpoint = some (setting env "CONTRADICTION_GENERATION_ENDPOINT");
    api_key = set_text (setting env "CONTRADICTION_GENERATION_API_KEY");
    namespace = some (setting env "CONTRADICTION_APPROVED_NAMESPACE");
    timeout_ms = bounded_integer (get "CONTRADICTION_TIMEOUT_MS" env) 10_000 100 60_000;
    mutation_confidence =
        bounded_number (get "CONTRADICTION_MUTATION_CONFIDENCE" env) default_mutation_confidence
          nought unit;
    mutation_enabled = mutation_approved env;
    budget = some (record {
      amounts = amounts;
      fingerprint =
          setting env "CONTRADICTION_PROVIDER"
          ∷ setting env "CONTRADICTION_MODEL"
          ∷ setting env "CONTRADICTION_APPROVED_NAMESPACE"
          ∷ [];
    });
    shadow_max_in_flight = bounded_integer (get "CONTRADICTION_SHADOW_MAX_IN_FLIGHT" env) 2 1 32;
    shadow_max_queued = bounded_integer (get "CONTRADICTION_SHADOW_MAX_QUEUED" env) 8 0 1_000;
  }

  abbrev pub policy_with_costs : Environment → Option BudgetConfig → ContradictionPolicy Value
  policy_with_costs env none = disabled_for budget_model_missing
  policy_with_costs env (some amounts) = enabled_policy env amounts

  -- The limit that the environment states, and the policy with it.
  abbrev pub policy_with_limit : Environment → Option ℕ → ContradictionPolicy Value
  policy_with_limit env none = disabled_for budget_approval_missing
  policy_with_limit env (some limit) =
      if not (is_approved env "CONTRADICTION_COST_BUDGET_APPROVED") || limit == 0
      then disabled_for budget_approval_missing
      else policy_with_costs env (
          budget_of limit (usd_setting env "CONTRADICTION_ESTIMATED_REQUEST_COST_USD")
            (usd_setting env "CONTRADICTION_ESTIMATED_INPUT_COST_USD_PER_MILLION_BYTES")
            (usd_setting env "CONTRADICTION_ESTIMATED_OUTPUT_COST_USD_PER_MILLION_BYTES"))

  unfoldable pub contradiction_policy_from_env : Environment → ContradictionPolicy Value
  contradiction_policy_from_env env =
      if not (is_approved env "CONTRADICTION_CLASSIFICATION_ENABLED")
      then disabled_for disabled
      else if not (is_approved env "CONTRADICTION_PROCESSING_APPROVED")
      then disabled_for processing_approval_missing
      else if is_unset (setting env "CONTRADICTION_PROVIDER")
          || (is_unset (setting env "CONTRADICTION_MODEL")
              || (is_unset (setting env "CONTRADICTION_GENERATION_ENDPOINT")
                  || not (is_approved env "CONTRADICTION_PROVIDER_MODEL_APPROVED")))
      then disabled_for provider_model_approval_missing
      else if not (is_approved env "CONTRADICTION_PRIVACY_APPROVED")
          || (not (is_approved env "CONTRADICTION_RETENTION_APPROVED")
              || not (is_approved env "CONTRADICTION_TRAINING_APPROVED"))
      then disabled_for terms_approval_missing
      else if is_unset (setting env "CONTRADICTION_APPROVED_NAMESPACE")
          || (has_comma (setting env "CONTRADICTION_APPROVED_NAMESPACE")
              || not (is_approved env "CONTRADICTION_SCOPE_APPROVED"))
      then disabled_for scope_approval_missing
      else policy_with_limit env (usd_setting env "CONTRADICTION_COST_BUDGET_USD")

  unfoldable pub policy_allows_scope : ContradictionPolicy Value → String → AccessLevel → Bool
  policy_allows_scope policy namespace level =
      policy.classification_enabled
      && (elim policy.namespace [ none ↦ false | some approved ↦ str_eq approved namespace ]
          && str_eq (level_name level) "normal")
