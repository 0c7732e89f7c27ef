-- ===== src/Contradictions/Policy/Tests.antt =====
-- Policies from small environments.
use total_recall.Base.{
  ℕ, ◌≡◌, refl, none, some, [], ◌∷◌, true, codes, decimal?, decimal_from, leb, get,
}
use total_recall.Connector.Attribution.{trim_start, trim_end}
use total_recall.Contradictions.Policy.{
  Decimals, Environment, contradiction_policy_from_env, parse_usd_to_micro_usd,
}
use total_recall.Contradictions.Policy.Approvals.{fully_approved, policy-enabled}

-- Whole numbers alone.
abbrev pub naturals : Decimals
naturals = record {
  Value = ℕ;
  value_of = λ s. decimal? (codes s);
  leq = leb;
  nought = 0;
  unit = 1;
  default_mutation_confidence = 1;
}

abbrev pub approved : Environment
approved =
    ("CONTRADICTION_CLASSIFICATION_ENABLED", "true")
    ∷ ("CONTRADICTION_PROCESSING_APPROVED", "true")
    ∷ ("CONTRADICTION_PROVIDER", " local ")
    ∷ ("CONTRADICTION_MODEL", "m")
    ∷ ("CONTRADICTION_GENERATION_ENDPOINT", "http://h")
    ∷ ("CONTRADICTION_PROVIDER_MODEL_APPROVED", "true")
    ∷ ("CONTRADICTION_PRIVACY_APPROVED", "true")
    ∷ ("CONTRADICTION_RETENTION_APPROVED", "true")
    ∷ ("CONTRADICTION_TRAINING_APPROVED", "true")
    ∷ ("CONTRADICTION_APPROVED_NAMESPACE", "notes")
    ∷ ("CONTRADICTION_SCOPE_APPROVED", "true")
    ∷ ("CONTRADICTION_COST_BUDGET_USD", "2.5")
    ∷ ("CONTRADICTION_COST_BUDGET_APPROVED", "true")
    ∷ ("CONTRADICTION_ESTIMATED_REQUEST_COST_USD", "0.000001")
    ∷ ("CONTRADICTION_ESTIMATED_INPUT_COST_USD_PER_MILLION_BYTES", "0")
    ∷ ("CONTRADICTION_ESTIMATED_OUTPUT_COST_USD_PER_MILLION_BYTES", "0")
    ∷ ("CONTRADICTION_TIMEOUT_MS", "70000")
    ∷ []

amounts_read :
    (parse_usd_to_micro_usd (some " 2.5 ") ≡ some 2_500_000)
    × (parse_usd_to_micro_usd (some "3") ≡ some 3_000_000)
    × (parse_usd_to_micro_usd (some "3.") ≡ none)
    × (parse_usd_to_micro_usd (some "1.1234567") ≡ none)
    × (parse_usd_to_micro_usd (some "1.2.3") ≡ none)
    × (parse_usd_to_micro_usd (some "-1") ≡ none)
unfolding parse_usd_to_micro_usd decimal? decimal_from trim_start trim_end
amounts_read = (refl, refl, refl, refl, refl, refl)

policy-enabled_example :
    (contradiction_policy_from_env naturals approved).classification_enabled
    ≡ fully_approved approved
policy-enabled_example = policy-enabled naturals approved

approved_enabled : fully_approved approved ≡ true
unfolding parse_usd_to_micro_usd decimal? decimal_from trim_start trim_end get
approved_enabled = refl
