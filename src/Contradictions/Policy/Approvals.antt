-- ===== src/Contradictions/Policy/Approvals.antt =====
-- src/contradictions.ts: when the classification is enabled, and when it may change memories.
use total_recall.Base.{
  is_some, ◌∙◌, ◌||◌, ℕ, ◌+◌, ltb, ◌==◌, Bool, true, false, not, ◌&&◌, ◌≡◌, refl, Option, none,
  some, List, [], ◌∷◌, String, arith, all, if◌then◌else◌,
}
use total_recall.Contradictions.Budget.{BudgetConfig}
use total_recall.Contradictions.Policy.{
  ContradictionPolicy, policy_with_costs, enabled_policy, Decimals, Environment, is_approved,
  is_unset, has_comma, setting, usd_setting, budget_of, policy_with_limit,
  contradiction_policy_from_env,
}

abbrev pub required_approvals : List String
required_approvals =
    "CONTRADICTION_CLASSIFICATION_ENABLED" ∷ "CONTRADICTION_PROCESSING_APPROVED"
    ∷ "CONTRADICTION_PROVIDER_MODEL_APPROVED" ∷ "CONTRADICTION_PRIVACY_APPROVED"
    ∷ "CONTRADICTION_RETENTION_APPROVED" ∷ "CONTRADICTION_TRAINING_APPROVED"
    ∷ "CONTRADICTION_SCOPE_APPROVED" ∷ "CONTRADICTION_COST_BUDGET_APPROVED" ∷ []

abbrev pub required_settings : List String
required_settings =
    "CONTRADICTION_PROVIDER" ∷ "CONTRADICTION_MODEL" ∷ "CONTRADICTION_GENERATION_ENDPOINT"
    ∷ "CONTRADICTION_APPROVED_NAMESPACE" ∷ []

abbrev pub is_positive : Option ℕ → Bool
is_positive none = false
is_positive (some n) = ltb 0 n

abbrev pub sum_of : Option ℕ → Option ℕ → Option ℕ → Option ℕ
sum_of (some a) (some b) (some c) = some (a + b + c)
sum_of a b c = none

-- The three costs are stated and one of them at least is not zero.
abbrev pub costs_known : Environment → Bool
costs_known env = is_positive (
    sum_of (usd_setting env "CONTRADICTION_ESTIMATED_REQUEST_COST_USD")
      (usd_setting env "CONTRADICTION_ESTIMATED_INPUT_COST_USD_PER_MILLION_BYTES")
      (usd_setting env "CONTRADICTION_ESTIMATED_OUTPUT_COST_USD_PER_MILLION_BYTES"))

abbrev pub fully_approved : Environment → Bool
fully_approved env =
    all (is_approved env) required_approvals
    && (all (λ name. not (is_unset (setting env name))) required_settings
        && (not (has_comma (setting env "CONTRADICTION_APPROVED_NAMESPACE"))
            && (is_positive (usd_setting env "CONTRADICTION_COST_BUDGET_USD") && costs_known env)))

is_some-budget_of :
    (limit : ℕ) (request input output : Option ℕ)
    → is_some (budget_of limit request input output) ≡ is_positive (sum_of request input output)
is_some-budget_of limit none input output = refl
is_some-budget_of limit (some a) none output = refl
is_some-budget_of limit (some a) (some b) none = refl
is_some-budget_of limit (some a) (some b) (some c) = ground arith

budget_tests :
    (approved : Bool) (limit : ℕ) (costs : Bool)
    → (not (not approved || limit == 0) && costs)
      ≡ (approved && (is_positive (some limit) && costs))
budget_tests approved limit costs = ground arith

module _ (d : Decimals) where
  -- A refusal behind a test, then the other tests.
  gate :
      (b rest : Bool) (p q : ContradictionPolicy d.Value)
      → p.classification_enabled ≡ false
      → q.classification_enabled ≡ rest
      → (if b then p else q).classification_enabled ≡ (not b && rest)
  gate true rest p q closed e = closed
  gate false rest p q closed e = e

  enabled_with_costs :
      (env : Environment) (o : Option BudgetConfig)
      → (policy_with_costs d env o).classification_enabled ≡ is_some o
  unfolding enabled_policy
  enabled_with_costs env none = refl
  enabled_with_costs env (some amounts) = refl

  enabled_with_limit :
      (env : Environment) (o : Option ℕ)
      → (policy_with_limit d env o).classification_enabled ≡ (
          is_approved env "CONTRADICTION_COST_BUDGET_APPROVED"
          && (is_positive o && costs_known env))
  enabled_with_limit env none = ground arith
  enabled_with_limit env (some limit) =
      gate _ _ _ _ refl (
        enabled_with_costs env _
        ∙ is_some-budget_of limit (usd_setting env "CONTRADICTION_ESTIMATED_REQUEST_COST_USD")
            (usd_setting env "CONTRADICTION_ESTIMATED_INPUT_COST_USD_PER_MILLION_BYTES")
            (usd_setting env "CONTRADICTION_ESTIMATED_OUTPUT_COST_USD_PER_MILLION_BYTES"))
      ∙ budget_tests (is_approved env "CONTRADICTION_COST_BUDGET_APPROVED") limit (costs_known env)

  -- The tests in the order of the code, and the same in the order of the lists above.
  gates :
      (p1 p2 p3 p4 p5 p6 p7 p8 u1 u2 u3 u4 comma money : Bool)
      (a b c e f q : ContradictionPolicy d.Value)
      → a.classification_enabled ≡ false
      → b.classification_enabled ≡ false
      → c.classification_enabled ≡ false
      → e.classification_enabled ≡ false
      → f.classification_enabled ≡ false
      → q.classification_enabled ≡ (p8 && money)
      → (if not p1
          then a
          else if not p2
          then b
          else if u1 || (u2 || (u3 || not p3))
          then c
          else if not p4 || (not p5 || not p6)
          then e
          else if u4 || (comma || not p7)
          then f
          else q).classification_enabled
        ≡ (((p1 && (p2 && (p3 && (p4 && (p5 && (p6 && (p7 && (p8 && true))))))))
            && ((not u1 && (not u2 && (not u3 && (not u4 && true)))) && (not comma && money))))
  gates p1 p2 p3 p4 p5 p6 p7 p8 u1 u2 u3 u4 comma money a b c e f q ha hb hc he hf hq = ground arith

  -- The classification is enabled exactly where all eight approvals are given, the provider, the
  -- model, the endpoint and one namespace are named, the budget is positive, and the costs are stated
  -- and not all zero.
  pub policy-enabled :
      (env : Environment)
      → (contradiction_policy_from_env d env).classification_enabled ≡ fully_approved env
  unfolding contradiction_policy_from_env
  policy-enabled env =
      gates (is_approved env "CONTRADICTION_CLASSIFICATION_ENABLED")
        (is_approved env "CONTRADICTION_PROCESSING_APPROVED")
        (is_approved env "CONTRADICTION_PROVIDER_MODEL_APPROVED")
        (is_approved env "CONTRADICTION_PRIVACY_APPROVED")
        (is_approved env "CONTRADICTION_RETENTION_APPROVED")
        (is_approved env "CONTRADICTION_TRAINING_APPROVED")
        (is_approved env "CONTRADICTION_SCOPE_APPROVED")
        (is_approved env "CONTRADICTION_COST_BUDGET_APPROVED")
        (is_unset (setting env "CONTRADICTION_PROVIDER"))
        (is_unset (setting env "CONTRADICTION_MODEL"))
        (is_unset (setting env "CONTRADICTION_GENERATION_ENDPOINT"))
        (is_unset (setting env "CONTRADICTION_APPROVED_NAMESPACE"))
        (has_comma (setting env "CONTRADICTION_APPROVED_NAMESPACE"))
        (is_positive (usd_setting env "CONTRADICTION_COST_BUDGET_USD") && costs_known env) _ _ _ _ _
        _ refl refl refl refl refl
        (enabled_with_limit env (usd_setting env "CONTRADICTION_COST_BUDGET_USD"))
