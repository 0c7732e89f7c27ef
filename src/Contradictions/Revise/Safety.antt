-- ===== src/Contradictions/Revise/Safety.antt =====
-- src/contradictions.ts: when a classification changes memories.
use total_recall.Base.{
  sym, ◌↔◌, Bool-cases, Result, ℕ, ◌≡◌, refl, true, false, Option, none, some, List, [], ◌∷◌,
  String, includes, map, ok, err, arith, Result-cases, Option-cases, inl, inr, ◌⊎◌, subst,
}
use total_recall.Contradictions.Budget.{BudgetConfig}
use total_recall.Contradictions.Policy.{
  Decimals, ContradictionPolicy, ApprovedBudget, policy_allows_scope,
}
use total_recall.Contradictions.Reasons.{ContradictionReason}
use total_recall.Db.{Thrown}
use total_recall.Memory.Beliefs.{BeliefTables}
use total_recall.Contradictions.Revision.{RevisionResult, RevisionError}
use total_recall.Contradictions.Classify.{
  ContradictionClassification, ClassifyError, ProviderAnswer, output, fails, ParsedOutput, Process,
  Verdict, declines, commits, Outcome, ErrorCode, commit_outcome,
}
use total_recall.Contradictions.Revise.{
  Request, revision, coded, is_contradiction, is_disallowed, read_output, classify_contradiction,
  judge, judge_result, verdict, outcome_of, runtime_state, classify_within, maybe_revise_belief,
}

ProviderAnswer-cases :
    (a : ProviderAnswer)
    → ((text : String) × (a ≡ output text)) ⊎ ((e : ClassifyError) × (a ≡ fails e))
ProviderAnswer-cases (output text) = inl (text, refl)
ProviderAnswer-cases (fails e) = inr (e, refl)

module _ (d : Decimals) (lower : String → String) where
  open d use {Value, leq}

  read_output-known :
      (ids : List String) (o : Option (ParsedOutput Value)) (c : ContradictionClassification Value)
      (id : String)
      → read_output d lower ids o ≡ ok c
      → c.candidate_id ≡ some id
      → includes (map lower ids) id ≡ true
  unfolding read_output
  read_output-known ids none c id e h = cc
  read_output-known ids (some p) c id e h = ground arith

  judge-commits :
      (q : Request Value) (c : ContradictionClassification Value) (id : String)
      → judge d lower q c ≡ commits id
      → (is_contradiction c.classification ≡ true)
        × (leq q.policy.mutation_confidence c.confidence ≡ true)
        × (q.policy.mutation_enabled ≡ true)
        × (is_disallowed q.allow_mutation ≡ false)
        × (c.candidate_id ≡ some id)
  unfolding judge
  judge-commits q c id e = ground arith

  -- The provider found the memory to contradict a candidate, and the policy lets that count.
  abbrev pub Grounds : Request Value → String → Type 0
  Grounds q id =
      (ids : List String) × (text : String) × (c : ContradictionClassification Value)
      × (q.candidates ≡ ok ids)
      × (q.provider ≡ output text)
      × (read_output d lower ids (q.parse text) ≡ ok c)
      × (judge d lower q c ≡ commits id)

  classify-ok :
      (q : Request Value) (budget : BudgetConfig) (ids : List String) (reserved : ℕ)
      (c : ContradictionClassification Value)
      → (classify_contradiction d lower q budget ids reserved).0 ≡ ok c
      → (text : String) × (q.provider ≡ output text)
        × (read_output d lower ids (q.parse text) ≡ ok c)
  unfolding classify_contradiction
  classify-ok q budget ids reserved c e = elim (ProviderAnswer-cases q.provider) [
    | inl (text, answered) ↦ (text, answered, ground arith)
    | inr (x, failed) ↦ absurd (ground arith)
  ]

  -- What the provider and the policy say of the memory that a commit replaces.
  abbrev pub Approves : Request Value → String → Type 0
  Approves q id =
      (ids : List String) × (text : String) × (c : ContradictionClassification Value)
      × (q.candidates ≡ ok ids)
      × (includes (map lower ids) id ≡ true)
      × (q.provider ≡ output text)
      × (read_output d lower ids (q.parse text) ≡ ok c)
      × (is_contradiction c.classification ≡ true)
      × (c.candidate_id ≡ some id)
      × (leq q.policy.mutation_confidence c.confidence ≡ true)
      × (q.policy.mutation_enabled ≡ true)
      × (is_disallowed q.allow_mutation ≡ false)

  Grounds-Approves : (q : Request Value) (id : String) → Grounds q id → Approves q id
  Grounds-Approves q id (ids, text, c, found, answered, read, judged) =
      let (is_contra, sure, enabled, allowed, named) = judge-commits q c id judged in
      (
        ids,
        text,
        c,
        found,
        read_output-known ids (q.parse text) c id read named,
        answered,
        read,
        is_contra,
        named,
        sure,
        enabled,
        allowed,
      )

  judged-Grounds :
      (q : Request Value) (budget : BudgetConfig) (ids : List String) (reserved : ℕ) (id : String)
      → q.candidates ≡ ok ids
      → judge_result d lower q (classify_contradiction d lower q budget ids reserved).0 ≡ commits id
      → Grounds q id
  judged-Grounds q budget ids reserved id found e =
      elim (Result-cases (classify_contradiction d lower q budget ids reserved).0) [
        | inl (c, classified) ↦
            let (text, answered, read) = classify-ok q budget ids reserved c classified in
            let judged : judge_result d lower q (ok c) ≡ commits id =
              subst (λ r. judge_result d lower q r ≡ commits id) classified e in
            (ids, text, c, found, answered, read, judged)
        | inr (x, failed) ↦
            let judged : judge_result d lower q (err x) ≡ commits id =
              subst (λ r. judge_result d lower q r ≡ commits id) failed e in
            absurd (ground arith)
      ]

  verdict-Grounds :
      (q : Request Value) (budget : BudgetConfig) (reserved : ℕ) (id : String)
      → (verdict d lower q budget reserved).0 ≡ commits id
      → Grounds q id
  unfolding verdict
  verdict-Grounds q budget reserved id e = elim (Result-cases q.candidates) [
    | inl ([], found) ↦ absurd (ground arith)
    | inl (x ∷ xs, found) ↦ judged-Grounds q budget (x ∷ xs) reserved id found (ground arith)
    | inr (code, failed) ↦ absurd (ground arith)
  ]

  -- The outcome is that of one commit: its tables, whatever it answers, and the new row exactly where it
  -- answers with one.
  abbrev pub IsRevision : Request Value → String → Outcome → Type 0
  IsRevision q id o =
      (o.store ≡ (revision q id).store)
      × ((r : RevisionResult) → (o.answer ≡ ok (some r)) ↔ ((revision q id).answer ≡ ok (some r)))

  -- The tables are untouched and no row is reported, or they are those of a commit that is approved.
  abbrev pub IsSafe : Request Value → Process → Outcome → Type 0
  IsSafe q p o =
      ((o.store ≡ q.session.store) × (o.answer ≡ ok none))
      ⊎ ((policy_allows_scope d q.policy q.memory.namespace q.access_level ≡ true)
          × (p.accepting ≡ true)
          × ((id : String) × Approves q id × IsRevision q id o))

  commit_outcome-store :
      (t : BeliefTables) (r : Result ErrorCode (Option RevisionResult))
      → (commit_outcome t r).store ≡ t
  unfolding commit_outcome
  commit_outcome-store t (ok none) = refl
  commit_outcome-store t (ok (some r)) = refl
  commit_outcome-store t (err code) = ground arith

  commit_outcome-answer :
      (t : BeliefTables) (code_of : Thrown RevisionError → ErrorCode)
      (a : Result (Thrown RevisionError) (Option RevisionResult)) (r : RevisionResult)
      → ((commit_outcome t (coded code_of a)).answer ≡ ok (some r)) ↔ (a ≡ ok (some r))
  unfolding commit_outcome
  commit_outcome-answer t code_of (ok none) r = ground arith
  commit_outcome-answer t code_of (ok (some q)) r = ground arith
  commit_outcome-answer t code_of (err e) r = ground arith

  Verdict-cases :
      (v : Verdict)
      → ((reason : ContradictionReason) × (v ≡ declines reason))
        ⊎ ((id : String) × (v ≡ commits id))
  Verdict-cases (declines reason) = inl (reason, refl)
  Verdict-cases (commits id) = inr (id, refl)

  within-IsSafe :
      (q : Request Value) (budget : BudgetConfig) (reserved : ℕ) (p : Process)
      → policy_allows_scope d q.policy q.memory.namespace q.access_level ≡ true
      → p.accepting ≡ true
      → IsSafe q p (outcome_of d lower q (verdict d lower q budget reserved).0)
  within-IsSafe q budget reserved p allowed open_now =
      elim (Verdict-cases (verdict d lower q budget reserved).0) [
        | inl (reason, declined_it) ↦ rw declined_it (inl (refl, refl))
        | inr (id, chosen) ↦
            let grounds = Grounds-Approves q id (verdict-Grounds q budget reserved id chosen) in
            rw chosen (
              inr (
                allowed,
                open_now,
                (
                  id,
                  grounds,
                  (
                    commit_outcome-store (revision q id).store
                        (coded q.code_of (revision q id).answer),
                    commit_outcome-answer (revision q id).store q.code_of (revision q id).answer,
                  ),
                ),
              ))
      ]

  -- A call leaves the tables as they are and reports no row, or it leaves exactly what one commit of a
  -- revision leaves, be it that the commit succeeds, fails or is uncertain, and reports a row exactly
  -- where that commit answers with it. The second happens only for a namespace and a level that the
  -- policy allows, while the process accepts work, for an id that is among those of the candidates, and
  -- where the provider's own text, read by the schema, calls it a contradiction with at least the
  -- policy's confidence; mutations are then enabled by the policy and not forbidden by the caller.
  pub maybe_revise-IsSafe :
      (key_of : ContradictionPolicy Value → ApprovedBudget → String) (q : Request Value)
      (p : Process)
      → IsSafe q p (maybe_revise_belief d lower key_of q p).0
  unfolding maybe_revise_belief classify_within
  maybe_revise-IsSafe key_of q p =
      elim (Bool-cases (policy_allows_scope d q.policy q.memory.namespace q.access_level)) [
        | inr outside ↦ rw outside (inl (refl, refl))
        | inl allowed ↦ elim (Option-cases (runtime_state d lower key_of q.policy p)) [
          | inl missing ↦ rw allowed (rw missing (inl (refl, refl)))
          | inr ((budget, rt), found) ↦ elim (Bool-cases p.accepting) [
            | inr shut ↦ rw allowed (rw found (rw shut (inl (refl, refl))))
            | inl open_now ↦
                let same : (maybe_revise_belief d lower key_of q p).0
                    ≡ outcome_of d lower q (verdict d lower q budget rt.reserved).0 =
                  rw allowed (rw found (rw open_now refl)) in
                subst (IsSafe q p) (sym same)
                  (within-IsSafe q budget rt.reserved p allowed open_now)
          ]
        ]
      ]
