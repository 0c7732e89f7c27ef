-- ===== src/Contradictions/Revise/Tests.antt =====
-- A classification that ends in a revision.
use total_recall.Base.{false, ℕ, ◌≡◌, refl, none, some, [], ◌∷◌, true, false, String, ok}
use total_recall.Auth.Levels.{normal}
use total_recall.Auth.Keys.{AuthContext}
use total_recall.Db.{Session, Faults, is_blank, is_valid_scope, db_scope_from_auth}
use total_recall.Db.Scoped.{with_scoped_client, conclude}
use total_recall.Memory.Beliefs.{BeliefRow, BeliefTables}
use total_recall.Contradictions.Revision.{
  SemanticMemoryInsert, RevisionRun, is_revisable, revise_in_transaction, commit_automatic_revision,
}
use total_recall.Contradictions.Reasons.{mutated}
use total_recall.Contradictions.Budget.{round_up_rate, estimate, try_reserve}
use total_recall.Contradictions.Policy.{ApprovedBudget, ContradictionPolicy, policy_allows_scope}
use total_recall.Contradictions.Policy.Tests.{naturals}
use total_recall.Contradictions.Classify.{
  RuntimeState, Process, output, finish_classification, commit_outcome, validate,
}
use total_recall.Contradictions.Revise.{
  Request, read_output, classify_contradiction, judge, verdict, runtime_state, classify_within,
  maybe_revise_belief,
}
use total_recall.Contradictions.Revise.Safety.{IsSafe, maybe_revise-IsSafe}

abbrev budget : ApprovedBudget
budget = record {
  amounts = record {
    limit = 10;
    request = 4;
    input_per_million_bytes = 1;
    output_per_million_bytes = 0;
  };
  fingerprint = [];
}

abbrev policy : ContradictionPolicy ℕ
policy = record {
  classification_enabled = true;
  reason = none;
  provider = some "p";
  model = some "m";
  endpoint = some "http://h";
  api_key = none;
  namespace = some "notes";
  timeout_ms = 100;
  mutation_confidence = 1;
  mutation_enabled = true;
  budget = some budget;
  shadow_max_in_flight = 2;
  shadow_max_queued = 8;
}

abbrev writer : AuthContext
writer = record {
  key_id = "key";
  name = "writer";
  namespaces = "notes" ∷ [];
  permissions = "write" ∷ [];
  max_access_level = normal;
  requests_per_minute = none;
  requests_per_day = none;
  expires_at = none;
}

abbrev belief : BeliefRow
belief = record {
  id = "m1";
  namespace = "notes";
  access_level = some "normal";
  memory_kind = "semantic";
  content = "the office is in Rome";
  tags = [];
  metadata = "{}";
  embedding = some "[1]";
  deleted_at = none;
  expires_at = none;
  superseded_at = none;
  valid_from = some 5;
  valid_to = none;
  consolidated_into_id = none;
  supersedes_id = none;
  updated_at = 5;
  revision = 0;
}

abbrev news : SemanticMemoryInsert
news = record {
  content = "the office is in Oslo";
  vector = "[2]";
  namespace = "notes";
  tags = [];
  metadata = "{}";
  access_level = "normal";
}

abbrev at_ten : RevisionRun
at_ten = record {
  selected_at = 10;
  revision_at = 11;
  closed_at = 12;
  new_id = "m2";
  insert_fails = false;
  audit_fails = false;
}

abbrev one_belief : BeliefTables
one_belief = record { memories = belief ∷ []; audit = [] }

abbrev no_faults : Faults
no_faults = record {
  connect = false;
  deny = false;
  begin = false;
  configure = false;
  commit = false;
  commit_took_effect = false;
  rollback = false;
}

abbrev session : Session BeliefTables
session = record {
  authority = record {
    allowed_namespaces = none;
    current_key_id = "";
    current_key_is_admin = false;
  };
  local = none;
  locks = [];
  store = one_belief;
}

abbrev request : Request ℕ
request = record {
  policy = policy;
  auth = writer;
  memory = news;
  access_level = normal;
  allow_mutation = none;
  candidates = ok ("m0" ∷ "m1" ∷ []);
  shut_meanwhile = false;
  elapsed_ms = 5;
  input_bytes = 300;
  provider = output "{}";
  parse =
      λ text. some (record { label = "contradiction"; confidence = 1; candidate_id = some "m1" });
  run = at_ten;
  faults = no_faults;
  session = session;
  code_of = λ e. none;
}

abbrev runtime : RuntimeState
runtime = record {
  config_key = "k";
  reserved = 2;
  active_classifications = 1;
  idle_waiters = 0;
  woken = 0;
}

abbrev process : Process
process = record { runtime = some runtime; accepting = true }

abbrev key_of : ContradictionPolicy ℕ → ApprovedBudget → String
key_of p b = "k"

abbrev same : String → String
same s = s

revised :
    ((maybe_revise_belief naturals same key_of request process).0.answer
      ≡ ok (some (record { id = "m2"; namespace = "notes" })))
    × ((maybe_revise_belief naturals same key_of request process).0.metrics ≡ mutated ∷ [])
    × ((maybe_revise_belief naturals same key_of request process).1
        ≡ record { runtime = some (record runtime { reserved = 7 }); accepting = true })
unfolding maybe_revise_belief classify_within runtime_state verdict classify_contradiction
    read_output judge validate finish_classification commit_outcome try_reserve estimate
    round_up_rate policy_allows_scope commit_automatic_revision with_scoped_client conclude
    revise_in_transaction is_revisable is_blank is_valid_scope db_scope_from_auth
revised = (refl, refl, refl)

maybe_revise-IsSafe_example :
    IsSafe naturals same request process
      (maybe_revise_belief naturals same key_of request process).0
maybe_revise-IsSafe_example = maybe_revise-IsSafe naturals same key_of request process
