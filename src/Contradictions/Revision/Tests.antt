-- ===== src/Contradictions/Revision/Tests.antt =====
-- An automatic revision of one belief.
use total_recall.Base.{◌≡◌, refl, none, some, [], ◌∷◌, arith, false, ok, String}
use total_recall.Auth.Levels.{normal}
use total_recall.Auth.Keys.{AuthContext}
use total_recall.Db.{Session, Faults, is_blank, is_valid_scope, db_scope_from_auth}
use total_recall.Db.Scoped.{with_scoped_client, conclude}
use total_recall.Memory.Beliefs.{BeliefRow, BeliefTables}
use total_recall.Contradictions.Revision.{
  SemanticMemoryInsert, RevisionRun, is_revisable, revise_in_transaction, commit_automatic_revision,
}
use total_recall.Contradictions.Revision.History.{IsHistory, Revises, commit-IsHistory}
use total_recall.Contradictions.Revision.Answer.{commit-Revises}

abbrev writer : AuthContext
writer = record {
  key_id = "key";
  name = "writer";
  namespaces = "notes" ∷ [];
  permissions = "write" ∷ [];
  max_access_level = normal;
  requests_per_minute = none;
  requests_per_day = none;
  expires_at = none;
}

abbrev belief : BeliefRow
belief = record {
  id = "m1";
  namespace = "notes";
  access_level = some "normal";
  memory_kind = "semantic";
  content = "the office is in Rome";
  tags = [];
  metadata = "{}";
  embedding = some "[1]";
  deleted_at = none;
  expires_at = none;
  superseded_at = none;
  valid_from = some 5;
  valid_to = none;
  consolidated_into_id = none;
  supersedes_id = none;
  updated_at = 5;
  revision = 0;
}

abbrev news : SemanticMemoryInsert
news = record {
  content = "the office is in Oslo";
  vector = "[2]";
  namespace = "notes";
  tags = [];
  metadata = "{}";
  access_level = "normal";
}

abbrev at_ten : RevisionRun
at_ten = record {
  selected_at = 10;
  revision_at = 11;
  closed_at = 12;
  new_id = "m2";
  insert_fails = false;
  audit_fails = false;
}

abbrev one_belief : BeliefTables
one_belief = record { memories = belief ∷ []; audit = [] }

abbrev no_faults : Faults
no_faults = record {
  connect = false;
  deny = false;
  begin = false;
  configure = false;
  commit = false;
  commit_took_effect = false;
  rollback = false;
}

abbrev session : Session BeliefTables
session = record {
  authority = record {
    allowed_namespaces = none;
    current_key_id = "";
    current_key_is_admin = false;
  };
  local = none;
  locks = [];
  store = one_belief;
}

one_belief-IsHistory : IsHistory (belief ∷ [])
one_belief-IsHistory = (λ id. ground arith, λ id. omega arith, λ r q o p e. ground arith)

commit-IsHistory_example :
    IsHistory (commit_automatic_revision writer news "m1" at_ten no_faults session).store.memories
commit-IsHistory_example =
    commit-IsHistory writer news "m1" at_ten no_faults session (omega arith, omega arith)
      one_belief-IsHistory

revised_once :
    (commit_automatic_revision writer news "m1" at_ten no_faults session).answer
    ≡ ok (some (record { id = "m2"; namespace = "notes" }))
unfolding commit_automatic_revision with_scoped_client conclude revise_in_transaction is_revisable
    is_blank is_valid_scope db_scope_from_auth
revised_once = refl

commit-Revises_example :
    (◌≡◌ {A = String} "m2" "m2")
    × Revises writer news "m1" at_ten one_belief.memories
        (commit_automatic_revision writer news "m1" at_ten no_faults session).store.memories
commit-Revises_example =
    commit-Revises writer news "m1" at_ten no_faults session
      (record { id = "m2"; namespace = "notes" }) revised_once
