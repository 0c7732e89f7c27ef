-- ===== src/Contradictions/Revision.antt =====
-- src/contradictions.ts: commitAutomaticRevision. The id of the new row, the instants of the
-- statements and whether the INSERT or the audit record fails are given.
pub mod History
mod Answer
mod Tests
use total_recall.Base.{
  ℕ, ◌+◌, ◌==◌, leb, Bool, true, false, not, ◌&&◌, Option, none, some, List, [], ◌∷◌, ◌++◌, String,
  str_eq, if◌then◌else◌, includes, is_some, Result, ok, err, length, filter, update_where,
  count_where,
}
use total_recall.Auth.Keys.{AuthContext}
use total_recall.Db.{db_scope_from_auth, Session, Faults, After}
use total_recall.Db.Scoped.{with_scoped_client}
use total_recall.Memory.Beliefs.{BeliefRow, BeliefAudit, BeliefTables, is_live, supersedes}

pub record SemanticMemoryInsert : Type 0 where
  pub content : String
  pub vector : String
  pub namespace : String
  pub tags : List String
  pub metadata : String
  pub access_level : String

pub record RevisionResult : Type 0 where
  pub id : String
  pub namespace : String

pub data RevisionError : Type 0 where
  insert_failed audit_failed : RevisionError

pub record RevisionRun : Type 0 where
  pub selected_at : ℕ
  pub revision_at : ℕ
  pub closed_at : ℕ
  pub new_id : String
  pub insert_fails : Bool
  pub audit_fails : Bool

-- `m.valid_from <= statement_timestamp()`, which a null does not meet
abbrev pub has_begun : ℕ → BeliefRow → Bool
has_begun now r = elim r.valid_from [ none ↦ false | some t ↦ leb t now ]

abbrev pub is_open : BeliefRow → Bool
is_open r =
    not (is_some r.superseded_at)
    && (not (is_some r.valid_to) && not (is_some r.consolidated_into_id))

unfoldable pub is_revisable : AuthContext → String → String → ℕ → List BeliefRow → BeliefRow → Bool
is_revisable auth namespace predecessor_id now rows m =
    str_eq m.id predecessor_id
    && (str_eq m.namespace namespace
        && (includes auth.namespaces m.namespace
            && ((elim m.access_level [ none ↦ false | some level ↦ str_eq level "normal" ])
                && (str_eq m.memory_kind "semantic"
                    && (is_live now m
                        && (is_open m
                            && (has_begun now m && count_where (supersedes m.id) rows == 0)))))))

-- The condition of the UPDATE.
abbrev pub is_closable : String → ℕ → BeliefRow → Bool
is_closable predecessor_id now m = str_eq m.id predecessor_id && (is_live now m && is_open m)

abbrev pub closed_at : ℕ → BeliefRow → BeliefRow
closed_at instant m = record m {
  superseded_at = some instant;
  valid_to = some instant;
  updated_at = instant;
  revision = m.revision + 1;
}

unfoldable pub successor_row : SemanticMemoryInsert → String → RevisionRun → BeliefRow
successor_row memory predecessor_id run = record {
  id = run.new_id;
  namespace = memory.namespace;
  access_level = some memory.access_level;
  memory_kind = "semantic";
  content = memory.content;
  tags = memory.tags;
  metadata = memory.metadata;
  embedding = some memory.vector;
  deleted_at = none;
  expires_at = none;
  superseded_at = none;
  valid_from = some run.revision_at;
  valid_to = none;
  consolidated_into_id = none;
  supersedes_id = some predecessor_id;
  updated_at = run.revision_at;
  revision = 0;
}

module _ (auth : AuthContext) (memory : SemanticMemoryInsert) (predecessor_id : String)
    (run : RevisionRun) where
  abbrev pub supersede_audit : BeliefAudit
  supersede_audit = record {
    action = "belief.supersede";
    client_id = auth.key_id;
    namespace = memory.namespace;
    memory_id = run.new_id;
  }

  unfoldable pub revise_in_transaction :
      BeliefTables → Result RevisionError (Option RevisionResult) × BeliefTables
  unfolding successor_row
  revise_in_transaction t =
      if not (
        count_where (is_revisable auth memory.namespace predecessor_id run.selected_at t.memories)
          t.memories
        == 1)
      then (ok none, t)
      else let closed =
          update_where (is_closable predecessor_id run.closed_at) (closed_at run.revision_at)
            t.memories in
        if not (count_where (is_closable predecessor_id run.closed_at) t.memories == 1)
        then (ok none, record t { memories = closed })
        else if run.insert_fails
        then (err insert_failed, t)
        else if run.audit_fails
        then (err audit_failed, t)
        else (
          ok (some (record { id = run.new_id; namespace = memory.namespace })),
          record {
            memories = closed ++ successor_row memory predecessor_id run ∷ [];
            audit = t.audit ++ supersede_audit ∷ [];
          },
        )

  unfoldable pub commit_automatic_revision :
      Faults → Session BeliefTables → After BeliefTables RevisionError (Option RevisionResult)
  commit_automatic_revision f s =
      with_scoped_client f (db_scope_from_auth auth) (λ _ t. revise_in_transaction t) s
