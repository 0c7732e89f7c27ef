-- ===== src/Memory/Update.antt =====
-- src/tools/update.ts: memoryUpdate. The row that it answers with is left out, as is the renaming of
-- the database's own errors of constraints.
mod Links
mod Acyclic
mod Safety
mod Tests
use total_recall.Base.{
  ℕ, zero, suc, ◌+◌, ◌==◌, ltb, leb, Bool, true, false, not, ◌&&◌, ◌||◌, Option, none, some, List,
  [], ◌∷◌, ◌++◌, String, str_eq, if◌then◌else◌, includes, is_some, all, Result, ok, err, filter,
  update_where, count_where,
}
use total_recall.Auth.Levels.{level_name}
use total_recall.Auth.Levels.Sql.{access_level_sql}
use total_recall.Auth.Keys.{AuthContext}
use total_recall.Db.{
  is_blank, Session, Faults, After, Cause, callback, query_failed, thrown, db_scope_from_auth,
}
use total_recall.Db.Scoped.{with_scoped_client}
use total_recall.Memory.Beliefs.{
  BeliefRow, BeliefAudit, BeliefTables, is_live, is_unexpired, supersedes, has_id,
}
use total_recall.Memory.Patch.{
  UpdateParams, UpdateError, UpdateRun, is_valid_update, is_own_memory, is_current, current_row,
  row_of, finds_cycle, changed_revision, check_target, check_predecessor, differs, same_texts,
  tags_differ, or_old, patched, is_patchable, is_closable, closed, invalid_request,
  permission_denied, not_found, changed_since_loaded, changed_while_embedding, other_namespace,
  expiring, already_linked, partial_schema, already_succeeded, cycle, predecessor_changed,
  embedding_failed, audit_failed,
}

module _ (auth : AuthContext) (p : UpdateParams) (run : UpdateRun) where
  abbrev pub update_audit : String → BeliefRow → BeliefAudit
  update_audit action m = record {
    action = action;
    client_id = auth.key_id;
    namespace = m.namespace;
    memory_id = m.id;
  }

  abbrev pub is_changed : BeliefRow → Bool
  is_changed target =
      differs p.content target.content
      || (tags_differ p.tags target.tags || differs p.metadata target.metadata)

  -- Without a predecessor.
  unfoldable pub patch_target :
      BeliefRow → BeliefTables → Result UpdateError (Unit {0}) × BeliefTables
  unfolding patched
  patch_target target t =
      if not (is_changed target)
      then (ok tt, t)
      else if run.audit_fails
      then (err audit_failed, t)
      else (
        ok tt,
        record {
          memories =
              update_where (is_patchable run target.id) (patched p run none target) t.memories;
          audit = t.audit ++ update_audit "memory.update" target ∷ [];
        },
      )

  abbrev pub linked : BeliefRow → BeliefRow → List BeliefRow → List BeliefRow
  linked target predecessor rows =
      update_where (is_patchable run target.id) (patched p run (some predecessor) target) rows

  -- With a predecessor, which is closed after the target is linked to it.
  unfoldable pub link_target :
      BeliefRow → BeliefRow → BeliefTables → Result UpdateError (Unit {0}) × BeliefTables
  link_target target predecessor t =
      let rows = linked target predecessor t.memories in
      if not (count_where (is_closable predecessor.id) rows == 1)
      then (err predecessor_changed, t)
      else if run.audit_fails
      then (err audit_failed, t)
      else (
        ok tt,
        record {
          memories = update_where (is_closable predecessor.id) (closed run) rows;
          audit =
              t.audit
              ++ update_audit "memory.update" target
                ∷ record (update_audit "belief.supersede" target) { memory_id = predecessor.id }
                ∷ [];
        },
      )

  unfoldable pub update_target :
      Option BeliefRow → BeliefRow → BeliefTables → Result UpdateError (Unit {0}) × BeliefTables
  unfolding link_target patch_target check_predecessor
  update_target none target t = patch_target target t
  update_target (some predecessor) target t =
      elim (check_predecessor run t.memories target predecessor) [
        | some e ↦ (err e, t)
        | none ↦ link_target target predecessor t
      ]

  -- Both rows are locked before any of the checks.
  abbrev pub locked_predecessor : List BeliefRow → Result UpdateError (Option BeliefRow)
  locked_predecessor rows = elim p.supersedes [
    | none ↦ ok none
    | some id ↦ elim (current_row auth run.locked_at id rows) [
      | none ↦ err not_found
      | some predecessor ↦ ok (some predecessor)
    ]
  ]

  unfoldable pub update_in_transaction :
      Option ℕ → Option BeliefRow → BeliefTables → Result UpdateError (Unit {0}) × BeliefTables
  unfolding current_row update_target check_target
  update_in_transaction expected initial t = elim (current_row auth run.locked_at p.id t.memories) [
    | none ↦ (err not_found, t)
    | some target ↦ elim (locked_predecessor t.memories) [
      | err e ↦ (err e, t)
      | ok predecessor ↦ elim (check_target expected initial target) [
        | some e ↦ (err e, t)
        | none ↦ update_target predecessor target t
      ]
    ]
  ]

  -- readCurrentTarget and the embedding of a new content, before any lock.
  unfoldable pub prepare : Result (Cause UpdateError) (Option BeliefRow)
  unfolding current_row
  prepare = elim p.content [
    | none ↦ ok none
    | some content ↦
        if run.read_fails
        then err query_failed
        else elim (current_row auth run.read_at p.id run.before) [
          | none ↦ err (callback not_found)
          | some m ↦
              if not (str_eq content m.content) && not (is_some run.embedding)
              then err (callback embedding_failed)
              else ok (some m)
        ]
  ]

  abbrev pub refused :
      Cause UpdateError → Session BeliefTables → After BeliefTables UpdateError (Unit {0})
  refused e s = record { answer = err (thrown e false); store = s.store; pooled = some s }

  unfoldable pub memory_update :
      Faults → Option ℕ → Session BeliefTables → After BeliefTables UpdateError (Unit {0})
  unfolding is_valid_update prepare update_in_transaction
  memory_update f expected s =
      if not (is_valid_update p)
      then refused (callback invalid_request) s
      else if not (includes auth.permissions "write")
      then refused (callback permission_denied) s
      else elim prepare [
        | err e ↦ refused e s
        | ok initial ↦
            with_scoped_client f (db_scope_from_auth auth)
              (λ _ t. update_in_transaction expected initial t) s
      ]
