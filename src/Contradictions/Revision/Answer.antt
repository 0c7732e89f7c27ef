-- ===== src/Contradictions/Revision/Answer.antt =====
-- src/contradictions.ts: what an automatic revision has done when it answers with a new row.
use total_recall.Base.{◌≡◌, some, String, ok, arith}
use total_recall.Auth.Keys.{AuthContext}
use total_recall.Db.{db_scope_from_auth, Session, Faults}
use total_recall.Db.Scoped.{with_scoped_client-ok}
use total_recall.Memory.Beliefs.{BeliefTables}
use total_recall.Contradictions.Revision.{
  SemanticMemoryInsert, RevisionResult, RevisionRun, revise_in_transaction,
  commit_automatic_revision,
}
use total_recall.Contradictions.Revision.History.{Revises}

module _ (auth : AuthContext) (memory : SemanticMemoryInsert) (pid : String)
    (run : RevisionRun) where
  revise-Revises :
      (t t' : BeliefTables) (r : RevisionResult)
      → revise_in_transaction auth memory pid run t ≡ (ok (some r), t')
      → (r.id ≡ run.new_id) × Revises auth memory pid run t.memories t'.memories
  unfolding revise_in_transaction
  revise-Revises t t' r e = ground arith

  -- A revision answers with a row only if exactly one belief was revisable (it has the given id, is
  -- open, live, semantic, of normal access, in the memory's namespace and the key's, and nothing has
  -- replaced it) and could still be closed; then that belief is closed, the row with the answered id
  -- is appended as its successor, and every other row is as it was.
  pub commit-Revises :
      (f : Faults) (s : Session BeliefTables) (r : RevisionResult)
      → (commit_automatic_revision auth memory pid run f s).answer ≡ ok (some r)
      → (r.id ≡ run.new_id)
        × Revises auth memory pid run s.store.memories
            (commit_automatic_revision auth memory pid run f s).store.memories
  unfolding commit_automatic_revision
  commit-Revises f s r e =
      let (_, ran) =
        with_scoped_client-ok f (db_scope_from_auth auth)
          (λ _ t. revise_in_transaction auth memory pid run t) s (some r) e in
      revise-Revises s.store _ r ran
