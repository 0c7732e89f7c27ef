-- ===== src/Memory/Update/Safety.antt =====
-- src/tools/update.ts: a whole update and the links between beliefs.
use total_recall.Base.{
  ℕ, ◌≡◌, refl, Bool, true, false, Option, none, some, Occurs, if◌then◌else◌, Result, ok, err,
  includes, not,
}
use total_recall.Auth.Keys.{AuthContext}
use total_recall.Db.{db_scope_from_auth, Session, Faults, After, Cause}
use total_recall.Db.Scoped.{with_scoped_client-store}
use total_recall.Memory.Beliefs.{BeliefRow, BeliefTables, HasPrimaryKey}
use total_recall.Memory.Patch.{
  UpdateParams, UpdateRun, UpdateError, is_valid_update, not_found, check_target, current_row,
  check_predecessor,
}
use total_recall.Memory.Update.{
  refused, link_target, update_target, update_in_transaction, locked_predecessor, prepare,
  memory_update,
}
use total_recall.Memory.Update.Links.{IsAcyclic}
use total_recall.Memory.Update.Acyclic.{Occurs-current_row, patch-IsAcyclic, link-IsAcyclic}

module _ (auth : AuthContext) (p : UpdateParams) (run : UpdateRun) where
  -- A step that leaves the table, and else one that keeps a predicate.
  after_check :
      (c : Option UpdateError) (t : BeliefTables)
      (next : Result UpdateError (Unit {0}) × BeliefTables)
      → IsAcyclic t.memories
      → (c ≡ none → IsAcyclic next.1.memories)
      → (let ended : Result UpdateError (Unit {0}) × BeliefTables = elim c [
        | some e ↦ (err e, t)
        | none ↦ next
      ] in
          IsAcyclic ended.1.memories)
  after_check (some e) t next old h = old
  after_check none t next old h = h refl

  target-IsAcyclic :
      (q : Option BeliefRow) (target : BeliefRow) (t : BeliefTables)
      → HasPrimaryKey t.memories
      → Occurs target t.memories
      → IsAcyclic t.memories
      → IsAcyclic (update_target auth p run q target t).1.memories
  unfolding update_target
  target-IsAcyclic none target t key o old = patch-IsAcyclic auth p run target t old
  target-IsAcyclic (some q) target t key o old =
      after_check (check_predecessor run t.memories target q) t (link_target auth p run target q t)
        old (λ clear. link-IsAcyclic auth p run target q t key o clear old)

  after_lock :
      (found : Option BeliefRow) (t : BeliefTables)
      (next : BeliefRow → Result UpdateError (Unit {0}) × BeliefTables)
      → IsAcyclic t.memories
      → ((m : BeliefRow) → found ≡ some m → IsAcyclic (next m).1.memories)
      → (let ended : Result UpdateError (Unit {0}) × BeliefTables = elim found [
        | none ↦ (err not_found, t)
        | some m ↦ next m
      ] in
          IsAcyclic ended.1.memories)
  after_lock none t next old h = old
  after_lock (some m) t next old h = h m refl

  after_predecessor :
      (found : Result UpdateError (Option BeliefRow)) (t : BeliefTables)
      (next : Option BeliefRow → Result UpdateError (Unit {0}) × BeliefTables)
      → IsAcyclic t.memories
      → ((q : Option BeliefRow) → IsAcyclic (next q).1.memories)
      → (let ended : Result UpdateError (Unit {0}) × BeliefTables = elim found [
        | err e ↦ (err e, t)
        | ok q ↦ next q
      ] in
          IsAcyclic ended.1.memories)
  after_predecessor (err e) t next old h = old
  after_predecessor (ok q) t next old h = h q

  transaction-IsAcyclic :
      (expected : Option ℕ) (initial : Option BeliefRow) (t : BeliefTables)
      → HasPrimaryKey t.memories
      → IsAcyclic t.memories
      → IsAcyclic (update_in_transaction auth p run expected initial t).1.memories
  unfolding update_in_transaction
  transaction-IsAcyclic expected initial t key old =
      after_lock (current_row auth run.locked_at p.id t.memories) t _ old (λ target e.
        after_predecessor (locked_predecessor auth p run t.memories) t _ old (λ q.
          after_check (check_target expected initial target) t (update_target auth p run q target t)
            old
            (λ _.
              target-IsAcyclic q target t key
                (Occurs-current_row auth run.locked_at p.id t.memories target e) old)))

  either_store :
      (b : Bool) (x y : After BeliefTables UpdateError (Unit {0}))
      → IsAcyclic x.store.memories
      → IsAcyclic y.store.memories
      → IsAcyclic (if b then x else y).store.memories
  either_store true x y h k = h
  either_store false x y h k = k

  prepared :
      (found : Result (Cause UpdateError) (Option BeliefRow)) (s : Session BeliefTables)
      (next : Option BeliefRow → After BeliefTables UpdateError (Unit {0}))
      → IsAcyclic s.store.memories
      → ((q : Option BeliefRow) → IsAcyclic (next q).store.memories)
      → (let ended : After BeliefTables UpdateError (Unit {0}) = elim found [
        | err e ↦ refused auth p run e s
        | ok q ↦ next q
      ] in
          IsAcyclic ended.store.memories)
  prepared (err e) s next old h = old
  prepared (ok q) s next old h = h q

  -- An update of a memory, whatever it asks, whatever it answers and whatever fails, keeps the links
  -- between beliefs free of cycles, where ids are unique and the links had none.
  pub memory_update-IsAcyclic :
      (f : Faults) (expected : Option ℕ) (s : Session BeliefTables)
      → HasPrimaryKey s.store.memories
      → IsAcyclic s.store.memories
      → IsAcyclic (memory_update auth p run f expected s).store.memories
  unfolding memory_update
  memory_update-IsAcyclic f expected s key old = either_store (not (is_valid_update p)) _ _ old (
      either_store (not (includes auth.permissions "write")) _ _ old (
        prepared (prepare auth p run) s _ old (λ initial.
          with_scoped_client-store f (db_scope_from_auth auth)
            (λ _ t. update_in_transaction auth p run expected initial t) (λ t. IsAcyclic t.memories)
            s old (λ a e. transaction-IsAcyclic expected initial s.store key old))))
