-- ===== src/Connector/Lock.antt =====
-- src/connectors/state.ts and base.ts: the advisory lock of a source, held by a session over several
-- transactions (`withConnectorSessionLock`, and the same lines in `persistAtomicPage`).
pub mod Release
pub mod Chain
pub mod Answer
pub mod Kept
mod Tests
use total_recall.Base.{
  ◌≡◌, Bool, true, false, not, ◌&&◌, ◌||◌, Option, none, some, List, [], ◌∷◌, String, str_eq,
  if◌then◌else◌, includes, Result, ok, err,
}
use total_recall.Db.{Session, Faults, Cause, callback, query_failed, Thrown, thrown, After}
use total_recall.Db.CheckedOut.{with_checked_out_client}
use total_recall.Connector.State.{
  RowKey, StateError, already_syncing, lock_not_held, assert_identity,
}

-- A program on a session.
abbrev pub Prog : Type 0 → Type 0 → Type 0 → Type 0
Prog S E A = Session S → Result (Thrown E) A × Session S

-- `await`: a program goes on, unless the one before it threw.
abbrev pub next :
    {S E A B : Type 0}
    → Result (Thrown E) A × Session S
    → (A → Prog S E B)
    → Result (Thrown E) B × Session S
next (ok a, s) f = f a s
next (err t, s) f = (err t, s)

-- What the lock's two queries meet: a failure of the query, and the lock held by another session.
pub record LockRun : Type 0 where
  pub acquire_fails : Bool
  pub held_elsewhere : Bool
  pub release_fails : Bool

-- Advisory locks of a session are counted: one release takes one of them back.
unfoldable pub remove_one : String → List String → List String
remove_one x [] = []
remove_one x (y ∷ ys) = if str_eq y x then ys else y ∷ remove_one x ys

-- `lock_name` is `lockIdentity`; `wrap` makes an error of this module one of the caller's.
module _ {S E : Type 0} (l : LockRun) (lock_name : RowKey → String) (wrap : StateError → E)
    (k : RowKey) where
  unfoldable pub acquire_connector_source_lock : Prog S E (Unit {0})
  acquire_connector_source_lock s = elim (assert_identity k) [
    | err e ↦ (err (thrown (callback (wrap e)) false), s)
    | ok u ↦
        if l.acquire_fails
        then (err (thrown query_failed false), s)
        else if l.held_elsewhere
        then (err (thrown (callback (wrap already_syncing)) false), s)
        else (ok tt, record s { locks = lock_name k ∷ s.locks })
  ]

  unfoldable pub release_connector_source_lock : Prog S E (Unit {0})
  unfolding remove_one
  release_connector_source_lock s =
      if l.release_fails
      then (err (thrown query_failed false), s)
      else if not (includes s.locks (lock_name k))
      then (err (thrown (callback (wrap lock_not_held)) false), s)
      else (ok tt, record s { locks = remove_one (lock_name k) s.locks })

  module _ {A : Type 0} where
    -- `finally { await releaseConnectorSourceLock(…) }`: an error of the release replaces the answer.
    unfoldable pub finally_release :
        Result (Thrown E) A × Session S → Result (Thrown E) A × Session S
    finally_release (r, s) = next (release_connector_source_lock s) (λ _ s'. (r, s'))

    unfoldable pub locked_body : Prog S E A → Prog S E A
    locked_body body s = next (acquire_connector_source_lock s) (λ _ s'. finally_release (body s'))

    unfoldable pub with_connector_session_lock : Faults → Prog S E A → Session S → After S E A
    with_connector_session_lock f body = with_checked_out_client f (locked_body body)
