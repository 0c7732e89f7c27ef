-- ===== src/Connector/Lock/Tests.antt =====
-- Locked programs on a session over a store of one number.
use total_recall.Base.{ℕ, ◌≡◌, refl, true, false, none, some, [], ◌∷◌, ok, err}
use total_recall.Db.{is_blank, Authority, Session, Faults, IsClean, thrown, query_failed}
use total_recall.Connector.State.{RowKey, StateError, lock_identity, assert_identity}
use total_recall.Connector.Lock.{
  LockRun, Prog, acquire_connector_source_lock, with_connector_session_lock,
}
use total_recall.Connector.Lock.Release.{failed_release_leaks}

abbrev no_faults : Faults
no_faults = record {
  connect = false;
  deny = false;
  begin = false;
  configure = false;
  commit = false;
  commit_took_effect = false;
  rollback = false;
}

abbrev k : RowKey
k = record { client_id = "key"; namespace = "life"; service = "calendar"; source_id = "home" }

abbrev denied : Authority
denied = record { allowed_namespaces = none; current_key_id = ""; current_key_is_admin = false }

abbrev life : Authority
life = record {
  allowed_namespaces = some ("life" ∷ []);
  current_key_id = "key";
  current_key_is_admin = false;
}

abbrev session : Session ℕ
session = record { authority = denied; local = none; locks = []; store = 0 }

abbrev locks_held : LockRun
locks_held = record { acquire_fails = false; held_elsewhere = false; release_fails = false }

abbrev release_lost : LockRun
release_lost = record { acquire_fails = false; held_elsewhere = false; release_fails = true }

abbrev seven : Prog ℕ StateError ℕ
seven s = (ok 7, s)

-- A transaction that was begun and whose ROLLBACK failed.
abbrev left_open : Prog ℕ StateError ℕ
left_open s = (err (thrown query_failed true), record s { local = some life })

abbrev locked : Session ℕ
locked = record session { locks = lock_identity k ∷ [] }

failed_release_leaks_example :
    ((with_connector_session_lock release_lost lock_identity
        (λ e. e)
        k
        no_faults
        left_open
        session).pooled
      ≡ some (record locked { local = some life }))
    × (¬ IsClean (record locked { local = some life }))
failed_release_leaks_example =
    failed_release_leaks release_lost lock_identity (λ e. e) k left_open no_faults session locked
      (record locked { local = some life }) (thrown query_failed true) life refl refl
      (unfold acquire_connector_source_lock assert_identity is_blank lock_identity in refl) refl
      refl refl refl
