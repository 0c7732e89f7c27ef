-- ===== src/Connector/Lock/Release.antt =====
-- src/connectors/base.ts: how a locked program ends.
use total_recall.Base.{
  ◌⊎◌, ◌≡◌, refl, true, false, none, some, String, eq_iff, includes, Result, ok, err, arith,
}
use total_recall.Db.{Authority, Session, Faults, query_failed, Thrown, thrown, IsClean}
use total_recall.Db.CheckedOut.{
  with_checked_out_client, Owes, with_checked_out_client-IsClean, denied_all,
}
use total_recall.Connector.State.{RowKey, StateError}
use total_recall.Connector.Lock.{
  Prog, next, LockRun, acquire_connector_source_lock, release_connector_source_lock,
  finally_release, locked_body, with_connector_session_lock,
}

module _ {S E : Type 0} (l : LockRun) (lock_name : RowKey → String) (wrap : StateError → E)
    (k : RowKey) where
  -- What a body that keeps its lock gives back.
  abbrev Keeps : {A : Type 0} → Result (Thrown E) A × Session S → Type 0
  Keeps (r, s) = includes s.locks (lock_name k) ≡ true

  finally-Owes :
      {A : Type 0} (r : Result (Thrown E) A) (s : Session S)
      → l.release_fails ≡ false
      → includes s.locks (lock_name k) ≡ true
      → Owes (r, s)
      → Owes (finally_release l lock_name wrap k (r, s))
  unfolding finally_release release_connector_source_lock
  finally-Owes (ok a) s f h o = ground arith
  finally-Owes (err t) s f h o = ground arith

  acquire-Owes :
      (s : Session S) → IsClean s → Owes (acquire_connector_source_lock l lock_name wrap k s)
  unfolding acquire_connector_source_lock
  acquire-Owes s c = ground arith

  -- A body that leaves the lock alone and owes nothing: clean, or with a marked error.
  abbrev pub Behaves : {A : Type 0} → Prog S E A → Type 0
  Behaves body =
      (x : Session S)
      → IsClean x
      → includes x.locks (lock_name k) ≡ true
      → Owes (body x) × (includes (body x).1.locks (lock_name k) ≡ true)

  module _ {A : Type 0} (body : Prog S E A) (behaves : Behaves body)
      (f : l.release_fails ≡ false) where
    after_acquire :
        (r : Result (Thrown E) (Unit {0})) (s : Session S)
        → Owes (r, s)
        → (r ≡ ok tt → includes s.locks (lock_name k) ≡ true)
        → Owes (next (r, s) (λ _ x. finally_release l lock_name wrap k (body x)))
    after_acquire (err t) s o h = o
    after_acquire (ok u) s o h =
        let (p, q) = behaves s o (h refl) in finally-Owes (body s).0 (body s).1 f q p

    acquired_lock :
        (s : Session S)
        → let (r, x) = acquire_connector_source_lock l lock_name wrap k s in
          r ≡ ok tt → includes x.locks (lock_name k) ≡ true
    unfolding acquire_connector_source_lock
    acquired_lock s = ground (arith, eq_iff (lock_name k) (lock_name k))

    locked_body-Owes : (s : Session S) → IsClean s → Owes (locked_body l lock_name wrap k body s)
    unfolding locked_body
    locked_body-Owes s c =
        let (r, x) = acquire_connector_source_lock l lock_name wrap k s in
        after_acquire r x (acquire-Owes s c) (acquired_lock s)

    -- For a body that leaves its lock alone and ends clean or with an error marked for a discard: if the
    -- release of the lock does not fail, the locked call gives its connection back to the pool clean.
    pub with_connector_session_lock-IsClean :
        (g : Faults) (s p : Session S)
        → s.local ≡ none
        → (with_connector_session_lock l lock_name wrap k g body s).pooled ≡ some p
        → (p ≡ s) ⊎ IsClean p
    unfolding with_connector_session_lock
    with_connector_session_lock-IsClean g s p h e =
        with_checked_out_client-IsClean g (locked_body l lock_name wrap k body) s p locked_body-Owes
          h e

  masked :
      {A : Type 0} (body : Prog S E A) (s s' s'' : Session S) (t : Thrown E)
      → acquire_connector_source_lock l lock_name wrap k s ≡ (ok tt, s')
      → body s' ≡ (err t, s'')
      → l.release_fails ≡ true
      → locked_body l lock_name wrap k body s ≡ (err (thrown query_failed false), s'')
  unfolding locked_body finally_release release_connector_source_lock
  masked body s s' s'' t ha hb hr = rw (ha, locked_body) (rw (hb, finally_release) (rw hr refl))

  -- The mark is lost when the release fails as well: after a body that threw an error marked for the
  -- connection to be discarded and left its transaction open, a release that fails puts the connection
  -- back into the pool with the transaction still open.
  pub failed_release_leaks :
      {A : Type 0} (body : Prog S E A) (g : Faults) (s s' s'' : Session S) (t : Thrown E)
      (a : Authority)
      → g.connect ≡ false
      → g.deny ≡ false
      → acquire_connector_source_lock l lock_name wrap k (denied_all g body s) ≡ (ok tt, s')
      → body s' ≡ (err t, s'')
      → t.discard_connection ≡ true
      → s''.local ≡ some a
      → l.release_fails ≡ true
      → ((with_connector_session_lock l lock_name wrap k g body s).pooled ≡ some s'')
        × (¬ IsClean s'')
  unfolding with_connector_session_lock with_checked_out_client
  failed_release_leaks body g s s' s'' t a hc hd ha hb ht hl hr =
      let m = masked body (denied_all g body s) s' s'' t ha hb hr in
      (rw (hc, hd) (rw m refl), λ c. cc c.0)
