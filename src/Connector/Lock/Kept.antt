-- ===== src/Connector/Lock/Kept.antt =====
-- src/connectors/base.ts: what a locked program leaves committed, whatever fails.
use total_recall.Base.{String, if_lem, Result, ok, err, arith}
use total_recall.Db.{DbScope, Authority, authority_of, Session, Faults, Thrown, After, begun}
use total_recall.Db.CheckedOut.{
  settle, with_scoped_transaction_on_client, release, denied_all, with_checked_out_client,
}
use total_recall.Connector.State.{RowKey, StateError}
use total_recall.Connector.Lock.{
  Prog, next, LockRun, acquire_connector_source_lock, release_connector_source_lock,
  finally_release, locked_body, with_connector_session_lock,
}

-- A property of what is committed.
module _ {S E : Type 0} (I : S → Type 0) where
  abbrev pub Kept : {A : Type 0} → Result (Thrown E) A × Session S → Type 0
  Kept (r, s) = I s.store

  pub next-Kept :
      {A B : Type 0} (m : Result (Thrown E) A × Session S) (f : A → Prog S E B)
      → Kept m
      → ((a : A) (s : Session S) → I s.store → Kept (f a s))
      → Kept (next m f)
  next-Kept (ok a, s) f i h = h a s i
  next-Kept (err t, s) f i h = i

  module _ {A : Type 0} (f : Faults) (scope : DbScope) (fn : Authority → S → Result E A × S) where
    settle-Kept :
        (s : Session S) (r : Result E A × S) → I s.store → I r.1 → Kept (settle f scope fn s r)
    unfolding settle
    settle-Kept s (ok a, store) i j = ground arith
    settle-Kept s (err e, store) i j = ground arith

    pub with_scoped_transaction_on_client-Kept :
        (s : Session S)
        → I s.store
        → ((a : Authority) (x : S) → I x → I (fn a x).1)
        → Kept (with_scoped_transaction_on_client f scope fn s)
    unfolding with_scoped_transaction_on_client
    with_scoped_transaction_on_client-Kept s i h = ground (
      arith,
      settle-Kept (begun scope s) (fn (authority_of scope) s.store) i
          (h (authority_of scope) s.store i),
    )

  module _ {A : Type 0} (l : LockRun) (name : RowKey → String) (wrap : StateError → E) (k : RowKey)
      (body : Prog S E A) where
    acquire-Kept :
        (s : Session S) → I s.store → Kept (acquire_connector_source_lock l name wrap k s)
    unfolding acquire_connector_source_lock
    acquire-Kept s i = ground arith

    release-Kept :
        (s : Session S) → I s.store → Kept (release_connector_source_lock l name wrap k s)
    unfolding release_connector_source_lock
    release-Kept s i = ground arith

    finally-Kept :
        (r : Result (Thrown E) A × Session S) → Kept r → Kept (finally_release l name wrap k r)
    unfolding finally_release
    finally-Kept (r, s) i = next-Kept _ (λ _ s'. (r, s')) (release-Kept s i) (λ u x j. j)

    returned-Kept :
        (g : Faults) (fn : Prog S E A) (r : Result (Thrown E) A × Session S)
        → Kept r
        → I (release g fn r).store
    unfolding release
    returned-Kept g fn (ok a, s) i = i
    returned-Kept g fn (err t, s) i = i

    pub with_connector_session_lock-Kept :
        (g : Faults) (s : Session S)
        → ((x : Session S) → I x.store → Kept (body x))
        → I s.store
        → I (with_connector_session_lock l name wrap k g body s).store
    unfolding with_connector_session_lock with_checked_out_client locked_body
    with_connector_session_lock-Kept g s h i =
        let stored = λ (x : After S E A). I x.store in
        let x = denied_all g body s in
        let ran : Kept (locked_body l name wrap k body x) =
          next-Kept (acquire_connector_source_lock l name wrap k x)
            (λ _ s'. finally_release l name wrap k (body s')) (acquire-Kept x i)
            (λ u s' j. finally-Kept (body s') (h s' j)) in
        if_lem stored g.connect i (
          if_lem stored g.deny i (
            returned-Kept g (locked_body l name wrap k body) (locked_body l name wrap k body x)
              ran))
