-- ===== src/Connector/Page/Atomic.antt =====
-- src/connectors/base.ts: a page's events and its cursor are stored together or not at all.
use total_recall.Base.{
  ℕ, ◌≡◌, ◌⊎◌, refl, ◌∙◌, false, Option, none, some, List, String, Result, ok, err, inr,
}
use total_recall.Db.{DbScope, Authority, Session, Thrown, IsClean}
use total_recall.Db.CheckedOut.{
  with_scoped_transaction_on_client, with_scoped_transaction_on_client-Owes,
  with_scoped_transaction_on_client-locks, Owes,
}
use total_recall.Connector.Retry.{Failure, RetryOptions, Run}
use total_recall.Connector.State.{
  RowKey, ConnectorStateRow, ConnectorStoredState, stored_state, lock_identity,
}
use total_recall.Connector.Lock.{Prog}
use total_recall.Connector.Lock.Chain.{next-Owes, next-locks}
use total_recall.Connector.Lock.Release.{Behaves, with_connector_session_lock-IsClean}
use total_recall.Connector.Page.{
  ConnectorPage, ConnectorError, state_error, Counts, Store, PageRun, fetch_connector_page,
  read_before, write_page, store_page, meanwhile, page_body, persist_atomic_page,
}

module _ {Ev P : Type 0} (fetch_page : ConnectorStoredState → ℕ → Result Failure (ConnectorPage Ev))
    (persist_page : P → List Ev → Option (P × Counts)) (retry : RetryOptions) (fetch_run : Run)
    (scope : DbScope) (k : RowKey) (run : PageRun P) (seen : List String) where
  Answer : Type 0
  Answer = Result (Thrown ConnectorError) (ConnectorPage Ev × Counts) × Session (Store P)

  store_page-Owes :
      (before : Option ConnectorStateRow) (r : Result ConnectorError (ConnectorPage Ev))
      (s : Session (Store P))
      → IsClean s
      → Owes (store_page fetch_page persist_page retry fetch_run scope k run before r s)
  unfolding store_page
  store_page-Owes before (err e) s c = inr c
  store_page-Owes before (ok page) s c =
      next-Owes
        (with_scoped_transaction_on_client run.write_faults scope
          (write_page fetch_page persist_page retry fetch_run scope k run before page) s)
        (λ counts s'. (ok (page, counts), s'))
        (with_scoped_transaction_on_client-Owes run.write_faults scope
          (write_page fetch_page persist_page retry fetch_run scope k run before page) s c)
        (λ a s' c'. c')

  store_page-locks :
      (before : Option ConnectorStateRow) (r : Result ConnectorError (ConnectorPage Ev))
      (s : Session (Store P))
      → (store_page fetch_page persist_page retry fetch_run scope k run before r s).1.locks
        ≡ s.locks
  unfolding store_page
  store_page-locks before (err e) s = refl
  store_page-locks before (ok page) s =
      next-locks
        (with_scoped_transaction_on_client run.write_faults scope
          (write_page fetch_page persist_page retry fetch_run scope k run before page) s)
        (λ counts s'. (ok (page, counts), s')) s.locks
        (with_scoped_transaction_on_client-locks run.write_faults scope
          (write_page fetch_page persist_page retry fetch_run scope k run before page) s)
        (λ a s' l. l)

  fetched : Option ConnectorStateRow → Result ConnectorError (ConnectorPage Ev)
  fetched before =
      fetch_connector_page fetch_page persist_page retry fetch_run scope k (stored_state before)
        seen

  page_body-Behaves :
      Behaves run.lock lock_identity state_error k
        (page_body fetch_page persist_page retry fetch_run scope k run seen)
  unfolding page_body fetched
  page_body-Behaves x c h = (
    next-Owes first rest (with_scoped_transaction_on_client-Owes run.read_faults scope read x c)
        (λ before s' c'.
          store_page-Owes before (fetched before)
            (meanwhile fetch_page persist_page retry fetch_run scope k run s') c'),
    rw
        (next-locks first rest x.locks
          (with_scoped_transaction_on_client-locks run.read_faults scope read x)
          (λ before s' l.
            store_page-locks before (fetched before)
              (meanwhile fetch_page persist_page retry fetch_run scope k run s')
            ∙ l))
        h,
  )
    where
      read : Authority → Store P → Result ConnectorError (Option ConnectorStateRow) × Store P
      read = read_before fetch_page persist_page retry fetch_run scope k

      first : Result (Thrown ConnectorError) (Option ConnectorStateRow) × Session (Store P)
      first = with_scoped_transaction_on_client run.read_faults scope read x

      rest : Option ConnectorStateRow → Prog (Store P) ConnectorError (ConnectorPage Ev × Counts)
      rest before s' =
          store_page fetch_page persist_page retry fetch_run scope k run before (fetched before)
            (meanwhile fetch_page persist_page retry fetch_run scope k run s')

  -- From a session without an open transaction, fetching and storing a page gives the connection back
  -- to the pool with no open transaction and no namespace allowed, or discards it, or never took it
  -- out, as long as the release of the source's lock does not fail.
  pub persist_atomic_page-IsClean :
      (s p : Session (Store P))
      → s.local ≡ none
      → run.lock.release_fails ≡ false
      → (persist_atomic_page fetch_page persist_page retry fetch_run scope k run seen s).pooled
        ≡ some p
      → (p ≡ s) ⊎ IsClean p
  unfolding persist_atomic_page
  persist_atomic_page-IsClean s p l f e =
      with_connector_session_lock-IsClean run.lock lock_identity state_error k _ page_body-Behaves f
        run.session_faults s p l e
