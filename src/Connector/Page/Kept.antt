-- ===== src/Connector/Page/Kept.antt =====
-- src/connectors/base.ts: what storing a page leaves committed, whatever fails.
use total_recall.Base.{ℕ, ◌≡◌, refl, Bool, Option, List, String, Result, ok, err}
use total_recall.Db.{DbScope, Session}
use total_recall.Db.CheckedOut.{with_scoped_transaction_on_client}
use total_recall.Connector.Retry.{Failure, RetryOptions, Run}
use total_recall.Connector.State.{
  RowKey, ConnectorStateRow, ConnectorStoredState, stored_state, lock_identity,
}
use total_recall.Connector.Page.{
  ConnectorPage, ConnectorError, state_error, Counts, Store, PageRun, fetch_connector_page,
  commit_page, read_before, written, write_page, store_page, meanwhile, page_body,
  persist_atomic_page,
}
use total_recall.Connector.Lock.Kept.{
  Kept, next-Kept, with_scoped_transaction_on_client-Kept, with_connector_session_lock-Kept,
}

module _ {Ev P : Type 0} (fetch_page : ConnectorStoredState → ℕ → Result Failure (ConnectorPage Ev))
    (persist_page : P → List Ev → Option (P × Counts)) (retry : RetryOptions) (fetch_run : Run)
    (scope : DbScope) (k : RowKey) (run : PageRun P) where
  -- Kept by a complete commit of a page, whatever the page is.
  abbrev pub Committed : (Store P → Type 0) → Type 0
  Committed I =
      (locked : Bool) (now : ℕ) (before : Option ConnectorStateRow) (page : ConnectorPage Ev)
      (st st' : Store P) (counts : Counts)
      → commit_page fetch_page persist_page retry fetch_run scope k locked now before page st
        ≡ ok (counts, st')
      → I st
      → I st'

  module _ (I : Store P → Type 0) (c : Committed I)
      (o : (st : Store P) → I st → I (run.interfere st)) where
    written-Kept :
        (st : Store P) (r : Result ConnectorError (Counts × Store P))
        → I st
        → ((counts : Counts) (st' : Store P) → r ≡ ok (counts, st') → I st')
        → I (written fetch_page persist_page retry fetch_run scope k st r).1
    written-Kept st (ok (counts, st')) i h = h counts st' refl
    written-Kept st (err e) i h = i

    store_page-Kept :
        (before : Option ConnectorStateRow) (r : Result ConnectorError (ConnectorPage Ev))
        (s : Session (Store P))
        → I s.store
        → Kept I (store_page fetch_page persist_page retry fetch_run scope k run before r s)
    unfolding store_page write_page
    store_page-Kept before (err e) s i = i
    store_page-Kept before (ok page) s i =
        next-Kept I
          (with_scoped_transaction_on_client run.write_faults scope
            (write_page fetch_page persist_page retry fetch_run scope k run before page) s)
          (λ counts s'. (ok (page, counts), s'))
          (with_scoped_transaction_on_client-Kept I run.write_faults scope _ s i (λ a x j.
            written-Kept x
              (commit_page fetch_page persist_page retry fetch_run scope k run.row_locked_elsewhere
                run.now before page x)
              j (λ counts st' e. c run.row_locked_elsewhere run.now before page x st' counts e j)))
          (λ a x j. j)

    pub persist_atomic_page-Kept :
        (seen : List String) (s : Session (Store P))
        → I s.store
        → I (persist_atomic_page fetch_page persist_page retry fetch_run scope k run seen s).store
    unfolding persist_atomic_page page_body read_before
    persist_atomic_page-Kept seen s i =
        with_connector_session_lock-Kept I run.lock lock_identity state_error k
          (page_body fetch_page persist_page retry fetch_run scope k run seen) run.session_faults s
          (λ x j.
            next-Kept I
              (with_scoped_transaction_on_client run.read_faults scope
                (read_before fetch_page persist_page retry fetch_run scope k) x)
              (λ b y.
                store_page fetch_page persist_page retry fetch_run scope k run b
                  (fetch_connector_page fetch_page persist_page retry fetch_run scope k
                    (stored_state b) seen)
                  (meanwhile fetch_page persist_page retry fetch_run scope k run y))
              (with_scoped_transaction_on_client-Kept I run.read_faults scope
                (read_before fetch_page persist_page retry fetch_run scope k) x j (λ a y q. q))
              (λ b y q.
                store_page-Kept b _
                  (meanwhile fetch_page persist_page retry fetch_run scope k run y) (o y.store q)))
          i
