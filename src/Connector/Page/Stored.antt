-- ===== src/Connector/Page/Stored.antt =====
-- src/connectors/base.ts: what a fetched page stores.
use total_recall.Base.{
  includes, true, ℕ, ◌≡◌, ap, sym, ◌∙◌, Option, List, String, Result, ok, err, arith,
}
use total_recall.Db.{DbScope, Authority, authority_of, Session}
use total_recall.Db.CheckedOut.{
  with_scoped_transaction_on_client, with_scoped_transaction_on_client-ok,
}
use total_recall.Connector.Retry.{Failure, RetryOptions, Run}
use total_recall.Connector.State.{
  RowKey, ConnectorStateRow, ConnectorStoredState, stored_state, find_row, lock_identity,
  read_connector_state_row,
}
use total_recall.Connector.Lock.Chain.{next-ok}
use total_recall.Connector.Lock.Answer.{with_connector_session_lock-ok}
use total_recall.Connector.State.Rows.{locked_row}
use total_recall.Connector.Page.Commit.{IsAsRead, Stores, commit_page-Stores}
use total_recall.Connector.Page.{
  ConnectorPage, ConnectorError, state_error, Counts, Store, PageRun, fetch_connector_page,
  commit_page, read_before, written, write_page, store_page, meanwhile, page_body,
  persist_atomic_page,
}

module _ {Ev P : Type 0} (fetch_page : ConnectorStoredState → ℕ → Result Failure (ConnectorPage Ev))
    (persist_page : P → List Ev → Option (P × Counts)) (retry : RetryOptions) (fetch_run : Run)
    (scope : DbScope) (k : RowKey) (run : PageRun P) (seen : List String) where
  abbrev commit :
      Option ConnectorStateRow
      → ConnectorPage Ev
      → Store P
      → Result ConnectorError (Counts × Store P)
  commit =
      commit_page fetch_page persist_page retry fetch_run scope k run.row_locked_elsewhere run.now

  abbrev fetch : Option ConnectorStateRow → Result ConnectorError (ConnectorPage Ev)
  fetch before =
      fetch_connector_page fetch_page persist_page retry fetch_run scope k (stored_state before)
        seen

  read_before-row :
      (a : Authority) (st st' : Store P) (before : Option ConnectorStateRow)
      → read_before fetch_page persist_page retry fetch_run scope k a st ≡ (ok before, st')
      → (before ≡ find_row k st.rows) × (st' ≡ st)
  unfolding read_before read_connector_state_row
  read_before-row a st st' before e = ground arith

  written-ok :
      (st st' : Store P) (counts : Counts) (r : Result ConnectorError (Counts × Store P))
      → written fetch_page persist_page retry fetch_run scope k st r ≡ (ok counts, st')
      → r ≡ ok (counts, st')
  written-ok st st' counts (ok (c, x)) e = ground arith
  written-ok st st' counts (err x) e = ground arith

  store_page-ok :
      (before : Option ConnectorStateRow) (r : Result ConnectorError (ConnectorPage Ev))
      (s s' : Session (Store P)) (page : ConnectorPage Ev) (counts : Counts)
      → store_page fetch_page persist_page retry fetch_run scope k run before r s
        ≡ (ok (page, counts), s')
      → (r ≡ ok page) × (commit before page s.store ≡ ok (counts, s'.store))
  unfolding store_page write_page
  store_page-ok before (err x) s s' page counts e = absurd (ground arith)
  store_page-ok before (ok p) s s' page counts e =
      let (c, s₁, wrote, same) =
        next-ok
          (with_scoped_transaction_on_client run.write_faults scope
            (write_page fetch_page persist_page retry fetch_run scope k run before p) s)
          (λ c x. (ok (p, c), x)) (page, counts) s' e in
      let (ran, _) =
        with_scoped_transaction_on_client-ok run.write_faults scope
          (write_page fetch_page persist_page retry fetch_run scope k run before p) s s₁ c wrote in
      let stored = written-ok s.store s₁.store c (commit before p s.store) ran in ground arith

  persist_atomic_page_commits :
      (s : Session (Store P)) (page : ConnectorPage Ev) (counts : Counts)
      → (persist_atomic_page fetch_page persist_page retry fetch_run scope k run seen s).answer
        ≡ ok (page, counts)
      → (fetch (find_row k s.store.rows) ≡ ok page)
        × (commit (find_row k s.store.rows) page (run.interfere s.store)
            ≡ ok (
              counts,
              (persist_atomic_page fetch_page persist_page retry fetch_run scope k run seen
                  s).store,
            ))
  unfolding persist_atomic_page page_body
  persist_atomic_page_commits s page counts e =
      let (s₁, s₂, ran, before, after) =
        with_connector_session_lock-ok run.lock lock_identity state_error k
          (page_body fetch_page persist_page retry fetch_run scope k run seen) run.session_faults s
          (page, counts) e in
      let (row, s₃, first, rest) =
        next-ok
          (with_scoped_transaction_on_client run.read_faults scope
            (read_before fetch_page persist_page retry fetch_run scope k) s₁)
          (λ b x.
            store_page fetch_page persist_page retry fetch_run scope k run b (fetch b)
              (meanwhile fetch_page persist_page retry fetch_run scope k run x))
          (page, counts) s₂ ran in
      let (got, _) =
        with_scoped_transaction_on_client-ok run.read_faults scope
          (read_before fetch_page persist_page retry fetch_run scope k) s₁ s₃ row first in
      let (found, same) = read_before-row (authority_of scope) s₁.store s₃.store row got in
      let (fetched, wrote) =
        store_page-ok row (fetch row)
          (meanwhile fetch_page persist_page retry fetch_run scope k run s₃) s₂ page counts rest in
      let here = found ∙ ap (λ x. find_row k x.rows) before in
      let moved = ap (λ x. run.interfere x) (same ∙ before) in
      (
        sym (ap fetch here) ∙ fetched,
        sym (ap (λ b. commit b page (run.interfere s.store)) here)
            ∙ sym (ap (commit row page) moved)
            ∙ wrote
            ∙ ap (λ x. ok (counts, x)) (sym after),
      )

  -- A page is answered only if the source was fetched from the row stored before, and only if that row,
  -- where there was one, has its cursor and its time of change also as the other sessions left it,
  -- in a namespace of the scope. The page's events are then persisted, and the source's row, that one or
  -- a new one, is advanced to the page's cursor; the row of no other source is changed.
  pub persist_atomic_page-Stores :
      (s : Session (Store P)) (page : ConnectorPage Ev) (counts : Counts)
      → (persist_atomic_page fetch_page persist_page retry fetch_run scope k run seen s).answer
        ≡ ok (page, counts)
      → (fetch (find_row k s.store.rows) ≡ ok page)
        × (includes scope.namespaces k.namespace ≡ true)
        × IsAsRead
            (find_row k s.store.rows)
            (locked_row k run.now (find_row k (run.interfere s.store).rows))
        × Stores persist_page k run.now page
            (run.interfere s.store)
            counts
            (persist_atomic_page fetch_page persist_page retry fetch_run scope k run seen s).store
  persist_atomic_page-Stores s page counts e =
      let (fetched, wrote) = persist_atomic_page_commits s page counts e in
      let (allowed, as_read, stored) =
        commit_page-Stores fetch_page persist_page retry fetch_run scope k run.row_locked_elsewhere
          run.now (find_row k s.store.rows) page (run.interfere s.store) _ counts wrote in
      (fetched, allowed, as_read, stored)
