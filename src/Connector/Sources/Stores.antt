-- ===== src/Connector/Sources/Stores.antt =====
-- src/connectors/base.ts: the stores that a run leaves, whatever fails in it.
use total_recall.Base.{
  ℕ, zero, suc, ◌≡◌, refl, Bool, true, Option, none, List, String, if_lem, subst, sym, ◌∙◌, ◌∷◌, [],
  Result, ok, err, arith,
}
use total_recall.Db.{DbScope, Thrown}
use total_recall.Connector.Retry.{Failure, RetryOptions}
use total_recall.Connector.State.{RowKey, ConnectorStoredState, stored_state}
use total_recall.Connector.Page.{ConnectorPage, ConnectorError, Counts, Store}
use total_recall.Connector.Sources.{
  ConnectorSource, Progress, SourceRun, stuck_cursor, dry_page, next_page, failed_with, after_page,
  page_loop, start, read_state, run_one_source, run_all, ConnectorRunOutcome, run_sources, row_key,
  run_source_connector,
}

module _ {Ev P : Type 0}
    (fetch_page : ℕ → ConnectorStoredState → ℕ → Result Failure (ConnectorPage Ev))
    (persist_page : P → List Ev → Option (P × Counts)) (retry : RetryOptions) (scope : DbScope)
    (is_dry : Bool) (max_pages : ℕ) (k : RowKey) (run : SourceRun P) where
  dry_page-store :
      (n : ℕ) (p : Progress P)
      → (dry_page fetch_page persist_page retry scope is_dry max_pages k run n p).1 ≡ p.store
  dry_page-store n p = ground arith

module _ {Ev P : Type 0}
    (fetch_page : ℕ → ConnectorStoredState → ℕ → Result Failure (ConnectorPage Ev))
    (persist_page : P → List Ev → Option (P × Counts)) (retry : RetryOptions) (scope : DbScope)
    (is_dry : Bool) (max_pages : ℕ) (k : RowKey) (run : SourceRun P) (I : Store P → Type 0) where
  after_page-Kept :
      (rest : Progress P → Progress P) (p : Progress P)
      (r : Result (Thrown ConnectorError) (ConnectorPage Ev × Counts) × Store P)
      → ((q : Progress P) → I q.store → I (rest q).store)
      → I r.1
      → I (after_page fetch_page persist_page retry scope is_dry max_pages k run rest p r).store
  unfolding after_page
  after_page-Kept rest p (err t, st) h i = i
  after_page-Kept rest p (ok (page, counts), st) h i =
      let stored = λ (q : Progress P). I q.store in
      if_lem stored page.done i (if_lem stored (stuck_cursor page.cursor p.seen_cursors) i (h _ i))

  -- The next page keeps the property.
  abbrev Steps : Type 0
  Steps =
      (p : Progress P)
      → I p.store
      → I (next_page fetch_page persist_page retry scope is_dry max_pages k run p).1

  page_loop-Kept :
      Steps
      → (n : ℕ) (p : Progress P) → I p.store
      → I (page_loop fetch_page persist_page retry scope is_dry max_pages k run n p).store
  unfolding page_loop
  page_loop-Kept h zero p i = i
  page_loop-Kept h (suc n) p i =
      after_page-Kept (page_loop fetch_page persist_page retry scope is_dry max_pages k run n) p
        (next_page fetch_page persist_page retry scope is_dry max_pages k run p)
        (page_loop-Kept h n) (h p i)

  read-Kept :
      (st : Store P) (r : Result (Thrown ConnectorError) ConnectorStoredState)
      → Steps
      → I st
      → I
          (elim r as (λ _. Progress P) [
            | err t ↦
                failed_with fetch_page persist_page retry scope is_dry max_pages k run
                  (start fetch_page persist_page retry scope is_dry max_pages k run
                    (stored_state none)
                    st)
                  t
            | ok state ↦
                page_loop fetch_page persist_page retry scope is_dry max_pages k run max_pages
                  (start fetch_page persist_page retry scope is_dry max_pages k run state st)
          ]).store
  read-Kept st (err t) h i = i
  read-Kept st (ok state) h i = page_loop-Kept h max_pages _ i

  run_one_source-Kept :
      (st : Store P)
      → Steps
      → I st
      → I (run_one_source fetch_page persist_page retry scope is_dry max_pages k run st).store
  unfolding run_one_source
  run_one_source-Kept st h i =
      if_lem (λ (q : Progress P). I q.store) is_dry
        (read-Kept st (read_state fetch_page persist_page retry scope is_dry max_pages k run st) h
          i)
        (page_loop-Kept h max_pages _ i)

module _ {P : Type 0} (one : ConnectorSource → Store P → Progress P) (I : Store P → Type 0) where
  run_all-Kept :
      ((s : ConnectorSource) (st : Store P) → I st → I (one s st).store)
      → (sources : List ConnectorSource) (st : Store P) → I st
      → I (run_all one sources st).1
  unfolding run_all
  run_all-Kept h [] st i = i
  run_all-Kept h (s ∷ sources) st i = run_all-Kept h sources (one s st).store (h s st i)

  run_sources-Kept :
      ((s : ConnectorSource) (st : Store P) → I st → I (one s st).store)
      → (scope : DbScope) (is_dry : Bool) (m : ℕ) (sources : List ConnectorSource)
        (st st' : Store P) (outcome : ConnectorRunOutcome)
      → run_sources one scope is_dry m sources st ≡ ok (outcome, st')
      → I st
      → I st'
  unfolding run_sources
  run_sources-Kept h scope is_dry m sources st st' outcome e i =
      let last : st' ≡ (run_all one sources st).1 = ground arith in
      subst I (sym last) (run_all-Kept h sources st i)

module _ {Ev P : Type 0}
    (fetch_page : ConnectorSource
      → ℕ
      → ConnectorStoredState
      → ℕ
      → Result Failure (ConnectorPage Ev))
    (persist_page : ConnectorSource → P → List Ev → Option (P × Counts))
    (runs : ConnectorSource → SourceRun P) (service : String) (retry : RetryOptions)
    (scope : DbScope) (m : ℕ) (sources : List ConnectorSource) (st st' : Store P)
    (outcome : ConnectorRunOutcome) where
  -- A dry run that reports an outcome leaves the stores as they were.
  pub dry_run-store :
      run_source_connector fetch_page persist_page runs service retry scope true m sources st
        ≡ ok (outcome, st')
      → st' ≡ st
  unfolding run_source_connector next_page
  dry_run-store e =
      run_sources-Kept _ (λ x. x ≡ st)
        (λ s x j.
          run_one_source-Kept (fetch_page s) (persist_page s) retry scope true m
            (row_key scope service s) (runs s) (λ y. y ≡ st) x
            (λ p q.
              dry_page-store (fetch_page s) (persist_page s) retry scope true m
                (row_key scope service s) (runs s) p.outcome.pages p
              ∙ q)
            j)
        scope true m sources st st' outcome e refl
