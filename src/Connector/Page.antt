-- ===== src/Connector/Page.antt =====
-- src/connectors/base.ts: one page of a source, fetched under the source's lock and stored in one
-- transaction with its cursor (`fetchConnectorPage`, `persistAtomicPage`).
pub mod Atomic
pub mod Commit
pub mod Stored
pub mod Kept
use total_recall.Base.{
  ℕ, zero, suc, ◌==◌, Bool, true, false, not, ◌&&◌, ◌||◌, Option, none, some, List, [], ◌∷◌, String,
  str_eq, if◌then◌else◌, includes, Result, ok, err, ensure, ◌>>=◌, ◌>>◌,
}
use total_recall.Db.{DbScope, is_blank, Authority, Session, Faults, Thrown, thrown, callback, After}
use total_recall.Db.CheckedOut.{with_scoped_transaction_on_client}
use total_recall.Connector.Retry.{Failure, RetryOptions, Run, RetryError, retry_connector_operation}
use total_recall.Connector.State.{
  RowKey, ConnectorStateRow, ConnectorStoredState, PageState, StateError, stored_state,
  read_connector_state_row, lock_connector_state, advance_connector_state, lock_identity,
}
use total_recall.Connector.Lock.{Prog, next, LockRun, with_connector_session_lock}

pub record ConnectorPage (Ev : Type 0) : Type 0 where
  pub events : List Ev
  pub cursor : Option String
  pub done : Bool
  pub warnings : List String
  pub last_event_at : Option ℕ
  pub metadata : Option String

pub data ConnectorError : Type 0 where
  state_error : StateError → ConnectorError
  fetch_failed : RetryError → ConnectorError
  blank_cursor did_not_advance state_changed persist_failed page_cap : ConnectorError

abbrev pub map_error : {E F A : Type 0} → (E → F) → Result E A → Result F A
map_error f (ok a) = ok a
map_error f (err e) = err (f e)

-- `!page.cursor || page.cursor.trim() === ''`
abbrev pub has_no_cursor : Option String → Bool
has_no_cursor none = true
has_no_cursor (some c) = is_blank c

abbrev pub same_cursor : Option String → Option String → Bool
same_cursor none none = true
same_cursor none (some d) = false
same_cursor (some c) none = false
same_cursor (some c) (some d) = str_eq c d

-- `page.cursor && (page.cursor === state.cursor || seenCursors?.has(page.cursor))`
abbrev pub repeats : Option String → Option String → List String → Bool
repeats none old seen = false
repeats (some c) old seen = not (str_eq c "") && (same_cursor (some c) old || includes seen c)

-- `validatePage`, whose check that the events are an array the types make.
unfoldable pub validate_page : {Ev : Type 0} → ConnectorPage Ev → Result ConnectorError (Unit {0})
validate_page page = ensure (page.done || not (has_no_cursor page.cursor)) blank_cursor

-- The rows of connector_sync_state, and what the connector's `persistPage` writes to.
pub record Store (P : Type 0) : Type 0 where
  pub rows : List ConnectorStateRow
  pub persisted : P

pub record Counts : Type 0 where
  pub inserted : ℕ
  pub skipped : ℕ

-- What happens around the fetch of one page: the lock, the three transactions' faults, what other
-- sessions commit while the page is fetched, and the time of the statements.
pub record PageRun (P : Type 0) : Type 0 where
  pub lock : LockRun
  pub session_faults : Faults
  pub read_faults : Faults
  pub write_faults : Faults
  pub row_locked_elsewhere : Bool
  pub interfere : Store P → Store P
  pub now : ℕ

module _ {Ev P : Type 0} (fetch_page : ConnectorStoredState → ℕ → Result Failure (ConnectorPage Ev))
    (persist_page : P → List Ev → Option (P × Counts)) (retry : RetryOptions) (fetch_run : Run)
    (scope : DbScope) (k : RowKey) where
  unfoldable pub fetch_connector_page :
      ConnectorStoredState → List String → Result ConnectorError (ConnectorPage Ev)
  unfolding validate_page
  fetch_connector_page state seen = do
    page ←
        map_error fetch_failed (retry_connector_operation (fetch_page state) retry fetch_run).result
    validate_page page
    ensure (page.done || not (repeats page.cursor state.cursor seen)) did_not_advance
    ok page

  -- `before && (before.updated_at… !== row.updated_at… || before.cursor !== row.cursor)`
  abbrev pub changed : Option ConnectorStateRow → ConnectorStateRow → Bool
  changed none row = false
  changed (some b) row =
      not (b.updated_at == row.updated_at) || not (same_cursor b.cursor row.cursor)

  -- `persistPage`; `none` when it throws.
  abbrev pub persist : P → List Ev → Result ConnectorError (P × Counts)
  persist p events = elim (persist_page p events) [ none ↦ err persist_failed | some r ↦ ok r ]

  abbrev pub page_state : ConnectorPage Ev → PageState
  page_state page = record {
    cursor = page.cursor;
    last_event_at = page.last_event_at;
    metadata = page.metadata;
  }

  -- The second transaction: the store that it commits.
  unfoldable pub commit_page :
      Bool
      → ℕ
      → Option ConnectorStateRow
      → ConnectorPage Ev
      → Store P
      → Result ConnectorError (Counts × Store P)
  commit_page locked now before page st = do
    (row, rows) ← map_error state_error (lock_connector_state scope locked k now st.rows)
    ensure (not (changed before row)) state_changed
    (persisted, counts) ← persist st.persisted page.events
    rows' ← map_error state_error (advance_connector_state k (page_state page) now rows)
    ok (counts, record { rows = rows'; persisted = persisted })

  unfoldable pub read_before :
      Authority → Store P → Result ConnectorError (Option ConnectorStateRow) × Store P
  read_before _ st = (map_error state_error (read_connector_state_row k st.rows), st)

  -- A callback that throws leaves its writes to the rollback.
  abbrev pub written :
      Store P → Result ConnectorError (Counts × Store P) → Result ConnectorError Counts × Store P
  written st (ok (counts, st')) = (ok counts, st')
  written st (err e) = (err e, st)

  unfoldable pub write_page :
      PageRun P
      → Option ConnectorStateRow
      → ConnectorPage Ev
      → Authority
      → Store P
      → Result ConnectorError Counts × Store P
  write_page run before page _ st =
      written st (commit_page run.row_locked_elsewhere run.now before page st)

  -- From the fetched page on.
  unfoldable pub store_page :
      PageRun P
      → Option ConnectorStateRow
      → Result ConnectorError (ConnectorPage Ev)
      → Prog (Store P) ConnectorError (ConnectorPage Ev × Counts)
  store_page run before (err e) s = (err (thrown (callback e) false), s)
  store_page run before (ok page) s =
      next (with_scoped_transaction_on_client run.write_faults scope (write_page run before page) s)
        (λ counts s'. (ok (page, counts), s'))

  abbrev pub meanwhile : PageRun P → Session (Store P) → Session (Store P)
  meanwhile run s = record s { store = run.interfere s.store }

  unfoldable pub page_body :
      PageRun P → List String → Prog (Store P) ConnectorError (ConnectorPage Ev × Counts)
  page_body run seen s =
      next (with_scoped_transaction_on_client run.read_faults scope read_before s) (λ before s'.
        store_page run before (fetch_connector_page (stored_state before) seen) (meanwhile run s'))

  unfoldable pub persist_atomic_page :
      PageRun P
      → List String
      → Session (Store P)
      → After (Store P) ConnectorError (ConnectorPage Ev × Counts)
  persist_atomic_page run seen =
      with_connector_session_lock run.lock lock_identity state_error k run.session_faults
        (page_body run seen)
