-- ===== src/Connector/Sources.antt =====
-- src/connectors/base.ts: the pages of a source and the sources of a run (`runOneSource`,
-- `runSourceConnector`, `validateSources`). `duration_ms` and the connector's name are left out.
pub mod Pages
pub mod Runs
pub mod Stores
use total_recall.Base.{
  ℕ, zero, suc, ◌+◌, ◌==◌, ltb, Bool, true, false, not, ◌&&◌, ◌||◌, Option, none, some, List, [],
  ◌∷◌, ◌++◌, map, String, str_eq, length, sum_by, if◌then◌else◌, includes, get_or, Result, ok, err,
  ensure, ◌>>=◌, ◌>>◌,
}
use Prim.Native.String
use total_recall.Db.{DbScope, is_blank, Session, Faults, Thrown, thrown, callback, After}
use total_recall.Db.Scoped.{with_scoped_client}
use total_recall.Connector.Retry.{Failure, RetryOptions, Run}
use total_recall.Connector.State.{RowKey, ConnectorStoredState, stored_state, read_connector_state}
use total_recall.Connector.Page.{
  ConnectorPage, ConnectorError, state_error, did_not_advance, page_cap, map_error, Store, Counts,
  PageRun, fetch_connector_page, persist_atomic_page,
}

pub record ConnectorSource : Type 0 where
  pub source_id : String
  pub namespace : String

pub data SyncStatus : Type 0 where
  succeeded partial_failure failed dry_run : SyncStatus

pub record SourceSyncOutcome : Type 0 where
  pub source_id : String
  pub status : SyncStatus
  pub events_ingested : ℕ
  pub events_skipped : ℕ
  pub pages : ℕ
  pub cursor : Option String
  pub warnings : List String
  pub errors : List (Thrown ConnectorError)

-- The variables of the loop over the pages, and the stores between them.
pub record Progress (P : Type 0) : Type 0 where
  pub outcome : SourceSyncOutcome
  pub seen_cursors : List String
  pub dry_state : ConnectorStoredState
  pub store : Store P

-- `!page.cursor || seenCursors.has(page.cursor)`
abbrev pub stuck_cursor : Option String → List String → Bool
stuck_cursor none seen = true
stuck_cursor (some c) seen = str_eq c "" || includes seen c

abbrev pub remember : Option String → List String → List String
remember none seen = seen
remember (some c) seen = c ∷ seen

-- What the run of one source meets: for each page its faults, the retries of its fetch and the
-- connection that the pool gives; and the faults of the dry run's read.
pub record SourceRun (P : Type 0) : Type 0 where
  pub page_runs : ℕ → PageRun P
  pub fetch_runs : ℕ → Run
  pub connection : ℕ → Session (Store P)
  pub dry_faults : Faults

module _ {Ev P : Type 0}
    (fetch_page : ℕ → ConnectorStoredState → ℕ → Result Failure (ConnectorPage Ev))
    (persist_page : P → List Ev → Option (P × Counts)) (retry : RetryOptions) (scope : DbScope)
    (is_dry : Bool) (max_pages : ℕ) (k : RowKey) (run : SourceRun P) where
  abbrev pub dry_page :
      ℕ → Progress P → Result (Thrown ConnectorError) (ConnectorPage Ev × Counts) × Store P
  dry_page n p =
      elim (fetch_connector_page (fetch_page n) persist_page retry (run.fetch_runs n) scope k
        p.dry_state p.seen_cursors) [
          | ok page ↦ (ok (page, record { inserted = length page.events; skipped = 0 }), p.store)
          | err e ↦ (err (thrown (callback e) false), p.store)
        ]

  abbrev pub atomic_page :
      ℕ → Progress P → Result (Thrown ConnectorError) (ConnectorPage Ev × Counts) × Store P
  atomic_page n p =
      let after =
        persist_atomic_page (fetch_page n) persist_page retry (run.fetch_runs n) scope k
          (run.page_runs n) p.seen_cursors (record (run.connection n) { store = p.store }) in
      (after.answer, after.store)

  unfoldable pub next_page :
      Progress P → Result (Thrown ConnectorError) (ConnectorPage Ev × Counts) × Store P
  next_page p = if is_dry then dry_page p.outcome.pages p else atomic_page p.outcome.pages p

  -- The counters after a page.
  abbrev pub counted : Progress P → ConnectorPage Ev → Counts → Store P → Progress P
  counted p page counts st = record p {
    outcome = record p.outcome {
      pages = suc p.outcome.pages;
      events_ingested = p.outcome.events_ingested + counts.inserted;
      events_skipped = p.outcome.events_skipped + counts.skipped;
      cursor = page.cursor;
      warnings = p.outcome.warnings ++ page.warnings;
    };
    store = st;
  }

  abbrev pub moved_on : Progress P → ConnectorPage Ev → Progress P
  moved_on p page = record p {
    seen_cursors = remember page.cursor p.seen_cursors;
    dry_state =
        if is_dry
        then record {
          cursor = page.cursor;
          last_event_at = elim page.last_event_at [
            | none ↦ p.dry_state.last_event_at
            | some t ↦ some t
          ];
          metadata = get_or page.metadata p.dry_state.metadata;
        }
        else p.dry_state;
  }

  -- The handler of the loop.
  abbrev pub failed_with : Progress P → Thrown ConnectorError → Progress P
  failed_with p t = record p {
    outcome = record p.outcome { status = failed; errors = p.outcome.errors ++ t ∷ [] };
  }

  -- From the answer of a page on; `rest` is the next turn of the loop.
  unfoldable pub after_page :
      (Progress P → Progress P)
      → Progress P
      → Result (Thrown ConnectorError) (ConnectorPage Ev × Counts) × Store P
      → Progress P
  after_page rest p (err t, st) = failed_with (record p { store = st }) t
  after_page rest p (ok (page, counts), st) =
      if page.done
      then counted p page counts st
      else if stuck_cursor page.cursor p.seen_cursors
      then failed_with (counted p page counts st) (thrown (callback did_not_advance) false)
      else rest (moved_on (counted p page counts st) page)

  -- The while loop, by the number of pages that `maxPagesPerSource` leaves.
  unfoldable pub page_loop : ℕ → Progress P → Progress P
  page_loop zero p = failed_with p (thrown (callback page_cap) false)
  page_loop (suc n) p = after_page (page_loop n) p (next_page p)

  abbrev pub start : ConnectorStoredState → Store P → Progress P
  start state st = record {
    outcome = record {
      source_id = k.source_id;
      status = if is_dry then dry_run else succeeded;
      events_ingested = 0;
      events_skipped = 0;
      pages = 0;
      cursor = none;
      warnings = [];
      errors = [];
    };
    seen_cursors = [];
    dry_state = state;
    store = st;
  }

  abbrev pub read_state : Store P → Result (Thrown ConnectorError) ConnectorStoredState
  read_state st =
      let after =
        with_scoped_client run.dry_faults scope
          (λ _ x. (map_error state_error (read_connector_state k x.rows), x))
          (record (run.connection 0) { store = st }) in
      after.answer

  unfoldable pub run_one_source : Store P → Progress P
  run_one_source st =
      if is_dry
      then (elim (read_state st) [
        | err t ↦ failed_with (start (stored_state none) st) t
        | ok state ↦ page_loop max_pages (start state st)
      ])
      else page_loop max_pages (start (stored_state none) st)

-- `validateSources`; the text before a source's name ends with the character 0.
abbrev pub source_key : ConnectorSource → String
source_key s = String.◌++◌ s.namespace (String.◌++◌ "\0" s.source_id)

pub data SourcesError : Type 0 where
  bad_max_pages blank_source unauthorized_source duplicate_source : SourcesError

unfoldable pub validate_from :
    DbScope → List String → List ConnectorSource → Result SourcesError (Unit {0})
validate_from scope seen [] = ok tt
validate_from scope seen (s ∷ sources) = do
  ensure (not (is_blank s.source_id || is_blank s.namespace)) blank_source
  ensure (includes scope.namespaces s.namespace) unauthorized_source
  ensure (not (includes seen (source_key s))) duplicate_source
  validate_from scope (source_key s ∷ seen) sources

unfoldable pub validate_sources : List ConnectorSource → DbScope → Result SourcesError (Unit {0})
validate_sources sources scope = validate_from scope [] sources

pub record ConnectorRunOutcome : Type 0 where
  pub status : SyncStatus
  pub sources : List SourceSyncOutcome
  pub events_ingested : ℕ
  pub events_skipped : ℕ

abbrev pub is_failed : SyncStatus → Bool
is_failed failed = true
is_failed _ = false

abbrev pub failures : List SourceSyncOutcome → ℕ
failures = sum_by (λ o. if is_failed o.status then 1 else 0)

unfoldable pub run_status : Bool → List SourceSyncOutcome → SyncStatus
run_status is_dry outcomes =
    if is_dry
    then (if failures outcomes == 0 then dry_run else failed)
    else if failures outcomes == 0
    then succeeded
    else if failures outcomes == length outcomes
    then failed
    else partial_failure

-- `one` is `runOneSource` at a source.
module _ {P : Type 0} (one : ConnectorSource → Store P → Progress P) where
  unfoldable pub run_all : List ConnectorSource → Store P → List SourceSyncOutcome × Store P
  run_all [] st = ([], st)
  run_all (s ∷ sources) st =
      let p = one s st in let rest = run_all sources p.store in (p.outcome ∷ rest.0, rest.1)

  abbrev outcome_of : Bool → List SourceSyncOutcome × Store P → ConnectorRunOutcome × Store P
  outcome_of is_dry (outcomes, st) = (
    record {
      status = run_status is_dry outcomes;
      sources = outcomes;
      events_ingested = sum_by (λ o. o.events_ingested) outcomes;
      events_skipped = sum_by (λ o. o.events_skipped) outcomes;
    },
    st,
  )

  unfoldable pub run_sources :
      DbScope
      → Bool
      → ℕ
      → List ConnectorSource
      → Store P
      → Result SourcesError (ConnectorRunOutcome × Store P)
  run_sources scope is_dry max_pages sources st = do
    ensure (not (ltb max_pages 1 || ltb 10_000 max_pages)) bad_max_pages
    validate_sources sources scope
    ok (outcome_of is_dry (run_all sources st))

abbrev pub row_key : DbScope → String → ConnectorSource → RowKey
row_key scope service s = record {
  client_id = scope.key_id;
  namespace = s.namespace;
  service = service;
  source_id = s.source_id;
}

unfoldable pub run_source_connector :
    {Ev P : Type 0}
    (fetch_page : ConnectorSource
      → ℕ
      → ConnectorStoredState
      → ℕ
      → Result Failure (ConnectorPage Ev))
    (persist_page : ConnectorSource → P → List Ev → Option (P × Counts))
    (runs : ConnectorSource → SourceRun P)
    → String
    → RetryOptions
    → DbScope
    → Bool
    → ℕ
    → List ConnectorSource
    → Store P
    → Result SourcesError (ConnectorRunOutcome × Store P)
run_source_connector fetch_page persist_page runs service retry scope is_dry max_pages sources st =
    run_sources
      (λ s.
        run_one_source (fetch_page s) (persist_page s) retry scope is_dry max_pages
          (row_key scope service s) (runs s))
      scope is_dry max_pages sources st
