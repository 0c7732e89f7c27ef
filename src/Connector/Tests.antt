-- ===== src/Connector/Tests.antt =====
-- Runs of the example source, and the connector's theorems at them.
use total_recall.Base.{
  includes, ℕ, ◌≡◌, ◌≢◌, ◌⊎◌, refl, true, false, none, some, [], ◌∷◌, codes, ok,
}
use total_recall.Db.{is_blank, is_valid_scope, IsClean, Session}
use total_recall.Db.CheckedOut.{
  settle, with_scoped_transaction_on_client, release, with_checked_out_client,
}
use total_recall.Connector.Retry.{defaults, retry_connector_operation}
use total_recall.Connector.State.{
  stored_state, read_connector_state, PageState, insert_row, lock_identity, find_row, same_key,
  update_row, assert_identity, read_connector_state_row, lock_connector_state,
  advance_connector_state,
}
use total_recall.Connector.Lock.{
  remove_one, acquire_connector_source_lock, release_connector_source_lock, finally_release,
  locked_body, with_connector_session_lock,
}
use total_recall.Connector.Page.{
  ConnectorPage, Store, Counts, validate_page, fetch_connector_page, commit_page, read_before,
  write_page, store_page, page_body, persist_atomic_page,
}
use total_recall.Connector.Page.Atomic.{persist_atomic_page-IsClean}
use total_recall.Connector.Page.Commit.{IsAsRead, Stores}
use total_recall.Connector.State.Rows.{locked_row}
use total_recall.Connector.Page.Stored.{persist_atomic_page-Stores}
use total_recall.Connector.Sources.{
  dry_run, source_key, next_page, after_page, page_loop, run_one_source, validate_from,
  validate_sources, run_status, run_all, run_sources, ConnectorRunOutcome, run_source_connector,
}
use total_recall.Db.Scoped.{with_scoped_client, conclude}
use total_recall.Connector.Sources.Pages.{Ended, run_one_source-Ended}
use total_recall.Connector.Example.{
  home, scope, calendar, k, empty, calm, page_run, session, source_run, page, fetch, persist,
  outcome,
}

key_text : codes (source_key home) ≡ 98 ∷ 0 ∷ 97 ∷ []
key_text = refl

abbrev first_page : PageState
first_page = record { cursor = some "p1"; last_event_at = none; metadata = none }

abbrev two_events : ConnectorPage ℕ
two_events = page (1 ∷ 2 ∷ []) (some "p1") false

abbrev after_page_pooled : Session (Store ℕ)
after_page_pooled =
    session
      (persist_atomic_page (fetch calendar 0) (persist calendar) defaults calm scope k (page_run 0)
        [] (session empty)).store

abbrev two_inserted : Counts
two_inserted = record { inserted = 2; skipped = 0 }

persist_atomic_page_answers :
    (persist_atomic_page
      (fetch calendar 0)
      (persist calendar)
      defaults
      calm
      scope
      k
      (page_run 0)
      []
      (session empty)).answer
    ≡ ok (two_events, two_inserted)
unfolding persist_atomic_page page_body store_page write_page read_before read_connector_state_row
    fetch_connector_page validate_page commit_page with_connector_session_lock locked_body
    finally_release acquire_connector_source_lock release_connector_source_lock remove_one
    with_checked_out_client release with_scoped_transaction_on_client settle
    retry_connector_operation assert_identity lock_identity same_key find_row insert_row
    lock_connector_state update_row advance_connector_state is_blank is_valid_scope
persist_atomic_page_answers = refl

persist_atomic_page_pools :
    (persist_atomic_page
      (fetch calendar 0)
      (persist calendar)
      defaults
      calm
      scope
      k
      (page_run 0)
      []
      (session empty)).pooled
    ≡ some after_page_pooled
unfolding persist_atomic_page page_body store_page write_page read_before read_connector_state_row
    fetch_connector_page validate_page commit_page with_connector_session_lock locked_body
    finally_release acquire_connector_source_lock release_connector_source_lock remove_one
    with_checked_out_client release with_scoped_transaction_on_client settle
    retry_connector_operation assert_identity lock_identity same_key find_row insert_row
    lock_connector_state update_row advance_connector_state is_blank is_valid_scope
persist_atomic_page_pools = refl

persist_atomic_page-IsClean_example :
    (after_page_pooled ≡ session empty) ⊎ IsClean after_page_pooled
persist_atomic_page-IsClean_example =
    persist_atomic_page-IsClean (fetch calendar 0) (persist calendar) defaults calm scope k
      (page_run 0) [] (session empty) after_page_pooled refl refl persist_atomic_page_pools

persist_atomic_page-Stores_example :
    (fetch_connector_page
        (fetch calendar 0)
        (persist calendar)
        defaults
        calm
        scope
        k
        (stored_state (find_row k []))
        []
      ≡ ok two_events)
    × (includes scope.namespaces k.namespace ≡ true)
    × IsAsRead (find_row k []) (locked_row k 1_000 (find_row k []))
    × Stores
        (persist calendar)
        k
        1_000
        two_events
        empty
        two_inserted
        (persist_atomic_page
          (fetch calendar 0)
          (persist calendar)
          defaults
          calm
          scope
          k
          (page_run 0)
          []
          (session empty)).store
persist_atomic_page-Stores_example =
    persist_atomic_page-Stores (fetch calendar 0) (persist calendar) defaults calm scope k
      (page_run 0) [] (session empty) two_events two_inserted persist_atomic_page_answers

run_one_source-Ended_example : Ended 10 (
    run_one_source
      (fetch calendar)
      (persist calendar)
      defaults
      scope
      false
      10
      k
      (source_run calendar)
      empty)
run_one_source-Ended_example =
    run_one_source-Ended (fetch calendar) (persist calendar) defaults scope false 10 k
      (source_run calendar) empty

-- Events are stored only where a row of the source is.
abbrev HasRow : Store ℕ → Type 0
HasRow st = (st.persisted ≡ 0) ⊎ (st.rows ≢ [])

abbrev dry_outcome : ConnectorRunOutcome
dry_outcome = record {
  status = dry_run;
  sources = record outcome { status = dry_run } ∷ [];
  events_ingested = 3;
  events_skipped = 0;
}

run_dry :
    run_source_connector fetch persist source_run "calendar" defaults scope true 10
      (calendar ∷ [])
      empty
    ≡ ok (dry_outcome, empty)
unfolding run_source_connector run_sources run_all run_one_source page_loop after_page next_page
    validate_sources validate_from run_status is_blank is_valid_scope fetch_connector_page
    validate_page with_scoped_client conclude retry_connector_operation assert_identity same_key
    find_row read_connector_state read_connector_state_row
run_dry = refl
