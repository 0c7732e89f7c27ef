-- ===== src/Connector/Example.antt =====
-- A source with three events on two pages, stored in a store that was empty.
use total_recall.Base.{
  ℕ, zero, suc, ◌+◌, Bool, true, false, Option, none, some, List, [], ◌∷◌, String, length, Result,
  ok,
}
use total_recall.Db.{DbScope, Session, Faults}
use total_recall.Connector.Retry.{Failure, Run}
use total_recall.Connector.State.{RowKey, ConnectorStateRow, ConnectorStoredState}
use total_recall.Connector.Lock.{LockRun}
use total_recall.Connector.Page.{ConnectorPage, Store, Counts, PageRun}
use total_recall.Connector.Sources.{
  ConnectorSource, succeeded, SourceSyncOutcome, SourceRun, row_key, ConnectorRunOutcome,
}

abbrev pub home : ConnectorSource
home = record { source_id = "a"; namespace = "b" }

abbrev pub scope : DbScope
scope = record { namespaces = "life" ∷ []; key_id = "key"; is_admin = false }

abbrev pub calendar : ConnectorSource
calendar = record { source_id = "home"; namespace = "life" }

abbrev pub k : RowKey
k = row_key scope "calendar" calendar

abbrev pub empty : Store ℕ
empty = record { rows = []; persisted = 0 }

abbrev pub calm : Run
calm = record {
  unit = 2;
  random = λ _. 1;
  aborted_before = λ _. false;
  aborted_asleep = λ _. false;
}

abbrev pub no_faults : Faults
no_faults = record {
  connect = false;
  deny = false;
  begin = false;
  configure = false;
  commit = false;
  commit_took_effect = false;
  rollback = false;
}

abbrev pub lock_run : LockRun
lock_run = record { acquire_fails = false; held_elsewhere = false; release_fails = false }

abbrev pub page_run : ℕ → PageRun ℕ
page_run n = record {
  lock = lock_run;
  session_faults = no_faults;
  read_faults = no_faults;
  write_faults = no_faults;
  row_locked_elsewhere = false;
  interfere = λ st. st;
  now = 1_000 + n;
}

abbrev pub session : Store ℕ → Session (Store ℕ)
session st = record {
  authority = record {
    allowed_namespaces = none;
    current_key_id = "";
    current_key_is_admin = false;
  };
  local = none;
  locks = [];
  store = st;
}

abbrev pub source_run : ConnectorSource → SourceRun ℕ
source_run s = record {
  page_runs = page_run;
  fetch_runs = λ _. calm;
  connection = λ _. session empty;
  dry_faults = no_faults;
}

abbrev pub page : List ℕ → Option String → Bool → ConnectorPage ℕ
page events cursor done = record {
  events = events;
  cursor = cursor;
  done = done;
  warnings = [];
  last_event_at = none;
  metadata = none;
}

abbrev pub fetch : ConnectorSource → ℕ → ConnectorStoredState → ℕ → Result Failure (ConnectorPage ℕ)
fetch s zero state attempt = ok (page (1 ∷ 2 ∷ []) (some "p1") false)
fetch s (suc n) state attempt = ok (page (3 ∷ []) (some "p2") true)

abbrev pub persist : ConnectorSource → ℕ → List ℕ → Option (ℕ × Counts)
persist s p events = some (p + length events, record { inserted = length events; skipped = 0 })

abbrev pub row : ℕ → ConnectorStateRow
row n = record {
  key = k;
  last_sync_at = some n;
  last_event_at = none;
  cursor = some "p2";
  metadata = "{}";
  updated_at = n;
}

abbrev pub outcome : SourceSyncOutcome
outcome = record {
  source_id = "home";
  status = succeeded;
  events_ingested = 3;
  events_skipped = 0;
  pages = 2;
  cursor = some "p2";
  warnings = [];
  errors = [];
}

abbrev pub run_outcome : ConnectorRunOutcome
run_outcome = record {
  status = succeeded;
  sources = outcome ∷ [];
  events_ingested = 3;
  events_skipped = 0;
}

abbrev pub full : Store ℕ
full = record { rows = row 1_001 ∷ []; persisted = 3 }
