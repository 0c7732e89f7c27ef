-- ===== src/Connector/State.antt =====
-- src/connectors/state.ts: the stored state of a source as rows of `connector_sync_state`. Times are
-- milliseconds and metadata is its JSON text.
pub mod Rows
use Prim.Native.String
use total_recall.Base.{
  ℕ, ◌+◌, Bool, true, false, not, ◌&&◌, ◌||◌, Option, none, some, List, [], ◌∷◌, ◌++◌, String,
  str_eq, ltb, sum_by, if◌then◌else◌, get_or, includes, codes, Result, ok, err, ensure, ◌>>=◌, ◌>>◌,
}
use total_recall.Db.{DbScope, is_blank}

pub record RowKey : Type 0 where
  pub client_id : String
  pub namespace : String
  pub service : String
  pub source_id : String

pub record ConnectorStateRow : Type 0 where
  pub key : RowKey
  pub last_sync_at : Option ℕ
  pub last_event_at : Option ℕ
  pub cursor : Option String
  pub metadata : String
  pub updated_at : ℕ

pub record ConnectorStoredState : Type 0 where
  pub cursor : Option String
  pub last_event_at : Option ℕ
  pub metadata : String

-- What `advanceConnectorState` takes of a page; `none` where the page leaves the field out.
pub record PageState : Type 0 where
  pub cursor : Option String
  pub last_event_at : Option ℕ
  pub metadata : Option String

pub data StateError : Type 0 where
  blank_identity long_identity not_authorized already_syncing lock_not_held : StateError
  cannot_lock cannot_advance : StateError

unfoldable pub lock_identity : RowKey → String
lock_identity k = String.◌++◌ "connector:" (
    String.◌++◌ k.client_id (
      String.◌++◌ ":" (
        String.◌++◌ k.namespace
          (String.◌++◌ ":" (String.◌++◌ k.service (String.◌++◌ ":" k.source_id))))))

-- `s.length`: UTF-16 units
abbrev pub utf16_length : String → ℕ
utf16_length s = sum_by (λ c. if ltb 0xffff c then 2 else 1) (codes s)

unfoldable pub assert_identity : RowKey → Result StateError (Unit {0})
unfolding is_blank
assert_identity k = do
  ensure (not (is_blank k.service || (is_blank k.source_id || is_blank k.namespace))) blank_identity
  ensure
      (not (
        ltb 128 (utf16_length k.service)
        || (ltb 512 (utf16_length k.source_id) || ltb 512 (utf16_length k.namespace))))
      long_identity

unfoldable pub same_key : RowKey → RowKey → Bool
same_key a b =
    str_eq a.client_id b.client_id
    && (str_eq a.namespace b.namespace
        && (str_eq a.service b.service && str_eq a.source_id b.source_id))

unfoldable pub find_row : RowKey → List ConnectorStateRow → Option ConnectorStateRow
find_row k [] = none
find_row k (r ∷ rows) = if same_key r.key k then some r else find_row k rows

unfoldable pub read_connector_state_row :
    RowKey → List ConnectorStateRow → Result StateError (Option ConnectorStateRow)
read_connector_state_row k rows = do assert_identity k; ok (find_row k rows)

-- `row?.cursor ?? null` and so on
abbrev pub stored_state : Option ConnectorStateRow → ConnectorStoredState
stored_state none = record { cursor = none; last_event_at = none; metadata = "{}" }
stored_state (some r) = record {
  cursor = r.cursor;
  last_event_at = r.last_event_at;
  metadata = r.metadata;
}

unfoldable pub read_connector_state :
    RowKey → List ConnectorStateRow → Result StateError ConnectorStoredState
unfolding read_connector_state_row
read_connector_state k rows = do
  assert_identity k
  row ← read_connector_state_row k rows
  ok (stored_state row)

abbrev pub new_row : RowKey → ℕ → ConnectorStateRow
new_row k now = record {
  key = k;
  last_sync_at = none;
  last_event_at = none;
  cursor = none;
  metadata = "{}";
  updated_at = now;
}

-- INSERT … ON CONFLICT DO NOTHING
unfoldable pub insert_row : RowKey → ℕ → List ConnectorStateRow → List ConnectorStateRow
insert_row k now rows = elim (find_row k rows) [ none ↦ rows ++ new_row k now ∷ [] | some r ↦ rows ]

-- `locked` says whether another session holds the source's lock.
unfoldable pub lock_connector_state :
    DbScope
    → Bool
    → RowKey
    → ℕ
    → List ConnectorStateRow
    → Result StateError (ConnectorStateRow × List ConnectorStateRow)
lock_connector_state scope locked k now rows = do
  assert_identity k
  ensure (not (is_blank scope.key_id || not (includes scope.namespaces k.namespace))) not_authorized
  ensure (not locked) already_syncing
  elim (find_row k (insert_row k now rows)) [
    | none ↦ err cannot_lock
    | some r ↦ ok (r, insert_row k now rows)
  ]

-- What the UPDATE writes; COALESCE keeps the old value where the page has none.
abbrev pub advanced : PageState → ℕ → ConnectorStateRow → ConnectorStateRow
advanced page now r = record r {
  cursor = page.cursor;
  last_event_at = elim page.last_event_at [ none ↦ r.last_event_at | some t ↦ some t ];
  last_sync_at = some now;
  metadata = get_or page.metadata r.metadata;
  updated_at = now;
}

unfoldable pub update_row :
    RowKey
    → (ConnectorStateRow → ConnectorStateRow)
    → List ConnectorStateRow
    → List ConnectorStateRow
update_row k f [] = []
update_row k f (r ∷ rows) = if same_key r.key k then f r ∷ rows else r ∷ update_row k f rows

unfoldable pub advance_connector_state :
    RowKey → PageState → ℕ → List ConnectorStateRow → Result StateError (List ConnectorStateRow)
advance_connector_state k page now rows = elim (find_row k rows) [
  | none ↦ err cannot_advance
  | some r ↦ ok (update_row k (advanced page now) rows)
]
