-- ===== src/Connector/Media.antt =====
-- src/connectors/base.ts: the dates and the attribution of media events, before they are stored. A
-- date is its milliseconds, `none` where the text is no date; the text of messages is left out.
pub mod Newest
use total_recall.Base.{
  ℕ, suc, ◌+◌, ltb, Bool, true, false, Option, none, some, List, [], ◌∷◌, map, String, str_eq,
  if◌then◌else◌, length, get_or, Result, ok, err, ensure, ◌>>=◌, ◌>>◌,
}

pub record MediaEventInput : Type 0 where
  pub service : String
  pub service_id : Option String
  pub source_id : Option String
  pub event_key : Option String
  pub played_at : Option ℕ
  -- `false` where the metadata says so
  pub played_cursor_eligible : Bool

pub record TrustedMediaEventInput : Type 0 where
  pub event : MediaEventInput
  pub source_id : String
  pub event_key : String
  pub client_id : String
  pub agent_id : Option String

pub data MediaError : Type 0 where
  needs_api_key : MediaError
  invalid_played_at : String → Option String → MediaError

-- An empty text is no key.
unfoldable pub trust_connector_media_events :
    (MediaEventInput → String)
    → Option String
    → Option String
    → List MediaEventInput
    → Result MediaError (List TrustedMediaEventInput)
trust_connector_media_events media_event_key none agent_id events = err needs_api_key
trust_connector_media_events media_event_key (some api_key_id) agent_id events =
    if str_eq api_key_id ""
    then err needs_api_key
    else ok (
        map
          (λ e. record {
            event = e;
            source_id = get_or e.source_id "default";
            event_key = get_or e.event_key (media_event_key e);
            client_id = api_key_id;
            agent_id = agent_id;
          })
          events)

abbrev pub valid_event_date : MediaEventInput → Result MediaError ℕ
valid_event_date e = elim e.played_at [
  | none ↦ err (invalid_played_at e.service e.service_id)
  | some t ↦ ok t
]

unfoldable pub validate_media_event_dates : List MediaEventInput → Result MediaError (Unit {0})
validate_media_event_dates [] = ok tt
validate_media_event_dates (e ∷ events) = do
  date ← valid_event_date e
  validate_media_event_dates events

pub record ValidDates : Type 0 where
  pub events : List MediaEventInput
  pub skipped : ℕ
  pub errors : List MediaError

abbrev add_valid : MediaEventInput → ValidDates → ValidDates
add_valid e r = elim e.played_at [
  | none ↦ record r {
    skipped = suc r.skipped;
    errors = invalid_played_at e.service e.service_id ∷ r.errors;
  }
  | some t ↦ record r { events = e ∷ r.events }
]

unfoldable pub filter_valid_media_event_dates : List MediaEventInput → ValidDates
filter_valid_media_event_dates [] = record { events = []; skipped = 0; errors = [] }
filter_valid_media_event_dates (e ∷ events) = add_valid e (filter_valid_media_event_dates events)

-- `!acc || ts > acc ? ts : acc`
abbrev pub newer : Option ℕ → ℕ → Option ℕ
newer none ts = some ts
newer (some acc) ts = if ltb acc ts then some ts else some acc

-- `reduce`, from the accumulator `acc` on.
unfoldable pub newest_from : Option ℕ → List MediaEventInput → Result MediaError (Option ℕ)
newest_from acc [] = ok acc
newest_from acc (e ∷ events) = do
  ts ← valid_event_date e
  newest_from (if e.played_cursor_eligible then newer acc ts else acc) events

abbrev pub select_newest_cursor_date : List MediaEventInput → Result MediaError (Option ℕ)
select_newest_cursor_date events = newest_from none events

unfoldable pub resolve_last_event_at :
    List MediaEventInput → Option ℕ → Bool → Result MediaError (Option ℕ)
resolve_last_event_at events since true = do
  newest ← select_newest_cursor_date events
  ok (elim newest [ none ↦ since | some t ↦ some t ])
resolve_last_event_at events since false = do validate_media_event_dates events; ok since
