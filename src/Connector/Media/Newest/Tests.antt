-- ===== src/Connector/Media/Newest/Tests.antt =====
-- Two events of a service, one of them without a date.
use total_recall.Base.{ℕ, true, Option, none, some, List, [], ◌∷◌}
use total_recall.Connector.Media.{MediaEventInput, filter_valid_media_event_dates}

abbrev event : Option ℕ → MediaEventInput
event played_at = record {
  service = "plex";
  service_id = none;
  source_id = none;
  event_key = none;
  played_at = played_at;
  played_cursor_eligible = true;
}

abbrev events : List MediaEventInput
events = event none ∷ event (some 70) ∷ event (some 50) ∷ []

abbrev valid : List MediaEventInput
valid = (filter_valid_media_event_dates events).events
