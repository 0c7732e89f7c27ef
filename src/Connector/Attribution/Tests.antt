-- ===== src/Connector/Attribution/Tests.antt =====
-- A table of two keys, one of them disabled.
use total_recall.Base.{
  ℕ, ◌≡◌, ◌+◌, refl, Bool, true, false, Option, none, some, List, [], ◌∷◌, String, ok,
}
use total_recall.Auth.Levels.{normal}
use total_recall.Db.{DbScope}
use total_recall.Connector.Attribution.{
  ConnectorKeyRow, Environment, trim, trim_start, trim_end, split_comma, nonempty_names,
  media_connector_key_names, auth_from_key_row, load_connector_key, require,
  preflight_connector_key, preflight_each, preflight_media_connector_keys, AgentParams, Attribution,
  attribution_scope, register, register_unless, register_first, resolve_connector_attribution,
  resolve_activity_connector_attribution,
}
use total_recall.Connector.Attribution.Preflight.{
  Backed, Allows, IsLeast, resolve_activity_connector_attribution-IsLeast,
}

abbrev key : Bool → ConnectorKeyRow
key enabled = record {
  id = "id";
  name = "cron";
  namespaces = "media" ∷ "activity" ∷ [];
  permissions = "read" ∷ "write" ∷ [];
  max_access_level = normal;
  enabled = enabled;
}

abbrev table : List ConnectorKeyRow
table = key false ∷ key true ∷ []

abbrev env : Environment
env = record {
  media_connector_api_key_names = some " cron,, other ";
  media_default_api_key_name = none;
  activity_connector_api_key_name = some " cron ";
}

abbrev count_agents : AgentParams → DbScope → ℕ → Option String × ℕ
count_agents _ _ n = (some "agent", n + 1)

names : media_connector_key_names env ≡ "cron" ∷ "other" ∷ []
unfolding media_connector_key_names nonempty_names split_comma trim_start trim_end
names = refl

abbrev attributed : Option String → Attribution
attributed agent = record {
  api_key_id = "id";
  agent_id = agent;
  scope = attribution_scope (auth_from_key_row (key true));
  auth = auth_from_key_row (key true);
}

media_attribution :
    resolve_connector_attribution count_agents env table "plex" 0
    ≡ (ok (attributed (some "agent")), 1)
unfolding resolve_connector_attribution media_connector_key_names nonempty_names split_comma
    trim_start trim_end register_first preflight_media_connector_keys preflight_each
    load_connector_key require register
media_attribution = refl

resolve_activity_connector_attribution-IsLeast_example :
    Backed table (trim " cron ") (auth_from_key_row (key true))
    × Allows "activity" "write" (auth_from_key_row (key true))
    × IsLeast count_agents (attributed none)
    × (◌≡◌ {A = Bool} true true → (◌≡◌ {A = ℕ} 0 0) × (◌≡◌ {A = Option String} none none))
resolve_activity_connector_attribution-IsLeast_example =
    resolve_activity_connector_attribution-IsLeast count_agents env table "calendar" true 0 0
      (attributed none)
      (unfold resolve_activity_connector_attribution register_unless preflight_connector_key
          load_connector_key require trim_start trim_end in
        refl)
