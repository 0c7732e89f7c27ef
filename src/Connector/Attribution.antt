-- ===== src/Connector/Attribution.antt =====
-- src/connectors/attribution.ts: the API key and the agent that a connector's events are attributed
-- to. `upsertAgent` of src/agents.ts is an argument over a state of its own; a query that fails throws
-- out of each function and is left out.
pub mod Preflight
mod Tests
use Prim.Native.Char.{code}
use Prim.Native.String
use total_recall.Base.{
  ℕ, ◌==◌, Bool, true, false, not, ◌&&◌, Option, none, some, List, [], ◌∷◌, String, str_eq,
  if◌then◌else◌, includes, get_or, Result, ok, err, ensure, ◌>>=◌, ◌>>◌,
}
use total_recall.Auth.Levels.{AccessLevel}
use total_recall.Auth.Keys.{AuthContext}
use total_recall.Db.{DbScope, is_space}

pub record ConnectorKeyRow : Type 0 where
  pub id : String
  pub name : String
  pub namespaces : List String
  pub permissions : List String
  pub max_access_level : AccessLevel
  pub enabled : Bool

-- The environment variables that are read.
pub record Environment : Type 0 where
  pub media_connector_api_key_names : Option String
  pub media_default_api_key_name : Option String
  pub activity_connector_api_key_name : Option String

pub data AttributionError : Type 0 where
  lacks_namespace lacks_permission no_enabled_key no_media_key no_activity_key : AttributionError
  agent_refused : AttributionError

unfoldable pub trim_start : String → String
trim_start String.[] = ""
trim_start (String.◌∷◌ c s) =
    let rest = trim_start s in if is_space (code c) then rest else String.◌∷◌ c s

unfoldable pub trim_end : String → String
trim_end String.[] = ""
trim_end (String.◌∷◌ c s) =
    let rest = trim_end s in if is_space (code c) && str_eq rest "" then "" else String.◌∷◌ c rest

abbrev pub trim : String → String
trim s = trim_end (trim_start s)

-- `configured.split(',')`
unfoldable pub split_comma : String → List String
split_comma String.[] = "" ∷ []
split_comma (String.◌∷◌ c s) = elim (split_comma s) [
  | [] ↦ []
  | part ∷ parts ↦ if code c == b',' then "" ∷ part ∷ parts else (String.◌∷◌ c part) ∷ parts
]

unfoldable pub nonempty_names : List String → List String
nonempty_names [] = []
nonempty_names (s ∷ parts) =
    let rest = nonempty_names parts in if str_eq (trim s) "" then rest else trim s ∷ rest

unfoldable pub media_connector_key_names : Environment → List String
media_connector_key_names env = nonempty_names (
    split_comma (
      get_or env.media_connector_api_key_names
        (get_or env.media_default_api_key_name "openclaw-v2")))

abbrev pub auth_from_key_row : ConnectorKeyRow → AuthContext
auth_from_key_row row = record {
  key_id = row.id;
  name = row.name;
  namespaces = row.namespaces;
  permissions = row.permissions;
  max_access_level = row.max_access_level;
  requests_per_minute = none;
  requests_per_day = none;
  expires_at = none;
}

unfoldable pub load_connector_key :
    List ConnectorKeyRow → String → Result AttributionError ConnectorKeyRow
load_connector_key [] name = err no_enabled_key
load_connector_key (row ∷ rows) name =
    let rest = load_connector_key rows name in
    if str_eq row.name name && row.enabled then ok row else rest

unfoldable pub require : AuthContext → String → String → Result AttributionError AuthContext
require auth namespace permission = do
  ensure (includes auth.namespaces namespace) lacks_namespace
  ensure (includes auth.permissions permission) lacks_permission
  ok auth

unfoldable pub preflight_connector_key :
    List ConnectorKeyRow → String → String → String → Result AttributionError AuthContext
unfolding require
preflight_connector_key rows key_name namespace permission = do
  row ← load_connector_key rows key_name
  require (auth_from_key_row row) namespace permission

-- The loop over the keys, with `assertMediaConnectorKey`.
unfoldable pub preflight_each :
    List ConnectorKeyRow → List String → Result AttributionError (List AuthContext)
preflight_each rows [] = ok []
preflight_each rows (key_name ∷ names) = do
  row ← load_connector_key rows key_name
  auth ← require (auth_from_key_row row) "media" "write"
  auths ← preflight_each rows names
  ok (auth ∷ auths)

unfoldable pub preflight_media_connector_keys :
    List ConnectorKeyRow → List String → Result AttributionError (List AuthContext)
preflight_media_connector_keys rows [] = err no_media_key
preflight_media_connector_keys rows (n ∷ names) = preflight_each rows (n ∷ names)

pub record AgentParams : Type 0 where
  pub name : String
  pub agent_type : String
  pub runtime : String
  pub api_key_id : String

pub record Attribution : Type 0 where
  pub api_key_id : String
  pub agent_id : Option String
  pub scope : DbScope
  pub auth : AuthContext

-- `isAdmin` is left out of the scope.
abbrev pub attribution_scope : AuthContext → DbScope
attribution_scope auth = record {
  namespaces = auth.namespaces;
  key_id = auth.key_id;
  is_admin = false;
}

module _ {S : Type 0} (upsert_agent : AgentParams → DbScope → S → Option String × S) where
  -- The agent of a service under the key.
  unfoldable pub register : String → AuthContext → S → Result AttributionError Attribution × S
  register service auth st =
      let (agent, st') =
        upsert_agent
          (record {
            name = String.◌++◌ service "-connector";
            agent_type = "system";
            runtime = "cron";
            api_key_id = auth.key_id;
          })
          (attribution_scope auth) st in
      elim agent [
        | none ↦ (err agent_refused, st')
        | some id ↦ (
          ok (record {
            api_key_id = auth.key_id;
            agent_id = some id;
            scope = attribution_scope auth;
            auth = auth;
          }),
          st',
        )
      ]

  unfoldable pub register_first :
      String
      → Result AttributionError (List AuthContext)
      → S
      → Result AttributionError Attribution × S
  register_first service (err e) st = (err e, st)
  register_first service (ok []) st = (err no_media_key, st)
  register_first service (ok (auth ∷ auths)) st = register service auth st

  unfoldable pub resolve_connector_attribution :
      Environment → List ConnectorKeyRow → String → S → Result AttributionError Attribution × S
  resolve_connector_attribution env rows service st = elim (media_connector_key_names env) [
    | [] ↦ (err no_media_key, st)
    | n ∷ names ↦ register_first service (preflight_media_connector_keys rows (n ∷ [])) st
  ]

  unfoldable pub register_unless :
      Bool
      → String
      → Result AttributionError AuthContext
      → S
      → Result AttributionError Attribution × S
  register_unless dry_run service (err e) st = (err e, st)
  register_unless dry_run service (ok auth) st =
      if dry_run
      then (
        ok (record {
          api_key_id = auth.key_id;
          agent_id = none;
          scope = attribution_scope auth;
          auth = auth;
        }),
        st,
      )
      else register service auth st

  unfoldable pub resolve_activity_connector_attribution :
      Environment
      → List ConnectorKeyRow
      → String
      → Bool
      → S
      → Result AttributionError Attribution × S
  resolve_activity_connector_attribution env rows service dry_run st =
      let name = trim (get_or env.activity_connector_api_key_name "") in
      if str_eq name ""
      then (err no_activity_key, st)
      else register_unless dry_run service (preflight_connector_key rows name "activity" "write") st
