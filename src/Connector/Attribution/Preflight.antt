-- ===== src/Connector/Attribution/Preflight.antt =====
-- src/connectors/attribution.ts: what the keys that pass are allowed to do.
use total_recall.Base.{
  ◌≡◌, ◌≢◌, Bool, true, false, Option, none, List, [], ◌∷◌, String, eq_iff, Occurs, includes,
  get_or, Result, ok, err, arith, bind-ok, subst, sym, ap, ◌>>=◌,
}
use total_recall.Auth.Keys.{AuthContext}
use total_recall.Db.{DbScope}
use total_recall.Connector.Attribution.{
  ConnectorKeyRow, Environment, AttributionError, trim, auth_from_key_row, load_connector_key,
  require, preflight_connector_key, preflight_each, preflight_media_connector_keys, AgentParams,
  Attribution, register, register_unless, resolve_activity_connector_attribution,
}

-- The context is that of an enabled row of the table with this name.
abbrev pub Backed : List ConnectorKeyRow → String → AuthContext → Type 0
Backed rows name auth =
    (row : ConnectorKeyRow) × Occurs row rows
    × (row.enabled ≡ true)
    × (row.name ≡ name)
    × (auth ≡ auth_from_key_row row)

abbrev pub Allows : String → String → AuthContext → Type 0
Allows namespace permission auth =
    (includes auth.namespaces namespace ≡ true) × (includes auth.permissions permission ≡ true)

load_connector_key-ok :
    (rows : List ConnectorKeyRow) (name : String) (row : ConnectorKeyRow)
    → load_connector_key rows name ≡ ok row
    → Occurs row rows × (row.enabled ≡ true) × (row.name ≡ name)
unfolding load_connector_key
load_connector_key-ok [] name row e = absurd (ground arith)
load_connector_key-ok (r ∷ rows) name row e =
    ground (arith, eq_iff r.name name, load_connector_key-ok rows name row)

require-ok :
    (auth a : AuthContext) (namespace permission : String)
    → require auth namespace permission ≡ ok a
    → (a ≡ auth) × Allows namespace permission auth
unfolding require
require-ok auth a namespace permission e = ground arith

preflight_connector_key-ok :
    (rows : List ConnectorKeyRow) (name namespace permission : String) (auth : AuthContext)
    → preflight_connector_key rows name namespace permission ≡ ok auth
    → Backed rows name auth × Allows namespace permission auth
unfolding preflight_connector_key
preflight_connector_key-ok rows name namespace permission auth e =
    let (row, l, rest) =
      bind-ok (load_connector_key rows name)
        (λ row. require (auth_from_key_row row) namespace permission) auth e in
    let (o, en, n) = load_connector_key-ok rows name row l in
    let (same, allows) = require-ok (auth_from_key_row row) auth namespace permission rest in
    ((row, o, en, n, same), subst (Allows namespace permission) (sym same) allows)

-- Key by key.
abbrev pub AllBacked : List ConnectorKeyRow → List String → List AuthContext → Type 0
AllBacked rows [] [] = Unit
AllBacked rows [] (a ∷ auths) = ⊥
AllBacked rows (n ∷ names) [] = ⊥
AllBacked rows (n ∷ names) (a ∷ auths) =
    Backed rows n a × Allows "media" "write" a × AllBacked rows names auths

preflight_each-AllBacked :
    (rows : List ConnectorKeyRow) (names : List String) (auths : List AuthContext)
    → preflight_each rows names ≡ ok auths
    → AllBacked rows names auths
unfolding preflight_each
preflight_each-AllBacked rows [] [] e = tt
preflight_each-AllBacked rows [] (a ∷ auths) e = absurd (ground arith)
preflight_each-AllBacked rows (n ∷ names) auths e =
    let (row, l, rest) =
      bind-ok (load_connector_key rows n)
        (λ row. do
          auth ← require (auth_from_key_row row) "media" "write"
          auths ← preflight_each rows names
          ok (auth ∷ auths))
        auths e in
    let (auth, r, rest') =
      bind-ok (require (auth_from_key_row row) "media" "write")
        (λ auth. do auths ← preflight_each rows names; ok (auth ∷ auths)) auths rest in
    let (others, more, last) =
      bind-ok (preflight_each rows names) (λ auths. ok (auth ∷ auths)) auths rest' in
    let (o, en, name) = load_connector_key-ok rows n row l in
    let (same, allows) = require-ok (auth_from_key_row row) auth "media" "write" r in
    let listed : auth ∷ others ≡ auths = ground arith in
    subst (AllBacked rows (n ∷ names)) listed (
      (row, o, en, name, same),
      subst (Allows "media" "write") (sym same) allows,
      preflight_each-AllBacked rows names others more,
    )

-- The media keys pass only if there is at least one, and the contexts are, name by name and in the
-- order of the names, those of enabled rows that include the media namespace and may write.
pub preflight_media_connector_keys-AllBacked :
    (rows : List ConnectorKeyRow) (names : List String) (auths : List AuthContext)
    → preflight_media_connector_keys rows names ≡ ok auths
    → (names ≢ []) × AllBacked rows names auths
unfolding preflight_media_connector_keys
preflight_media_connector_keys-AllBacked rows [] auths e = absurd (ground arith)
preflight_media_connector_keys-AllBacked rows (n ∷ names) auths e =
    (ground arith, preflight_each-AllBacked rows (n ∷ names) auths e)

module _ {S : Type 0} (upsert_agent : AgentParams → DbScope → S → Option String × S) where
  -- What an attribution may do: no more than its key, and nothing as an administrator.
  abbrev pub IsLeast : Attribution → Type 0
  IsLeast a =
      (a.api_key_id ≡ a.auth.key_id)
      × (a.scope.key_id ≡ a.auth.key_id)
      × (a.scope.namespaces ≡ a.auth.namespaces)
      × (a.scope.is_admin ≡ false)

  register-IsLeast :
      (service : String) (auth : AuthContext) (st st' : S) (a : Attribution)
      → register upsert_agent service auth st ≡ (ok a, st')
      → (a.auth ≡ auth) × IsLeast a
  unfolding register
  register-IsLeast service auth st st' a e = ground arith

  register_unless-IsLeast :
      (dry_run : Bool) (service : String) (r : Result AttributionError AuthContext) (st st' : S)
      (a : Attribution)
      → register_unless upsert_agent dry_run service r st ≡ (ok a, st')
      → (r ≡ ok a.auth) × IsLeast a × (dry_run ≡ true → (st' ≡ st) × (a.agent_id ≡ none))
  unfolding register_unless
  register_unless-IsLeast dry_run service (err x) st st' a e = absurd (ground arith)
  register_unless-IsLeast true service (ok auth) st st' a e = ground arith
  register_unless-IsLeast false service (ok auth) st st' a e =
      let (same, least) = register-IsLeast service auth st st' a e in
      (ap ok (sym same), least, λ d. absurd (ground arith))

  -- An activity connector runs under the enabled key with the configured name, trimmed, which
  -- includes the activity namespace and may write; its scope has that key's namespaces and no
  -- administrator's rights, and a dry run registers no agent and changes nothing.
  pub resolve_activity_connector_attribution-IsLeast :
      (env : Environment) (rows : List ConnectorKeyRow) (service : String) (dry_run : Bool)
      (st st' : S) (a : Attribution)
      → resolve_activity_connector_attribution upsert_agent env rows service dry_run st
        ≡ (ok a, st')
      → Backed rows (trim (get_or env.activity_connector_api_key_name "")) a.auth
        × Allows "activity" "write" a.auth
        × IsLeast a
        × (dry_run ≡ true → (st' ≡ st) × (a.agent_id ≡ none))
  unfolding resolve_activity_connector_attribution
  resolve_activity_connector_attribution-IsLeast env rows service dry_run st st' a e =
      let name = trim (get_or env.activity_connector_api_key_name "") in
      let passed : register_unless upsert_agent dry_run service
            (preflight_connector_key rows name "activity" "write") st
          ≡ (ok a, st') =
        ground arith in
      let (r, least, dry) = register_unless-IsLeast dry_run service _ st st' a passed in
      let (backed, allows) = preflight_connector_key-ok rows name "activity" "write" a.auth r in
      (backed, allows, least, dry)
