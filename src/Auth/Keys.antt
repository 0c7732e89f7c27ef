-- ===== src/Auth/Keys.antt =====
-- src/auth.ts: API keys as rows of `api_keys`. Times are milliseconds; `hash` stands for the SHA-256
-- of the crypto module.
pub mod Validate
use total_recall.Base.{
  ℕ, Bool, true, false, not, ◌&&◌, Option, none, some, List, [], ◌∷◌, map, String, str_eq, ltb,
  if◌then◌else◌, is_some, codes, decimal?, is_safe_integer,
}
use total_recall.Auth.Levels.{AccessLevel, Raw, access_level?}

-- A value of a limit column: SQL's null, a text, a nonnegative integer, or anything else.
pub data RawLimit : Type 0 where
  null other : RawLimit
  text : String → RawLimit
  integer : ℕ → RawLimit

pub record KeyRow : Type 0 where
  pub id : String
  pub name : String
  pub key_hash : String
  pub enabled : Bool
  pub revoked_at : Option ℕ
  pub expires_at : Option ℕ
  pub last_used_at : Option ℕ
  -- `none` where the column holds no array
  pub namespaces : Option (List String)
  pub permissions : Option (List String)
  pub max_access_level : Raw
  pub requests_per_minute : RawLimit
  pub requests_per_day : RawLimit

pub record AuthContext : Type 0 where
  pub key_id : String
  pub name : String
  pub namespaces : List String
  pub permissions : List String
  pub max_access_level : AccessLevel
  pub requests_per_minute : Option ℕ
  pub requests_per_day : Option ℕ
  pub expires_at : Option ℕ

safe_limit : ℕ → Option (Option ℕ)
safe_limit n = if is_safe_integer n then some (some n) else none

-- `none` is the code's `undefined`, `some none` its null: no limit.
unfoldable pub nullable_nonnegative_integer : RawLimit → Option (Option ℕ)
unfolding safe_limit decimal?
nullable_nonnegative_integer null = some none
nullable_nonnegative_integer other = none
nullable_nonnegative_integer (integer n) = safe_limit n
nullable_nonnegative_integer (text s) = elim (decimal? (codes s)) [
  | none ↦ none
  | some n ↦ safe_limit n
]

infixl 5 ◌>>=◌
abbrev ◌>>=◌ {ℓ κ} : {A : Type ℓ} {B : Type κ} → Option A → (A → Option B) → Option B
none >>= k = none
some a >>= k = k a

unfoldable pub auth_context_from_row : Option KeyRow → Option AuthContext
auth_context_from_row found = do
  row ← found
  level ← access_level? row.max_access_level
  namespaces ← row.namespaces
  permissions ← row.permissions
  per_minute ← nullable_nonnegative_integer row.requests_per_minute
  per_day ← nullable_nonnegative_integer row.requests_per_day
  some (record {
    key_id = row.id;
    name = row.name;
    namespaces = namespaces;
    permissions = permissions;
    max_access_level = level;
    requests_per_minute = per_minute;
    requests_per_day = per_day;
    expires_at = row.expires_at;
  })

-- `expires_at IS NULL OR expires_at > NOW()`
unfoldable pub not_expired : ℕ → Option ℕ → Bool
not_expired now none = true
not_expired now (some t) = ltb now t

-- The WHERE of both queries.
unfoldable pub is_usable : String → ℕ → KeyRow → Bool
unfolding not_expired
is_usable h now row =
    str_eq row.key_hash h
    && (row.enabled && (not (is_some row.revoked_at) && not_expired now row.expires_at))

first_usable : String → ℕ → List KeyRow → Option KeyRow
first_usable h now [] = none
first_usable h now (row ∷ rows) = if is_usable h now row then some row else first_usable h now rows

-- `UPDATE api_keys SET last_used_at = NOW()`
touch : String → ℕ → KeyRow → KeyRow
touch h now row = if is_usable h now row then record row { last_used_at = some now } else row

module _ (hash : String → String) where
  -- The table after the update, and the context of the first row that the update returns.
  unfoldable pub validate_key : String → ℕ → List KeyRow → List KeyRow × Option AuthContext
  unfolding touch first_usable is_usable auth_context_from_row
  validate_key api_key now rows =
      let rows' = map (touch (hash api_key) now) rows in
      (rows', auth_context_from_row (first_usable (hash api_key) now rows'))

  unfoldable pub validate_key_read_only : String → ℕ → List KeyRow → Option AuthContext
  unfolding first_usable is_usable auth_context_from_row
  validate_key_read_only api_key now rows =
      auth_context_from_row (first_usable (hash api_key) now rows)
