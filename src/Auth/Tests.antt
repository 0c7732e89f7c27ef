-- ===== src/Auth/Tests.antt =====
-- Access levels, keys and namespaces at concrete values.
use total_recall.Base.{◌≡◌, refl, true, none, some, [], ◌∷◌, String, Occurs, decimal?}
use total_recall.Auth.Levels.{
  sensitive, secret, text, level_of_name, access_level?, can_access_level,
}
use total_recall.Auth.Levels.Sql.{access_level_sql, column, access_level_sql-can_access_level}
use total_recall.Auth.Keys.{
  RawLimit, KeyRow, AuthContext, nullable_nonnegative_integer, validate_key,
}
use total_recall.Auth.Keys.Validate.{Grants, validate_key-Grants}

abbrev plain_hash : String → String
plain_hash s = s

abbrev key_row : KeyRow
key_row = record {
  id = "1";
  name = "cursor";
  key_hash = "tr_1";
  enabled = true;
  revoked_at = none;
  expires_at = some 100;
  last_used_at = none;
  namespaces = some ("work" ∷ []);
  permissions = some ("read" ∷ []);
  max_access_level = text "sensitive";
  requests_per_minute = RawLimit.text "60";
  requests_per_day = RawLimit.null;
}

abbrev key_context : AuthContext
key_context = record {
  key_id = "1";
  name = "cursor";
  namespaces = "work" ∷ [];
  permissions = "read" ∷ [];
  max_access_level = sensitive;
  requests_per_minute = some 60;
  requests_per_day = none;
  expires_at = some 100;
}

access_level_sql-can_access_level_example :
    access_level_sql none "secret" ≡ can_access_level (column none) secret
unfolding level_of_name
access_level_sql-can_access_level_example = access_level_sql-can_access_level none "secret"

validate_key-Grants_example :
    (row : KeyRow) × Occurs row (key_row ∷ []) × Grants "tr_1" 99 row key_context
validate_key-Grants_example =
    validate_key-Grants plain_hash "tr_1" 99 (key_row ∷ []) key_context found
  where
    found : (validate_key plain_hash "tr_1" 99 (key_row ∷ [])).1 ≡ some key_context
    found = unfold validate_key nullable_nonnegative_integer decimal? access_level? in refl

validate_key_expired : (validate_key plain_hash "tr_1" 100 (key_row ∷ [])).1 ≡ none
unfolding validate_key
validate_key_expired = refl
