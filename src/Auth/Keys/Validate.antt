-- ===== src/Auth/Keys/Validate.antt =====
-- src/auth.ts: who a key authenticates.
use total_recall.Base.{
  ℕ, ◌<◌, ◌≡◌, refl, sym, ◌∙◌, ◌⊎◌, inl, inr, true, Option, none, some, List, [], ◌∷◌, map, String,
  eq_iff, arith, Occurs, Bool-cases,
}
use total_recall.Auth.Levels.{access_level?}
use total_recall.Auth.Keys.{
  KeyRow, AuthContext, nullable_nonnegative_integer, auth_context_from_row, not_expired, is_usable,
  first_usable, touch, validate_key, validate_key_read_only,
}

-- What a row must be for a key to work, and what the context takes from it.
pub record Grants (h : String) (now : ℕ) (row : KeyRow) (auth : AuthContext) : Type 0 where
  pub hashed : row.key_hash ≡ h
  pub enabled : row.enabled ≡ true
  pub not_revoked : row.revoked_at ≡ none
  pub live : (row.expires_at ≡ none) ⊎ ((t : ℕ) × (row.expires_at ≡ some t) × (now < t))
  pub identity : auth.key_id ≡ row.id
  pub namespaces : row.namespaces ≡ some auth.namespaces
  pub permissions : row.permissions ≡ some auth.permissions
  pub level : access_level? row.max_access_level ≡ some auth.max_access_level
  pub per_minute :
      nullable_nonnegative_integer row.requests_per_minute ≡ some auth.requests_per_minute
  pub per_day : nullable_nonnegative_integer row.requests_per_day ≡ some auth.requests_per_day

not_expired_live :
    (now : ℕ) (e : Option ℕ)
    → not_expired now e ≡ true
    → (e ≡ none) ⊎ ((t : ℕ) × (e ≡ some t) × (now < t))
unfolding not_expired
not_expired_live now none h = inl refl
not_expired_live now (some t) h = inr (t, refl, ground arith)

-- The columns that are checked and returned are not the one that the update writes.
usable-touch :
    (h : String) (now : ℕ) (row : KeyRow) → is_usable h now (touch h now row) ≡ is_usable h now row
unfolding touch is_usable
usable-touch h now row = ground arith

context-touch :
    (h : String) (now : ℕ) (row : KeyRow)
    → auth_context_from_row (some (touch h now row)) ≡ auth_context_from_row (some row)
unfolding touch auth_context_from_row
context-touch h now row = elim (Bool-cases (is_usable h now row)) [
  | inl e ↦ rw e refl
  | inr e ↦ rw e refl
]

first_usable-touch :
    (h : String) (now : ℕ) (rows : List KeyRow)
    → auth_context_from_row (first_usable h now (map (touch h now) rows))
      ≡ auth_context_from_row (first_usable h now rows)
unfolding first_usable
first_usable-touch h now [] = refl
first_usable-touch h now (row ∷ rows) = elim (Bool-cases (is_usable h now row)) [
  | inl e ↦ rw (usable-touch, e) (context-touch h now row)
  | inr e ↦ rw (usable-touch, e) (first_usable-touch h now rows)
]

first_usable_sound :
    (h : String) (now : ℕ) (rows : List KeyRow) (row : KeyRow)
    → first_usable h now rows ≡ some row
    → Occurs row rows × (is_usable h now row ≡ true)
unfolding first_usable
first_usable_sound h now [] row e = cc
first_usable_sound h now (r ∷ rs) row e = elim (Bool-cases (is_usable h now r)) [
  | inl u ↦ let same : r ≡ row = ground arith in (inl (sym same), rw same at u)
  | inr u ↦ let (i, v) = first_usable_sound h now rs row (rw u at e) in (inr i, v)
]

context-Grants :
    (h : String) (now : ℕ) (row : KeyRow) (auth : AuthContext)
    → is_usable h now row ≡ true
    → auth_context_from_row (some row) ≡ some auth
    → Grants h now row auth
unfolding is_usable auth_context_from_row
context-Grants h now row auth u e = record {
  hashed = (eq_iff row.key_hash h).0 (ground arith);
  enabled = ground arith;
  not_revoked = ground arith;
  live = not_expired_live now row.expires_at (ground arith);
  identity = ground arith;
  namespaces = ground arith;
  permissions = ground arith;
  level = ground arith;
  per_minute = ground arith;
  per_day = ground arith;
}

module _ (hash : String → String) (api_key : String) (now : ℕ) (rows : List KeyRow) where
  -- A key is authenticated only by a row of the table that holds its hash, is enabled and not
  -- revoked, and does not expire or expires later than now; the context has that row's identity,
  -- namespaces, permissions, level and limits, which are all well formed.
  pub validate_key-Grants :
      (auth : AuthContext)
      → (validate_key hash api_key now rows).1 ≡ some auth
      → (row : KeyRow) × Occurs row rows × Grants (hash api_key) now row auth
  unfolding validate_key
  validate_key-Grants auth e =
      found (first_usable (hash api_key) now rows) refl
        (sym (first_usable-touch (hash api_key) now rows) ∙ e)
    where
      found :
          (o : Option KeyRow)
          → first_usable (hash api_key) now rows ≡ o
          → auth_context_from_row o ≡ some auth
          → (row : KeyRow) × Occurs row rows × Grants (hash api_key) now row auth
      found none h e' = absurd (unfold auth_context_from_row in cc)
      found (some row) h e' =
          let (i, u) = first_usable_sound (hash api_key) now rows row h in
          (row, i, context-Grants (hash api_key) now row auth u e')

  -- The preview that does not write authenticates exactly as the call that stamps `last_used_at`.
  pub validate_key_read_only_agrees :
      validate_key_read_only hash api_key now rows ≡ (validate_key hash api_key now rows).1
  unfolding validate_key validate_key_read_only
  validate_key_read_only_agrees = sym (first_usable-touch (hash api_key) now rows)
