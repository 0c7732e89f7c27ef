-- ===== src/Db.antt =====
-- src/db.ts: scopes, pooled sessions and transactions. PostgreSQL is represented by what the code
-- asks of it: a session setting stays until it is set again, a transaction-local setting and the
-- writes of a transaction last until ROLLBACK or COMMIT, and a lost connection rolls back.
pub mod Scoped
pub mod CheckedOut
mod Tests
use total_recall.Base.{
  ◌≡◌, ℕ, Bool, true, false, not, ◌&&◌, ◌||◌, Option, none, some, List, [], ◌∷◌, String, ◌==◌, leb,
  if◌then◌else◌, all, any, codes, includes, Result, ok, err,
}
use total_recall.Auth.Keys.{AuthContext}

pub record DbScope : Type 0 where
  pub namespaces : List String
  pub key_id : String
  pub is_admin : Bool

unfoldable pub db_scope_from_auth : AuthContext → DbScope
db_scope_from_auth auth = record {
  namespaces = auth.namespaces;
  key_id = auth.key_id;
  is_admin = includes auth.permissions "admin";
}

-- The characters that `trim` removes.
abbrev pub is_space : ℕ → Bool
is_space c =
    (leb 9 c && leb c 13)
    || (c == 32
        || (c == 160
            || (c == 0x1680
                || ((leb 0x2000 c && leb c 0x200a)
                    || (c == 0x2028
                        || (c == 0x2029
                            || (c == 0x202f || (c == 0x205f || (c == 0x3000 || c == 0xfeff)))))))))

-- `s.trim().length === 0`
unfoldable pub is_blank : String → Bool
is_blank s = all is_space (codes s)

unfoldable pub is_valid_scope : DbScope → Bool
unfolding is_blank
is_valid_scope scope =
    all (λ ns. not (is_blank ns || any (λ c. c == b',') (codes ns))) scope.namespaces

-- app.allowed_namespaces (`none` for the empty text, which denies), app.current_key_id and
-- app.current_key_is_admin.
pub record Authority : Type 0 where
  pub allowed_namespaces : Option (List String)
  pub current_key_id : String
  pub current_key_is_admin : Bool

abbrev pub authority_of : DbScope → Authority
authority_of scope = record {
  allowed_namespaces = some scope.namespaces;
  current_key_id = scope.key_id;
  current_key_is_admin = scope.is_admin;
}

-- A database session with what is committed: the settings of the session, those of its open
-- transaction if there is one, and the advisory locks that it holds.
pub record Session (S : Type 0) : Type 0 where
  pub authority : Authority
  pub local : Option Authority
  pub locks : List String
  pub store : S

-- What the next borrower of a connection may find: no open transaction, and no namespace allowed.
abbrev pub IsClean : {S : Type 0} → Session S → Type 0
IsClean s = (s.local ≡ none) × (s.authority.allowed_namespaces ≡ none)

-- BEGIN with the three settings; the end of the transaction by COMMIT or ROLLBACK.
abbrev pub begun : {S : Type 0} → DbScope → Session S → Session S
begun scope s = record s { local = some (authority_of scope) }

abbrev pub ended : {S : Type 0} → Session S → Session S
ended s = record s { local = none }

-- Which of the library's own queries fail.
pub record Faults : Type 0 where
  pub connect : Bool
  pub deny : Bool
  pub begin : Bool
  pub configure : Bool
  pub commit : Bool
  pub commit_took_effect : Bool
  pub rollback : Bool

-- What is thrown: an error of the callback, or one of the database. The flag is `discardConnection`.
pub data Cause (E : Type 0) : Type 0 where
  callback : E → Cause E
  invalid_scope connection_failed query_failed : Cause E

pub record Thrown (E : Type 0) : Type 0 where
  pub cause : Cause E
  pub discard_connection : Bool

abbrev pub thrown : {E : Type 0} → Cause E → Bool → Thrown E
thrown c d = record { cause = c; discard_connection = d }

-- After a call: its answer, what is committed, and the session if it goes back to the pool.
pub record After (S E A : Type 0) : Type 0 where
  pub answer : Result (Thrown E) A
  pub store : S
  pub pooled : Option (Session S)
