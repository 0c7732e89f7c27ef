-- ===== src/Auth/Levels/Sql.antt =====
-- src/auth.ts: the predicate that `accessLevelSql` puts into queries. SQL's ranks are shifted by one,
-- so that its -1 is a natural number.
use total_recall.Base.{
  ℕ, ◌≡◌, Bool, false, Option, none, some, String, str_eq, leb, arith, if◌then◌else◌,
}
use total_recall.Auth.Levels.{Raw, null, text, level_of_name, can_access_level}

-- CASE COALESCE(column, 'normal') WHEN … ELSE 3 END
abbrev column_rank : Option String → ℕ
column_rank none = 1
column_rank (some s) =
    if str_eq s "normal"
    then 1
    else if str_eq s "sensitive"
    then 2
    else if str_eq s "secret"
    then 3
    else 4

-- CASE ceiling WHEN … ELSE -1 END
abbrev ceiling_rank : String → ℕ
ceiling_rank s =
    if str_eq s "normal"
    then 1
    else if str_eq s "sensitive"
    then 2
    else if str_eq s "secret"
    then 3
    else 0

unfoldable pub access_level_sql : Option String → String → Bool
access_level_sql column ceiling = leb (column_rank column) (ceiling_rank ceiling)

-- The value of a text column as the code reads it.
abbrev pub column : Option String → Raw
column none = null
column (some s) = text s

-- For every value of the column and every ceiling, the predicate in the queries admits exactly the
-- rows that the check in the code admits; under a ceiling that is no level it admits none.
pub access_level_sql-can_access_level :
    (c : Option String) (ceiling : String)
    → access_level_sql c ceiling
      ≡ (elim (level_of_name ceiling) [ none ↦ false | some l ↦ can_access_level (column c) l ])
unfolding access_level_sql can_access_level level_of_name
access_level_sql-can_access_level c ceiling = ground arith
