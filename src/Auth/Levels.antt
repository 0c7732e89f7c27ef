-- ===== src/Auth/Levels.antt =====
-- src/auth.ts: access levels, and the same order written as SQL.
pub mod Sql
use total_recall.Base.{
  ℕ, Bool, true, false, Option, none, some, String, str_eq, leb, if◌then◌else◌, Result, ok, err,
}

pub data AccessLevel : Type 0 where
  normal sensitive secret : AccessLevel

-- A value of a column or of a request: null or undefined, a text, or anything else.
pub data Raw : Type 0 where
  null other : Raw
  text : String → Raw

-- ACCESS_LEVEL_RANK
abbrev pub access_level_rank : AccessLevel → ℕ
access_level_rank normal = 0
access_level_rank sensitive = 1
access_level_rank secret = 2

abbrev pub level_name : AccessLevel → String
level_name normal = "normal"
level_name sensitive = "sensitive"
level_name secret = "secret"

-- The level that one of ACCESS_LEVELS names.
unfoldable pub level_of_name : String → Option AccessLevel
level_of_name s =
    if str_eq s "normal"
    then some normal
    else if str_eq s "sensitive"
    then some sensitive
    else if str_eq s "secret"
    then some secret
    else none

-- `isAccessLevel`, with the level that it finds.
unfoldable pub access_level? : Raw → Option AccessLevel
unfolding level_of_name
access_level? (text s) = level_of_name s
access_level? _ = none

-- `required ?? 'normal'`
abbrev pub or_normal : Raw → Raw
or_normal null = text "normal"
or_normal (text s) = text s
or_normal other = other

unfoldable pub can_access_level : Raw → AccessLevel → Bool
unfolding access_level?
can_access_level required ceiling = elim (access_level? (or_normal required)) [
  | none ↦ false
  | some l ↦ leb (access_level_rank l) (access_level_rank ceiling)
]

pub data AccessError : Type 0 where
  access_level_denied : Raw → AccessLevel → AccessError

pub ensure_access_level_allowed : Raw → AccessLevel → Result AccessError (Unit {0})
unfolding can_access_level
ensure_access_level_allowed required ceiling =
    if can_access_level required ceiling then ok tt else err (access_level_denied required ceiling)
