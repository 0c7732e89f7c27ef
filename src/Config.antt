-- ===== src/Config.antt =====
-- src/config.ts: settings of the search in environment variables, `none` where one is not set.
mod Tests
use total_recall.Base.{
  ℕ, ◌==◌, ltb, Bool, true, false, not, ◌||◌, Option, none, some, List, [], ◌∷◌, String, str_eq,
  if◌then◌else◌, get_or, codes, decimal?, is_safe_integer, Result, ok, err,
}
use total_recall.Connector.Attribution.{trim}

pub data ConfigError : Type 0 where
  not_in_range : ConfigError

abbrev pub hnsw_ef_search_default : ℕ
hnsw_ef_search_default = 200

-- The first character of `/^[1-9][0-9]*$/`; the others are those of `decimal?`.
abbrev starts_with_zero : List ℕ → Bool
starts_with_zero [] = false
starts_with_zero (c ∷ cs) = c == b'0'

unfoldable pub parse_hnsw_ef_search : Option String → Result ConfigError ℕ
unfolding decimal?
parse_hnsw_ef_search raw =
    let trimmed = trim (get_or raw "") in
    if str_eq trimmed "" then ok hnsw_ef_search_default else elim (decimal? (codes trimmed)) [
      | none ↦ err not_in_range
      | some n ↦
          if starts_with_zero (codes trimmed)
            || (not (is_safe_integer n) || (ltb n 1 || ltb 1_000 n))
          then err not_in_range
          else ok n
    ]

abbrev pub superseded_search_demotion_enabled_from_env : Option String → Bool
superseded_search_demotion_enabled_from_env none = false
superseded_search_demotion_enabled_from_env (some s) = str_eq s "true"
