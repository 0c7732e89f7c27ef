-- ===== src/Base/Decimal.antt =====
-- Text as code points, and decimal numerals: `/^\d+$/` and `Number` on such a text.
use Prim.Native.Nat.{ℕ, ◌+◌, ◌-◌, ◌*◌}
use Prim.Native.Char.{code}
use Prim.Native.String.{String}
use mathlib.Core.Path.{◌≡◌, refl}
use mathlib.Core.Bool.{Bool, ◌&&◌}
use mathlib.Core.Option.{Option, none, some}
use mathlib.Core.List.{List, [], ◌∷◌}
use total_recall.Base.Tests.{leb, if◌then◌else◌}
use total_recall.Base.Lists.{all}

abbrev pub codes : String → List ℕ
codes String.[] = []
codes (String.◌∷◌ c s) = code c ∷ codes s

abbrev pub is_digit : ℕ → Bool
is_digit c = leb b'0' c && leb c b'9'

unfoldable pub decimal_from : ℕ → List ℕ → ℕ
decimal_from n [] = n
decimal_from n (c ∷ cs) = decimal_from (n * 10 + (c - b'0')) cs

-- `some n` for a text of one or more digits, whose value is n.
unfoldable pub decimal? : List ℕ → Option ℕ
unfolding decimal_from
decimal? [] = none
decimal? (c ∷ cs) = if all is_digit (c ∷ cs) then some (decimal_from 0 (c ∷ cs)) else none

-- Number.MAX_SAFE_INTEGER. A numeral above it stays above it when it is rounded.
abbrev pub max_safe_integer : ℕ
max_safe_integer = 9_007_199_254_740_991

abbrev pub is_safe_integer : ℕ → Bool
is_safe_integer n = leb n max_safe_integer

decimal?_tests :
    (decimal? (codes "120") ≡ some 120)
    × (decimal? (codes "1a") ≡ none)
    × (decimal? (codes "") ≡ none)
unfolding decimal?
decimal?_tests = (refl, refl, refl)
