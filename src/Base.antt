-- ===== src/Base.antt =====
-- Names that the whole library shares: the libraries' own, passed on, and those of the children.
mod Tests
mod Lists
mod Results
mod Maps
mod Decimal
mod Rows
pub use Tests.*
pub use Lists.*
pub use Results.*
pub use Maps.*
pub use Decimal.*
pub use Rows.*
unfoldable pub use Decimal.{decimal?, decimal_from}
unfoldable pub use Maps.{get, put, delete}
pub use Prim.Native.Nat.{ℕ, zero, suc, ◌+◌, ◌-◌, ◌*◌, ◌/◌, ◌%◌, ◌^◌, ◌≤◌, ◌<◌, min, max}
pub use Prim.Native.String.{String}
pub use mathlib.Core.Path.{◌≡◌, refl, sym, ap, ◌∙◌, subst}
pub use mathlib.Core.Logic.{◌≢◌, ◌↔◌, ◌⊎◌, inl, inr}
pub use mathlib.Core.Bool.{Bool, true, false, not, ◌&&◌, ◌||◌}
pub use mathlib.Core.Option.{Option, none, some}
pub use mathlib.Core.List.{List, [], ◌∷◌, ◌++◌, map, Mem}
pub use native.Mathlib.Omega.{arith}
unfoldable pub use text.Mathlib.Text.{◌==◌ as str_eq}
pub use text.Mathlib.TextEquality.{eq_iff}
