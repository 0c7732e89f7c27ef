-- ===== src/Auth/Scope.antt =====
-- src/auth.ts: permissions, and the namespaces that a request may reach.
use total_recall.Base.{
  Bool, true, ◌≡◌, refl, ◌&&◌, Option, none, some, List, [], ◌∷◌, String, eq_iff, arith,
  if◌then◌else◌, includes, Result, ok, err,
}
use total_recall.Auth.Keys.{AuthContext}

-- `requested.filter((ns) => allowed.includes(ns))`
unfoldable pub keep_allowed : List String → List String → List String
keep_allowed [] allowed = []
keep_allowed (ns ∷ rest) allowed =
    let kept = keep_allowed rest allowed in if includes allowed ns then ns ∷ kept else kept

unfoldable pub filter_namespaces : Option (List String) → List String → List String
unfolding keep_allowed
filter_namespaces none allowed = allowed
filter_namespaces (some []) allowed = allowed
filter_namespaces (some (ns ∷ rest)) allowed = keep_allowed (ns ∷ rest) allowed

pub data PermissionError : Type 0 where
  permission_denied : String → PermissionError

unfoldable pub check_permission : AuthContext → String → Result PermissionError (Unit {0})
check_permission auth perm =
    if includes auth.permissions perm then ok tt else err (permission_denied perm)

unfoldable pub check_admin_permission : AuthContext → Result PermissionError (Unit {0})
unfolding check_permission
check_admin_permission auth = check_permission auth "admin"

-- Whether the request asks for the namespace; without a list it asks for all.
abbrev pub asks_for : Option (List String) → String → Bool
asks_for none ns = true
asks_for (some []) ns = true
asks_for (some (r ∷ rs)) ns = includes (r ∷ rs) ns

includes-keep_allowed :
    (requested allowed : List String) (ns : String)
    → includes (keep_allowed requested allowed) ns ≡ (includes requested ns && includes allowed ns)
unfolding keep_allowed
includes-keep_allowed [] allowed ns = refl
includes-keep_allowed (r ∷ rs) allowed ns =
    ground (arith, eq_iff r ns, includes-keep_allowed rs allowed ns)

-- The namespaces that a request reaches are exactly those that it asks for and the key allows.
pub includes-filter_namespaces :
    (requested : Option (List String)) (allowed : List String) (ns : String)
    → includes (filter_namespaces requested allowed) ns
      ≡ (asks_for requested ns && includes allowed ns)
unfolding filter_namespaces
includes-filter_namespaces none allowed ns = refl
includes-filter_namespaces (some []) allowed ns = refl
includes-filter_namespaces (some (r ∷ rs)) allowed ns = includes-keep_allowed (r ∷ rs) allowed ns
