-- ===== src/Base/Maps.antt =====
-- A JavaScript `Map` with string keys: an association list in insertion order.
use Prim.Native.String.{String}
use Prim.Native.Nat.{ℕ, ◌+◌, ◌≤◌, ◌<◌}
use mathlib.Core.Path.{◌≡◌, refl, subst}
use mathlib.Core.Logic.{inl, inr}
use mathlib.Core.Option.{Option, none, some}
use mathlib.Core.List.{List, [], ◌∷◌}
use native.Mathlib.Omega.{arith}
use text.Mathlib.Text.{◌==◌ as str_eq}
use text.Mathlib.TextEquality.{eq_iff}
use total_recall.Base.Tests.{if◌then◌else◌, Bool-cases}
use total_recall.Base.Lists.{All, length, sum_by}

module _ {ℓ} {V : Type ℓ} where
  -- m.get(k)
  unfoldable pub get : String → List (String × V) → Option V
  get k [] = none
  get k ((j, v) ∷ m) = if str_eq j k then some v else get k m

  -- m.set(k, v): a new key goes to the end
  unfoldable pub put : String → V → List (String × V) → List (String × V)
  put k v [] = (k, v) ∷ []
  put k v ((j, w) ∷ m) = if str_eq j k then (j, v) ∷ m else (j, w) ∷ put k v m

  -- m.delete(k)
  unfoldable pub delete : String → List (String × V) → List (String × V)
  delete k [] = []
  delete k ((j, v) ∷ m) = let rest = delete k m in if str_eq j k then rest else (j, v) ∷ rest

  pub get-put :
      (k j : String) (v : V) (m : List (String × V))
      → get j (put k v m) ≡ (if str_eq k j then some v else get j m)
  unfolding get put
  get-put k j v [] = refl
  get-put k j v ((i, w) ∷ m) = ground (arith, eq_iff k j, eq_iff i k, eq_iff i j, get-put k j v m)

  pub get-delete :
      (k j : String) (m : List (String × V))
      → get j (delete k m) ≡ (if str_eq k j then none else get j m)
  unfolding get delete
  get-delete k j [] = ground arith
  get-delete k j ((i, w) ∷ m) = ground (arith, eq_iff k j, eq_iff i k, eq_iff i j, get-delete k j m)

  module _ {κ} (P : V → Type κ) where
    pub All-put :
        (k : String) (v : V) (m : List (String × V))
        → P v
        → All (λ e. P e.1) m
        → All (λ e. P e.1) (put k v m)
    unfolding put
    All-put k v [] p h = (p, tt)
    All-put k v ((j, w) ∷ m) p h = ground (arith, All-put k v m p h.1)

    pub All-delete :
        (k : String) (m : List (String × V)) → All (λ e. P e.1) m → All (λ e. P e.1) (delete k m)
    unfolding delete
    All-delete k [] h = tt
    All-delete k ((j, w) ∷ m) h = ground (arith, All-delete k m h.1)

    pub All-get :
        (k : String) (m : List (String × V)) {v : V} → All (λ e. P e.1) m → get k m ≡ some v → P v
    unfolding get
    All-get k [] h e = cc
    All-get k ((j, w) ∷ m) {v} h e = elim (Bool-cases (str_eq j k)) [
      | inl here ↦ let same : w ≡ v = ground arith in subst P same h.0
      | inr there ↦ All-get k m h.1 (rw there at e)
    ]

  pub length-put-pos : (k : String) (v : V) (m : List (String × V)) → 0 < length (put k v m)
  unfolding put
  length-put-pos k v [] = omega arith
  length-put-pos k v ((j, w) ∷ m) = ground arith

  module _ (f : V → ℕ) where
    pub sum_by-put :
        (k : String) (v w : V) (m : List (String × V))
        → get k m ≡ some v
        → sum_by (λ e. f e.1) (put k w m) + f v ≡ sum_by (λ e. f e.1) m + f w
    unfolding get put
    sum_by-put k v w [] h = cc
    sum_by-put k v w ((j, u) ∷ m) h = ground (arith, sum_by-put k v w m)

    pub sum_by-delete-le :
        (k : String) (m : List (String × V))
        → sum_by (λ e. f e.1) (delete k m) ≤ sum_by (λ e. f e.1) m
    unfolding delete
    sum_by-delete-le k [] = omega arith
    sum_by-delete-le k ((j, u) ∷ m) = ground (arith, sum_by-delete-le k m)

    pub sum_by-delete :
        (k : String) (v : V) (m : List (String × V))
        → get k m ≡ some v
        → sum_by (λ e. f e.1) (delete k m) + f v ≤ sum_by (λ e. f e.1) m
    unfolding get delete
    sum_by-delete k v [] h = cc
    sum_by-delete k v ((j, u) ∷ m) h = ground (arith, sum_by-delete k v m, sum_by-delete-le k m)
