-- ===== src/Base/Rows.antt =====
-- Rows of a table: those that pass a test, and an update of them.
use Prim.Native.Nat.{ℕ, ◌+◌, ◌≤◌, ◌<◌}
use mathlib.Core.Path.{◌≡◌, refl}
use mathlib.Core.Logic.{◌⊎◌, inl, inr}
use mathlib.Core.Bool.{Bool, true, false}
use mathlib.Core.List.{List, [], ◌∷◌, ◌++◌}
use native.Mathlib.Omega.{arith}
use total_recall.Base.Tests.{if◌then◌else◌, Bool-cases}
use total_recall.Base.Lists.{length, Occurs, sum_by}

module _ {A : Type 0} where
  abbrev pub filter : (A → Bool) → List A → List A
  filter test [] = []
  filter test (x ∷ xs) = let rest = filter test xs in if test x then x ∷ rest else rest

  abbrev pub update_where : (A → Bool) → (A → A) → List A → List A
  update_where test f [] = []
  update_where test f (x ∷ xs) = (if test x then f x else x) ∷ update_where test f xs

  abbrev pub count_where : (A → Bool) → List A → ℕ
  count_where test [] = 0
  count_where test (x ∷ xs) = (if test x then 1 else 0) + count_where test xs

  pub length-filter :
      (test : A → Bool) (xs : List A) → length (filter test xs) ≡ count_where test xs
  length-filter test [] = refl
  length-filter test (x ∷ xs) = ground (arith, length-filter test xs)

  pub count_where-append :
      (test : A → Bool) (xs ys : List A)
      → count_where test (xs ++ ys) ≡ count_where test xs + count_where test ys
  count_where-append test [] ys = omega arith
  count_where-append test (x ∷ xs) ys = omega (arith, count_where-append test xs ys)

  -- An update that does not change what a test answers leaves its count.
  pub count_where-update :
      (q test : A → Bool) (f : A → A) (xs : List A)
      → ((x : A) → q (f x) ≡ q x)
      → count_where q (update_where test f xs) ≡ count_where q xs
  count_where-update q test f [] h = refl
  count_where-update q test f (x ∷ xs) h = ground (arith, h x, count_where-update q test f xs h)

  pub count_where_found :
      (test : A → Bool) (xs : List A)
      → 0 < count_where test xs
      → (x : A) × Occurs x xs × (test x ≡ true)
  count_where_found test [] h = absurd (omega arith)
  count_where_found test (x ∷ xs) h = elim (Bool-cases (test x)) [
    | inl found ↦ (x, inl refl, found)
    | inr missed ↦ let (y, o, e) = count_where_found test xs (ground arith) in (y, inr o, e)
  ]

  pub count_where_none :
      (test : A → Bool) (xs : List A) (x : A)
      → count_where test xs ≡ 0
      → Occurs x xs
      → test x ≡ false
  count_where_none test [] x h o = absurd o
  count_where_none test (y ∷ xs) x h (inl same) = ground arith
  count_where_none test (y ∷ xs) x h (inr o) = count_where_none test xs x (omega arith) o

  pub Occurs-update_where :
      (test : A → Bool) (f : A → A) (xs : List A) (y : A)
      → Occurs y (update_where test f xs)
      → (x : A) × Occurs x xs × (y ≡ (if test x then f x else x))
  Occurs-update_where test f [] y o = absurd o
  Occurs-update_where test f (x ∷ xs) y (inl same) = (x, inl refl, same)
  Occurs-update_where test f (x ∷ xs) y (inr o) =
      let (z, p, e) = Occurs-update_where test f xs y o in (z, inr p, e)

  pub Occurs-append : (xs ys : List A) (y : A) → Occurs y (xs ++ ys) → Occurs y xs ⊎ Occurs y ys
  Occurs-append [] ys y o = inr o
  Occurs-append (x ∷ xs) ys y (inl same) = inl (inl same)
  Occurs-append (x ∷ xs) ys y (inr o) = elim (Occurs-append xs ys y o) [
    | inl p ↦ inl (inr p)
    | inr p ↦ inr p
  ]

  pub count_where-imp :
      (p q : A → Bool) (xs : List A)
      → ((x : A) → p x ≡ true → q x ≡ true)
      → count_where p xs ≤ count_where q xs
  count_where-imp p q [] h = omega arith
  count_where-imp p q (x ∷ xs) h = ground (arith, h x, count_where-imp p q xs h)

  -- An update that meets no row changes nothing.
  pub update_where_none :
      (test : A → Bool) (f : A → A) (xs : List A)
      → count_where test xs ≡ 0
      → update_where test f xs ≡ xs
  update_where_none test f [] h = refl
  update_where_none test f (x ∷ xs) h = ground (arith, update_where_none test f xs)

  -- Where one row at most passes, two that pass are one.
  pub count_where_one :
      (test : A → Bool) (xs : List A) (x y : A)
      → count_where test xs ≤ 1
      → Occurs x xs
      → Occurs y xs
      → test x ≡ true
      → test y ≡ true
      → x ≡ y
  count_where_one test [] x y h o p hx hy = absurd o
  count_where_one test (z ∷ xs) x y h (inl a) (inl b) hx hy = cc
  count_where_one test (z ∷ xs) x y h (inl a) (inr b) hx hy =
      let none_left : count_where test xs ≡ 0 = ground arith in
      let missed = count_where_none test xs y none_left b in absurd (ground arith)
  count_where_one test (z ∷ xs) x y h (inr a) (inl b) hx hy =
      let none_left : count_where test xs ≡ 0 = ground arith in
      let missed = count_where_none test xs x none_left a in absurd (ground arith)
  count_where_one test (z ∷ xs) x y h (inr a) (inr b) hx hy =
      count_where_one test xs x y (omega arith) a b hx hy

  -- A second update that meets just the rows of the first.
  pub update_where-twice :
      (test test' : A → Bool) (f g : A → A) (xs : List A)
      → ((x : A) → test x ≡ true → test' (f x) ≡ true)
      → ((x : A) → test x ≡ false → test' x ≡ false)
      → update_where test' g (update_where test f xs) ≡ update_where test (λ x. g (f x)) xs
  update_where-twice test test' f g [] h k = refl
  update_where-twice test test' f g (x ∷ xs) h k =
      ground (arith, h x, k x, update_where-twice test test' f g xs h k)

  pub Occurs-kept :
      (test : A → Bool) (f : A → A) (xs : List A) (x : A)
      → Occurs x xs
      → test x ≡ false
      → Occurs x (update_where test f xs)
  Occurs-kept test f [] x o h = o
  Occurs-kept test f (y ∷ xs) x (inl same) h = inl (ground arith)
  Occurs-kept test f (y ∷ xs) x (inr o) h = inr (Occurs-kept test f xs x o h)

  -- An update that meets one row changes a sum by that row's part.
  pub sum_by-update_where :
      (w : A → ℕ) (test : A → Bool) (f : A → A) (xs : List A) (x : A)
      → count_where test xs ≤ 1
      → Occurs x xs
      → test x ≡ true
      → sum_by w (update_where test f xs) + w x ≡ sum_by w xs + w (f x)
  sum_by-update_where w test f [] x once o h = absurd o
  sum_by-update_where w test f (y ∷ xs) x once (inl same) h =
      let here : count_where test xs ≡ 0 = ground arith in
      ground (arith, update_where_none test f xs here)
  sum_by-update_where w test f (y ∷ xs) x once (inr o) h = elim (Bool-cases (test y)) [
    | inl also ↦
        let none_left : count_where test xs ≡ 0 = ground arith in
        let missed = count_where_none test xs x none_left o in absurd (ground arith)
    | inr other ↦ ground (arith, sum_by-update_where w test f xs x (ground arith) o h)
  ]
