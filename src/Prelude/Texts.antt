-- ===== src/Prelude/Texts.antt =====
-- Texts, and a JavaScript `Set` of them as the list of its elements in the order of insertion.
use Prim.Native.String
use Prim.Native.String.{String}
use mathlib.Core.Path.{◌≡◌, refl, ap}
use mathlib.Core.Logic.{inl, inr}
use mathlib.Core.Bool.{Bool, false, ◌&&◌, ◌||◌}
use mathlib.Core.List.{List, [], ◌∷◌, ◌++◌}
use native.Mathlib.Omega.{arith}
use text.Mathlib.Text.{◌==◌}
use text.Mathlib.TextEquality.{eq_iff}
use workbench.Prelude.Tests.{if◌then◌else◌, Bool-cases}
use workbench.Prelude.Lists.{keep}

infixr 65 ◌<>◌
abbrev pub ◌<>◌ : String → String → String
a <> b = String.◌++◌ a b

unfoldable pub contains : List String → String → Bool
contains [] a = false
contains (x ∷ xs) a = x == a || contains xs a

-- `set.add(a)`
unfoldable pub add : List String → String → List String
add xs a = if contains xs a then xs else xs ++ a ∷ []

pub contains-append :
    (xs ys : List String) (a : String) → contains (xs ++ ys) a ≡ (contains xs a || contains ys a)
unfolding contains
contains-append [] ys a = refl
contains-append (x ∷ xs) ys a = ground (arith, contains-append xs ys a)

pub contains-add :
    (xs : List String) (a b : String) → contains (add xs a) b ≡ (contains xs b || a == b)
unfolding add contains
contains-add xs a b = ground (arith, contains-append xs (a ∷ []) b, eq_iff a b, eq_iff b a)

-- `add` of each element in turn: `new Set(xs)` is `add_all [] xs`.
unfoldable pub add_all : List String → List String → List String
add_all acc [] = acc
add_all acc (x ∷ xs) = add_all (add acc x) xs

pub contains-keep :
    (p : String → Bool) (xs : List String) (a : String)
    → contains (keep p xs) a ≡ (contains xs a && p a)
unfolding contains
contains-keep p [] a = refl
contains-keep p (x ∷ xs) a = elim (Bool-cases (x == a)) [
  | inl same ↦ ground (arith, contains-keep p xs a, ap p ((eq_iff x a).0 same))
  | inr other ↦ ground (arith, contains-keep p xs a)
]
