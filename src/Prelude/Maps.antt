-- ===== src/Prelude/Maps.antt =====
-- A JavaScript `Map` with text keys: an association list in the order of insertion. `set` on a key
-- that is there keeps its place.
use Prim.Native.String.{String}
use mathlib.Core.Path.{◌≡◌, refl}
use mathlib.Core.Option.{Option, none, some}
use mathlib.Core.List.{List, [], ◌∷◌, ◌++◌}
use native.Mathlib.Omega.{arith}
use text.Mathlib.Text.{◌==◌}
use text.Mathlib.TextEquality.{eq_iff}
use workbench.Prelude.Tests.{if◌then◌else◌}

abbrev pub Dict {ℓ} : Type ℓ → Type ℓ
Dict V = List (String × V)

module _ {ℓ} {V : Type ℓ} where
  unfoldable pub lookup : String → Dict V → Option V
  lookup k [] = none
  lookup k ((j, v) ∷ m) = if j == k then some v else lookup k m

  unfoldable pub insert : String → V → Dict V → Dict V
  insert k new [] = (k, new) ∷ []
  insert k new ((held, old) ∷ m) =
      if held == k then (held, new) ∷ m else (held, old) ∷ insert k new m

  pub lookup-insert :
      (k other : String) (new : V) (m : Dict V)
      → lookup other (insert k new m) ≡ (if k == other then some new else lookup other m)
  unfolding insert lookup
  lookup-insert k other new [] = refl
  lookup-insert k other new ((held, old) ∷ m) =
      ground (arith, lookup-insert k other new m, eq_iff held other, eq_iff held k, eq_iff k other)

  abbrev pub values : Dict V → List V
  values [] = []
  values ((k, v) ∷ m) = v ∷ values m

  pub lookup-append :
      (k : String) (m n : Dict V)
      → lookup k (m ++ n) ≡ elim (lookup k m) [ none ↦ lookup k n | some v ↦ some v ]
  unfolding lookup
  lookup-append k [] n = refl
  lookup-append k ((j, v) ∷ m) n = ground (arith, lookup-append k m n)

  pub insert-absent :
      (k : String) (v : V) (m : Dict V) → lookup k m ≡ none → insert k v m ≡ m ++ (k, v) ∷ []
  unfolding lookup insert
  insert-absent k v [] h = refl
  insert-absent k v ((j, w) ∷ m) h = ground (arith, insert-absent k v m)
