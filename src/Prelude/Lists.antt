-- ===== src/Prelude/Lists.antt =====
-- Lists over the native numbers: JavaScript's `filter`, `some`, `every`, `find`, and a predicate
-- on every element.
use Prim.Native.Nat.{ℕ, zero, suc, ◌+◌, ◌≤◌}
use mathlib.Core.Path.{◌≡◌, refl, sym, ap, ◌∙◌, subst}
use mathlib.Core.Bool.{Bool, true, false, ◌&&◌, ◌||◌}
use mathlib.Core.Option.{Option, none, some}
use mathlib.Core.Logic.{◌⊎◌, ◌↔◌, inl, inr}
use mathlib.Core.List.{List, [], ◌∷◌, ◌++◌, map}
use native.Mathlib.Omega.{arith}
use workbench.Prelude.Tests.{if◌then◌else◌, Bool-cases}

module _ {ℓ} {A : Type ℓ} where
  abbrev pub length : List A → ℕ
  length [] = 0
  length (x ∷ xs) = suc (length xs)

  abbrev pub get_elem? : List A → ℕ → Option A
  get_elem? [] i = none
  get_elem? (x ∷ xs) zero = some x
  get_elem? (x ∷ xs) (suc i) = get_elem? xs i

  abbrev pub take : ℕ → List A → List A
  take zero xs = []
  take (suc n) [] = []
  take (suc n) (x ∷ xs) = x ∷ take n xs

  pub take-take : (n : ℕ) (xs : List A) → take n (take n xs) ≡ take n xs
  take-take zero xs = refl
  take-take (suc n) [] = refl
  take-take (suc n) (x ∷ xs) = ap (λ l. x ∷ l) (take-take n xs)

  pub length-take : (n : ℕ) (xs : List A) → length (take n xs) ≤ n
  length-take zero xs = omega arith
  length-take (suc n) [] = omega arith
  length-take (suc n) (x ∷ xs) = omega (arith, length-take n xs)

  abbrev pub keep : (A → Bool) → List A → List A
  keep p [] = []
  keep p (x ∷ xs) = let rest = keep p xs in if p x then x ∷ rest else rest

  abbrev pub any : (A → Bool) → List A → Bool
  any p [] = false
  any p (x ∷ xs) = p x || any p xs

  abbrev pub all : (A → Bool) → List A → Bool
  all p [] = true
  all p (x ∷ xs) = p x && all p xs

  abbrev pub find : (A → Bool) → List A → Option A
  find p [] = none
  find p (x ∷ xs) = if p x then some x else find p xs

  pub length-append : (xs ys : List A) → length (xs ++ ys) ≡ length xs + length ys
  length-append [] ys = omega arith
  length-append (x ∷ xs) ys = omega (arith, length-append xs ys)

  pub length-keep : (p : A → Bool) (xs : List A) → length (keep p xs) ≤ length xs
  length-keep p [] = omega arith
  length-keep p (x ∷ xs) = ground (arith, length-keep p xs)

-- `x` stands in the list.
abbrev pub Member : {A : Type 0} → A → List A → Type 0
Member x [] = ⊥
Member x (y ∷ ys) = (x ≡ y) ⊎ Member x ys

pub length-map {ℓ κ} :
    {A : Type ℓ} {B : Type κ} (f : A → B) (xs : List A) → length (map f xs) ≡ length xs
length-map f [] = refl
length-map f (x ∷ xs) = ap suc (length-map f xs)

module _ {ℓ κ} {A : Type ℓ} (P : A → Type κ) where
  abbrev pub All : List A → Type κ
  All [] = Unit
  All (x ∷ xs) = P x × All xs

  pub All-append : (xs ys : List A) → All xs → All ys → All (xs ++ ys)
  All-append [] ys h k = k
  All-append (x ∷ xs) ys (p, h) k = (p, All-append xs ys h k)

pub Member-append :
    {A : Type 0} (x : A) (xs ys : List A) → Member x (xs ++ ys) ↔ (Member x xs ⊎ Member x ys)
Member-append x [] ys = (inr, λ h. elim h [ inl e ↦ absurd e | inr e ↦ e ])
Member-append x (z ∷ xs) ys = (
  λ h. elim h [
    | inl e ↦ inl (inl e)
    | inr later ↦ elim ((Member-append x xs ys).0 later) [ inl e ↦ inl (inr e) | inr e ↦ inr e ]
  ],
  λ h. elim h [
    | inl first ↦ elim first [ inl e ↦ inl e | inr e ↦ inr ((Member-append x xs ys).1 (inl e)) ]
    | inr e ↦ inr ((Member-append x xs ys).1 (inr e))
  ],
)

pub Member-keep :
    {A : Type 0} (p : A → Bool) (x : A) (xs : List A)
    → Member x (keep p xs) ↔ (Member x xs × (p x ≡ true))
Member-keep p x [] = (λ h. absurd h, λ h. absurd h.0)
Member-keep p x (y ∷ ys) = elim (Bool-cases (p y)) [
  | inl yes' ↦ rw yes' (
    λ h. elim h [
      | inl e ↦ (inl e, ap p e ∙ yes')
      | inr later ↦ let (mem, e) = (Member-keep p x ys).0 later in (inr mem, e)
    ],
    λ (h, e). elim h [ inl same ↦ inl same | inr later ↦ inr ((Member-keep p x ys).1 (later, e)) ],
  )
  | inr no' ↦ rw no' (
    λ h. let (mem, e) = (Member-keep p x ys).0 h in (inr mem, e),
    λ (h, e). elim h [
      | inl same ↦ absurd (cc (sym e ∙ ap p same ∙ no'))
      | inr later ↦ (Member-keep p x ys).1 (later, e)
    ],
  )
]

pub All-Member : {A : Type 0} (P : A → Type 0) (x : A) (cs : List A) → All P cs → Member x cs → P x
All-Member P x [] h k = absurd k
All-Member P x (c ∷ cs) (p, h) (inl e) = subst P (sym e) p
All-Member P x (c ∷ cs) (p, h) (inr k) = All-Member P x cs h k
