-- ===== src/Inference/Priorities.antt =====
-- The patches of priorities (apps/web/src/settings/inference/effective-list.ts): a reorder of two
-- neighbours, and making an offering its provider's default.
pub mod Default
pub mod Swap
use workbench.Prelude.{
  ℕ, zero, suc, ◌+◌, ℤ, pos, negsuc, ◌-ℤ◌, add_nat, sub_nat, int_le, int_lt, int_min,
  int_lt-add_nat, int_lt-sub_nat, int_le-minus, ◌≡◌, refl, String, ◌==◌, Bool, true, false, not,
  ◌&&◌, ◌||◌, Option, none, some, List, [], ◌∷◌, get_elem?, keep, find, if◌then◌else◌, arith, ltb,
  ap, All,
}
use workbench.Inference.{Row, Provenance, set_here, inherited}

pub record Patch : Type 0 where
  pub offering_id : String
  pub priority : ℤ

pub data Direction : Type 0 where
  up down : Direction

abbrev pub is_set_here : Provenance → Bool
is_set_here set_here = true
is_set_here inherited = false

-- The pair between two bounds.
unfoldable pub between : ℤ → ℤ → ℤ × ℤ
between lower upper =
    if int_le (pos 3) (upper -ℤ lower)
    then (add_nat lower 1, sub_nat upper 1)
    else if int_le (pos 1) (upper -ℤ lower)
    then (lower, upper)
    else (lower, add_nat lower 1)

-- The new priorities of the earlier and of the later of the two rows, between the priorities of
-- the rows around the two.
unfoldable pub pair_priorities : Option ℤ → Option ℤ → ℤ → ℤ → ℤ × ℤ
pair_priorities (some lower) (some upper) a b = between lower upper
pair_priorities (some lower) none a b = (add_nat lower 1, add_nat lower 2)
pair_priorities none (some upper) a b = (sub_nat upper 2, sub_nat upper 1)
pair_priorities none none a b = let base = int_min a b in (base, add_nat base 1)

between-int_lt : (l u : ℤ) → int_lt (between l u).0 (between l u).1 ≡ true
unfolding between
between-int_lt (pos l) (pos u) = ground arith
between-int_lt (pos l) (negsuc u) = ground arith
between-int_lt (negsuc l) (pos u) = ground arith
between-int_lt (negsuc l) (negsuc u) = ground arith

between-within :
    (l u : ℤ) → (int_le l (between l u).0 ≡ true) × (int_le (between l u).1 u ≡ int_lt l u)
unfolding between
between-within (pos l) (pos u) = ground arith
between-within (pos l) (negsuc u) = ground arith
between-within (negsuc l) (pos u) = ground arith
between-within (negsuc l) (negsuc u) = ground arith

-- The two priorities are distinct, the earlier row's is the smaller one, whatever the bounds.
pub pair_priorities-int_lt :
    (lower upper : Option ℤ) (a b : ℤ)
    → int_lt (pair_priorities lower upper a b).0 (pair_priorities lower upper a b).1 ≡ true
unfolding pair_priorities
pair_priorities-int_lt (some l) (some u) a b = between-int_lt l u
pair_priorities-int_lt (some (pos l)) none a b = ground arith
pair_priorities-int_lt (some (negsuc l)) none a b = ground arith
pair_priorities-int_lt none (some (pos u)) a b = ground arith
pair_priorities-int_lt none (some (negsuc u)) a b = ground arith
pair_priorities-int_lt none none a b = int_lt-add_nat (int_min a b) 1

-- With a row on either side, the earlier row's priority is never below the lower bound, and the later
-- row's is within the upper bound exactly if the bounds differ in the right order: between two rows
-- that tie, the later row passes the upper one.
pub pair_priorities-within :
    (l u a b : ℤ)
    → (int_le l (pair_priorities (some l) (some u) a b).0 ≡ true)
      × (int_le (pair_priorities (some l) (some u) a b).1 u ≡ int_lt l u)
unfolding pair_priorities
pair_priorities-within l u a b = between-within l u

-- The row before an index, as `model[index - 1]`.
unfoldable pub row_before : List Row → ℕ → Option Row
row_before model zero = none
row_before model (suc i) = get_elem? model i

abbrev pub priority_of : Option Row → Option ℤ
priority_of none = none
priority_of (some r) = some r.priority

-- The two rows, the earlier one after the swap first, and the bounds around them.
unfoldable pub patch_pair : Row → Row → Option ℤ → Option ℤ → Patch × Patch
unfolding pair_priorities
patch_pair earlier later lower upper =
    let (p, q) = pair_priorities lower upper earlier.priority later.priority in
    (
      record { offering_id = earlier.offering_id; priority = p },
      record { offering_id = later.offering_id; priority = q },
    )

-- The swap of the rows at `low` and at `low + 1`; the patch of the one that is earlier after it first.
unfoldable pub swap_patches : List Row → ℕ → Option (Patch × Patch)
unfolding patch_pair row_before
swap_patches model low = elim (get_elem? model low) [
  | none ↦ none
  | some first ↦ elim (get_elem? model (low + 1)) [
    | none ↦ none
    | some second ↦
        if is_set_here first.provenance && is_set_here second.provenance
        then some (
            patch_pair second first (priority_of (row_before model low))
              (priority_of (get_elem? model (low + 2))))
        else none
  ]
]

unfoldable pub reorder_patches : List Row → ℕ → Direction → Option (Patch × Patch)
unfolding swap_patches
reorder_patches model index down = swap_patches model index
reorder_patches model zero up = none
reorder_patches model (suc i) up = swap_patches model i

-- `Math.min` of the priorities of a row and of more rows.
unfoldable pub least_priority : ℤ → List Row → ℤ
least_priority p [] = p
least_priority p (r ∷ rs) = least_priority (int_min p r.priority) rs

unfoldable pub undercut : Row → List Row → List Patch
undercut target [] = []
undercut target (r ∷ rs) =
    let least = least_priority r.priority rs in
    if int_lt target.priority least
    then []
    else record { offering_id = target.offering_id; priority = sub_nat least 1 } ∷ []

unfoldable pub patches_for : Option Row → List Row → String → Option (List Patch)
unfolding undercut
patches_for none rows id = none
patches_for (some target) rows id =
    if is_set_here target.provenance
    then some (undercut target (keep (λ r. not (r.offering_id == id)) rows))
    else none

unfoldable pub make_default_patches : List Row → String → Option (List Patch)
unfolding patches_for
make_default_patches rows id = patches_for (find (λ r. r.offering_id == id) rows) rows id
