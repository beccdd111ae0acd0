-- ===== src/Inference/Route.antt =====
-- The one route of the shared default (`orderedGlobalInferenceRows` and `computeGlobalRoutePatches`
-- of apps/web/src/settings/inference/effective-list.ts). `localeCompare` is a parameter.
use workbench.Prelude.{
  ℕ, zero, suc, ◌+◌, ℤ, add_nat, int_lt, String, ◌==◌, Bool, true, false, not, Option, none, some,
  List, [], ◌∷◌, any, get_elem?, length, ltb, add_all, if◌then◌else◌, suc,
}
use workbench.Inference.{Row}
use workbench.Inference.Priorities.{Patch, is_set_here, least_priority}

-- The sign of a comparison.
pub data Sign : Type 0 where
  below same above : Sign

-- `a || b` on signs
abbrev pub or_then : Sign → Sign → Sign
or_then same s = s
or_then below s = below
or_then above s = above

abbrev pub int_sign : ℤ → ℤ → Sign
int_sign x y = if int_lt x y then below else if int_lt y x then above else same

pub data Destination : Type 0 where
  first up down : Destination

-- Where a row at an index of a list of a length goes; `none` is outside of the list.
unfoldable pub destination : ℕ → ℕ → Destination → Option ℕ
destination index size first = some 0
destination zero size up = none
destination (suc i) size up = some i
destination index size down = if ltb (index + 1) size then some (index + 1) else none

abbrev pub next_index : Option ℕ → Option ℕ
next_index none = none
next_index (some i) = some (suc i)

unfoldable pub find_index : String → List Row → Option ℕ
find_index id [] = none
find_index id (r ∷ rs) = if r.offering_id == id then some 0 else next_index (find_index id rs)

-- `splice(index, 1)`
unfoldable pub remove_at : ℕ → List Row → List Row
remove_at i [] = []
remove_at zero (r ∷ rs) = rs
remove_at (suc i) (r ∷ rs) = r ∷ remove_at i rs

-- `splice(index, 0, row)`
unfoldable pub insert_at : ℕ → Row → List Row → List Row
insert_at zero row rs = row ∷ rs
insert_at (suc i) row [] = row ∷ []
insert_at (suc i) row (r ∷ rs) = r ∷ insert_at i row rs

abbrev pub differs : Option Row → String → Bool
differs none id = true
differs (some r) id = not (r.offering_id == id)

-- The numbered patches from an index on, less those of rows that stay at their index.
unfoldable pub numbered : ℤ → List Row → ℕ → List Row → List Patch
numbered base ordered i [] = []
numbered base ordered i (r ∷ rs) =
    let rest = numbered base ordered (suc i) rs in
    if differs (get_elem? ordered i) r.offering_id
    then record { offering_id = r.offering_id; priority = add_nat base i } ∷ rest
    else rest

abbrev pub lowest : List Row → ℤ → ℤ
lowest rs p = least_priority p rs

unfoldable pub moved : List Row → ℕ → Option ℕ → Option Row → Option (List Patch)
unfolding numbered remove_at insert_at
moved ordered index none row = some []
moved ordered index (some to) none = none
moved ordered index (some to) (some row) =
    some (
      numbered (lowest ordered row.priority) ordered 0 (insert_at to row (remove_at index ordered)))

unfoldable pub move_row : List Row → Destination → Option ℕ → Option (List Patch)
unfolding moved destination
move_row ordered d none = none
move_row ordered d (some index) =
    moved ordered index (destination index (length ordered) d) (get_elem? ordered index)

abbrev pub model_names : List Row → List String
model_names [] = []
model_names (r ∷ rs) = r.canonical_name ∷ model_names rs

module _ (locale_compare : String → String → Sign) where
  unfoldable pub compare_rows : Row → Row → Sign
  compare_rows l r = or_then (int_sign l.priority r.priority) (
      or_then (locale_compare l.canonical_name r.canonical_name) (
        or_then (locale_compare l.provider_name r.provider_name)
          (locale_compare l.offering_id r.offering_id)))

  abbrev pub is_above : Sign → Bool
  is_above below = false
  is_above same = false
  is_above above = true

  unfoldable pub place : Row → List Row → List Row
  place r [] = r ∷ []
  place r (x ∷ xs) = if is_above (compare_rows r x) then x ∷ place r xs else r ∷ x ∷ xs

  -- The stable sort by `compare_rows`.
  unfoldable pub ordered_rows : List Row → List Row
  unfolding place
  ordered_rows [] = []
  ordered_rows (r ∷ rs) = place r (ordered_rows rs)

  unfoldable pub route_patches : List Row → String → Destination → Option (List Patch)
  unfolding move_row find_index
  route_patches rows id d =
      let ordered = ordered_rows rows in
      if any (λ r. not (is_set_here r.provenance)) ordered
      then none
      else if ltb 1 (length (add_all [] (model_names ordered)))
      then none
      else move_row ordered d (find_index id ordered)
