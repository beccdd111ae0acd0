-- ===== src/Inference/Priorities/Default.antt =====
-- What making an offering the default leaves of the priorities.
use workbench.Prelude.{
  int_le_refl, ℤ, pos, negsuc, int_lt, int_le, int_min, sub_nat, ◌≡◌, refl, ap, ◌⊎◌, inl, inr,
  String, ◌==◌, eq_iff, true, not, some, List, [], ◌∷◌, find, keep, All, arith, if◌then◌else◌,
  Option-cases, Bool-cases, eq_refl, or_else, subst,
}
use workbench.Inference.{Row}
use workbench.Inference.Priorities.{
  Patch, is_set_here, least_priority, undercut, patches_for, make_default_patches,
}

int_le-min : (x y z : ℤ) → int_le z (int_min x y) ≡ true → (int_le z x ≡ true) × (int_le z y ≡ true)
int_le-min (pos x) (pos y) (pos z) h = ground arith
int_le-min (pos x) (pos y) (negsuc z) h = ground arith
int_le-min (pos x) (negsuc y) (pos z) h = ground arith
int_le-min (pos x) (negsuc y) (negsuc z) h = ground arith
int_le-min (negsuc x) (pos y) (pos z) h = ground arith
int_le-min (negsuc x) (pos y) (negsuc z) h = ground arith
int_le-min (negsuc x) (negsuc y) (pos z) h = ground arith
int_le-min (negsuc x) (negsuc y) (negsuc z) h = ground arith

int_lt-below : (x y : ℤ) → int_le x y ≡ true → int_lt (sub_nat x 1) y ≡ true
int_lt-below (pos x) (pos y) h = ground arith
int_lt-below (pos x) (negsuc y) h = ground arith
int_lt-below (negsuc x) (pos y) h = ground arith
int_lt-below (negsuc x) (negsuc y) h = ground arith

int_lt-le : (x y z : ℤ) → int_lt x y ≡ true → int_le y z ≡ true → int_lt x z ≡ true
int_lt-le (pos x) (pos y) (pos z) h k = ground arith
int_lt-le (pos x) (pos y) (negsuc z) h k = ground arith
int_lt-le (pos x) (negsuc y) (pos z) h k = ground arith
int_lt-le (pos x) (negsuc y) (negsuc z) h k = ground arith
int_lt-le (negsuc x) (pos y) (pos z) h k = ground arith
int_lt-le (negsuc x) (pos y) (negsuc z) h k = ground arith
int_lt-le (negsuc x) (negsuc y) (pos z) h k = ground arith
int_lt-le (negsuc x) (negsuc y) (negsuc z) h k = ground arith

least_priority-le :
    (p : ℤ) (rs : List Row)
    → (int_le (least_priority p rs) p ≡ true)
      × All (λ r. int_le (least_priority p rs) r.priority ≡ true) rs
unfolding least_priority
least_priority-le p [] = (int_le_refl p, tt)
least_priority-le p (r ∷ rs) =
    let (here, there) = least_priority-le (int_min p r.priority) rs in
    let (a, b) = int_le-min p r.priority _ here in (a, (b, there))

-- A row's priority after the patches.
abbrev pub priority_after : Row → List Patch → ℤ
priority_after r [] = r.priority
priority_after r (p ∷ ps) =
    if p.offering_id == r.offering_id
    then priority_after (record r { priority = p.priority }) ps
    else priority_after r ps

-- The target, with the priority `p`, is ahead of every row of another offering.
abbrev pub IsAhead : String → ℤ → Row → Type 0
IsAhead id p r = (r.offering_id ≡ id) ⊎ (int_lt p r.priority ≡ true)

Below : ℤ → List Row → Type 0
Below p rs = All (λ r. int_lt p r.priority ≡ true) rs

All-others :
    (id : String) (p : ℤ) (rs : List Row)
    → All (λ r. int_lt p r.priority ≡ true) (keep (λ r. not (r.offering_id == id)) rs)
    → All (IsAhead id p) rs
All-others id p [] h = tt
All-others id p (r ∷ rs) h = elim (Bool-cases (r.offering_id == id)) [
  | inl same ↦ (inl ((eq_iff r.offering_id id).0 same), All-others id p rs (rw same at h))
  | inr other ↦ let k = (rw other at h) in (inr k.0, All-others id p rs k.1)
]

le-least :
    (p l : ℤ) (rs : List Row)
    → int_lt p l ≡ true
    → All (λ r. int_le l r.priority ≡ true) rs
    → All (λ r. int_lt p r.priority ≡ true) rs
le-least p l [] h k = tt
le-least p l (r ∷ rs) h (a, b) = (int_lt-le p l r.priority h a, le-least p l rs h b)

undercut-least :
    (t : Row) (l : ℤ)
    → int_lt
        (priority_after t (
          if int_lt t.priority l
          then []
          else record { offering_id = t.offering_id; priority = sub_nat l 1 } ∷ []))
        l
      ≡ true
undercut-least t l = elim (Bool-cases (int_lt t.priority l)) [
  | inl ahead ↦ rw ahead ahead
  | inr behind ↦ rw (behind, eq_refl t.offering_id) (int_lt-below l l (int_le_refl l))
]

undercut-ahead :
    (t : Row) (rs : List Row)
    → All (λ r. int_lt (priority_after t (undercut t rs)) r.priority ≡ true) rs
unfolding undercut
undercut-ahead t [] = tt
undercut-ahead t (r ∷ rs) =
    let l = least_priority r.priority rs in
    let (a, b) = least_priority-le r.priority rs in
    le-least _ l (r ∷ rs) (undercut-least t l) (a, b)

-- The patches concern the offering `id` alone.
abbrev pub Only : String → List Patch → Type 0
Only id ps = All (λ p. p.offering_id ≡ id) ps

undercut-Only : (t : Row) (rs : List Row) → Only t.offering_id (undercut t rs)
unfolding undercut
undercut-Only t [] = tt
undercut-Only t (r ∷ rs) = elim (Bool-cases (int_lt t.priority (least_priority r.priority rs))) [
  | inl ahead ↦ rw ahead tt
  | inr behind ↦ rw behind (refl, tt)
]

-- What making the offering `id` the default leaves: the row found for it is owned, no other offering
-- is patched, and after the patches the row is strictly ahead of every row of another offering.
pub record IsDefault (rows : List Row) (id : String) (ps : List Patch) : Type 0 where
  pub target : Row
  pub found : find (λ r. r.offering_id == id) rows ≡ some target
  pub owned : is_set_here target.provenance ≡ true
  pub only : Only target.offering_id ps
  pub ahead : All (IsAhead id (priority_after target ps)) rows

found-IsDefault :
    (rows : List Row) (id : String) (t : Row)
    → find (λ r. r.offering_id == id) rows ≡ some t
    → is_set_here t.provenance ≡ true
    → IsDefault rows id (undercut t (keep (λ r. not (r.offering_id == id)) rows))
found-IsDefault rows id t found owned =
    let others = keep (λ r. not (r.offering_id == id)) rows in
    record {
      target = t;
      found = found;
      owned = owned;
      only = undercut-Only t others;
      ahead = All-others id _ rows (undercut-ahead t others);
    }

-- If making an offering the default yields patches, then the row found for the offering is owned by
-- the tenant, no other offering is patched, and after the patches that row's priority is strictly
-- smaller than the priority of every row of another offering.
pub make_default_patches-IsDefault :
    (rows : List Row) (id : String) (ps : List Patch)
    → make_default_patches rows id ≡ some ps
    → IsDefault rows id ps
unfolding make_default_patches patches_for
make_default_patches-IsDefault rows id ps e =
    elim (Option-cases (find (λ r. r.offering_id == id) rows)) [
      | inl missing ↦ absurd (cc (rw missing at e))
      | inr (t, found) ↦ elim (Bool-cases (is_set_here t.provenance)) [
        | inr other ↦ absurd (cc (rw (found, patches_for, other) at e))
        | inl owned ↦
            subst (IsDefault rows id) (ap (λ o. or_else o ps) (rw (found, patches_for, owned) at e))
              (found-IsDefault rows id t found owned)
      ]
    ]
