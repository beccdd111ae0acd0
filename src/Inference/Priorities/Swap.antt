-- ===== src/Inference/Priorities/Swap.antt =====
-- A reorder swaps two neighbours that the tenant owns.
use workbench.Prelude.{
  ℕ, zero, suc, ◌+◌, ℤ, int_lt, ◌≡◌, refl, ap, Bool, true, false, ◌&&◌, Option, none, some, List,
  get_elem?, if◌then◌else◌, Option-cases, Bool-cases, inl, inr, or_else, subst,
}
use workbench.Inference.{Row, Provenance, set_here, inherited}
use workbench.Inference.Priorities.{
  Patch, Direction, up, down, is_set_here, pair_priorities-int_lt, patch_pair, priority_of,
  row_before, swap_patches, reorder_patches,
}

-- The patches `p` and `q` put the row at `low + 1` before the row at `low`.
pub record IsSwap (model : List Row) (low : ℕ) (p q : Patch) : Type 0 where
  pub first : Row
  pub second : Row
  pub first_at : get_elem? model low ≡ some first
  pub second_at : get_elem? model (low + 1) ≡ some second
  pub first_own : first.provenance ≡ set_here
  pub second_own : second.provenance ≡ set_here
  pub earlier : p.offering_id ≡ second.offering_id
  pub later : q.offering_id ≡ first.offering_id
  pub apart : int_lt p.priority q.priority ≡ true

own : (p : Provenance) → is_set_here p ≡ true → p ≡ set_here
own set_here e = refl
own inherited e = cc

patch_pair-IsSwap :
    (model : List Row) (low : ℕ) (a b : Row) (lower upper : Option ℤ)
    → get_elem? model low ≡ some a
    → get_elem? model (low + 1) ≡ some b
    → a.provenance ≡ set_here
    → b.provenance ≡ set_here
    → IsSwap model low (patch_pair b a lower upper).0 (patch_pair b a lower upper).1
unfolding patch_pair
patch_pair-IsSwap model low a b lower upper ea eb oa ob = record {
  first = a;
  second = b;
  first_at = ea;
  second_at = eb;
  first_own = oa;
  second_own = ob;
  earlier = refl;
  later = refl;
  apart = pair_priorities-int_lt lower upper b.priority a.priority;
}

and_cases : (x y : Bool) → (x && y) ≡ true → (x ≡ true) × (y ≡ true)
and_cases true true e = (refl, refl)
and_cases true false e = cc
and_cases false y e = cc

found-IsSwap :
    (model : List Row) (low : ℕ) (a b : Row) (p q : Patch)
    → get_elem? model low ≡ some a
    → get_elem? model (low + 1) ≡ some b
    → (if is_set_here a.provenance && is_set_here b.provenance
        then some (
            patch_pair b a
              (priority_of (row_before model low))
              (priority_of (get_elem? model (low + 2))))
        else none)
      ≡ some (p, q)
    → IsSwap model low p q
found-IsSwap model low a b p q ea eb e =
    elim (Bool-cases (is_set_here a.provenance && is_set_here b.provenance)) [
      | inr not_own ↦ absurd (cc (rw not_own at e))
      | inl both ↦
          let (oa, ob) = and_cases (is_set_here a.provenance) (is_set_here b.provenance) both in
          subst (λ (x : Patch × Patch). IsSwap model low x.0 x.1)
            (ap (λ o. or_else o (p, q)) (rw both at e))
            (patch_pair-IsSwap model low a b _ _ ea eb (own a.provenance oa) (own b.provenance ob))
    ]

swap_patches-IsSwap :
    (model : List Row) (low : ℕ) (p q : Patch)
    → swap_patches model low ≡ some (p, q)
    → IsSwap model low p q
unfolding swap_patches
swap_patches-IsSwap model low p q e = elim (Option-cases (get_elem? model low)) [
  | inl missing ↦ absurd (cc (rw (missing, swap_patches) at e))
  | inr (a, ea) ↦ elim (Option-cases (get_elem? model (low + 1))) [
    | inl missing ↦ absurd (cc (rw (ea, missing, swap_patches) at e))
    | inr (b, eb) ↦ found-IsSwap model low a b p q ea eb (rw (ea, eb, swap_patches) at e)
  ]
]

abbrev pub lower_index : ℕ → Direction → ℕ
lower_index zero up = 0
lower_index (suc i) up = i
lower_index index down = index

-- If a reorder yields two patches, they swap the row at the index with its neighbour in the
-- direction: both are there and owned, the one that stood later gets the first patch, the other the
-- second, and the first patch's priority is strictly smaller.
pub reorder_patches-IsSwap :
    (model : List Row) (index : ℕ) (d : Direction) (p q : Patch)
    → reorder_patches model index d ≡ some (p, q)
    → IsSwap model (lower_index index d) p q
unfolding reorder_patches
reorder_patches-IsSwap model index down p q e = swap_patches-IsSwap model index p q e
reorder_patches-IsSwap model zero up p q e = cc
reorder_patches-IsSwap model (suc i) up p q e = swap_patches-IsSwap model i p q e
