-- ===== src/Provision/Store/Table.antt =====
-- Tables: the maps that the store can write and read back.
use workbench.Prelude.{
  ◌≢◌, true, all, ◌≡◌, ◌⊎◌, inl, refl, String, eq_iff, eq_refl, none, some, [], ◌∷◌, ◌++◌,
  append_assoc, append-nil, arith, Dict, lookup, insert, values, lookup-insert, lookup-append,
  insert-absent,
}
use workbench.Provision.Store.{Allocation, is_allocation_record, load_rows}

-- What the schema asks of the texts of a record
abbrev pub IsStorable : Allocation → Type 0
IsStorable r = (r.allocation_id ≢ "") × (r.sidecar_id ≢ "") × (r.updated_at ≢ "")

-- Each key is its record's id and stands once, and each record passes the schema.
abbrev pub IsTable : Dict Allocation → Type 0
IsTable [] = Unit
IsTable ((k, r) ∷ m) = (k ≡ r.allocation_id) × IsStorable r × (lookup k m ≡ none) × IsTable m

is_allocation_record-IsStorable : (r : Allocation) → IsStorable r → is_allocation_record r ≡ true
unfolding is_allocation_record
is_allocation_record-IsStorable r h = ground (
  arith,
  h.0,
  h.1,
  h.2,
  eq_iff r.allocation_id "",
  eq_iff r.sidecar_id "",
  eq_iff r.updated_at "",
)

-- What is written of a table satisfies the schema.
pub IsTable-all : (m : Dict Allocation) → IsTable m → all is_allocation_record (values m) ≡ true
IsTable-all [] h = refl
IsTable-all ((k, r) ∷ m) h = rw (is_allocation_record-IsStorable r h.1) (IsTable-all m h.3)

pub IsTable-insert :
    (k : String) (r : Allocation) (m : Dict Allocation)
    → k ≡ r.allocation_id
    → IsStorable r
    → IsTable m
    → IsTable (insert k r m)
unfolding insert lookup
IsTable-insert k r [] e h t = (e, h, refl, tt)
IsTable-insert k r ((j, w) ∷ m) e h t =
    ground (arith, eq_iff j k, lookup-insert k j r m, IsTable-insert k r m e h t.3, eq_iff k j)

pub lookup-IsTable :
    (k : String) (r : Allocation) (m : Dict Allocation)
    → IsTable m
    → lookup k m ≡ some r
    → (k ≡ r.allocation_id) × IsStorable r
unfolding lookup
lookup-IsTable k r [] t h = ground arith
lookup-IsTable k r ((j, w) ∷ m) t h = ground (arith, eq_iff j k, lookup-IsTable k r m t.3)

abbrev Apart : Dict Allocation → Dict Allocation → Type 0
Apart acc m = (k : String) → (lookup k acc ≡ none) ⊎ (lookup k m ≡ none)

Apart-head :
    (k : String) (r : Allocation) (acc m : Dict Allocation)
    → Apart acc ((k, r) ∷ m)
    → lookup k acc ≡ none
unfolding lookup
Apart-head k r acc m h = ground (arith, h k, eq_refl k)

Apart-move :
    (k : String) (r : Allocation) (acc m : Dict Allocation)
    → lookup k m ≡ none
    → Apart acc ((k, r) ∷ m)
    → Apart (acc ++ (k, r) ∷ []) m
unfolding lookup
Apart-move k r acc m fresh h j = ground (arith, h j, eq_iff k j, lookup-append j acc ((k, r) ∷ []))

load_rows-append :
    (acc m : Dict Allocation)
    → IsTable m
    → Apart acc m
    → load_rows acc (values m) ≡ (acc ++ m, none)
unfolding load_rows
load_rows-append acc [] t h = rw append-nil
load_rows-append acc ((k, r) ∷ m) t h =
    let absent = Apart-head k r acc m h in
    let rest = load_rows-append (acc ++ (k, r) ∷ []) m t.3 (Apart-move k r acc m t.2 h) in
    simp (← t.0, absent, insert-absent k r acc absent, rest, append_assoc)

-- Loading the rows of a table gives the table back, with no duplicate found.
pub load_rows-values : (m : Dict Allocation) → IsTable m → load_rows [] (values m) ≡ (m, none)
unfolding lookup
load_rows-values m t = load_rows-append [] m t (λ k. inl refl)
