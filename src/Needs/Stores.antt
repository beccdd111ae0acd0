-- ===== src/Needs/Stores.antt =====
-- What a store reads after it has recorded a row.
use workbench.Prelude.{
  ◌≡◌, refl, ap, ◌∙◌, String, ◌==◌, eq_refl, Bool, true, false, not, Option, none, some, List, [],
  ◌∷◌, ◌++◌, map, keep, lookup, lookup-insert, All, Bool-cases, inl, inr,
}
use workbench.Needs.{
  Json, ParsedRows, bad_json, not_array, rows, Storage, raw_rows, parsed_rows, valid_rows,
  stored_rows, record_row,
}

module _ {Row : Type 0} (json : Json Row) (is_valid : Row → Bool) (id_of : Row → String) where
  abbrev pub AllValid : List Row → Type 0
  AllValid rs = All (λ r. is_valid r ≡ true) rs

  valid_rows-AllValid : (rs : List (Option Row)) → AllValid (valid_rows json is_valid id_of rs)
  unfolding valid_rows
  valid_rows-AllValid [] = tt
  valid_rows-AllValid (none ∷ rs) = valid_rows-AllValid rs
  valid_rows-AllValid (some r ∷ rs) = elim (Bool-cases (is_valid r)) [
    | inl good ↦ rw good (good, valid_rows-AllValid rs)
    | inr bad ↦ rw bad (valid_rows-AllValid rs)
  ]

  parsed_rows-AllValid : (p : ParsedRows Row) → AllValid (parsed_rows json is_valid id_of p)
  parsed_rows-AllValid bad_json = tt
  parsed_rows-AllValid not_array = tt
  parsed_rows-AllValid (rows rs) = valid_rows-AllValid rs

  raw_rows-AllValid : (o : Option (json.Contents)) → AllValid (raw_rows json is_valid id_of o)
  raw_rows-AllValid none = tt
  raw_rows-AllValid (some raw) = parsed_rows-AllValid (json.parse raw)

  -- Whatever the storage holds, the rows that a store loads satisfy its schema.
  pub stored_rows-AllValid :
      (key : String) (s : Storage json) → AllValid (stored_rows json is_valid id_of key s)
  unfolding stored_rows
  stored_rows-AllValid key s = raw_rows-AllValid (lookup key s)

  valid_rows-map : (rs : List Row) → AllValid rs → valid_rows json is_valid id_of (map some rs) ≡ rs
  unfolding valid_rows
  valid_rows-map [] h = refl
  valid_rows-map (r ∷ rs) (good, h) = rw good (ap (λ l. r ∷ l) (valid_rows-map rs h))

  keep-AllValid : (p : Row → Bool) (rs : List Row) → AllValid rs → AllValid (keep p rs)
  keep-AllValid p [] h = tt
  keep-AllValid p (r ∷ rs) (good, h) = elim (Bool-cases (p r)) [
    | inl stays ↦ rw stays (good, keep-AllValid p rs h)
    | inr goes ↦ rw goes (keep-AllValid p rs h)
  ]

  append-AllValid :
      (rs : List Row) (r : Row) → AllValid rs → is_valid r ≡ true → AllValid (rs ++ r ∷ [])
  append-AllValid [] r h good = (good, tt)
  append-AllValid (x ∷ rs) r (hx, h) good = (hx, append-AllValid rs r h good)

  valid_rows-invalid :
      (rs : List Row) (r : Row)
      → AllValid rs
      → is_valid r ≡ false
      → valid_rows json is_valid id_of (map some (rs ++ r ∷ [])) ≡ rs
  unfolding valid_rows
  valid_rows-invalid [] r h bad = rw bad refl
  valid_rows-invalid (x ∷ rs) r (good, h) bad =
      rw good (ap (λ l. x ∷ l) (valid_rows-invalid rs r h bad))

  -- The rows of the other ids.
  abbrev pub others : Row → List Row → List Row
  others r rs = keep (λ row. not (id_of row == id_of r)) rs

  stored_rows-record_row-raw :
      (key : String) (r : Row) (s : Storage json)
      → stored_rows json is_valid id_of key (record_row json is_valid id_of key r s)
        ≡ valid_rows json is_valid id_of
            (map some (others r (stored_rows json is_valid id_of key s) ++ r ∷ []))
  unfolding stored_rows record_row
  stored_rows-record_row-raw key r s =
      rw
        (
          lookup-insert key key
              (json.stringify (others r (raw_rows json is_valid id_of (lookup key s)) ++ r ∷ [])) s,
          eq_refl key,
          json.parse-stringify (others r (raw_rows json is_valid id_of (lookup key s)) ++ r ∷ []),
        )
        refl

  -- After a row that satisfies the schema was recorded, a load gives the rows that it gave before,
  -- less those of the row's id, and then the row.
  pub stored_rows-record_row :
      (key : String) (r : Row) (s : Storage json)
      → is_valid r ≡ true
      → stored_rows json is_valid id_of key (record_row json is_valid id_of key r s)
        ≡ others r (stored_rows json is_valid id_of key s) ++ r ∷ []
  stored_rows-record_row key r s good =
      stored_rows-record_row-raw key r s
      ∙ valid_rows-map _ (append-AllValid _ r (keep-AllValid _ _ (stored_rows-AllValid key s)) good)

  -- A row that does not satisfy the schema is recorded, but never loaded: the load gives the rows of
  -- the other ids alone.
  pub stored_rows-record_row-invalid :
      (key : String) (r : Row) (s : Storage json)
      → is_valid r ≡ false
      → stored_rows json is_valid id_of key (record_row json is_valid id_of key r s)
        ≡ others r (stored_rows json is_valid id_of key s)
  stored_rows-record_row-invalid key r s bad =
      stored_rows-record_row-raw key r s
      ∙ valid_rows-invalid _ r (keep-AllValid _ _ (stored_rows-AllValid key s)) bad

  -- Recording in one key leaves what the store reads from another.
  pub stored_rows-record_row-other :
      (key other : String) (r : Row) (s : Storage json)
      → (key == other) ≡ false
      → stored_rows json is_valid id_of other (record_row json is_valid id_of key r s)
        ≡ stored_rows json is_valid id_of other s
  unfolding stored_rows record_row
  stored_rows-record_row-other key other r s differ =
      rw
        (
          lookup-insert key other
              (json.stringify (others r (raw_rows json is_valid id_of (lookup key s)) ++ r ∷ [])) s,
          differ,
        )
        refl
