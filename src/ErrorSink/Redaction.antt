-- ===== src/ErrorSink/Redaction.antt =====
-- The redaction of a record (packages/error-sink/src/redact.ts), by the keys on the way to a value. The elements
-- of an array stand under the array's key.
use workbench.Prelude.{
  ◌≡◌, refl, ap, subst, ◌∙◌, ◌⊎◌, inl, inr, ◌↔◌, String, true, false, List, [], ◌∷◌, All,
  Bool-cases,
}
use workbench.ErrorSink.{
  Scalar, Value, text, scalar, array, object, Items, nil, cons, Fields, end, field, Patterns,
  redacted_mark, redact_text, hides, redact_value, redact_items, redact_record,
}

-- A value that has no parts
pub data Leaf : Type 0 where
  text_leaf : String → Leaf
  scalar_leaf : Scalar → Leaf

-- The leaf is at the end of the path of keys.
unfoldable mutual
  pub LeafAt : Value → List String → Leaf → Type 0
  LeafAt (text s) path leaf = (path ≡ []) × (leaf ≡ text_leaf s)
  LeafAt (scalar s) path leaf = (path ≡ []) × (leaf ≡ scalar_leaf s)
  LeafAt (array xs) path leaf = LeafAmong xs path leaf
  LeafAt (object fs) path leaf = LeafOf fs path leaf

  pub LeafAmong : Items → List String → Leaf → Type 0
  LeafAmong nil path leaf = ⊥
  LeafAmong (cons x xs) path leaf = LeafAt x path leaf ⊎ LeafAmong xs path leaf

  pub LeafOf : Fields → List String → Leaf → Type 0
  LeafOf end path leaf = ⊥
  LeafOf (field key value fs) path leaf =
      ((rest : List String) × (path ≡ key ∷ rest) × LeafAt value rest leaf) ⊎ LeafOf fs path leaf

-- Some field is at the end of the path of keys.
unfoldable mutual
  pub FieldAt : Value → List String → Type 0
  FieldAt (text s) path = ⊥
  FieldAt (scalar s) path = ⊥
  FieldAt (array xs) path = FieldAmong xs path
  FieldAt (object fs) path = FieldOf fs path

  pub FieldAmong : Items → List String → Type 0
  FieldAmong nil path = ⊥
  FieldAmong (cons x xs) path = FieldAt x path ⊎ FieldAmong xs path

  pub FieldOf : Fields → List String → Type 0
  FieldOf end path = ⊥
  FieldOf (field key value fs) path =
      ((rest : List String) × (path ≡ key ∷ rest) × ((rest ≡ []) ⊎ FieldAt value rest))
      ⊎ FieldOf fs path

module _ (patterns : Patterns) where
  abbrev pub IsOpen : List String → Type 0
  IsOpen = All (λ key. hides patterns key ≡ false)

  -- The last key hides what stands there, and none before it does.
  abbrev pub IsCut : List String → Type 0
  IsCut [] = ⊥
  IsCut (key ∷ rest) =
      ((rest ≡ []) × (hides patterns key ≡ true)) ⊎ ((hides patterns key ≡ false) × IsCut rest)

  abbrev pub redact_leaf : Leaf → Leaf
  redact_leaf (text_leaf s) = text_leaf (redact_text patterns s)
  redact_leaf (scalar_leaf s) = scalar_leaf s

  -- A leaf of the redaction: a leaf at an open path, redacted, or the mark where a path is cut.
  abbrev pub Comes : (Leaf → Type 0) → Type 0 → List String → Leaf → Type 0
  Comes leaves fields path leaf =
      ((was : Leaf) × leaves was × IsOpen path × (leaf ≡ redact_leaf was))
      ⊎ (fields × IsCut path × (leaf ≡ text_leaf redacted_mark))

  Comes-map :
      (leaves more : Leaf → Type 0) (fields others : Type 0) (path : List String) (leaf : Leaf)
      → ((was : Leaf) → leaves was → more was)
      → (fields → others)
      → Comes leaves fields path leaf
      → Comes more others path leaf
  Comes-map leaves more fields others path leaf f g (inl (was, l, o, e)) = inl (was, f was l, o, e)
  Comes-map leaves more fields others path leaf f g (inr (l, c, e)) = inr (g l, c, e)

  -- One more open key
  Comes-cons :
      (leaves : Leaf → Type 0) (fields : Type 0) (key : String) (path : List String) (leaf : Leaf)
      → hides patterns key ≡ false
      → Comes leaves fields path leaf
      → Comes leaves fields (key ∷ path) leaf
  Comes-cons leaves fields key path leaf e (inl (was, l, open_path, same)) =
      inl (was, l, (e, open_path), same)
  Comes-cons leaves fields key path leaf e (inr (l, cut, same)) = inr (l, inr (e, cut), same)

  redact_value-hidden :
      (key : String) (v : Value)
      → hides patterns key ≡ true
      → redact_value patterns key v ≡ text redacted_mark
  unfolding redact_value
  redact_value-hidden key (text s) e = rw e
  redact_value-hidden key (scalar s) e = rw e
  redact_value-hidden key (array xs) e = rw e
  redact_value-hidden key (object fs) e = rw e

  -- What becomes of a value under an open key
  abbrev redacted_open : String → Value → Value
  redacted_open key (text s) = text (redact_text patterns s)
  redacted_open key (scalar s) = scalar s
  redacted_open key (array xs) = array (redact_items patterns key xs)
  redacted_open key (object fs) = object (redact_record patterns fs)

  redact_value-open :
      (key : String) (v : Value)
      → hides patterns key ≡ false
      → redact_value patterns key v ≡ redacted_open key v
  unfolding redact_value
  redact_value-open key (text s) e = rw e
  redact_value-open key (scalar s) e = rw e
  redact_value-open key (array xs) e = rw e
  redact_value-open key (object fs) e = rw e

  IsOpen-nil : (path : List String) → path ≡ [] → IsOpen path
  IsOpen-nil path e = rw e tt

  -- The leaves of a field, by those of its value
  Comes-field :
      (key : String) (v : Value) (fs : Fields) (path rest : List String) (leaf : Leaf)
      → path ≡ key ∷ rest
      → Comes (LeafAt v rest) ((rest ≡ []) ⊎ FieldAt v rest) (key ∷ rest) leaf
      → Comes (LeafOf (field key v fs) path) (FieldOf (field key v fs) path) path leaf
  unfolding LeafAt FieldAt
  Comes-field key v fs path rest leaf e (inl (was, l, o, same)) =
      inl (was, inl (rest, e, l), rw e o, same)
  Comes-field key v fs path rest leaf e (inr (l, c, same)) = inr (inl (rest, e, l), rw e c, same)

  mutual
    unfolding LeafAt FieldAt redact_value

    open-Comes :
        (key : String) (v : Value) (path : List String) (leaf : Leaf)
        → hides patterns key ≡ false
        → LeafAt (redacted_open key v) path leaf
        → Comes (LeafAt v path) (FieldAt v path) path leaf
    open-Comes key (text s) path leaf e (p, l) = inl (text_leaf s, (p, refl), IsOpen-nil path p, l)
    open-Comes key (scalar s) path leaf e (p, l) =
        inl (scalar_leaf s, (p, refl), IsOpen-nil path p, l)
    open-Comes key (array xs) path leaf e h = items-Comes key xs path leaf e h
    open-Comes key (object fs) path leaf e h = fields-Comes fs path leaf h

    items-Comes :
        (key : String) (xs : Items) (path : List String) (leaf : Leaf)
        → hides patterns key ≡ false
        → LeafAmong (redact_items patterns key xs) path leaf
        → Comes (LeafAmong xs path) (FieldAmong xs path) path leaf
    items-Comes key nil path leaf e h = elim h [ ]
    items-Comes key (cons x xs) path leaf e (inl h) =
        Comes-map _ _ _ _ path leaf (λ was l. inl l) (λ l. inl l)
          (open-Comes key x path leaf e
            (subst (λ w. LeafAt w path leaf) (redact_value-open key x e) h))
    items-Comes key (cons x xs) path leaf e (inr h) =
        Comes-map _ _ _ _ path leaf (λ was l. inr l) (λ l. inr l) (items-Comes key xs path leaf e h)

    fields-Comes :
        (fs : Fields) (path : List String) (leaf : Leaf)
        → LeafOf (redact_record patterns fs) path leaf
        → Comes (LeafOf fs path) (FieldOf fs path) path leaf
    fields-Comes end path leaf h = elim h [ ]
    fields-Comes (field key v fs) path leaf (inl (rest, e, h)) =
        elim (Bool-cases (hides patterns key)) [
          | inl hidden ↦
              let l : LeafAt (text redacted_mark) rest leaf =
                subst (λ w. LeafAt w rest leaf) (redact_value-hidden key v hidden) h in
              Comes-field key v fs path rest leaf e (inr (inl l.0, inl (l.0, hidden), l.1))
          | inr is_open ↦ Comes-field key v fs path rest leaf e (
              Comes-map _ _ _ _ (key ∷ rest) leaf (λ was l. l) inr
                (Comes-cons _ _ key rest leaf is_open (
                  open-Comes key v rest leaf is_open
                    (subst (λ w. LeafAt w rest leaf) (redact_value-open key v is_open) h))))
        ]
    fields-Comes (field key v fs) path leaf (inr h) =
        Comes-map _ _ _ _ path leaf (λ was l. inr l) (λ l. inr l) (fields-Comes fs path leaf h)

  mutual
    unfolding LeafAt FieldAt redact_value

    open-kept :
        (key : String) (v : Value) (path : List String) (leaf : Leaf)
        → hides patterns key ≡ false
        → Comes (LeafAt v path) (FieldAt v path) path leaf
        → LeafAt (redacted_open key v) path leaf
    open-kept key (text s) path leaf e (inl (was, (p, l), o, same)) = (p, same ∙ ap redact_leaf l)
    open-kept key (text s) path leaf e (inr (l, c, same)) = absurd l
    open-kept key (scalar s) path leaf e (inl (was, (p, l), o, same)) = (p, same ∙ ap redact_leaf l)
    open-kept key (scalar s) path leaf e (inr (l, c, same)) = absurd l
    open-kept key (array xs) path leaf e h = items-kept key xs path leaf e h
    open-kept key (object fs) path leaf e h = fields-kept fs path leaf h

    items-kept :
        (key : String) (xs : Items) (path : List String) (leaf : Leaf)
        → hides patterns key ≡ false
        → Comes (LeafAmong xs path) (FieldAmong xs path) path leaf
        → LeafAmong (redact_items patterns key xs) path leaf
    items-kept key nil path leaf e (inl (was, l, o, same)) = absurd l
    items-kept key nil path leaf e (inr (l, c, same)) = absurd l
    items-kept key (cons x xs) path leaf e (inl (was, inl l, o, same)) =
        inl (rw (redact_value-open key x e) (open-kept key x path leaf e (inl (was, l, o, same))))
    items-kept key (cons x xs) path leaf e (inl (was, inr l, o, same)) =
        inr (items-kept key xs path leaf e (inl (was, l, o, same)))
    items-kept key (cons x xs) path leaf e (inr (inl l, c, same)) =
        inl (rw (redact_value-open key x e) (open-kept key x path leaf e (inr (l, c, same))))
    items-kept key (cons x xs) path leaf e (inr (inr l, c, same)) =
        inr (items-kept key xs path leaf e (inr (l, c, same)))

    fields-kept :
        (fs : Fields) (path : List String) (leaf : Leaf)
        → Comes (LeafOf fs path) (FieldOf fs path) path leaf
        → LeafOf (redact_record patterns fs) path leaf
    fields-kept end path leaf (inl (was, l, o, same)) = absurd l
    fields-kept end path leaf (inr (l, c, same)) = absurd l
    fields-kept (field key v fs) path leaf (inl (was, inl (rest, e, l), o, same)) =
        let p : IsOpen (key ∷ rest) = subst IsOpen e o in
        inl (
          rest,
          e,
          rw (redact_value-open key v p.0)
              (open-kept key v rest leaf p.0 (inl (was, l, p.1, same))),
        )
    fields-kept (field key v fs) path leaf (inl (was, inr l, o, same)) =
        inr (fields-kept fs path leaf (inl (was, l, o, same)))
    fields-kept (field key v fs) path leaf (inr (inl (rest, e, l), c, same)) =
        let cut : IsCut (key ∷ rest) = subst IsCut e c in
        inl (
          rest,
          e,
          elim cut [
            | inl (done, hidden) ↦ rw (redact_value-hidden key v hidden) (done, same)
            | inr (is_open, later) ↦ elim l [
              | inl done ↦ absurd (subst IsCut done later)
              | inr inside ↦
                  rw (redact_value-open key v is_open)
                    (open-kept key v rest leaf is_open (inr (inside, later, same)))
            ]
          ],
        )
    fields-kept (field key v fs) path leaf (inr (inr l, c, same)) =
        inr (fields-kept fs path leaf (inr (l, c, same)))

  -- A redacted record has a text or another leaf at the end of a path of keys exactly if the record has a
  -- leaf there of which it is the redaction, and no key of the path is that of a secret, or the record
  -- has a field there whose key is the first of the path that is that of a secret, and it is the mark.
  pub redact_record-leaves :
      (fs : Fields) (path : List String) (leaf : Leaf)
      → LeafOf (redact_record patterns fs) path leaf
        ↔ Comes (LeafOf fs path) (FieldOf fs path) path leaf
  redact_record-leaves fs path leaf = (fields-Comes fs path leaf, fields-kept fs path leaf)
