-- ===== src/Inference/Rows.antt =====
-- The grouping of the rows, and the models that can chat.
use workbench.Prelude.{
  ◌≡◌, refl, sym, ap, ◌∙◌, inl, inr, String, ◌==◌, eq_iff, Bool, true, Option, none, some, or_else,
  List, [], ◌∷◌, ◌++◌, append_assoc, append-nil, keep, length, length-keep, nat_eq, ltb, All, arith,
  Bool-cases, lookup, insert, lookup-insert, Dict,
}
use workbench.Inference.{
  Names, ModelInfo, Offering, Row, rows_under, group_rows, rows_by_model, prefer_completion_capable,
  chat_capable_models, is_completion_capable,
}

abbrev of_model : String → Row → Bool
of_model id r = r.model_id == id

abbrev group : String → Dict (List Row) → List Row
group id m = or_else (lookup id m) []

rows_under-or_else : (o : Option (List Row)) (r : Row) → rows_under o r ≡ or_else o [] ++ r ∷ []
rows_under-or_else none r = refl
rows_under-or_else (some rs) r = refl

group-insert :
    (id : String) (m : Dict (List Row)) (r : Row)
    → group id (insert r.model_id (rows_under (lookup r.model_id m) r) m)
      ≡ group id m ++ keep (of_model id) (r ∷ [])
group-insert id m r = elim (Bool-cases (r.model_id == id)) [
  | inl same ↦
      rw (lookup-insert r.model_id id (rows_under (lookup r.model_id m) r) m, same)
        (rows_under-or_else (lookup r.model_id m) r
          ∙ ap (λ k. or_else (lookup k m) [] ++ r ∷ []) ((eq_iff r.model_id id).0 same))
  | inr other ↦
      rw (lookup-insert r.model_id id (rows_under (lookup r.model_id m) r) m, other)
        (sym (append-nil (group id m)))
]

keep-cons :
    (id : String) (r : Row) (rs : List Row)
    → keep (of_model id) (r ∷ rs) ≡ keep (of_model id) (r ∷ []) ++ keep (of_model id) rs
keep-cons id r rs = ground arith

group-group_rows :
    (id : String) (m : Dict (List Row)) (rows : List Row)
    → group id (group_rows m rows) ≡ group id m ++ keep (of_model id) rows
unfolding group_rows
group-group_rows id m [] = sym (append-nil (group id m))
group-group_rows id m (r ∷ rs) =
    group-group_rows id (insert r.model_id (rows_under (lookup r.model_id m) r) m) rs
    ∙ ap (λ l. l ++ keep (of_model id) rs) (group-insert id m r)
    ∙ append_assoc (group id m) (keep (of_model id) (r ∷ [])) (keep (of_model id) rs)
    ∙ ap (λ l. group id m ++ l) (sym (keep-cons id r rs))

-- Under a model's id the grouping has exactly the rows of that model, in their order.
pub rows_by_model_lem :
    (rows : List Row) (id : String)
    → or_else (lookup id (rows_by_model rows)) [] ≡ keep (λ r. r.model_id == id) rows
unfolding rows_by_model lookup
rows_by_model_lem rows id = group-group_rows id [] rows

-- Every offering of every model is accepted.
abbrev pub AllCapable : Names → List ModelInfo → Type 0
AllCapable js ms =
    All
      (λ m.
        (keep (λ o. is_completion_capable js o.capabilities m.canonical_name) m.offerings
          ≡ m.offerings)
        × (ltb 0 (length m.offerings) ≡ true))
      ms

keep-keep {ℓ} : {A : Type ℓ} (p : A → Bool) (xs : List A) → keep p (keep p xs) ≡ keep p xs
keep-keep p [] = refl
keep-keep p (x ∷ xs) = ground (arith, keep-keep p xs)

keep-full {ℓ} :
    {A : Type ℓ} (p : A → Bool) (xs : List A) → length (keep p xs) ≡ length xs → keep p xs ≡ xs
keep-full p [] h = refl
keep-full p (x ∷ xs) h = ground (arith, keep-full p xs, length-keep p xs)

-- The models that can chat have offerings, and every one of their offerings is accepted: neither a
-- model without offerings nor an offering that cannot complete a chat is left.
pub chat_capable_models-AllCapable :
    (js : Names) (ms : List ModelInfo) → AllCapable js (chat_capable_models js ms)
unfolding chat_capable_models prefer_completion_capable
chat_capable_models-AllCapable js [] = tt
chat_capable_models-AllCapable js (m ∷ ms) =
    let fits = λ (o : Offering). is_completion_capable js o.capabilities m.canonical_name in
    let kept = keep fits m.offerings in
    let rest = chat_capable_models-AllCapable js ms in
    elim (Bool-cases (nat_eq (length kept) 0)) [
      | inl none_left ↦ rw none_left rest
      | inr some_left ↦ elim (Bool-cases (nat_eq (length kept) (length m.offerings))) [
        | inl all_kept ↦
            rw (some_left, all_kept)
              ((keep-full fits m.offerings (ground arith), ground arith), rest)
        | inr fewer ↦ rw (some_left, fewer) ((keep-keep fits m.offerings, ground arith), rest)
      ]
    ]
