-- ===== src/McpNames/Fresh.antt =====
-- A suggested name is not taken, and the search for it ends.
use workbench.Prelude.{
  some_eq, ℕ, zero, suc, ◌≤◌, ◌<◌, ◌≡◌, ◌⊎◌, refl, sym, ap, ◌∙◌, subst, String, ◌==◌, eq_iff, Bool,
  true, false, not, Option, some, List, [], ◌∷◌, keep, length, length-map, contains, contains-keep,
  arith, Bool-cases, inl, inr,
}
use workbench.McpNames.{
  WebTexts, ServerInfo, taken_names, with_number, first_free, free_name, dedupe, dedupe_mcp_name,
  base_name, sourced, suggest_mcp_server_name, server_reported_name, display_name_from_url,
}

-- Without the entries of `x`.
abbrev without : String → List String → List String
without x xs = keep (λ y. not (y == x)) xs

length-without-le : (x : String) (xs : List String) → length (without x xs) ≤ length xs
length-without-le x [] = omega arith
length-without-le x (y ∷ ys) = ground (arith, length-without-le x ys)

length-without :
    (x : String) (xs : List String) → contains xs x ≡ true → length (without x xs) < length xs
unfolding contains
length-without x [] h = cc
length-without x (y ∷ ys) h = ground (arith, length-without x ys, length-without-le x ys)

module _ (texts : WebTexts) (separator base : String) where
  abbrev is_taken : List String → ℕ → Bool
  is_taken taken n = contains taken ((texts.lower) (with_number texts separator base n))

  is_taken-without :
      (taken : List String) (n m : ℕ)
      → n < m
      → is_taken (without ((texts.lower) (with_number texts separator base n)) taken) m
        ≡ is_taken taken m
  is_taken-without taken n m less =
      let taken_name = (texts.lower) (with_number texts separator base n) in
      let name = (texts.lower) (with_number texts separator base m) in
      contains-keep (λ y. not (y == taken_name)) taken name
      ∙ elim (Bool-cases (name == taken_name)) [
        | inl same ↦ absurd (
            omega (
              arith,
              less,
              (texts.lower-numbered) base separator m n ((eq_iff name taken_name).0 same),
            ))
        | inr other ↦ rw other (ground arith)
      ]

  first_free-without :
      (taken : List String) (n fuel m : ℕ)
      → n < m
      → first_free texts
          (without ((texts.lower) (with_number texts separator base n)) taken)
          separator
          base
          fuel
          m
        ≡ first_free texts taken separator base fuel m
  unfolding first_free
  first_free-without taken n zero m less = refl
  first_free-without taken n (suc fuel) m less =
      rw
        (
          is_taken-without taken n m less,
          first_free-without taken n fuel (suc m) (omega (arith, less)),
        )
        refl

  first_free-some :
      (fuel : ℕ) (taken : List String) (next : ℕ)
      → length taken < fuel
      → (n : ℕ) × (first_free texts taken separator base fuel next ≡ some n)
  unfolding first_free
  first_free-some zero taken next enough = absurd (omega (arith, enough))
  first_free-some (suc fuel) taken next enough = elim (Bool-cases (is_taken taken next)) [
    | inr free ↦ (next, rw free refl)
    | inl there ↦
        let taken_name = (texts.lower) (with_number texts separator base next) in
        let (n, e) =
          first_free-some fuel (without taken_name taken) (suc next)
            (omega (arith, enough, length-without taken_name taken there)) in
        (n, rw there (sym (first_free-without taken next fuel (suc next) (omega arith)) ∙ e))
  ]

  first_free-Least :
      (fuel : ℕ) (taken : List String) (next n : ℕ)
      → first_free texts taken separator base fuel next ≡ some n
      → (is_taken taken n ≡ false) × (next ≤ n)
  unfolding first_free
  first_free-Least zero taken next n e = absurd cc
  first_free-Least (suc fuel) taken next n e = elim (Bool-cases (is_taken taken next)) [
    | inr free ↦
        subst (λ k. (is_taken taken k ≡ false) × (next ≤ k)) (some_eq (rw free at e))
          (free, omega arith)
    | inl there ↦
        let (left, above) = first_free-Least fuel taken (suc next) n (rw there at e) in
        (left, omega (arith, above))
  ]

module _ (texts : WebTexts) where
  -- A name for `base`: itself, or with a number from 2 on, and not taken.
  abbrev pub IsFree : String → String → List String → String → Type 0
  IsFree separator base existing name =
      (contains (taken_names texts existing) ((texts.lower) name) ≡ false)
      × ((name ≡ base) ⊎ ((n : ℕ) × (name ≡ with_number texts separator base n) × (2 ≤ n)))

  pub dedupe-IsFree :
      (separator : String) (fuel : ℕ) (base : String) (existing : List String)
      → length existing < fuel
      → (name : String) × (dedupe texts separator fuel base existing ≡ some name)
        × IsFree separator base existing name
  unfolding dedupe
  dedupe-IsFree separator fuel base existing enough =
      elim (Bool-cases (contains (taken_names texts existing) ((texts.lower) base))) [
        | inr free ↦ (base, rw free refl, (free, inl refl))
        | inl there ↦
            let bound : length (taken_names texts existing) < fuel =
              omega
                (arith, enough, length-map (λ name. (texts.lower) ((texts.trim) name)) existing) in
            let (n, e) =
              first_free-some texts separator base fuel (taken_names texts existing) 2 bound in
            let (free, above) =
              first_free-Least texts separator base fuel (taken_names texts existing) 2 n e in
            (
              with_number texts separator base n,
              rw there (ap (free_name texts separator base) e),
              (free, inr (n, refl, above)),
            )
      ]

  -- With more fuel than there are names, a suggestion is made: what the server reports, if it has a
  -- name, and else what the URL says, and else the fallback, with a number from 2 on if it has to;
  -- the name is not taken, whatever the case.
  pub suggest_mcp_server_name-IsFree :
      (fuel : ℕ) (link : String) (info : Option ServerInfo) (existing : List String)
      → length existing < fuel
      → (name : String) × (suggest_mcp_server_name texts fuel link info existing
          ≡ some (record {
            name = name;
            source =
                (base_name (server_reported_name texts info) (display_name_from_url texts link)).1;
          }))
        × IsFree " "
            (base_name (server_reported_name texts info) (display_name_from_url texts link)).0
            existing
            name
  unfolding suggest_mcp_server_name dedupe_mcp_name
  suggest_mcp_server_name-IsFree fuel link info existing enough =
      let (base, source) =
        base_name (server_reported_name texts info) (display_name_from_url texts link) in
      let (name, e, free) = dedupe-IsFree " " fuel base existing enough in
      (name, ap (sourced source) e, free)
