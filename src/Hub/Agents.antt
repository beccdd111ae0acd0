-- ===== src/Hub/Agents.antt =====
-- The agent's principal among the rows of all pages (apps/web/src/agent-roles.ts).
use workbench.Prelude.{
  ℕ, zero, suc, ◌≤◌, ◌≡◌, ◌≢◌, ◌⊎◌, inl, inr, refl, sym, ap, ◌∙◌, subst, String, ◌==◌, ◌<>◌, eq_iff,
  Bool, true, Bool-cases, All, some_eq, Option, none, some, List, [], ◌∷◌, ◌++◌, find, arith,
  Option-cases,
}
use workbench.Prelude.Action.{Attempt, done, thrown}
use workbench.Hub.{Request, Reply, Page}
use workbench.Hub.Pages.{Listing, last_page, more_pages}
use workbench.Hub.Roles.{
  RolesError, roles_error, AgentPrincipal, AgentPrincipalRef, is_named, search_pages, is_agent,
  principal_page, principal_id, resolve_agent_principal_id,
}
use workbench.Hub.Assignment.{Envelope, assign_agent_roles, assign_to, assign_roles_to_agent}

module _ {A : Type 0} (p : A → Bool) where
  find_left : (xs ys : List A) (a : A) → find p xs ≡ some a → find p (xs ++ ys) ≡ some a
  find_left [] ys a h = absurd cc
  find_left (x ∷ xs) ys a h = ground (arith, find_left xs ys a)

  find_right : (xs ys : List A) → find p xs ≡ none → find p (xs ++ ys) ≡ find p ys
  find_right [] ys h = refl
  find_right (x ∷ xs) ys h = ground (arith, find_right xs ys)

module _ {E A : Type 0} (page_at : Option String → Attempt E (Page A)) (p : A → Bool) where
  pub searches :
      (fuel : ℕ) {cursor : Option String} {rows : List A} {n : ℕ}
      → Listing page_at cursor rows n
      → n ≤ fuel
      → search_pages page_at p fuel cursor ≡ some (done (find p rows))
  unfolding search_pages
  searches zero (last_page e f) h = absurd (omega (arith, h))
  searches zero (more_pages e f l) h = absurd (omega (arith, h))
  searches (suc fuel) (last_page {cursor} {page} e f) h =
      rw (e, search_pages)
        (elim (Option-cases (find p page.items)) [
          | inl none_here ↦ simp (none_here, f)
          | inr (a, here) ↦ simp here
        ])
  searches (suc fuel) (more_pages {cursor} {page} {next} {rows} {n} e f l) h =
      rw (e, search_pages)
        (elim (Option-cases (find p page.items)) [
          | inl none_here ↦ simp (
            none_here,
            f,
            find_right p page.items rows none_here,
            searches fuel l (omega (arith, h)),
          )
          | inr (a, here) ↦ simp (here, find_left p page.items rows a here)
        ])

-- A principal that is not removed and is that of the deployment, or has the name of the address's runs
abbrev pub IsAgent : AgentPrincipalRef → AgentPrincipal → Type 0
IsAgent ref p =
    (p.status ≢ "removed")
    × ((p.ref_id ≡ ref.deployment_id)
        ⊎ ((address : String) × (ref.address ≡ some address)
            × (p.display_name ≡ "Workflow (" <> address <> ")")))

is_named-address :
    (address : Option String) (name : String)
    → is_named address name ≡ true
    → (a : String) × (address ≡ some a) × (name ≡ "Workflow (" <> a <> ")")
is_named-address none name h = absurd (cc)
is_named-address (some a) name h = (a, refl, (eq_iff name ("Workflow (" <> a <> ")")).0 h)

is_agent-IsAgent :
    (ref : AgentPrincipalRef) (p : AgentPrincipal) → is_agent ref p ≡ true → IsAgent ref p
unfolding is_agent
is_agent-IsAgent ref p h = elim (Bool-cases (p.ref_id == ref.deployment_id)) [
  | inl same ↦ (
    ground (arith, h, eq_iff p.status "removed"),
    inl ((eq_iff p.ref_id ref.deployment_id).0 same),
  )
  | inr other ↦ (
    ground (arith, h, eq_iff p.status "removed"),
    inr (is_named-address ref.address p.display_name (ground (arith, h, other))),
  )
]

IsAgent-is_agent :
    (ref : AgentPrincipalRef) (p : AgentPrincipal) → IsAgent ref p → is_agent ref p ≡ true
unfolding is_agent
IsAgent-is_agent ref p (live, inl same) =
    ground (arith, live, eq_iff p.status "removed", (eq_iff p.ref_id ref.deployment_id).1 same)
IsAgent-is_agent ref p (live, inr (address, e, same)) =
    let named : is_named ref.address p.display_name ≡ true =
      rw e ((eq_iff p.display_name ("Workflow (" <> address <> ")")).1 same) in
    ground (arith, live, eq_iff p.status "removed", named)

find-some :
    (ref : AgentPrincipalRef) (rows : List AgentPrincipal) (p : AgentPrincipal)
    → find (is_agent ref) rows ≡ some p
    → (before after : List AgentPrincipal) × (rows ≡ before ++ p ∷ after)
      × All (λ q. ¬ IsAgent ref q) before
      × IsAgent ref p
find-some ref [] p h = absurd (cc)
find-some ref (r ∷ rows) p h = elim (Bool-cases (is_agent ref r)) [
  | inl here ↦
      let e : r ≡ p = some_eq (rw here at h) in
      ([], rows, ap (λ q. q ∷ rows) e, tt, subst (IsAgent ref) e (is_agent-IsAgent ref r here))
  | inr other ↦
      let (before, after, e, none_before, is) = find-some ref rows p (rw other at h) in
      (
        r ∷ before,
        after,
        ap (λ l. r ∷ l) e,
        (λ k. cc (sym other ∙ IsAgent-is_agent ref r k), none_before),
        is,
      )
]

find-none :
    (ref : AgentPrincipalRef) (rows : List AgentPrincipal)
    → find (is_agent ref) rows ≡ none
    → All (λ q. ¬ IsAgent ref q) rows
find-none ref [] h = tt
find-none ref (r ∷ rows) h = elim (Bool-cases (is_agent ref r)) [
  | inl here ↦ absurd (cc (rw here at h))
  | inr other ↦ (λ k. cc (sym other ∙ IsAgent-is_agent ref r k), find-none ref rows (rw other at h))
]

module _ {Body : Type 0} (envelope : Body → Option Envelope)
    (answer : List Request → Request → Reply Body) (encode : String → String)
    (tenant : String) where
  -- What an assignment comes to, given all rows: there is a first row that is the agent, and the roles
  -- are assigned to it; or none is, which is an error without a request.
  abbrev pub IsAssignment :
      List String
      → AgentPrincipalRef
      → List Request
      → List AgentPrincipal
      → Option (Attempt RolesError (Unit {0}) × List Request)
      → Type 0
  IsAssignment roles ref sent rows result =
      ((p : AgentPrincipal) × (before after : List AgentPrincipal) × (rows ≡ before ++ p ∷ after)
        × All (λ q. ¬ IsAgent ref q) before
        × IsAgent ref p
        × (result ≡ some (assign_agent_roles envelope answer encode tenant p.id roles sent)))
      ⊎ (All (λ q. ¬ IsAgent ref q) rows
          × ((text : String) × (result ≡ some (thrown (roles_error text), sent))))

  found-IsAssignment :
      (roles : List String) (ref : AgentPrincipalRef) (sent : List Request)
      (rows : List AgentPrincipal)
      → IsAssignment roles ref sent rows (
          assign_to envelope answer encode tenant roles
            (principal_id (some (done (find (is_agent ref) rows))))
            sent)
  found-IsAssignment roles ref sent rows = elim (Option-cases (find (is_agent ref) rows)) [
    | inl missing ↦ rw missing (inr (find-none ref rows missing, (_, refl)))
    | inr (p, found) ↦
        let (before, after, e, none_before, is) = find-some ref rows p found in
        rw found (inl (p, before, after, e, none_before, is, refl))
  ]

  -- Where the principals' pages end within the fuel, with these rows, roles are assigned to the first
  -- of the rows that is not removed and carries the deployment's id or the name of the address's runs,
  -- whichever of the two; if there is none, that is an error and no assignment is requested.
  pub assign_roles_to_agent-find :
      (fuel n : ℕ) (schema : Body → Option (Page AgentPrincipal)) (role : String)
      (roles : List String) (ref : AgentPrincipalRef) (sent : List Request)
      (rows : List AgentPrincipal)
      → Listing (principal_page (answer sent) encode schema tenant) none rows n
      → n ≤ fuel
      → IsAssignment
          (role ∷ roles)
          ref
          sent
          rows
          (assign_roles_to_agent envelope answer encode tenant fuel schema (role ∷ roles) ref sent)
  unfolding assign_roles_to_agent resolve_agent_principal_id
  assign_roles_to_agent-find fuel n schema role roles ref sent rows l bound =
      rw (searches (principal_page (answer sent) encode schema tenant) (is_agent ref) fuel l bound)
        (found-IsAssignment (role ∷ roles) ref sent rows)
