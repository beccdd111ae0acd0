-- ===== src/Hub/Requested.antt =====
-- Which assignments are requested, and what the hub answered (apps/web/src/agent-roles.ts).
use workbench.Prelude.{
  ◌≡◌, inl, inr, refl, sym, ap, ◌∙◌, subst, String, ◌<>◌, true, false, Bool-cases, or_else, Option,
  List, [], ◌∷◌, ◌++◌, append_assoc, append-nil, map,
}
use workbench.Prelude.Action.{Attempt, done, thrown, resume}
use workbench.Hub.{Request, Reply, unreachable, replied, is_ok}
use workbench.Hub.Roles.{RolesError, roles_error}
use workbench.Hub.Assignment.{
  Envelope, read_assign_error, assign_request, assigned, assign_role, assign_agent_roles,
}

-- The hub answered with a status of success.
abbrev pub IsAccepted : {Body : Type 0} → Reply Body → Type 0
IsAccepted (unreachable cause) = ⊥
IsAccepted (replied status body) = is_ok status ≡ true

-- The hub was not reached, or its status is not one of success; and what is thrown for that
abbrev pub IsRefused : {Body : Type 0} → (Body → Option Envelope) → Reply Body → RolesError → Type 0
IsRefused envelope (unreachable cause) x =
    x ≡ roles_error (or_else cause "Assigning this role failed.")
IsRefused envelope (replied status body) x =
    (is_ok status ≡ false)
    × (x ≡ roles_error ("Assigning this role failed: " <> read_assign_error envelope status body))

module _ {Body : Type 0} (envelope : Body → Option Envelope)
    (answer : List Request → Request → Reply Body) (encode : String → String)
    (tenant principal : String) where
  assigned-done : (r : Reply Body) (u : Unit {0}) → assigned envelope r ≡ done u → IsAccepted r
  unfolding assigned
  assigned-done (unreachable cause) u h = cc
  assigned-done (replied status body) u h = elim (Bool-cases (is_ok status)) [
    | inl ok ↦ ok
    | inr bad ↦ absurd (cc (rw bad at h))
  ]

  assigned-thrown :
      (r : Reply Body) (x : RolesError) → assigned envelope r ≡ thrown x → IsRefused envelope r x
  unfolding assigned
  assigned-thrown (unreachable cause) x h = cc
  assigned-thrown (replied status body) x h = elim (Bool-cases (is_ok status)) [
    | inl ok ↦ absurd (cc (rw ok at h))
    | inr bad ↦ (bad, cc (rw bad at h))
  ]

  abbrev pub requests : List String → List Request
  requests roles = map (assign_request encode tenant principal) roles

  -- Each role's request is accepted, after those before it.
  abbrev pub AllAccepted : List Request → List String → Type 0
  AllAccepted sent [] = Unit
  AllAccepted sent (role ∷ roles) =
      IsAccepted (answer sent (assign_request encode tenant principal role))
      × AllAccepted (sent ++ assign_request encode tenant principal role ∷ []) roles

  -- The first role whose request is refused, with the roles before it.
  pub record Refusal (sent : List Request) (roles : List String) (x : RolesError)
      (after : List Request) : Type 0 where
    pub before : List String
    pub role : String
    pub rest : List String
    pub split : roles ≡ before ++ role ∷ rest
    pub all_accepted : AllAccepted sent before
    pub refused :
        IsRefused envelope
          (answer (sent ++ requests before) (assign_request encode tenant principal role))
          x
    pub requested : after ≡ sent ++ requests (before ++ role ∷ [])

  abbrev pub Assigned :
      List Request → List String → Attempt RolesError (Unit {0}) → List Request → Type 0
  Assigned sent roles (done u) after = AllAccepted sent roles × (after ≡ sent ++ requests roles)
  Assigned sent roles (thrown x) after = Refusal sent roles x after

  abbrev next_role : List Request → String → List Request
  next_role sent role = sent ++ assign_request encode tenant principal role ∷ []

  later :
      (sent : List Request) (role : String) (roles : List String)
      (r : Attempt RolesError (Unit {0})) (after : List Request)
      → IsAccepted (answer sent (assign_request encode tenant principal role))
      → Assigned (next_role sent role) roles r after
      → Assigned sent (role ∷ roles) r after
  later sent role roles (done u) after here (ok, same) = (
    (here, ok),
    same ∙ append_assoc sent (assign_request encode tenant principal role ∷ []) (requests roles),
  )
  later sent role roles (thrown x) after here stop = record {
    before = role ∷ stop.before;
    role = stop.role;
    rest = stop.rest;
    split = ap (λ rs. role ∷ rs) stop.split;
    all_accepted = (here, stop.all_accepted);
    refused =
        subst
          (λ l. IsRefused envelope (answer l (assign_request encode tenant principal stop.role)) x)
          (append_assoc sent (assign_request encode tenant principal role ∷ [])
            (requests stop.before))
          stop.refused;
    requested =
        stop.requested
        ∙ append_assoc sent (assign_request encode tenant principal role ∷ [])
            (requests (stop.before ++ stop.role ∷ []));
  }

  -- The assignment goes on only if the request was accepted.
  continued :
      (role : String) (roles : List String) (sent : List Request)
      (r : Attempt RolesError (Unit {0}))
      → assigned envelope (answer sent (assign_request encode tenant principal role)) ≡ r
      → Assigned
          (next_role sent role)
          roles
          (assign_agent_roles envelope answer encode tenant principal roles (next_role sent role)).0
          (assign_agent_roles envelope answer encode tenant principal roles (next_role sent role)).1
      → Assigned sent
          (role ∷ roles)
          (resume r
            (λ _. assign_agent_roles envelope answer encode tenant principal roles)
            (next_role sent role)).0
          (resume r
            (λ _. assign_agent_roles envelope answer encode tenant principal roles)
            (next_role sent role)).1
  continued role roles sent (done u) e ih = later sent role roles _ _ (assigned-done _ u e) ih
  continued role roles sent (thrown x) e ih = record {
    before = [];
    role = role;
    rest = roles;
    split = refl;
    all_accepted = tt;
    refused = rw (append-nil sent) (assigned-thrown _ x e);
    requested = refl;
  }

  -- The roles are requested in order. If that returns, the hub answered every request with a status of
  -- success, and there were no other requests; if it throws, the requests are those up to the first
  -- that the hub did not answer, or not with such a status, and what is thrown says which.
  pub assign_agent_roles-Assigned :
      (roles : List String) (sent : List Request)
      → Assigned sent roles
          (assign_agent_roles envelope answer encode tenant principal roles sent).0
          (assign_agent_roles envelope answer encode tenant principal roles sent).1
  unfolding assign_agent_roles assign_role
  assign_agent_roles-Assigned [] sent = (tt, sym (append-nil sent))
  assign_agent_roles-Assigned (role ∷ roles) sent =
      continued role roles sent
        (assigned envelope (answer sent (assign_request encode tenant principal role))) refl
        (assign_agent_roles-Assigned roles (next_role sent role))
