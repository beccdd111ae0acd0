-- ===== src/Hub/Tests.antt =====
-- Runs of the paged reads and of the assignment of roles, and the witnesses.
use workbench.Prelude.{
  ℕ, ◌≡◌, refl, ◌↔◌, ◌≤◌, String, true, Option, none, some, List, [], ◌∷◌, arith, contains, add,
}
use workbench.Prelude.Action.{Attempt, done, thrown}
use workbench.Hub.{Request, Reply, replied, Page, collect_pages}
use workbench.Hub.Pages.{Listing, last_page, collect_pages-Listing, collect_pages_again}
use workbench.Hub.Roles.{
  RolesError, RoleOption, AgentPrincipal, AgentPrincipalRef, resolve_agent_role_ids, principal_page,
  read_page,
}
use workbench.Hub.Assignment.{Envelope, assign_agent_roles, assign_roles_to_agent, assign_request}
use workbench.Hub.Agents.{assign_roles_to_agent-find, IsAssignment}
use workbench.Hub.Requested.{Assigned, assign_agent_roles-Assigned}

abbrev two_pages : Option String → Attempt String (Page String)
two_pages none = done (record { items = "a" ∷ []; next_cursor = some "c" })
two_pages (some c) = done (record { items = "b" ∷ []; next_cursor = none })

collect_pages-Listing_example :
    (collect_pages two_pages 2 none [] ≡ some (done ("a" ∷ "b" ∷ [])))
    ↔ ((n : ℕ) × Listing two_pages none ("a" ∷ "b" ∷ []) n × (n ≤ 2))
collect_pages-Listing_example = collect_pages-Listing two_pages 2 ("a" ∷ "b" ∷ [])

collected_twice : collect_pages two_pages 2 none [] ≡ some (done ("a" ∷ "b" ∷ []))
unfolding collect_pages
collected_twice = refl

abbrev stuck : Option String → Attempt String (Page String)
stuck cursor = done (record { items = []; next_cursor = some "c" })

collect_pages_again_example : collect_pages stuck 9 none [] ≡ none
collect_pages_again_example =
    collect_pages_again stuck "c" (record { items = []; next_cursor = some "c" })
      (record { items = []; next_cursor = some "c" }) 9 refl refl refl refl

abbrev person : String → String → String → AgentPrincipal
person id ref_id status = record {
  id = id;
  kind = "workflow";
  ref_id = ref_id;
  display_name = "";
  status = status;
}

abbrev people : List AgentPrincipal
people = person "p0" "d" "removed" ∷ person "p1" "other" "active" ∷ person "p2" "d" "active" ∷ []

-- Reads give the people; the second assignment is refused.
abbrev hub : List Request → Request → Reply (Page AgentPrincipal)
hub [] r = replied 200 (some (record { items = people; next_cursor = none }))
hub (q ∷ sent) r = replied 403 none

abbrev no_envelope : Page AgentPrincipal → Option Envelope
no_envelope page = none

abbrev plain : String → String
plain s = s

assign_agent_roles-Assigned_example :
    Assigned no_envelope hub plain "t" "p2" []
      ("owner" ∷ "member" ∷ "admin" ∷ [])
      (assign_agent_roles no_envelope hub plain "t" "p2" ("owner" ∷ "member" ∷ "admin" ∷ []) []).0
      (assign_agent_roles no_envelope hub plain "t" "p2" ("owner" ∷ "member" ∷ "admin" ∷ []) []).1
assign_agent_roles-Assigned_example =
    assign_agent_roles-Assigned no_envelope hub plain "t" "p2" ("owner" ∷ "member" ∷ "admin" ∷ [])
      []

abbrev anchor : AgentPrincipalRef
anchor = record { deployment_id = "d"; address = none }

assign_roles_to_agent-find_example :
    IsAssignment no_envelope hub plain "t"
      ("owner" ∷ "member" ∷ [])
      anchor
      []
      people
      (assign_roles_to_agent no_envelope hub plain "t" 1 some ("owner" ∷ "member" ∷ []) anchor [])
unfolding principal_page read_page
assign_roles_to_agent-find_example =
    assign_roles_to_agent-find no_envelope hub plain "t" 1 1 some "owner" ("member" ∷ []) anchor []
      people (last_page {page = record { items = people; next_cursor = none }} refl refl)
      (omega arith)

-- A refused second role leaves the first one assigned.
half_roled :
    assign_roles_to_agent no_envelope hub plain "t" 1 some ("owner" ∷ "member" ∷ []) anchor []
    ≡ some (
      thrown (RolesError.roles_error "Assigning this role failed: HTTP 403"),
      assign_request plain "t" "p2" "owner" ∷ assign_request plain "t" "p2" "member" ∷ [],
    )
unfolding assign_roles_to_agent
half_roled = refl

abbrev roles : List Request → Reply (Page RoleOption)
roles rs = replied 200 (
    some (record {
      items =
          record { id = "r1"; name = "owner"; is_system = true }
          ∷ record { id = "r2"; name = "member"; is_system = true }
          ∷ [];
      next_cursor = none;
    }))

resolved :
    resolve_agent_role_ids
      (λ r. roles (r ∷ []))
      plain
      1
      some
      "t"
      ("member" ∷ "owner" ∷ "member" ∷ [])
    ≡ some (done ("r2" ∷ "r1" ∷ []))
unfolding resolve_agent_role_ids contains add
resolved = refl
