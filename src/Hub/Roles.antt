-- ===== src/Hub/Roles.antt =====
-- The tenant's roles and the principal of an agent (apps/web/src/agent-roles.ts): the paged reads.

use workbench.Prelude.{
  ℕ, zero, suc, String, ◌==◌, ◌<>◌, Bool, false, not, ◌&&◌, ◌||◌, Option, none, some, List, [], ◌∷◌,
  find, add_all, nat_eq, or_else, if◌then◌else◌,
}
use workbench.Prelude.Action.{Attempt, done, thrown}
use workbench.Hub.{
  Request, Reply, unreachable, replied, is_ok, Page, collect_pages, get, page_path, tenant_path,
}

-- `UnauthenticatedError`, or an `AgentRolesError` with its message.
pub data RolesError : Type 0 where
  unauthenticated : RolesError
  roles_error : String → RolesError

pub record RoleOption : Type 0 where
  pub id : String
  pub name : String
  pub is_system : Bool

pub record AgentPrincipal : Type 0 where
  pub id : String
  pub kind : String
  pub ref_id : String
  pub display_name : String
  pub status : String

pub record AgentPrincipalRef : Type 0 where
  pub deployment_id : String
  pub address : Option String

abbrev pub display_name_of : String → String
display_name_of address = "Workflow (" <> address <> ")"

abbrev pub is_named : Option String → String → Bool
is_named none name = false
is_named (some address) name = name == display_name_of address

unfoldable pub is_agent : AgentPrincipalRef → AgentPrincipal → Bool
is_agent ref p =
    not (p.status == "removed")
    && (p.ref_id == ref.deployment_id || is_named ref.address p.display_name)

-- The loop of `resolveAgentPrincipalId`: it stops at the first row that `found` accepts.
module _ {E A : Type 0} (page_at : Option String → Attempt E (Page A)) (found : A → Bool) where
  unfoldable pub search_pages : ℕ → Option String → Option (Attempt E (Option A))
  search_pages zero cursor = none
  search_pages (suc fuel) cursor = elim (page_at cursor) [
    | thrown e ↦ some (thrown e)
    | done page ↦ elim (find found page.items) [
      | some a ↦ some (done (some a))
      | none ↦ elim page.next_cursor [
        | none ↦ some (done none)
        | some next ↦ search_pages fuel (some next)
      ]
    ]
  ]

abbrev pub shaped : {T : Type 0} → String → Option T → Attempt RolesError T
shaped what none = thrown (roles_error (what <> " came back an unexpected shape."))
shaped what (some t) = done t

abbrev pub read_body : {Body T : Type 0} → (Body → Option T) → Option Body → Option T
read_body schema none = none
read_body schema (some b) = schema b

-- The ids of the names' roles; the first name that has none is an error.
abbrev pub and_id :
    Attempt RolesError String → Attempt RolesError (List String) → Attempt RolesError (List String)
and_id (thrown e) rest = thrown e
and_id (done id) (thrown e) = thrown e
and_id (done id) (done ids) = done (id ∷ ids)

abbrev pub id_of : String → Option RoleOption → Attempt RolesError String
id_of name none = thrown (roles_error ("This workbench has no role named \"" <> name <> "\"."))
id_of name (some role) = done role.id

unfoldable pub ids_of : List RoleOption → List String → Attempt RolesError (List String)
ids_of roles [] = done []
ids_of roles (name ∷ names) =
    and_id (id_of name (find (λ r. r.name == name) roles)) (ids_of roles names)

abbrev pub ids_in :
    List String
    → Option (Attempt RolesError (List RoleOption))
    → Option (Attempt RolesError (List String))
ids_in names none = none
ids_in names (some (thrown e)) = some (thrown e)
ids_in names (some (done roles)) = some (ids_of roles names)

abbrev pub principal_id :
    Option (Attempt RolesError (Option AgentPrincipal))
    → Option (Attempt RolesError (Option String))
principal_id none = none
principal_id (some (thrown e)) = some (thrown e)
principal_id (some (done none)) = some (done none)
principal_id (some (done (some p))) = some (done (some p.id))

module _ {Body : Type 0} where
  -- `readPage` and the error handling of `fetchPage`
  unfoldable pub read_page :
      {T : Type 0} → (Body → Option T) → String → Reply Body → Attempt RolesError T
  read_page schema what (unreachable cause) =
      thrown (roles_error (or_else cause (what <> " failed.")))
  read_page schema what (replied status body) =
      if nat_eq status 401
      then thrown unauthenticated
      else if not (is_ok status)
      then thrown (roles_error (what <> " failed."))
      else shaped what (read_body schema body)

  module _ (fetch : Request → Reply Body) (encode : String → String) where
    -- The schema reads the fields that are kept.
    unfoldable pub role_page :
        (Body → Option (Page RoleOption))
        → String
        → Option String
        → Attempt RolesError (Page RoleOption)
    unfolding read_page
    role_page schema tenant cursor =
        read_page schema "Listing this workbench's roles"
          (fetch (get (page_path encode (tenant_path encode tenant "/roles") cursor)))

    unfoldable pub list_tenant_roles :
        ℕ
        → (Body → Option (Page RoleOption))
        → String
        → Option (Attempt RolesError (List RoleOption))
    unfolding collect_pages role_page
    list_tenant_roles fuel schema tenant = collect_pages (role_page schema tenant) fuel none []

    abbrev pub ids_for :
        ℕ
        → (Body → Option (Page RoleOption))
        → String
        → List String
        → Option (Attempt RolesError (List String))
    ids_for fuel schema tenant [] = some (done [])
    ids_for fuel schema tenant (name ∷ names) =
        ids_in (name ∷ names) (list_tenant_roles fuel schema tenant)

    unfoldable pub resolve_agent_role_ids :
        ℕ
        → (Body → Option (Page RoleOption))
        → String
        → List String
        → Option (Attempt RolesError (List String))
    unfolding list_tenant_roles ids_of add_all
    resolve_agent_role_ids fuel schema tenant names = ids_for fuel schema tenant (add_all [] names)

    abbrev pub principals_path : String → Option String → String
    principals_path tenant none =
        tenant_path encode tenant "/principals" <> "?kind=workflow&limit=100"
    principals_path tenant (some cursor) =
        tenant_path encode tenant "/principals"
        <> "?kind=workflow&limit=100&cursor="
        <> encode cursor

    unfoldable pub principal_page :
        (Body → Option (Page AgentPrincipal))
        → String
        → Option String
        → Attempt RolesError (Page AgentPrincipal)
    unfolding read_page
    principal_page schema tenant cursor =
        read_page schema "Listing this workbench's people"
          (fetch (get (principals_path tenant cursor)))

    unfoldable pub resolve_agent_principal_id :
        ℕ
        → (Body → Option (Page AgentPrincipal))
        → String
        → AgentPrincipalRef
        → Option (Attempt RolesError (Option String))
    unfolding search_pages principal_page is_agent
    resolve_agent_principal_id fuel schema tenant ref =
        principal_id (search_pages (principal_page schema tenant) (is_agent ref) fuel none)
