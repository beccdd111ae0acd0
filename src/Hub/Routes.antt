-- ===== src/Hub/Routes.antt =====
-- The routes of `createFetchStockHub` and `findOwnedTenants` (apps/web/src/needs-converge.ts).
use workbench.Prelude.{
  ℕ, String, ◌==◌, Bool, true, ◌&&◌, Option, none, some, List, [], ◌∷◌, find, keep, any, nat_eq,
  if◌then◌else◌,
}
use workbench.Prelude.Action.{Attempt, done, thrown}
use workbench.Hub.{
  Request, Reply, unreachable, replied, Page, HubError, request_failed, fetch_failed, read_json,
  then_parse, parse_boundary, get, tenant_path, fetch_all_pages,
}

pub record HubRole : Type 0 where
  pub id : String
  pub name : String

pub record HubTenant : Type 0 where
  pub id : String
  pub name : String
  pub slug : String
  pub parent_id : Option String
  pub domain : String

pub record Membership : Type 0 where
  pub tenant_id : String
  pub kind : String
  pub status : String
  pub roles : List HubRole

abbrev pub found_role : Option HubRole → Attempt HubError String
found_role none = thrown (request_failed "listRoles" none)
found_role (some role) = done role.id

abbrev pub role_named : String → Attempt HubError (List HubRole) → Attempt HubError String
role_named name (thrown e) = thrown e
role_named name (done roles) = found_role (find (λ r. r.name == name) roles)

abbrev pub map_attempt :
    Option (Attempt HubError (List HubRole)) → String → Option (Attempt HubError String)
map_attempt none name = none
map_attempt (some r) name = some (role_named name r)

abbrev pub found_tenant : Attempt HubError HubTenant → Attempt HubError (Option HubTenant)
found_tenant (thrown e) = thrown e
found_tenant (done t) = done (some t)

abbrev pub is_active_owner : Membership → Bool
is_active_owner m = m.kind == "user" && m.status == "active" && any (λ r. r.name == "owner") m.roles

abbrev pub add_tenant :
    Option HubTenant → Attempt HubError (List HubTenant) → Attempt HubError (List HubTenant)
add_tenant o (thrown e) = thrown e
add_tenant none (done ts) = done ts
add_tenant (some t) (done ts) = done (t ∷ ts)

abbrev pub and_tenant :
    Attempt HubError (Option HubTenant)
    → Attempt HubError (List HubTenant)
    → Attempt HubError (List HubTenant)
and_tenant (thrown e) rest = thrown e
and_tenant (done o) rest = add_tenant o rest

module _ {Body : Type 0} (fetch : Request → Reply Body) (encode : String → String) where
  unfoldable pub resolve_role_id :
      ℕ → (Body → Option (Page HubRole)) → String → String → Option (Attempt HubError String)
  unfolding fetch_all_pages
  resolve_role_id fuel schema tenant role_name =
      map_attempt
        (fetch_all_pages fetch encode fuel (tenant_path encode tenant "/roles") "listRoles" schema)
        role_name

  unfoldable pub list_my_principals :
      ℕ → (Body → Option (Page Membership)) → Option (Attempt HubError (List Membership))
  unfolding fetch_all_pages
  list_my_principals fuel schema =
      fetch_all_pages fetch encode fuel "/api/me/principals" "listMyPrincipals" schema

  -- `getTenant` on the reply: a missing tenant is no error.
  unfoldable pub tenant_of :
      (Body → Option HubTenant) → Reply Body → Attempt HubError (Option HubTenant)
  unfolding read_json parse_boundary
  tenant_of schema (unreachable cause) = thrown (fetch_failed cause)
  tenant_of schema (replied status body) =
      if nat_eq status 404
      then done none
      else found_tenant
          (then_parse "getTenant" schema (read_json "getTenant" (replied status body)))

  unfoldable pub get_tenant :
      (Body → Option HubTenant) → String → Attempt HubError (Option HubTenant)
  unfolding tenant_of
  get_tenant schema id = tenant_of schema (fetch (get (tenant_path encode id "")))

  -- `createTenant`, with the input as its JSON text
  unfoldable pub create_tenant : (Body → Option HubTenant) → String → Attempt HubError HubTenant
  unfolding read_json parse_boundary
  create_tenant schema input = then_parse "createTenant" schema (
      read_json "createTenant"
        (fetch (record { post = true; path = "/api/tenants"; body = some input })))

  -- The tenants of the memberships, less the missing ones; a failed read fails the whole.
  unfoldable pub tenants_of :
      (Body → Option HubTenant) → List Membership → Attempt HubError (List HubTenant)
  unfolding get_tenant
  tenants_of schema [] = done []
  tenants_of schema (m ∷ ms) = and_tenant (get_tenant schema m.tenant_id) (tenants_of schema ms)

  abbrev pub owned_of :
      (Body → Option HubTenant)
      → Attempt HubError (List Membership)
      → Attempt HubError (List HubTenant)
  owned_of schema (thrown e) = thrown e
  owned_of schema (done ms) = tenants_of schema (keep is_active_owner ms)

  abbrev pub owned_of? :
      (Body → Option HubTenant)
      → Option (Attempt HubError (List Membership))
      → Option (Attempt HubError (List HubTenant))
  owned_of? schema none = none
  owned_of? schema (some r) = some (owned_of schema r)

  unfoldable pub find_owned_tenants :
      ℕ
      → (Body → Option (Page Membership))
      → (Body → Option HubTenant)
      → Option (Attempt HubError (List HubTenant))
  unfolding list_my_principals tenants_of
  find_owned_tenants fuel memberships tenant =
      owned_of? tenant (list_my_principals fuel memberships)

  abbrev pub post : String → String → Request
  post path input = record { post = true; path = path; body = some input }

  abbrev pub posted : String → Attempt HubError Body → Attempt HubError (Unit {0})
  posted operation (thrown e) = thrown e
  posted operation (done b) = done tt

  -- The requests that `inviteMember` sends once the role is resolved; `invitation` is the JSON text
  -- of the address and the role's id. A role that is not found invites nobody.
  abbrev pub invited :
      String → (String → String) → Attempt HubError String → Attempt HubError (Unit {0})
  invited tenant invitation (thrown e) = thrown e
  invited tenant invitation (done role) = posted "inviteMember" (
      read_json "inviteMember"
        (fetch (post (tenant_path encode tenant "/members/invite") (invitation role))))

  abbrev pub invited? :
      String
      → (String → String)
      → Option (Attempt HubError String)
      → Option (Attempt HubError (Unit {0}))
  invited? tenant invitation none = none
  invited? tenant invitation (some r) = some (invited tenant invitation r)

  unfoldable pub invite_member :
      ℕ
      → (Body → Option (Page HubRole))
      → String
      → (String → String)
      → String
      → Option (Attempt HubError (Unit {0}))
  unfolding resolve_role_id read_json
  invite_member fuel schema tenant invitation role =
      invited? tenant invitation (resolve_role_id fuel schema tenant role)

  unfoldable pub deploy_workflow : String → String → Attempt HubError (Unit {0})
  unfolding read_json
  deploy_workflow tenant input = posted "deployWorkflow" (
      read_json "deployWorkflow"
        (fetch (post (tenant_path encode tenant "/workflows/deployments") input)))

  -- `sendRunMail`: the id of the message, as the schema reads it
  unfoldable pub send_run_mail : (Body → Option String) → String → String → Attempt HubError String
  unfolding read_json parse_boundary
  send_run_mail schema tenant message = then_parse "sendRunMail" schema (
      read_json "sendRunMail"
        (fetch (post (tenant_path encode tenant "/mailbox/messages") message)))

  unfoldable pub list_principals :
      {A : Type 0} → ℕ → (Body → Option (Page A)) → String → Option (Attempt HubError (List A))
  unfolding fetch_all_pages
  list_principals fuel schema tenant =
      fetch_all_pages fetch encode fuel (tenant_path encode tenant "/principals") "listPrincipals"
        schema

  unfoldable pub list_run_mail :
      {A : Type 0} → ℕ → (Body → Option (Page A)) → String → Option (Attempt HubError (List A))
  unfolding fetch_all_pages
  list_run_mail fuel schema tenant =
      fetch_all_pages fetch encode fuel (tenant_path encode tenant "/mailbox/messages")
        "listRunMail" schema
