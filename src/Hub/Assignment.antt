-- ===== src/Hub/Assignment.antt =====
-- The assignment of roles to an agent's principal (apps/web/src/agent-roles.ts). The state is the list
-- of the assignments that were requested so far; what the hub answers may depend on it.
use Prim.Native.String
use workbench.Prelude.{
  ℕ, zero, suc, ◌/◌, ◌%◌, ◌+◌, String, ◌<>◌, true, Option, none, some, List, [], ◌∷◌, ◌++◌, ltb,
  or_else, if◌then◌else◌,
}
use workbench.Prelude.Action.{Attempt, done, thrown, Action, pure, ◌>>◌}
use workbench.Hub.{Request, Reply, unreachable, replied, is_ok, Page, tenant_path}
use workbench.Hub.Roles.{
  RolesError, roles_error, AgentPrincipal, AgentPrincipalRef, read_body, resolve_agent_principal_id,
}

abbrev pub digit : ℕ → String
digit d = String.slice "0123456789" d (d + 1)

-- A number in decimal digits.
unfoldable pub decimal : ℕ → ℕ → String
decimal zero n = ""
decimal (suc fuel) n =
    let rest = decimal fuel (n / 10) in if ltb n 10 then digit n else rest <> digit (n % 10)

pub record Envelope : Type 0 where
  pub code : String
  pub message : Option String
  pub user_message : Option String

unfoldable pub http_text : ℕ → String
unfolding decimal
http_text status = "HTTP " <> decimal (suc status) status

abbrev pub error_text : ℕ → Option Envelope → String
error_text status none = http_text status
error_text status (some e) = or_else e.user_message (or_else e.message (http_text status))

unfoldable pub read_assign_error :
    {Body : Type 0} → (Body → Option Envelope) → ℕ → Option Body → String
unfolding http_text
read_assign_error schema status body = error_text status (read_body schema body)

abbrev pub assign_request : (String → String) → String → String → String → Request
assign_request encode tenant principal role = record {
  post = true;
  path = tenant_path encode tenant ("/principals/" <> encode principal <> "/roles/" <> encode role);
  body = none;
}

abbrev pub RolesAction : Type 0 → Type 0
RolesAction A = Action (List Request) RolesError A

module _ {Body : Type 0} (envelope : Body → Option Envelope) where
  unfoldable pub assigned : Reply Body → Attempt RolesError (Unit {0})
  unfolding read_assign_error
  assigned (unreachable cause) = thrown (roles_error (or_else cause "Assigning this role failed."))
  assigned (replied status body) =
      if is_ok status
      then done tt
      else thrown
          (roles_error ("Assigning this role failed: " <> read_assign_error envelope status body))

  module _ (answer : List Request → Request → Reply Body) (encode : String → String)
      (tenant : String) where
    unfoldable pub assign_role : String → String → RolesAction (Unit {0})
    unfolding assigned
    assign_role principal role sent = (
      assigned (answer sent (assign_request encode tenant principal role)),
      sent ++ assign_request encode tenant principal role ∷ [],
    )

    unfoldable pub assign_agent_roles : String → List String → RolesAction (Unit {0})
    unfolding assign_role
    assign_agent_roles principal [] = pure tt
    assign_agent_roles principal (role ∷ roles) =
        assign_role principal role >> assign_agent_roles principal roles

    abbrev pub assign_to :
        List String
        → Option (Attempt RolesError (Option String))
        → List Request
        → Option (Attempt RolesError (Unit {0}) × List Request)
    assign_to roles none sent = none
    assign_to roles (some (thrown e)) sent = some (thrown e, sent)
    assign_to roles (some (done none)) sent = some (
      thrown (
          roles_error
            "This agent hasn't run yet, so its roles can't be assigned. Send it a message, then try again and the roles will apply."),
      sent,
    )
    assign_to roles (some (done (some principal))) sent =
        some (assign_agent_roles principal roles sent)

    unfoldable pub assign_roles_to_agent :
        ℕ
        → (Body → Option (Page AgentPrincipal))
        → List String
        → AgentPrincipalRef
        → List Request
        → Option (Attempt RolesError (Unit {0}) × List Request)
    unfolding assign_agent_roles resolve_agent_principal_id
    assign_roles_to_agent fuel schema [] ref sent = some (done tt, sent)
    assign_roles_to_agent fuel schema (role ∷ roles) ref sent =
        assign_to (role ∷ roles)
          (resolve_agent_principal_id (answer sent) encode fuel schema tenant ref) sent
