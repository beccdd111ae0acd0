-- ===== src/Worker/Credentials.antt =====
-- The credentials that a worker's definition binds are those that it may use.
use workbench.Prelude.{
  ◌≡◌, refl, String, ◌==◌, ◌<>◌, eq_refl, Bool, true, false, ◌&&◌, Option, none, some, List, [],
  ◌∷◌, ◌++◌, map, any, All, arith,
}
use workbench.Worker.{
  artifact_tools_package, memory_tools_package, mcp_tools_package, hub_credential_handle,
  CredentialBinding, GrantRequirement, hub_credential_binding, hub_credential_use_requirement,
  artifact_tools_credential_binding, artifact_tools_credential_use_requirement,
  memory_tools_credential_binding, memory_tools_credential_use_requirement,
  mcp_server_credential_binding, mcp_server_credential_use_requirement, McpServerDeployment,
  WorkerToolNames, WorkerWorkflowInput, ToolEffect,
}
use workbench.Worker.Definition.{tool_effect_requirement, build_worker_definition_json}

abbrev pub condition_is : String → Option String → Bool
condition_is tool none = false
condition_is tool (some held) = held == tool

-- The requirement lets the tool package use the credential.
abbrev pub allows_use : String → String → GrantRequirement → Bool
allows_use tool_package credential_id r =
    (r.resource == "credential:" <> credential_id)
    && (r.action == "use")
    && (r.effect == "allow")
    && condition_is ("tool:" <> tool_package) r.conditions

-- The binding resolves the credential of the name, at the provider, into the package's handle.
abbrev pub binds : String → String → String → String → CredentialBinding → Bool
binds tool_package handle provider name b =
    (b.tool_package == tool_package)
    && (b.handle == handle)
    && (b.provider == provider)
    && (b.name == name)

module _ (bindings : List CredentialBinding) (requirements : List GrantRequirement) where
  -- The hub's credential is bound to the package, which may use it.
  abbrev pub ReachesHub : WorkerWorkflowInput → String → Type 0
  ReachesHub input tool_package =
      (any (binds tool_package hub_credential_handle "workbench-hub" (input.workflow_id <> "-hub"))
          bindings
        ≡ true)
      × (any (allows_use tool_package input.hub_credential_id) requirements ≡ true)

  -- The server's credential is bound to the MCP package under the server's handle, and may be used.
  abbrev pub ReachesServer : McpServerDeployment → Type 0
  ReachesServer s =
      (any (binds mcp_tools_package s.handle s.provider_name s.credential_name) bindings ≡ true)
      × (any (allows_use mcp_tools_package s.credential_id) requirements ≡ true)

binds-server :
    (s : McpServerDeployment)
    → binds mcp_tools_package s.handle s.provider_name s.credential_name
        (mcp_server_credential_binding s)
      ≡ true
unfolding mcp_server_credential_binding
binds-server s =
    ground (arith, eq_refl s.handle, eq_refl s.provider_name, eq_refl s.credential_name)

allows_use-server :
    (s : McpServerDeployment)
    → allows_use mcp_tools_package s.credential_id (mcp_server_credential_use_requirement s) ≡ true
unfolding mcp_server_credential_use_requirement hub_credential_use_requirement
allows_use-server s = ground (arith, eq_refl ("credential:" <> s.credential_id))

any-later :
    {A : Type 0} (p : A → Bool) (x : A) (xs : List A) → any p xs ≡ true → any p (x ∷ xs) ≡ true
any-later p x xs h = ground (arith, h)

-- What reaches a server goes on to reach it where more is bound and required.
ReachesServer-cons :
    (b : CredentialBinding) (r : GrantRequirement) (bs : List CredentialBinding)
    (rs : List GrantRequirement) (servers : List McpServerDeployment)
    → All (ReachesServer bs rs) servers
    → All (ReachesServer (b ∷ bs) (r ∷ rs)) servers
ReachesServer-cons b r bs rs [] h = tt
ReachesServer-cons b r bs rs (s ∷ servers) ((bound, allowed), rest) =
    ((any-later _ b bs bound, any-later _ r rs allowed), ReachesServer-cons b r bs rs servers rest)

servers_reached :
    (servers : List McpServerDeployment) (more : List GrantRequirement)
    → All
        (ReachesServer
          (map mcp_server_credential_binding servers)
          (map mcp_server_credential_use_requirement servers ++ more))
        servers
servers_reached [] more = tt
servers_reached (s ∷ servers) more = (
  (rw (binds-server s) refl, rw (allows_use-server s) refl),
  ReachesServer-cons (mcp_server_credential_binding s) (mcp_server_credential_use_requirement s)
      (map mcp_server_credential_binding servers)
      (map mcp_server_credential_use_requirement servers ++ more) servers
      (servers_reached servers more),
)

-- In the definition of every worker, with whatever effects of tools, the hub's credential reaches the
-- artifact tools and the memory tools, and each MCP server's credential reaches the MCP tools under the
-- server's handle: it is bound to the package, and a requirement lets the same package use it.
pub build_worker_definition_json-reaches :
    (input : WorkerWorkflowInput) (tool_names : WorkerToolNames) (effects : List ToolEffect)
    → let d = build_worker_definition_json input tool_names effects in
      ReachesHub d.credential_bindings d.grant_requirements input artifact_tools_package
      × ReachesHub d.credential_bindings d.grant_requirements input memory_tools_package
      × All (ReachesServer d.credential_bindings d.grant_requirements) input.mcp_servers
unfolding build_worker_definition_json hub_credential_binding hub_credential_use_requirement
build_worker_definition_json-reaches input tool_names effects =
    let hub = eq_refl (input.workflow_id <> "-hub") in
    let memory = memory_tools_credential_binding input.workflow_id in
    let use_memory = memory_tools_credential_use_requirement input.hub_credential_id in
    let bindings = map mcp_server_credential_binding input.mcp_servers in
    let requirements =
      map mcp_server_credential_use_requirement input.mcp_servers
      ++ map tool_effect_requirement effects in
    let credential = eq_refl ("credential:" <> input.hub_credential_id) in
    (
      (ground (arith, hub), ground (arith, credential)),
      (ground (arith, hub), ground (arith, credential)),
      ReachesServer-cons (artifact_tools_credential_binding input.workflow_id)
          (artifact_tools_credential_use_requirement input.hub_credential_id) (memory ∷ bindings)
          (use_memory ∷ requirements) input.mcp_servers
          (ReachesServer-cons memory use_memory bindings requirements input.mcp_servers
            (servers_reached input.mcp_servers (map tool_effect_requirement effects))),
    )
