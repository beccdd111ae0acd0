-- ===== src/Worker/Definition.antt =====
-- `buildWorkerWorkflow` (packages/worker/src/index.ts) and `buildWorkerDefinitionJson`
-- (packages/worker/src/definition-json.ts).
use workbench.Prelude.{
  ◌≡◌, ◌∙◌, ap, append-nil, String, ◌==◌, Bool, true, false, none, List, [], ◌∷◌, ◌++◌, map,
  if◌then◌else◌,
}
use workbench.Prelude.Action.{Attempt, done, thrown}
use workbench.Worker.{
  worker_step_id, worker_description, GrantRequirement, hub_credential_binding,
  hub_credential_use_requirement, artifact_tools_credential_binding,
  artifact_tools_credential_use_requirement, memory_tools_credential_binding,
  memory_tools_credential_use_requirement, mcp_server_credential_binding,
  mcp_server_credential_use_requirement, Factories, WorkerToolNames, worker_tool_names,
  worker_director_ref, WorkerWorkflowInput, ToolEffect, WorkerDefinition, handles_of, McpFactory,
  mcp_factory,
}

-- The argument of `defineWorkflow`, without the factories of the tool packages
abbrev pub worker_workflow : Factories → WorkerWorkflowInput → WorkerDefinition × McpFactory
worker_workflow f input = (
  record {
    id = input.workflow_id;
    trigger_to = input.trigger_address;
    credential_bindings =
        artifact_tools_credential_binding input.workflow_id
        ∷ memory_tools_credential_binding input.workflow_id
        ∷ map mcp_server_credential_binding input.mcp_servers;
    grant_requirements =
        artifact_tools_credential_use_requirement input.hub_credential_id
        ∷ memory_tools_credential_use_requirement input.hub_credential_id
        ∷ map mcp_server_credential_use_requirement input.mcp_servers;
    step_id = worker_step_id;
    description = worker_description;
    system_prompt = input.system_prompt;
    director = worker_director_ref (worker_tool_names f) (handles_of input.mcp_servers);
    inference = input.inference_preferences;
  },
  mcp_factory input.mcp_servers,
)

-- An error names the field that is empty.
unfoldable pub build_worker_workflow :
    Factories → WorkerWorkflowInput → Attempt String (WorkerDefinition × McpFactory)
unfolding worker_director_ref mcp_server_credential_binding mcp_server_credential_use_requirement
    hub_credential_binding hub_credential_use_requirement
build_worker_workflow f input =
    if input.workflow_id == ""
    then thrown "workflowId"
    else if input.trigger_address == ""
    then thrown "triggerAddress"
    else if input.system_prompt == ""
    then thrown "systemPrompt"
    else if input.hub_credential_id == ""
    then thrown "hubCredentialId"
    else done (worker_workflow f input)

unfoldable pub tool_effect_requirement : ToolEffect → GrantRequirement
tool_effect_requirement tool = record {
  resource = tool.resource;
  action = "invoke";
  effect = tool.effect;
  source = "creator";
  conditions = none;
}

unfoldable pub build_worker_definition_json :
    WorkerWorkflowInput → WorkerToolNames → List ToolEffect → WorkerDefinition
unfolding tool_effect_requirement worker_director_ref mcp_server_credential_binding
    mcp_server_credential_use_requirement hub_credential_binding hub_credential_use_requirement
build_worker_definition_json input tool_names tool_effects = record {
  id = input.workflow_id;
  trigger_to = input.trigger_address;
  credential_bindings =
      artifact_tools_credential_binding input.workflow_id
      ∷ memory_tools_credential_binding input.workflow_id
      ∷ map mcp_server_credential_binding input.mcp_servers;
  grant_requirements =
      artifact_tools_credential_use_requirement input.hub_credential_id
      ∷ memory_tools_credential_use_requirement input.hub_credential_id
      ∷ (map mcp_server_credential_use_requirement input.mcp_servers
          ++ map tool_effect_requirement tool_effects);
  step_id = worker_step_id;
  description = worker_description;
  system_prompt = input.system_prompt;
  director = worker_director_ref tool_names (handles_of input.mcp_servers);
  inference = input.inference_preferences;
}

if_done :
    {A : Type 0} (b : Bool) (e : String) {rest : Attempt String A} {out : A}
    → (if b then thrown e else rest) ≡ done out
    → rest ≡ done out
if_done true e h = absurd cc
if_done false e h = h

build_done : {A : Type 0} {a out : A} → ◌≡◌ {A = Attempt String A} (done a) (done out) → a ≡ out
build_done h = cc

-- Where no tool has an effect of its own, the projection of an entry that is built has the same fields.
pub build_worker_definition_json-build_worker_workflow :
    (f : Factories) (input : WorkerWorkflowInput) (out : WorkerDefinition × McpFactory)
    → build_worker_workflow f input ≡ done out
    → build_worker_definition_json input (worker_tool_names f) [] ≡ out.0
unfolding build_worker_workflow build_worker_definition_json
build_worker_definition_json-build_worker_workflow f input out h =
    let built = build_done (
      if_done (input.hub_credential_id == "") _ (
        if_done (input.system_prompt == "") _
          (if_done (input.trigger_address == "") _ (if_done (input.workflow_id == "") _ h)))) in
    ap
      (λ (rs : List GrantRequirement). record (worker_workflow f input).0 {
        grant_requirements =
            artifact_tools_credential_use_requirement input.hub_credential_id
            ∷ memory_tools_credential_use_requirement input.hub_credential_id
            ∷ rs;
      })
      (append-nil (map mcp_server_credential_use_requirement input.mcp_servers))
    ∙ ap (λ (o : WorkerDefinition × McpFactory). o.0) built
