-- ===== src/Worker.antt =====
-- The worker's workflow (packages/worker/src): its ids and credentials (`workflow-ids.ts`), the entry
-- that a deploy bundles (`index.ts`), and the projection that is written beside it
-- (`definition-json.ts`). The names that the tool packages declare are the parameter `Factories`, and
-- what `defineWorkflow` makes of its argument is left out.
pub mod Definition
mod Credentials
mod HeldBack
mod Tests
use workbench.Prelude.{
  String, ◌==◌, ◌<>◌, Bool, true, false, Option, none, some, List, [], ◌∷◌, ◌++◌, map,
  if◌then◌else◌,
}
use workbench.Deferred.Selection.{DirectorConfig}

abbrev pub worker_workflow_id : String
worker_workflow_id = "wf_worker"

abbrev pub worker_step_id : String
worker_step_id = "worker"

abbrev pub artifact_tools_package : String
artifact_tools_package = "@corbits/artifacts/sidecar-bundle"

abbrev pub memory_tools_package : String
memory_tools_package = "@corbits/memory/sidecar-bundle"

abbrev pub mcp_tools_package : String
mcp_tools_package = "@corbits/mcp/sidecar-bundle"

abbrev pub hub_credential_handle : String
hub_credential_handle = "hub"

abbrev pub hub_provider_name : String
hub_provider_name = "workbench-hub"

abbrev pub agent_hub_credential_name : String → String
agent_hub_credential_name workflow_id = workflow_id <> "-hub"

-- `HubCredentialBinding`
pub record CredentialBinding : Type 0 where
  pub tool_package : String
  pub handle : String
  pub provider : String
  pub name : String
  pub locator : String

-- A grant requirement; `conditions` is the tool that it is conditioned on.
pub record GrantRequirement : Type 0 where
  pub resource : String
  pub action : String
  pub effect : String
  pub source : String
  pub conditions : Option String

unfoldable pub hub_credential_binding : String → String → CredentialBinding
hub_credential_binding tool_package workflow_id = record {
  tool_package = tool_package;
  handle = hub_credential_handle;
  provider = hub_provider_name;
  name = agent_hub_credential_name workflow_id;
  locator = "tenant";
}

unfoldable pub hub_credential_use_requirement : String → String → GrantRequirement
hub_credential_use_requirement tool_package credential_id = record {
  resource = "credential:" <> credential_id;
  action = "use";
  effect = "allow";
  source = "creator";
  conditions = some ("tool:" <> tool_package);
}

abbrev pub artifact_tools_credential_binding : String → CredentialBinding
artifact_tools_credential_binding = hub_credential_binding artifact_tools_package

abbrev pub artifact_tools_credential_use_requirement : String → GrantRequirement
artifact_tools_credential_use_requirement = hub_credential_use_requirement artifact_tools_package

abbrev pub memory_tools_credential_binding : String → CredentialBinding
memory_tools_credential_binding = hub_credential_binding memory_tools_package

abbrev pub memory_tools_credential_use_requirement : String → GrantRequirement
memory_tools_credential_use_requirement = hub_credential_use_requirement memory_tools_package

abbrev pub mcp_provider_name : String → String
mcp_provider_name handle = "mcp-" <> handle

abbrev pub mcp_credential_name : String → String
mcp_credential_name handle = "mcp-" <> handle

pub record McpServerDeployment : Type 0 where
  pub handle : String
  pub server_address : String
  pub credential_id : String
  pub provider_name : String
  pub credential_name : String
  pub tools : List String  -- the tools' names
  pub allow_without_ask : Option (List String)

unfoldable pub mcp_server_credential_binding : McpServerDeployment → CredentialBinding
mcp_server_credential_binding server = record {
  tool_package = mcp_tools_package;
  handle = server.handle;
  provider = server.provider_name;
  name = server.credential_name;
  locator = "tenant";
}

unfoldable pub mcp_server_credential_use_requirement : McpServerDeployment → GrantRequirement
unfolding hub_credential_use_requirement
mcp_server_credential_use_requirement server =
    hub_credential_use_requirement mcp_tools_package server.credential_id

unfoldable pub mcp_tool_name_pattern : String → String
mcp_tool_name_pattern handle = handle <> ".*"

-- The names that the tool packages declare
pub record Factories : Type 0 where
  pub mail : List String
  pub posix : List String
  pub artifacts : List String
  pub memory : List String

pub record WorkerToolNames : Type 0 where
  pub visible : List String
  pub deferred : List String

-- `WORKER_TOOL_NAMES`
abbrev pub worker_tool_names : Factories → WorkerToolNames
worker_tool_names f = record { visible = f.mail ++ f.posix; deferred = f.artifacts ++ f.memory }

-- The `config` of `workerDirectorRef`
unfoldable pub worker_director_ref : WorkerToolNames → List String → DirectorConfig
unfolding mcp_tool_name_pattern
worker_director_ref names handles = record {
  visible = names.visible;
  deferred = names.deferred ++ map mcp_tool_name_pattern handles;
}

pub record InferencePreference : Type 0 where
  pub provider : String
  pub model : String
  pub parameters : Option String  -- as their JSON text

pub record WorkerWorkflowInput : Type 0 where
  pub workflow_id : String
  pub trigger_address : String
  pub inference_preferences : List InferencePreference
  pub system_prompt : String
  pub hub_credential_id : String
  pub mcp_servers : List McpServerDeployment

pub record ToolEffect : Type 0 where
  pub resource : String
  pub effect : String

abbrev pub worker_description : String
worker_description =
    "A co-worker that lives in one workbench: answers questions, drafts text, and gets things done for the team"

-- What the entry's definition and its projection share
pub record WorkerDefinition : Type 0 where
  pub id : String
  pub trigger_to : String
  pub credential_bindings : List CredentialBinding
  pub grant_requirements : List GrantRequirement
  pub step_id : String
  pub description : String
  pub system_prompt : String
  pub director : DirectorConfig
  pub inference : List InferencePreference

abbrev pub handles_of : List McpServerDeployment → List String
handles_of = map (λ (s : McpServerDeployment). s.handle)

-- The servers that the MCP tool factory is made with: handle, address, tools and `allowWithoutAsk`
abbrev pub McpFactory : Type 0
McpFactory = List (String × String × List String × Option (List String))

abbrev pub mcp_factory : List McpServerDeployment → McpFactory
mcp_factory =
    map (λ (s : McpServerDeployment). (s.handle, s.server_address, s.tools, s.allow_without_ask))
