-- ===== src/Worker/Tests.antt =====
-- A worker with two MCP servers.
use workbench.Prelude.{
  ◌≡◌, refl, String, ◌<>◌, true, ◌&&◌, none, some, List, [], ◌∷◌, contains, All,
}
use workbench.Prelude.Action.{thrown}
use workbench.Deferred.Match.{ends_line, Runtime, ToolDefinition}
use workbench.Deferred.Selection.{Event, inference_done, tool_call, names, tools}
use workbench.Deferred.Selection.Surfacing.{later}
use workbench.Worker.{
  artifact_tools_package, memory_tools_package, McpServerDeployment, WorkerToolNames,
  worker_director_ref, mcp_tool_name_pattern, WorkerWorkflowInput, Factories,
}
use workbench.Worker.Definition.{build_worker_workflow, build_worker_definition_json}
use workbench.Worker.Credentials.{ReachesHub, ReachesServer, build_worker_definition_json-reaches}
use workbench.Worker.HeldBack.{is_one_line, server_tool, contains-tools-server_tool}

abbrev server : String → McpServerDeployment
server handle = record {
  handle = handle;
  server_address = "mcp." <> handle;
  credential_id = "c-" <> handle;
  provider_name = "mcp-" <> handle;
  credential_name = "mcp-" <> handle;
  tools = "search" ∷ [];
  allow_without_ask = none;
}

abbrev worker_input : WorkerWorkflowInput
worker_input = record {
  workflow_id = "wf_worker";
  trigger_address = "worker@bench";
  inference_preferences = [];
  system_prompt = "Help.";
  hub_credential_id = "c-hub";
  mcp_servers = server "exa" ∷ server "linear" ∷ [];
}

abbrev split : WorkerToolNames
split = record { visible = "mail_send" ∷ []; deferred = "artifact_list" ∷ [] }

director_test :
    (build_worker_definition_json worker_input split []).director
    ≡ record { visible = "mail_send" ∷ []; deferred = "artifact_list" ∷ "exa.*" ∷ "linear.*" ∷ [] }
unfolding build_worker_definition_json worker_director_ref mcp_tool_name_pattern
director_test = refl

build_empty :
    (f : Factories)
    → build_worker_workflow f (record worker_input { hub_credential_id = "" })
      ≡ thrown "hubCredentialId"
unfolding build_worker_workflow
build_empty f = refl

build_worker_definition_json-reaches_example :
    let d = build_worker_definition_json worker_input split [] in
    ReachesHub d.credential_bindings d.grant_requirements worker_input artifact_tools_package
    × ReachesHub d.credential_bindings d.grant_requirements worker_input memory_tools_package
    × All (ReachesServer d.credential_bindings d.grant_requirements) worker_input.mcp_servers
build_worker_definition_json-reaches_example =
    build_worker_definition_json-reaches worker_input split []

-- A runtime of texts without case, without words
abbrev plain_text : Runtime
plain_text = record {
  fold = λ c. c;
  lower = λ s. s;
  is_word = λ c. true;
  trim = λ s. s;
  length16 = λ s. 0;
  slice16 = λ s from to. s;
  stringify = λ s. s;
}

abbrev exa_search : ToolDefinition
exa_search = record { name = "exa.search"; description = "Searches the web."; input_schema = "{}" }

abbrev searched : List Event
searched = inference_done (tool_call "tool_search" (some "web") ∷ []) ∷ []

contains-tools-server_tool_example :
    contains
      (names (
        tools
          (later plain_text (exa_search ∷ []) (worker_director_ref split ("exa" ∷ [])) searched)))
      (server_tool "exa" "search")
    ≡ (contains (names (exa_search ∷ [])) (server_tool "exa" "search")
        && contains
            (later plain_text
              (exa_search ∷ [])
              (worker_director_ref split ("exa" ∷ []))
              searched).surfaced
            (server_tool "exa" "search"))
unfolding contains is_one_line ends_line
contains-tools-server_tool_example =
    contains-tools-server_tool plain_text (exa_search ∷ []) split ("exa" ∷ []) searched "exa"
      "search" refl refl refl
