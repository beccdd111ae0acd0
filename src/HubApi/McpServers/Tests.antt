-- ===== src/HubApi/McpServers/Tests.antt =====
-- Runs of adds to a catalog, and the witnesses.
use workbench.Prelude.{◌⊎◌, ◌≡◌, refl, ◌==◌, true, false, none, some, List, [], ◌∷◌, if◌then◌else◌}
use workbench.Prelude.Action.{done, thrown}
use workbench.Hub.{Reply, unreachable, replied}
use workbench.Worker.{McpServerDeployment}
use workbench.HubApi.{Call, fetch_error, fetch_hub}
use workbench.HubApi.McpServers.{
  McpTool, no_auth, McpServer, Input, Provider, CredentialRow, Services, delete_credential,
  discover_mcp_catalog, patch_catalog, record_catalog, store_server, add_mcp_server,
  to_mcp_server_deployment, resolve_mcp_server_deployments,
}
use workbench.HubApi.McpServers.Catalog.{discovery, writing, Ends, add_mcp_server-Ends}
use workbench.HubApi.McpServers.Unasked.{
  AreDeployed, HasUnknown, resolve_mcp_server_deployments-AreChosen,
}

-- What the hub's bodies hold
record Paper : Type 0 where
  provider : Provider
  row : CredentialRow
  tools : List McpTool

abbrev tools : List McpTool
tools =
    record { name = "search"; read_only_hint = some true; details = "" }
    ∷ record { name = "post"; read_only_hint = none; details = "" }
    ∷ []

abbrev paper : Paper
paper = record {
  provider = record { id = "p"; name = "mcp-exa"; plugin = "mcp" };
  row = record { id = "c"; name = "mcp-exa"; provider_id = "p"; metadata = none };
  tools = tools;
}

-- The hub is not reached by the call that writes the tools.
abbrev hub : List (Call Input) → Call Input → Reply Paper
hub calls call = if call.method == "PATCH" then unreachable none else replied 200 (some paper)

abbrev services : Services Paper
services = record {
  hub = hub;
  encode = λ s. s;
  mcp_provider_key = "mcp";
  origin_of = λ s. s;
  unreachable_text = λ status. "";
  says_refused = λ message. false;
  mcp_json = λ mcp. mcp.name;
  error_text = λ p. none;
  tenant_parent_shape = λ p. none;
  providers_page = λ p. some (p.provider ∷ []);
  provider_shape = λ p. none;
  credentials_page = λ p. none;
  credential_shape = λ p. some p.row;
  stored_mcp_shape = λ metadata. none;
  discovery_shape = λ p. some p.tools;
  login_shape = λ p. none;
  login_status_shape = λ p. none;
  sort_by_name = λ servers. servers;
}

abbrev exa : McpServer
exa = record {
  credential_id = "c";
  provider_id = "p";
  mcp = record { handle = "exa"; name = "Exa"; address = "https://e"; auth = no_auth; tools = [] };
}

abbrev stored : List (Call Input)
stored = (store_server services "t" "exa" "Exa" "https://e" none "-" []).1

is_stored : store_server services "t" "exa" "Exa" "https://e" none "-" [] ≡ (done exa, stored)
unfolding store_server
is_stored = refl

-- The credential stays, without its tools.
left_behind : record_catalog services "t" exa [] [] ≡ (
  thrown (fetch_error none),
  discovery services "t" exa ∷ writing services "t" exa [] tools ∷ [],
)
unfolding record_catalog discover_mcp_catalog delete_credential patch_catalog fetch_hub
left_behind = refl

add_mcp_server-Ends_example :
    Ends services "t" exa [] stored
      (add_mcp_server services "t" "exa" "Exa" "https://e" none "-" [])
add_mcp_server-Ends_example =
    add_mcp_server-Ends services "t" "exa" "Exa" "https://e" none "-" [] exa stored is_stored

abbrev catalog : List McpServer
catalog = record exa { mcp = record (exa.mcp) { tools = tools } } ∷ []

resolve_mcp_server_deployments-AreChosen_example :
    ((ds : List McpServerDeployment) × (resolve_mcp_server_deployments catalog ("exa" ∷ [])
        ≡ some ds)
      × AreDeployed catalog ("exa" ∷ []) ds)
    ⊎ ((resolve_mcp_server_deployments catalog ("exa" ∷ []) ≡ none)
        × HasUnknown catalog ("exa" ∷ []))
resolve_mcp_server_deployments-AreChosen_example =
    resolve_mcp_server_deployments-AreChosen catalog ("exa" ∷ [])

unasked :
    (to_mcp_server_deployment
      (record exa { mcp = record (exa.mcp) { tools = tools } })).allow_without_ask
    ≡ some ("exa.search" ∷ [])
unfolding to_mcp_server_deployment
unasked = refl
