-- ===== src/HubApi/McpServers.antt =====
-- The MCP servers that a workspace stores as credentials (apps/web/src/mcp-servers.ts), and those that an
-- agent is deployed with (apps/web/src/agent-deploy.ts). Schemas, JSON and the tests of texts are
-- parameters. A credential's metadata are a dictionary of JSON texts.
mod Catalog
mod Unasked
mod Tests
use workbench.Prelude.{
  ℕ, String, ◌==◌, ◌<>◌, Bool, true, false, not, Option, none, some, or_else, List, [], ◌∷◌, ◌++◌,
  map, find, keep, any, contains, Dict, insert, is_some, if◌then◌else◌,
}
use workbench.Prelude.Action.{Attempt, done, thrown, pure, throw, resume, ◌>>=◌, ◌>>◌}
use workbench.Hub.{Reply, is_ok}
use workbench.Worker.{McpServerDeployment, mcp_provider_name, mcp_credential_name}
use workbench.HubApi.{
  Call, ApiError, failed, refused, Api, tenant_path, fetch_hub, read_json, request_json,
  request_unless,
}

pub record McpTool : Type 0 where
  pub name : String
  pub read_only_hint : Option Bool  -- of its annotations, if it has any
  pub details : String  -- the rest, as its JSON text

pub data McpAuthKind : Type 0 where
  no_auth oauth token_auth : McpAuthKind

-- What a credential records about its server, `metadata.mcp`
pub record StoredMcp : Type 0 where
  pub handle : String
  pub name : String
  pub address : String
  pub auth : McpAuthKind
  pub tools : List McpTool

-- `McpServer`, with what is recorded of it
pub record McpServer : Type 0 where
  pub credential_id : String
  pub provider_id : String
  pub mcp : StoredMcp

pub data Input : Type 0 where
  no_input : Input
  provider_input : String → String → String → Input  -- name, plugin, apiBaseUrl
  credential_input : String → String → String → Dict String → Input  -- providerId, name, secret, metadata
  metadata_input : Dict String → Input
  discover_input : String → Option String → Input  -- url, credentialId
  login_input : String → String → String → Input  -- resourceUrl, providerId, credentialName

pub record Provider : Type 0 where
  pub id : String
  pub name : String
  pub plugin : String

pub record CredentialRow : Type 0 where
  pub id : String
  pub name : String
  pub provider_id : String
  pub metadata : Option (Dict String)

pub record LoginStarted : Type 0 where
  pub login_id : String
  pub authorize_address : String

pub record LoginStatus : Type 0 where
  pub status : String
  pub credential_id : Option String
  pub message : Option String

pub record Services (Body : Type 0) : Type 0 where
  pub hub : List (Call Input) → Call Input → Reply Body
  pub encode : String → String
  pub mcp_provider_key : String
  pub origin_of : String → String
  pub unreachable_text : ℕ → String
  pub says_refused : String → Bool  -- "refused the request" stands in it
  pub mcp_json : StoredMcp → String
  pub error_text : Body → Option String
  pub tenant_parent_shape : Body → Option (Option String)
  pub providers_page : Body → Option (List Provider)
  pub provider_shape : Body → Option Provider
  pub credentials_page : Body → Option (List CredentialRow)
  pub credential_shape : Body → Option CredentialRow
  pub stored_mcp_shape : Option (Dict String) → Option StoredMcp
  pub discovery_shape : Body → Option (List McpTool)
  pub login_shape : Body → Option LoginStarted
  pub login_status_shape : Body → Option LoginStatus
  pub sort_by_name : List McpServer → List McpServer

module _ {Body : Type 0} (services : Services Body) where
  -- Of two requests at once: both are made. If both fail, the first one's error is thrown.
  abbrev pub both_values :
      {A B : Type 0} → Attempt ApiError A → Attempt ApiError B → Attempt ApiError (A × B)
  both_values (thrown e) r = thrown e
  both_values (done a) (thrown e) = thrown e
  both_values (done a) (done b) = done (a, b)

  unfoldable pub both : {A B : Type 0} → Api Input A → Api Input B → Api Input (A × B)
  both m k calls = (both_values (m calls).0 (k (m calls).1).0, (k (m calls).1).1)

  abbrev pub caught : {A : Type 0} → Attempt ApiError A → Api Input (Unit {0}) → Api Input A
  caught (done a) clean = pure a
  caught (thrown e) clean = clean >> throw e

  -- `try` with a `catch` that cleans up and throws again
  unfoldable pub or_clean : {A : Type 0} → Api Input A → Api Input (Unit {0}) → Api Input A
  or_clean m clean calls = caught (m calls).0 clean (m calls).1

  module _ (tenant_id : String) where
    abbrev pub call_to : String → String → Input → Call Input
    call_to method suffix input = record {
      method = method;
      address = tenant_path (services.encode) tenant_id suffix;
      input = input;
    }

    unfoldable pub resolve_workspace_tenant_id : Api Input String
    unfolding request_json
    resolve_workspace_tenant_id =
        request_json (services.hub) (call_to "GET" "" no_input)
          "resolving this workbench's workspace failed" "the workspace response"
          (services.tenant_parent_shape)
        >>= (λ parent. pure (or_else parent tenant_id))

    unfoldable pub list_providers : Api Input (List Provider)
    unfolding request_json
    list_providers =
        request_json (services.hub) (call_to "GET" "/providers" no_input)
          "listing the MCP providers failed" "the MCP providers" (services.providers_page)

    unfoldable pub list_credentials : Api Input (List CredentialRow)
    unfolding request_json
    list_credentials =
        request_json (services.hub) (call_to "GET" "/credentials" no_input)
          "listing the MCP credentials failed" "the MCP credentials" (services.credentials_page)

    abbrev pub mcp_provider_ids : List Provider → List String
    mcp_provider_ids providers =
        map (λ (p : Provider). p.id) (keep (λ p. p.plugin == (services.mcp_provider_key)) providers)

    abbrev pub with_server : CredentialRow → Option StoredMcp → List McpServer → List McpServer
    with_server row none servers = servers
    with_server row (some mcp) servers =
        record { credential_id = row.id; provider_id = row.provider_id; mcp = mcp } ∷ servers

    -- The loop over the credentials
    unfoldable pub servers_of : List String → List CredentialRow → List McpServer
    servers_of ids [] = []
    servers_of ids (row ∷ rows) =
        let rest = servers_of ids rows in
        if contains ids row.provider_id
        then with_server row ((services.stored_mcp_shape) row.metadata) rest
        else rest

    unfoldable pub list_mcp_servers : Api Input (List McpServer)
    unfolding both list_providers list_credentials servers_of
    list_mcp_servers = both list_providers list_credentials >>= (λ found.
        pure ((services.sort_by_name) (servers_of (mcp_provider_ids found.0) found.1)))

    unfoldable pub found_or_created : String → String → Option Provider → Api Input String
    unfolding request_json
    found_or_created handle address (some provider) = pure provider.id
    found_or_created handle address none =
        request_json (services.hub)
          (call_to "POST" "/providers" (
            provider_input (mcp_provider_name handle) (services.mcp_provider_key)
              ((services.origin_of) address)))
          ("preparing the " <> handle <> " server's provider failed") "the MCP server's provider"
          (services.provider_shape)
        >>= (λ provider. pure provider.id)

    unfoldable pub ensure_mcp_provider : String → String → Api Input String
    unfolding list_providers found_or_created
    ensure_mcp_provider handle address = list_providers >>= (λ providers.
        found_or_created handle address (find (λ p. p.name == mcp_provider_name handle) providers))

    unfoldable pub store_credential : String → String → String → Dict String → Api Input String
    unfolding request_json
    store_credential provider_id handle secret metadata =
        request_json (services.hub)
          (call_to "POST" "/credentials"
            (credential_input provider_id (mcp_credential_name handle) secret metadata))
          ("storing the " <> handle <> " server failed") "the MCP server's credential"
          (services.credential_shape)
        >>= (λ stored. pure stored.id)

    abbrev pub delete_call : String → Call Input
    delete_call id = call_to "DELETE" ("/credentials/" <> (services.encode) id) no_input

    unfoldable pub delete_credential : String → Api Input (Unit {0})
    unfolding fetch_hub
    delete_credential id = fetch_hub (services.hub) (delete_call id) >> pure tt

    abbrev pub refusal : ℕ → Option String → ApiError
    refusal status none =
        refused ((services.unreachable_text) status)
          ((services.says_refused) ((services.unreachable_text) status))
    refusal status (some message) = refused message ((services.says_refused) message)

    abbrev pub error_of : ℕ → Option Body → ApiError
    error_of status none = refusal status none
    error_of status (some body) = refusal status ((services.error_text) body)

    abbrev pub discover_call : String → Option String → Call Input
    discover_call address credential_id =
        call_to "POST" "/mcp/discover" (discover_input address credential_id)

    -- The tools that are discovered
    unfoldable pub discover_mcp_catalog : String → Option String → Api Input (List McpTool)
    unfolding fetch_hub read_json
    discover_mcp_catalog address credential_id =
        fetch_hub (services.hub) (discover_call address credential_id) >>= (λ r.
          if is_ok r.0
          then read_json (services.hub) "the MCP server's catalog" (services.discovery_shape) r.1
          else throw (error_of r.0 r.1))

    abbrev pub with_mcp : Dict String → StoredMcp → Dict String
    with_mcp metadata mcp = insert "mcp" ((services.mcp_json) mcp) metadata

    abbrev pub patch_call : String → Dict String → StoredMcp → Call Input
    patch_call id metadata mcp =
        call_to "PATCH" ("/credentials/" <> (services.encode) id)
          (metadata_input (with_mcp metadata mcp))

    -- The catalog is written onto the credential.
    unfoldable pub patch_catalog : McpServer → Dict String → List McpTool → Api Input McpServer
    unfolding fetch_hub delete_credential
    patch_catalog server metadata tools =
        let mcp = record (server.mcp) { tools = tools } in
        fetch_hub (services.hub) (patch_call server.credential_id metadata mcp) >>= (λ patched.
          if is_ok patched.0
          then pure (record server { mcp = mcp })
          else delete_credential server.credential_id
            >> throw (failed ("recording the " <> mcp.handle <> " server's tools failed")))

    -- `recordCatalog`, of the server without its tools
    unfoldable pub record_catalog : McpServer → Dict String → Api Input McpServer
    unfolding or_clean
    record_catalog server metadata =
        or_clean (discover_mcp_catalog (server.mcp).address (some server.credential_id))
          (delete_credential server.credential_id)
        >>= patch_catalog server metadata

    abbrev pub auth_of : Option String → McpAuthKind
    auth_of none = no_auth
    auth_of (some token) = token_auth

    -- What an add stores first: the server without its tools
    unfoldable pub store_server :
        String → String → String → Option String → String → Api Input McpServer
    unfolding ensure_mcp_provider store_credential
    store_server handle name address token sentinel =
        let mcp : StoredMcp = record {
          handle = handle;
          name = name;
          address = address;
          auth = auth_of token;
          tools = [];
        } in
        ensure_mcp_provider handle address >>= (λ provider_id.
          store_credential provider_id handle (or_else token sentinel) (with_mcp [] mcp)
          >>= (λ id. pure (record { credential_id = id; provider_id = provider_id; mcp = mcp })))

    unfoldable pub add_mcp_server :
        String → String → String → Option String → String → Api Input McpServer
    add_mcp_server handle name address token sentinel =
        store_server handle name address token sentinel >>= (λ server. record_catalog server [])

    abbrev pub metadata_of : Option CredentialRow → Dict String
    metadata_of none = []
    metadata_of (some row) = or_else row.metadata []

    -- The server that a sign-in stored a credential of, before its tools are read
    abbrev pub signed_in : McpServer → McpServer
    signed_in server = record server { mcp = record (server.mcp) { auth = oauth; tools = [] } }

    unfoldable pub add_signed_in_mcp_server : McpServer → Api Input McpServer
    unfolding list_credentials record_catalog
    add_signed_in_mcp_server server = list_credentials >>= (λ rows.
        record_catalog (signed_in server)
          (metadata_of (find (λ row. row.id == server.credential_id) rows)))

    unfoldable pub start_mcp_sign_in : String → String → String → Api Input (LoginStarted × String)
    unfolding ensure_mcp_provider request_json
    start_mcp_sign_in handle name address = ensure_mcp_provider handle address >>= (λ provider_id.
        request_json (services.hub)
          (call_to "POST" "/oauth-logins"
            (login_input address provider_id (mcp_credential_name handle)))
          ("starting the " <> name <> " sign-in failed") "the sign-in" (services.login_shape)
        >>= (λ started. pure (started, provider_id)))

    unfoldable pub read_mcp_sign_in : String → Api Input LoginStatus
    unfolding request_json
    read_mcp_sign_in login_id =
        request_json (services.hub)
          (call_to "GET" ("/oauth-logins/" <> (services.encode) login_id) no_input)
          "checking the sign-in failed" "the sign-in status" (services.login_status_shape)

    unfoldable pub remove_mcp_server : String → String → Api Input (Unit {0})
    unfolding request_unless fetch_hub
    remove_mcp_server credential_id provider_id =
        request_unless (services.hub) (λ status. not (is_ok status)) (delete_call credential_id)
          "removing this MCP server failed"
        >> (fetch_hub (services.hub)
              (call_to "DELETE" ("/providers/" <> (services.encode) provider_id) no_input)
            >> pure tt)

    -- `runEnsureBuiltInMcpServers`, of the built-in server's handle, name and address
    unfoldable pub run_ensure_built_in :
        String → String → String → String → Api Input (List McpServer)
    unfolding list_mcp_servers add_mcp_server
    run_ensure_built_in handle name address sentinel = list_mcp_servers >>= (λ servers.
        if any (λ (s : McpServer). (s.mcp).handle == handle) servers
        then pure servers
        else add_mcp_server handle name address none sentinel
          >>= (λ added. pure (servers ++ added ∷ [])))

abbrev pub is_read_only : McpTool → Bool
is_read_only tool = or_else tool.read_only_hint false

unfoldable pub read_only_tool_names : McpServer → List String
read_only_tool_names server =
    map (λ (t : McpTool). (server.mcp).handle <> "." <> t.name)
      (keep is_read_only (server.mcp).tools)

abbrev pub unless_empty : List String → Option (List String)
unless_empty [] = none
unless_empty (name ∷ names) = some (name ∷ names)

unfoldable pub to_mcp_server_deployment : McpServer → McpServerDeployment
unfolding read_only_tool_names
to_mcp_server_deployment server = record {
  handle = (server.mcp).handle;
  server_address = (server.mcp).address;
  credential_id = server.credential_id;
  provider_name = mcp_provider_name (server.mcp).handle;
  credential_name = mcp_credential_name (server.mcp).handle;
  tools = map (λ (t : McpTool). t.name) (server.mcp).tools;
  allow_without_ask = unless_empty (read_only_tool_names server);
}

abbrev pub chosen :
    Option McpServer → Option (List McpServerDeployment) → Option (List McpServerDeployment)
chosen none rest = none
chosen (some server) none = none
chosen (some server) (some rest) = some (to_mcp_server_deployment server ∷ rest)

-- `none` is the error that a handle is not in the catalog.
unfoldable pub resolve_mcp_server_deployments :
    List McpServer → List String → Option (List McpServerDeployment)
unfolding to_mcp_server_deployment
resolve_mcp_server_deployments catalog [] = some []
resolve_mcp_server_deployments catalog (handle ∷ handles) =
    chosen (find (λ (s : McpServer). (s.mcp).handle == handle) catalog)
      (resolve_mcp_server_deployments catalog handles)
