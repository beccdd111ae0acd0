-- ===== src/HubApi/McpServers/Catalog.antt =====
-- The ends of an add to the catalog of MCP servers (apps/web/src/mcp-servers.ts).
use workbench.Prelude.{
  ◌≡◌, sym, subst, ◌∙◌, ◌⊎◌, inl, inr, String, ◌<>◌, true, Option, some, List, [], ◌∷◌, ◌++◌,
  append_assoc, Dict, Bool-cases,
}
use workbench.Prelude.Action.{Attempt, done, thrown, throw, ◌>>◌}
use workbench.Hub.{unreachable, is_ok}
use workbench.HubApi.{
  Call, ApiError, fetch_error, Answered, failed, fetch_hub, fetch_hub-cases, read_json-calls,
}
use workbench.HubApi.McpServers.{
  McpTool, McpServer, Input, Services, delete_call, delete_credential, discover_call,
  discover_mcp_catalog, patch_call, patch_catalog, record_catalog, store_server, add_mcp_server,
}

module _ {Body : Type 0} (services : Services Body) (tenant_id : String) where
  abbrev Calls : Type 0
  Calls = List (Call Input)

  abbrev Result : Type 0 → Type 0
  Result A = Attempt ApiError A × Calls

  -- The calls to read a server's tools, and to write them
  abbrev pub discovery : McpServer → Call Input
  discovery server =
      discover_call services tenant_id (server.mcp).address (some server.credential_id)

  abbrev pub with_tools : McpServer → List McpTool → McpServer
  with_tools server tools = record server { mcp = record (server.mcp) { tools = tools } }

  abbrev pub writing : McpServer → Dict String → List McpTool → Call Input
  writing server metadata tools =
      patch_call services tenant_id server.credential_id metadata (with_tools server tools).mcp

  -- The tools were written onto the credential.
  abbrev pub IsRecorded : McpServer → Dict String → Calls → List McpTool → Result McpServer → Type 0
  IsRecorded server metadata calls tools result =
      Answered (services.hub) (λ status. is_ok status ≡ true) calls (writing server metadata tools)
      × (result ≡ (done (with_tools server tools), calls ++ writing server metadata tools ∷ []))

  -- The last call deletes the credential.
  abbrev pub IsDropped : McpServer → Calls → Result McpServer → Type 0
  IsDropped server calls result =
      (cause : ApiError) × (more : Calls) × (result ≡ (
        thrown cause,
        (calls ++ more) ++ delete_call services tenant_id server.credential_id ∷ [],
      ))

  -- The hub was not reached when the tools were written.
  abbrev pub IsLeft : McpServer → Dict String → Calls → List McpTool → Result McpServer → Type 0
  IsLeft server metadata calls tools result =
      (cause : Option String) × ((services.hub) calls (writing server metadata tools)
        ≡ unreachable cause)
      × (result ≡ (thrown (fetch_error cause), calls ++ writing server metadata tools ∷ []))

  abbrev pub Ends : McpServer → Dict String → Calls → Result McpServer → Type 0
  Ends server metadata calls result =
      ((tools : List McpTool) × (discover_mcp_catalog services tenant_id (server.mcp).address
            (some server.credential_id) calls
          ≡ (done tools, calls ++ discovery server ∷ []))
        × (IsRecorded server metadata (calls ++ discovery server ∷ []) tools result
            ⊎ IsLeft server metadata (calls ++ discovery server ∷ []) tools result))
      ⊎ IsDropped server calls result

  delete_credential-throws :
      {A : Type 0} (id : String) (e : ApiError) (calls : Calls)
      → (cause : ApiError) × ((delete_credential services tenant_id id >> throw {A = A} e) calls
          ≡ (thrown cause, calls ++ delete_call services tenant_id id ∷ []))
  unfolding delete_credential fetch_hub
  delete_credential-throws id e calls =
      elim (fetch_hub-cases (services.hub) (delete_call services tenant_id id) calls) [
        | inl (cause, _, fetched) ↦ (fetch_error cause, rw fetched)
        | inr (status, body, _, fetched) ↦ (e, rw fetched)
      ]

  -- A credential is deleted after the call that wrote the tools.
  abbrev IsUndone : McpServer → Calls → Call Input → Result McpServer → Type 0
  IsUndone server calls call result =
      (cause : ApiError) × (result ≡ (
        thrown cause,
        (calls ++ call ∷ []) ++ delete_call services tenant_id server.credential_id ∷ [],
      ))

  patch_catalog_outcome :
      (server : McpServer) (metadata : Dict String) (tools : List McpTool) (calls : Calls)
      → (IsRecorded server metadata calls tools
            (patch_catalog services tenant_id server metadata tools calls)
          ⊎ IsLeft server metadata calls tools
              (patch_catalog services tenant_id server metadata tools calls))
        ⊎ IsUndone server calls
            (writing server metadata tools)
            (patch_catalog services tenant_id server metadata tools calls)
  unfolding patch_catalog
  patch_catalog_outcome server metadata tools calls =
      elim (fetch_hub-cases (services.hub) (writing server metadata tools) calls) [
        | inl (cause, reply, fetched) ↦ inl (inr (cause, reply, rw fetched))
        | inr (status, body, reply, fetched) ↦ elim (Bool-cases (is_ok status)) [
          | inl ok ↦ inl (inl ((status, body, reply, ok), rw (fetched, ok)))
          | inr no_ok ↦
              let (cause, e) =
                delete_credential-throws {A = McpServer} server.credential_id
                  (failed ("recording the " <> (server.mcp).handle <> " server's tools failed"))
                  (calls ++ writing server metadata tools ∷ []) in
              inr (cause, rw (fetched, no_ok) e)
        ]
      ]

  -- Whatever comes of it, a discovery is one call.
  discover-calls :
      (address : String) (credential_id : Option String) (calls : Calls)
      → (discover_mcp_catalog services tenant_id address credential_id calls).1
        ≡ calls ++ discover_call services tenant_id address credential_id ∷ []
  unfolding discover_mcp_catalog
  discover-calls address credential_id calls =
      elim (fetch_hub-cases (services.hub) (discover_call services tenant_id address credential_id)
        calls) [
          | inl (cause, reply, fetched) ↦ rw fetched
          | inr (status, body, reply, fetched) ↦ elim (Bool-cases (is_ok status)) [
            | inl ok ↦
                rw (fetched, ok)
                  (read_json-calls (services.hub) "the MCP server's catalog"
                    (services.discovery_shape) body _)
            | inr no_ok ↦ rw (fetched, no_ok)
          ]
        ]

  -- After a discovery with this outcome
  record_catalog-after :
      (server : McpServer) (metadata : Dict String) (calls : Calls)
      (out : Attempt ApiError (List McpTool))
      → discover_mcp_catalog services tenant_id
          (server.mcp).address
          (some server.credential_id)
          calls
        ≡ (out, calls ++ discovery server ∷ [])
      → Ends server metadata calls (record_catalog services tenant_id server metadata calls)
  unfolding record_catalog
  record_catalog-after server metadata calls (thrown e) found =
      let (cause, dropped) =
        delete_credential-throws {A = List McpTool} server.credential_id e
          (calls ++ discovery server ∷ []) in
      inr (cause, discovery server ∷ [], rw (found, dropped))
  record_catalog-after server metadata calls (done tools) found =
      let after = calls ++ discovery server ∷ [] in
      let patched = patch_catalog services tenant_id server metadata tools after in
      let same : record_catalog services tenant_id server metadata calls ≡ patched = rw found in
      elim (patch_catalog_outcome server metadata tools after) [
        | inl ends ↦ subst (Ends server metadata calls) (sym same) (inl (tools, found, ends))
        | inr (cause, undone) ↦ inr (
          cause,
          discovery server ∷ writing server metadata tools ∷ [],
          same ∙ undone ∙ simp append_assoc,
        )
      ]

  record_catalog-Ends :
      (server : McpServer) (metadata : Dict String) (calls : Calls)
      → Ends server metadata calls (record_catalog services tenant_id server metadata calls)
  record_catalog-Ends server metadata calls = record_catalog-after server metadata calls _ (λ i. (
    (discover_mcp_catalog services tenant_id (server.mcp).address (some server.credential_id)
        calls).0,
    discover-calls (server.mcp).address (some server.credential_id) calls i,
  ))

  -- If an add has stored a credential, it ends in one of three ways. The tools are read, and written
  -- with the hub's consent by the last call, and the server with them is what is returned. Or something is
  -- thrown and the last call deletes the credential. Or the tools are read and the hub is not reached
  -- when they are written: that is thrown, and that call is the last one.
  pub add_mcp_server-Ends :
      (handle name address : String) (token : Option String) (sentinel : String) (calls : Calls)
      (server : McpServer) (stored : Calls)
      → store_server services tenant_id handle name address token sentinel calls
        ≡ (done server, stored)
      → Ends server [] stored
          (add_mcp_server services tenant_id handle name address token sentinel calls)
  unfolding add_mcp_server
  add_mcp_server-Ends handle name address token sentinel calls server stored h =
      subst (Ends server [] stored) (sym (rw h)) (record_catalog-Ends server [] stored)
