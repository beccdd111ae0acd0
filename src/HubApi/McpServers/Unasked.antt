-- ===== src/HubApi/McpServers/Unasked.antt =====
-- The tools of a deployed MCP server that may be called without a person being asked
-- (apps/web/src/mcp-servers.ts).
use workbench.Prelude.{
  Bool, true, false, Member, All, ◌≢◌, ◌⊎◌, some_eq, Option-cases, ◌++◌, eq_iff, ◌≡◌, refl, sym, ap,
  ◌∙◌, inl, inr, ◌↔◌, String, ◌==◌, ◌<>◌, Option, none, some, or_else, List, [], ◌∷◌, map, find,
  keep, Bool-cases,
}
use workbench.Worker.{McpServerDeployment, mcp_provider_name, mcp_credential_name}
use workbench.HubApi.McpServers.{
  McpTool, McpServer, is_read_only, read_only_tool_names, unless_empty, to_mcp_server_deployment,
  resolve_mcp_server_deployments,
}

-- What a server is deployed as: its own address, credential and tools, the names of its provider and
-- credential, and as the tools that are called without asking exactly those with a hint that they only
-- read. A list of such tools that is given is not empty.
pub record IsDeployed (server : McpServer) (d : McpServerDeployment) : Type 0 where
  pub same_handle : d.handle ≡ (server.mcp).handle
  pub same_address : d.server_address ≡ (server.mcp).address
  pub same_credential : d.credential_id ≡ server.credential_id
  pub provider : d.provider_name ≡ mcp_provider_name (server.mcp).handle
  pub credential : d.credential_name ≡ mcp_credential_name (server.mcp).handle
  pub same_tools : d.tools ≡ map (λ (t : McpTool). t.name) (server.mcp).tools
  pub unasked :
      (name : String)
      → Member name (or_else d.allow_without_ask []) ↔ (
          (t : McpTool) × Member t (server.mcp).tools
          × (t.read_only_hint ≡ some true)
          × (name ≡ (server.mcp).handle <> "." <> t.name))
  pub none_given : d.allow_without_ask ≢ some []

unless_empty_lem : (names : List String) → or_else (unless_empty names) [] ≡ names
unless_empty_lem [] = refl
unless_empty_lem (name ∷ names) = refl

unless_empty-some : (names : List String) → unless_empty names ≢ some []
unless_empty-some [] e = cc
unless_empty-some (name ∷ names) e = absurd (cc (some_eq e))

is_read_only-hint : (hint : Option Bool) → (or_else hint false ≡ true) ↔ (hint ≡ some true)
is_read_only-hint none = (λ h. absurd (cc), λ h. absurd (cc))
is_read_only-hint (some b) = (λ h. ap some h, λ h. some_eq h)

qualified-hinted :
    (handle name : String) (tools : List McpTool)
    → Member name (map (λ (t : McpTool). handle <> "." <> t.name) (keep is_read_only tools)) ↔ (
        (t : McpTool) × Member t tools
        × (t.read_only_hint ≡ some true)
        × (name ≡ handle <> "." <> t.name))
qualified-hinted handle name [] = (λ h. absurd h, λ (t, mem, hint, e). absurd mem)
qualified-hinted handle name (t ∷ tools) =
    let ih = qualified-hinted handle name tools in
    elim (Bool-cases (is_read_only t)) [
      | inl read ↦ rw read (
        λ h. elim h [
          | inl e ↦ (t, inl refl, (is_read_only-hint t.read_only_hint).0 read, e)
          | inr h' ↦ let (u, mem, hint, e) = ih.0 h' in (u, inr mem, hint, e)
        ],
        λ (u, mem, hint, e). elim mem [
          | inl same ↦ inl (e ∙ ap (λ (v : McpTool). handle <> "." <> v.name) same)
          | inr mem' ↦ inr (ih.1 (u, mem', hint, e))
        ],
      )
      | inr other ↦ rw other (
        λ h. let (u, mem, hint, e) = ih.0 h in (u, inr mem, hint, e),
        λ (u, mem, hint, e). elim mem [
          | inl same ↦ absurd (
              cc (
                sym other
                ∙ (is_read_only-hint t.read_only_hint).1
                    (ap (λ (v : McpTool). v.read_only_hint) (sym same) ∙ hint)))
          | inr mem' ↦ ih.1 (u, mem', hint, e)
        ],
      )
    ]

deployment-IsDeployed : (server : McpServer) → IsDeployed server (to_mcp_server_deployment server)
unfolding to_mcp_server_deployment read_only_tool_names
deployment-IsDeployed server = record {
  same_handle = refl;
  same_address = refl;
  same_credential = refl;
  provider = refl;
  credential = refl;
  same_tools = refl;
  unasked = λ name.
      rw
        (unless_empty_lem (
          map (λ (t : McpTool). (server.mcp).handle <> "." <> t.name)
            (keep is_read_only (server.mcp).tools)))
        (qualified-hinted (server.mcp).handle name (server.mcp).tools);
  none_given = unless_empty-some _;
}

-- Each is the deployment of the first server of its handle.
abbrev pub AreDeployed : List McpServer → List String → List McpServerDeployment → Type 0
AreDeployed catalog [] ds = ds ≡ []
AreDeployed catalog (handle ∷ handles) [] = ⊥
AreDeployed catalog (handle ∷ handles) (d ∷ ds) =
    ((server : McpServer) × (before after : List McpServer) × (catalog ≡ before ++ server ∷ after)
      × All (λ (s : McpServer). (s.mcp).handle ≢ handle) before
      × ((server.mcp).handle ≡ handle)
      × IsDeployed server d)
    × AreDeployed catalog handles ds

-- Some handle is that of no server of the catalog.
abbrev pub HasUnknown : List McpServer → List String → Type 0
HasUnknown catalog handles =
    (handle : String) × Member handle handles
    × All (λ (s : McpServer). (s.mcp).handle ≢ handle) catalog

find-first :
    (catalog : List McpServer) (handle : String) (server : McpServer)
    → find (λ (s : McpServer). (s.mcp).handle == handle) catalog ≡ some server
    → (before after : List McpServer) × (catalog ≡ before ++ server ∷ after)
      × All (λ (s : McpServer). (s.mcp).handle ≢ handle) before
      × ((server.mcp).handle ≡ handle)
find-first [] handle server h = absurd (cc)
find-first (s ∷ ss) handle server h = elim (Bool-cases ((s.mcp).handle == handle)) [
  | inl here ↦
      let e : s ≡ server = some_eq (rw here at h) in
      (
        [],
        ss,
        ap (λ x. x ∷ ss) e,
        tt,
        ap (λ (x : McpServer). (x.mcp).handle) (sym e) ∙ (eq_iff (s.mcp).handle handle).0 here,
      )
  | inr other ↦
      let (before, after, e, others, same) = find-first ss handle server (rw other at h) in
      (
        s ∷ before,
        after,
        ap (λ l. s ∷ l) e,
        (λ k. cc (sym other ∙ (eq_iff (s.mcp).handle handle).1 k), others),
        same,
      )
]

find-missing :
    (catalog : List McpServer) (handle : String)
    → find (λ (s : McpServer). (s.mcp).handle == handle) catalog ≡ none
    → All (λ (s : McpServer). (s.mcp).handle ≢ handle) catalog
find-missing [] handle h = tt
find-missing (s ∷ ss) handle h = elim (Bool-cases ((s.mcp).handle == handle)) [
  | inl here ↦ absurd (cc (rw here at h))
  | inr other ↦ (
    λ k. cc (sym other ∙ (eq_iff (s.mcp).handle handle).1 k),
    find-missing ss handle (rw other at h),
  )
]

-- Either all handles resolve, and each to the deployment of the first server of the catalog that has it: to
-- that server's address, credential and tools, with as the tools that are called without asking exactly
-- those of which the server says that they only read, behind its handle and a dot. Or none is resolved,
-- and some handle is that of no server of the catalog.
pub resolve_mcp_server_deployments-AreChosen :
    (catalog : List McpServer) (handles : List String)
    → ((ds : List McpServerDeployment) × (resolve_mcp_server_deployments catalog handles ≡ some ds)
        × AreDeployed catalog handles ds)
      ⊎ ((resolve_mcp_server_deployments catalog handles ≡ none) × HasUnknown catalog handles)
unfolding resolve_mcp_server_deployments
resolve_mcp_server_deployments-AreChosen catalog [] = inl ([], refl, refl)
resolve_mcp_server_deployments-AreChosen catalog (handle ∷ handles) =
    elim (Option-cases (find (λ (s : McpServer). (s.mcp).handle == handle) catalog)) [
      | inl missing ↦ inr (rw missing refl, (handle, inl refl, find-missing catalog handle missing))
      | inr (server, found) ↦ elim (resolve_mcp_server_deployments-AreChosen catalog handles) [
        | inr (unresolved, (h, mem, unknown)) ↦
            inr (rw (found, unresolved) refl, (h, inr mem, unknown))
        | inl (ds, resolved, deployed) ↦
            let (before, after, e, others, same) = find-first catalog handle server found in
            inl (
              to_mcp_server_deployment server ∷ ds,
              rw (found, resolved) refl,
              ((server, before, after, e, others, same, deployment-IsDeployed server), deployed),
            )
      ]
    ]
