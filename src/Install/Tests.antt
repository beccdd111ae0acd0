-- ===== src/Install/Tests.antt =====
-- Runs of the install of a package.
use workbench.Prelude.{◌≡◌, refl, String, false, Option, none, some, List, [], ◌∷◌}
use workbench.Prelude.Action.{Attempt, done, thrown}
use workbench.Hub.{Reply, replied}
use workbench.Install.{
  RequestInput, no_input, asset_input, token_input, deploy_input, HubCall, Token, Deployment,
  Pushed, Installed, InstallError, push_error, InstallPackageArgs, Services, try_finally, fetch_hub,
  parse_reply, ok_reply, request_ok, ensure_workflow_asset, latest_deployment_id, mint_token,
  revoke, push_files, reuse_or_deploy, conclude, prepare, install_package,
}
use workbench.Install.Deployments.{IsInstalled, install_package-IsInstalled}

-- What the hub's bodies hold
data Answer : Type 0 where
  id_answer : String → Answer
  token_answer : Token → Answer
  deployments_answer : List Deployment → Answer

abbrev id_in : Answer → Option String
id_in (id_answer id) = some id
id_in (token_answer t) = none
id_in (deployments_answer ds) = none

abbrev token_in : Answer → Option Token
token_in (id_answer id) = none
token_in (token_answer t) = some t
token_in (deployments_answer ds) = none

abbrev deployments_in : Answer → Option (List Deployment)
deployments_in (id_answer id) = none
deployments_in (token_answer t) = none
deployments_in (deployments_answer ds) = some ds

-- The hub creates the asset "a1", mints the token "t1" and lists a deployment "d1" of the asset.
abbrev answer : RequestInput → Reply Answer
answer no_input = replied 200 (
    some (
      deployments_answer
        (record { id = "d1"; definition_asset_id = "a1"; status = "deployed" } ∷ [])))
answer (asset_input name display) = replied 201 (some (id_answer "a1"))
answer (token_input resource) =
    replied 201 (some (token_answer (record { id = "t1"; secret = "hush" })))
answer (deploy_input asset commit entry offerings default) = replied 201 (some (id_answer "d2"))

abbrev pushing : Attempt InstallError Pushed → Services Answer
pushing outcome = record {
  hub = λ calls call. answer call.input;
  encode = λ s. s;
  status_text = λ n. "HTTP";
  install_json = λ entry offerings default. entry;
  push_source_tree = λ push calls. (outcome, calls);
  id_shape = id_in;
  asset_list_shape = λ body. none;
  git_token_shape = token_in;
  deployment_list_shape = deployments_in;
  error_envelope = λ body. none;
}

abbrev tool_package : InstallPackageArgs
tool_package = record {
  origin = "hub";
  tenant_id = "t";
  asset_name = "tool";
  display_name = "Tool";
  files = λ asset_id calls. (done (("index.ts", "1") ∷ []), calls);
  entry = "index.ts";
  source_offering_ids = [];
  default_source_offering_id = "o";
  redeploy = false;
}

abbrev unchanged : Pushed
unchanged = record { commit_sha = "c0"; changed = false }

abbrev call : String → String → RequestInput → HubCall
call method address input = record { method = method; address = address; input = input }

abbrev reused_calls : List HubCall
reused_calls =
    call "POST" "hub/api/tenants/t/assets" (asset_input "tool" "Tool")
    ∷ call "POST" "hub/api/tenants/t/git-tokens" (token_input "asset:a1")
    ∷ call "DELETE" "hub/api/tenants/t/git-tokens/t1" no_input
    ∷ call "GET" "hub/api/tenants/t/workflows/deployments" no_input
    ∷ []

abbrev reused_install : Installed
reused_install = record { asset_id = "a1"; commit_sha = "c0"; deployment_id = "d1" }

-- An identical tree is not deployed again.
install_reused :
    install_package (pushing (done unchanged)) tool_package [] ≡ (done reused_install, reused_calls)
unfolding install_package prepare ensure_workflow_asset mint_token request_ok fetch_hub parse_reply
    ok_reply push_files try_finally revoke conclude latest_deployment_id reuse_or_deploy
install_reused = refl

install_package-IsInstalled_example :
    IsInstalled (pushing (done unchanged)) tool_package [] reused_install reused_calls
install_package-IsInstalled_example =
    install_package-IsInstalled (pushing (done unchanged)) tool_package [] reused_install
      reused_calls install_reused

-- A push that throws has its token revoked, too.
install_thrown :
    (install_package (pushing (thrown (push_error "refused"))) tool_package []).1
    ≡ call "POST" "hub/api/tenants/t/assets" (asset_input "tool" "Tool")
      ∷ call "POST" "hub/api/tenants/t/git-tokens" (token_input "asset:a1")
      ∷ call "DELETE" "hub/api/tenants/t/git-tokens/t1" no_input
      ∷ []
unfolding install_package prepare ensure_workflow_asset mint_token request_ok fetch_hub parse_reply
    ok_reply push_files try_finally revoke
install_thrown = refl
