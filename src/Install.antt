-- ===== src/Install.antt =====
-- The install of a package over the hub's routes (apps/web/src/install-package.ts). The hub is a
-- parameter: what it replies to a request, given the requests before. So are the schemas, JSON, the push
-- of the source tree, which makes requests of its own, and the package's files.
mod Tokens
mod Replies
mod Deployments
mod Tests
use workbench.Prelude.{
  ℕ, String, ◌==◌, ◌<>◌, Bool, true, false, not, ◌&&◌, Option, none, some, or_else, List, [], ◌∷◌,
  ◌++◌, find, Dict, insert, nat_eq, if◌then◌else◌,
}
use workbench.Prelude.Action.{
  Attempt, done, thrown, Action, pure, throw, gets, resume, ◌>>=◌, ◌>>◌, modify,
}
use workbench.Hub.{Reply, unreachable, replied, is_ok}

-- The body of a request, before it is made JSON
pub data RequestInput : Type 0 where
  no_input : RequestInput
  asset_input : String → String → RequestInput  -- name and displayName, of kind "workflow"
  token_input : String → RequestInput  -- resource
  deploy_input : String → String → String → List String → String → RequestInput  -- assetId, commitSha, entry, offerings

pub record HubCall : Type 0 where
  pub method : String
  pub address : String
  pub input : RequestInput

pub record Asset : Type 0 where
  pub id : String
  pub name : String

pub record Token : Type 0 where
  pub id : String
  pub secret : String

pub record Deployment : Type 0 where
  pub id : String
  pub definition_asset_id : String
  pub status : String

pub record ErrorEnvelope : Type 0 where
  pub user_message : Option String
  pub message : Option String

pub record Pushed : Type 0 where
  pub commit_sha : String
  pub changed : Bool

pub record Installed : Type 0 where
  pub asset_id : String
  pub commit_sha : String
  pub deployment_id : String

-- What is thrown: what failed, and the reason that was read; what came back in another shape; the
-- asset that conflicts but is not listed; and what `fetch`, `json()`, the files or the push throw.
pub data InstallError : Type 0 where
  failed : String → String → InstallError
  malformed : String → InstallError
  not_listed : String → InstallError
  fetch_error : Option String → InstallError
  json_error : InstallError
  files_error : String → InstallError
  push_error : String → InstallError

-- The calls made so far
abbrev pub HubCalls : Type 0
HubCalls = List HubCall

abbrev pub Install : Type 0 → Type 0
Install = Action HubCalls InstallError

pub record PushArgs : Type 0 where
  pub git_url : String
  pub token_secret : String
  pub tree : Dict String
  pub message : String

pub record InstallPackageArgs : Type 0 where
  pub origin : String
  pub tenant_id : String
  pub asset_name : String
  pub display_name : String
  pub files : String → Install (Dict String)
  pub entry : String
  pub source_offering_ids : List String
  pub default_source_offering_id : String
  pub redeploy : Bool

pub record Services (Body : Type 0) : Type 0 where
  pub hub : HubCalls → HubCall → Reply Body
  pub encode : String → String  -- `encodeURIComponent`
  pub status_text : ℕ → String  -- "HTTP …"
  pub install_json : String → List String → String → String
  pub push_source_tree : PushArgs → Install Pushed
  pub id_shape : Body → Option String
  pub asset_list_shape : Body → Option (List Asset)
  pub git_token_shape : Body → Option Token
  pub deployment_list_shape : Body → Option (List Deployment)
  pub error_envelope : Body → Option ErrorEnvelope

-- `finally`: what the second action throws counts, and else what came of the first.
abbrev pub after_finally :
    {A : Type 0}
    → Attempt InstallError A
    → Attempt InstallError (Unit {0}) × HubCalls
    → Attempt InstallError A × HubCalls
after_finally first (done u, calls) = (first, calls)
after_finally first (thrown e, calls) = (thrown e, calls)

unfoldable pub try_finally : {A : Type 0} → Install A → Install (Unit {0}) → Install A
try_finally first second calls = after_finally (first calls).0 (second (first calls).1)

module _ {Body : Type 0} (services : Services Body) (args : InstallPackageArgs) where
  abbrev pub base : String
  base = args.origin <> "/api/tenants/" <> (services.encode) args.tenant_id

  abbrev pub replied_with : Reply Body → Install (ℕ × Option Body)
  replied_with (unreachable cause) = throw (fetch_error cause)
  replied_with (replied status body) = pure (status, body)

  unfoldable pub fetch_hub : String → String → RequestInput → Install (ℕ × Option Body)
  fetch_hub method address input calls =
      let call : HubCall = record { method = method; address = address; input = input } in
      replied_with ((services.hub) calls call) (calls ++ call ∷ [])

  abbrev pub envelope_text : ℕ → Option ErrorEnvelope → String
  envelope_text status none = (services.status_text) status
  envelope_text status (some e) =
      or_else e.user_message (or_else e.message ((services.status_text) status))

  -- `readError`
  unfoldable pub read_error : ℕ × Option Body → String
  read_error (status, none) = (services.status_text) status
  read_error (status, some body) = envelope_text status ((services.error_envelope) body)

  abbrev pub shape_or_throw : {A : Type 0} → String → Option A → Install A
  shape_or_throw what none = throw (malformed what)
  shape_or_throw what (some a) = pure a

  -- `Shape(await response.json())`, with the throw if it does not fit
  unfoldable pub parse_reply : {A : Type 0} → String → (Body → Option A) → Option Body → Install A
  parse_reply what shape none = throw json_error
  parse_reply what shape (some body) = shape_or_throw what (shape body)

  -- A response that is not `ok` is thrown.
  unfoldable pub ok_reply :
      {A : Type 0} → String → String → (Body → Option A) → ℕ × Option Body → Install A
  unfolding read_error parse_reply
  ok_reply what thing shape r =
      if is_ok r.0 then parse_reply thing shape r.1 else throw (failed what (read_error r))

  -- A request whose response has to be `ok` and to fit
  unfoldable pub request_ok :
      {A : Type 0}
      → String
      → String
      → RequestInput
      → String
      → String
      → (Body → Option A)
      → Install A
  unfolding fetch_hub ok_reply
  request_ok method address input what thing shape =
      fetch_hub method address input >>= ok_reply what thing shape

  abbrev pub listed_id : Option Asset → Install String
  listed_id none = throw (not_listed args.asset_name)
  listed_id (some a) = pure a.id

  unfoldable pub ensure_workflow_asset : Install String
  unfolding fetch_hub request_ok parse_reply read_error
  ensure_workflow_asset =
      fetch_hub "POST" (base <> "/assets") (asset_input args.asset_name args.display_name)
      >>= (λ created.
          if nat_eq created.0 201
          then parse_reply "the asset" (services.id_shape) created.1
          else if nat_eq created.0 409
          then request_ok "GET" (base <> "/assets?kind=workflow&inherited=false") no_input
              "listing assets" "the asset list" (services.asset_list_shape)
            >>= (λ assets. listed_id (find (λ a. a.name == args.asset_name) assets))
          else throw (failed "creating the asset" (read_error created)))

  abbrev pub reusable : Option Deployment → Option String
  reusable none = none
  reusable (some d) = if d.status == "deployed" then some d.id else none

  unfoldable pub latest_deployment_id : String → Install (Option String)
  unfolding request_ok
  latest_deployment_id asset_id =
      request_ok "GET" (base <> "/workflows/deployments") no_input "listing deployments"
        "the deployment list" (services.deployment_list_shape)
      >>= (λ deployments.
          pure (reusable (find (λ d. d.definition_asset_id == asset_id) deployments)))

  unfoldable pub mint_token : String → Install Token
  unfolding request_ok
  mint_token asset_id =
      request_ok "POST" (base <> "/git-tokens") (token_input ("asset:" <> asset_id))
        "minting a push token" "the push token" (services.git_token_shape)

  abbrev pub install_input_path : String
  install_input_path = ".workbench-install.json"

  unfoldable pub tree_of : Dict String → Dict String
  tree_of source =
      insert install_input_path
        ((services.install_json) args.entry args.source_offering_ids
          args.default_source_offering_id)
        source

  abbrev pub revoke_call : Token → HubCall
  revoke_call token = record {
    method = "DELETE";
    address = base <> "/git-tokens/" <> (services.encode) token.id;
    input = no_input;
  }

  unfoldable pub revoke : Token → Install (Unit {0})
  unfolding fetch_hub
  revoke token =
      fetch_hub "DELETE" (base <> "/git-tokens/" <> (services.encode) token.id) no_input >> pure tt

  -- The `try` with its `finally`
  unfoldable pub push_files : Dict String → Token → Install Pushed
  unfolding tree_of try_finally revoke
  push_files source token =
      try_finally
        ((services.push_source_tree) (record {
          git_url = base <> "/assets/workflow/" <> args.asset_name <> ".git";
          token_secret = token.secret;
          tree = tree_of source;
          message = "Publish " <> args.asset_name;
        }))
        (revoke token)

  abbrev pub deploy_call : String → String → HubCall
  deploy_call asset_id commit_sha = record {
    method = "POST";
    address = base <> "/workflows/deployments";
    input =
        deploy_input asset_id commit_sha args.entry args.source_offering_ids
          args.default_source_offering_id;
  }

  unfoldable pub deploy : String → Pushed → Install Installed
  unfolding request_ok
  deploy asset_id pushed =
      request_ok "POST" (base <> "/workflows/deployments")
        (deploy_input asset_id pushed.commit_sha args.entry args.source_offering_ids
          args.default_source_offering_id)
        "deploying" "the deployment" (services.id_shape)
      >>= (λ id.
          pure (record { asset_id = asset_id; commit_sha = pushed.commit_sha; deployment_id = id }))

  unfoldable pub reuse_or_deploy : String → Pushed → Option String → Install Installed
  unfolding deploy
  reuse_or_deploy asset_id pushed none = deploy asset_id pushed
  reuse_or_deploy asset_id pushed (some id) =
      pure (record { asset_id = asset_id; commit_sha = pushed.commit_sha; deployment_id = id })

  -- What follows the push
  unfoldable pub conclude : String → Pushed → Install Installed
  unfolding latest_deployment_id deploy reuse_or_deploy
  conclude asset_id pushed =
      if not pushed.changed && not args.redeploy
      then latest_deployment_id asset_id >>= reuse_or_deploy asset_id pushed
      else deploy asset_id pushed

  -- What precedes the push: the asset, its files and the token
  unfoldable pub prepare : Install (String × Dict String × Token)
  unfolding ensure_workflow_asset mint_token
  prepare = ensure_workflow_asset >>= (λ asset_id.
      (args.files) asset_id
      >>= (λ source. mint_token asset_id >>= (λ token. pure (asset_id, source, token))))

  unfoldable pub install_package : Install Installed
  unfolding prepare push_files conclude
  install_package = prepare >>= (λ p. push_files p.1 p.2 >>= (λ pushed. conclude p.0 pushed))
