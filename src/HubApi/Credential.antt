-- ===== src/HubApi/Credential.antt =====
-- The credential by which a deployed agent calls the hub (apps/web/src/agent-hub-credential.ts). The
-- schemas are parameters, and so is the origin of the page.
mod Rotation
mod Tests
use workbench.Prelude.{
  ℕ, Bool, String, ◌==◌, ◌<>◌, not, ◌&&◌, Option, none, some, List, [], ◌∷◌, find, keep, nat_eq,
  if◌then◌else◌,
}
use workbench.Prelude.Action.{pure, ◌>>=◌, ◌>>◌}
use workbench.Hub.{Reply, is_ok}
use workbench.Worker.{agent_hub_credential_name, hub_provider_name}
use workbench.HubApi.{Call, Api, tenant_path, request_json, request_unless}

-- The body of a request
pub data Input : Type 0 where
  no_input : Input
  provider_input : String → String → String → Input  -- name, plugin, apiBaseUrl
  token_input : String → String → Input  -- definitionId, name
  credential_input : String → String → String → String → Input  -- providerId, name, secret, agentTokenId

pub record Provider : Type 0 where
  pub id : String
  pub name : String

pub record CredentialRow : Type 0 where
  pub id : String
  pub name : String
  pub agent_token_id : Option String  -- `metadata?.["agentTokenId"]`, if it is a text

pub record MintedToken : Type 0 where
  pub id : String
  pub secret : String

pub record Services (Body : Type 0) : Type 0 where
  pub hub : List (Call Input) → Call Input → Reply Body
  pub encode : String → String  -- `encodeURIComponent`
  pub origin : String
  pub providers_page : Body → Option (List Provider)
  pub provider_shape : Body → Option Provider
  pub credentials_page : Body → Option (List CredentialRow)
  pub credential_shape : Body → Option CredentialRow
  pub minted_token_shape : Body → Option MintedToken

pub record AgentCredentialArgs : Type 0 where
  pub tenant_id : String
  pub definition_id : String
  pub asset_id : String

abbrev pub hub_provider_plugin : String
hub_provider_plugin = "http-raw-authorization"

module _ {Body : Type 0} (services : Services Body) (args : AgentCredentialArgs) where
  abbrev pub call_to : String → String → Input → Call Input
  call_to method suffix input = record {
    method = method;
    address = tenant_path (services.encode) args.tenant_id suffix;
    input = input;
  }

  abbrev pub credential_name : String
  credential_name = agent_hub_credential_name args.definition_id

  unfoldable pub found_or_created : Option Provider → Api Input String
  unfolding request_json
  found_or_created (some provider) = pure provider.id
  found_or_created none =
      request_json (services.hub)
        (call_to "POST" "/providers"
          (provider_input hub_provider_name hub_provider_plugin (services.origin)))
        "preparing this workbench's hub provider failed" "this workbench's hub provider"
        (services.provider_shape)
      >>= (λ provider. pure provider.id)

  unfoldable pub ensure_hub_provider : Api Input String
  unfolding request_json found_or_created
  ensure_hub_provider =
      request_json (services.hub) (call_to "GET" "/providers" no_input)
        "listing this workbench's providers failed" "this workbench's providers"
        (services.providers_page)
      >>= (λ providers. found_or_created (find (λ p. p.name == hub_provider_name) providers))

  abbrev pub list_call : Call Input
  list_call = call_to "GET" "/credentials" no_input

  abbrev pub revoke_call : String → Call Input
  revoke_call token_id = call_to "DELETE" ("/agent-tokens/" <> (services.encode) token_id) no_input

  abbrev pub drop_call : String → Call Input
  drop_call id = call_to "DELETE" ("/credentials/" <> (services.encode) id) no_input

  -- The token that a row recorded, if it is not empty
  abbrev pub prior_token : Option String → Option String
  prior_token none = none
  prior_token (some id) = if id == "" then none else some id

  -- The statuses of a token that is still valid
  abbrev pub left_valid : ℕ → Bool
  left_valid status = not (is_ok status) && not (nat_eq status 404)

  unfoldable pub revoke_prior : Option String → Api Input (Unit {0})
  unfolding request_unless
  revoke_prior none = pure tt
  revoke_prior (some token_id) =
      request_unless (services.hub) left_valid (revoke_call token_id)
        "revoking this agent's previous hub token failed"

  unfoldable pub drop_row : CredentialRow → Api Input (Unit {0})
  unfolding request_unless
  drop_row row =
      request_unless (services.hub) (λ status. not (is_ok status)) (drop_call row.id)
        "replacing this agent's hub credential failed"

  -- The loop over the prior rows
  unfoldable pub replace_rows : List CredentialRow → Api Input (Unit {0})
  unfolding revoke_prior drop_row
  replace_rows [] = pure tt
  replace_rows (row ∷ rows) =
      revoke_prior (prior_token row.agent_token_id) >> (drop_row row >> replace_rows rows)

  abbrev pub mint_call : Call Input
  mint_call = call_to "POST" "/agent-tokens" (token_input args.asset_id credential_name)

  abbrev pub store_call : String → MintedToken → Call Input
  store_call provider_id token =
      call_to "POST" "/credentials"
        (credential_input provider_id credential_name ("Bearer " <> token.secret) token.id)

  unfoldable pub store_token : String → MintedToken → Api Input String
  unfolding request_json
  store_token provider_id token =
      request_json (services.hub) (store_call provider_id token)
        "storing this agent's hub token failed" "this agent's hub credential"
        (services.credential_shape)
      >>= (λ stored. pure stored.id)

  unfoldable pub mint_and_store : String → Api Input String
  unfolding request_json store_token
  mint_and_store provider_id =
      request_json (services.hub) mint_call "minting this agent's hub token failed"
        "this agent's hub token" (services.minted_token_shape)
      >>= store_token provider_id

  -- What follows the listing of the credentials
  unfoldable pub replace_listed : String → List CredentialRow → Api Input String
  unfolding replace_rows mint_and_store
  replace_listed provider_id rows =
      replace_rows (keep (λ row. row.name == credential_name) rows) >> mint_and_store provider_id

  unfoldable pub replace_credential : String → Api Input String
  unfolding request_json replace_listed
  replace_credential provider_id =
      request_json (services.hub) list_call "listing this workbench's credentials failed"
        "this workbench's credentials" (services.credentials_page)
      >>= replace_listed provider_id

  unfoldable pub ensure_agent_hub_credential : Api Input String
  unfolding ensure_hub_provider replace_credential
  ensure_agent_hub_credential = ensure_hub_provider >>= replace_credential
