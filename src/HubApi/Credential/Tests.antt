-- ===== src/HubApi/Credential/Tests.antt =====
-- A run of the rotation, and the witness.
use workbench.Prelude.{◌==◌, none, some, List, [], ◌∷◌, if◌then◌else◌}
use workbench.Hub.{Reply, replied}
use workbench.HubApi.{Call}
use workbench.HubApi.Credential.{
  Input, no_input, Provider, CredentialRow, MintedToken, Services, AgentCredentialArgs, list_call,
  revoke_call, drop_call, mint_call, store_call, call_to,
}

-- What the hub's bodies hold
record Paper : Type 0 where
  providers : List Provider
  rows : List CredentialRow
  token : MintedToken
  row : CredentialRow

abbrev prior : CredentialRow
prior = record { id = "c1"; name = "wf-hub"; agent_token_id = some "t1" }

abbrev paper : Paper
paper = record {
  providers = record { id = "p"; name = "workbench-hub" } ∷ [];
  rows = prior ∷ record { id = "c0"; name = "other"; agent_token_id = none } ∷ [];
  token = record { id = "t2"; secret = "s" };
  row = record { id = "c2"; name = "wf-hub"; agent_token_id = some "t2" };
}

-- The prior token is not known any more.
abbrev hub : List (Call Input) → Call Input → Reply Paper
hub calls call =
    replied (if call.address == "/api/tenants/t/agent-tokens/t1" then 404 else 200) (some paper)

abbrev services : Services Paper
services = record {
  hub = hub;
  encode = λ s. s;
  origin = "https://hub";
  providers_page = λ p. some p.providers;
  provider_shape = λ p. none;
  credentials_page = λ p. some p.rows;
  credential_shape = λ p. some p.row;
  minted_token_shape = λ p. some p.token;
}

abbrev args : AgentCredentialArgs
args = record { tenant_id = "t"; definition_id = "wf"; asset_id = "a" }

abbrev calls_made : List (Call Input)
calls_made =
    call_to services args "GET" "/providers" no_input
    ∷ list_call services args
    ∷ revoke_call services args "t1"
    ∷ drop_call services args "c1"
    ∷ mint_call services args
    ∷ store_call services args "p" (paper.token)
    ∷ []
