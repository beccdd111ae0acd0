-- ===== src/HubApi/Credential/Rotation.antt =====
-- The rotation of an agent's hub credential (apps/web/src/agent-hub-credential.ts), call by call.
use workbench.Prelude.{◌≡◌, String, ◌==◌, false, not, Option, none, some, List, [], ◌∷◌, ◌++◌, keep}
use workbench.Hub.{is_ok}
use workbench.HubApi.{Call, Answered, Gave}
use workbench.HubApi.Credential.{
  Input, CredentialRow, MintedToken, Services, AgentCredentialArgs, credential_name, list_call,
  revoke_call, drop_call, left_valid, prior_token, mint_call, store_call,
}

module _ {Body : Type 0} (services : Services Body) (args : AgentCredentialArgs) where
  abbrev Calls : Type 0
  Calls = List (Call Input)

  -- The token was revoked, or was so before.
  abbrev pub IsRevoked : Calls → String → Type 0
  IsRevoked calls token_id =
      Answered (services.hub) (λ status. left_valid services args status ≡ false) calls
        (revoke_call services args token_id)

  abbrev pub revocations : Option String → Calls
  revocations none = []
  revocations (some token_id) = revoke_call services args token_id ∷ []

  abbrev pub AreRevoked : Calls → Option String → Type 0
  AreRevoked calls none = Unit
  AreRevoked calls (some token_id) = IsRevoked calls token_id

  -- The calls that replace rows, and that the hub accepts them, given those before
  abbrev pub replacing : List CredentialRow → Calls
  replacing [] = []
  replacing (row ∷ rows) =
      revocations (prior_token services args row.agent_token_id)
      ++ drop_call services args row.id ∷ replacing rows

  abbrev pub AreReplaced : Calls → List CredentialRow → Type 0
  AreReplaced calls [] = Unit
  AreReplaced calls (row ∷ rows) =
      let revoked = calls ++ revocations (prior_token services args row.agent_token_id) in
      AreRevoked calls (prior_token services args row.agent_token_id)
      × Answered (services.hub) (λ status. not (is_ok status) ≡ false) revoked
          (drop_call services args row.id)
      × AreReplaced (revoked ++ drop_call services args row.id ∷ []) rows

  -- The rows of the agent's name
  abbrev pub prior_rows : List CredentialRow → List CredentialRow
  prior_rows = keep (λ row. row.name == credential_name services args)

  -- What was done where an id was returned
  pub record IsRotated (id : String) (after : Calls) : Type 0 where
    pub before : Calls
    pub provider_id : String
    pub rows : List CredentialRow
    pub token : MintedToken
    pub stored : CredentialRow
    pub listed :
        Gave (services.hub) (services.credentials_page) before (list_call services args) rows
    pub replaced : AreReplaced (before ++ list_call services args ∷ []) (prior_rows rows)
    pub minted :
        Gave
          (services.hub)
          (services.minted_token_shape)
          ((before ++ list_call services args ∷ []) ++ replacing (prior_rows rows))
          (mint_call services args)
          token
    pub was_stored :
        Gave
          (services.hub)
          (services.credential_shape)
          (((before ++ list_call services args ∷ []) ++ replacing (prior_rows rows))
            ++ mint_call services args ∷ [])
          (store_call services args provider_id token)
          stored
    pub returned : stored.id ≡ id
    pub calls_made :
        after
        ≡ ((before ++ list_call services args ∷ []) ++ replacing (prior_rows rows))
          ++ mint_call services args ∷ store_call services args provider_id token ∷ []
