-- ===== src/Install/Tokens.antt =====
-- Every push token that is minted is revoked.
use workbench.Prelude.{◌≡◌, String, ◌<>◌, ◌∷◌, ◌++◌, Dict}
use workbench.Prelude.Action.{Attempt, done, thrown}
use workbench.Install.{
  Token, Pushed, Installed, InstallError, HubCalls, Install, InstallPackageArgs, Services, base,
  revoke_call, tree_of,
}

-- The calls go on from these.
abbrev pub GoesOn : HubCalls → HubCalls → Type 0
GoesOn start calls = (later : HubCalls) × (calls ≡ start ++ later)

module _ {Body : Type 0} (services : Services Body) (args : InstallPackageArgs) where
  -- The push itself
  abbrev pub push_of : Dict String → Token → Install Pushed
  push_of source token = (services.push_source_tree) (record {
    git_url = base services args <> "/assets/workflow/" <> args.asset_name <> ".git";
    token_secret = token.secret;
    tree = tree_of services args source;
    message = "Publish " <> args.asset_name;
  })

  -- The preparations threw, and nothing follows them; or they minted a token, and right after the push
  -- comes the call that revokes it.
  abbrev pub Revokes :
      Attempt InstallError (String × Dict String × Token) × HubCalls
      → Attempt InstallError Installed × HubCalls
      → Type 0
  Revokes (thrown e, calls) out = out ≡ (thrown e, calls)
  Revokes (done (asset_id, source, token), calls) out =
      (later : HubCalls) × (out.1
        ≡ (push_of source token calls).1 ++ revoke_call services args token ∷ later)
