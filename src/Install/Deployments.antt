-- ===== src/Install/Deployments.antt =====
-- An install that returns reused the latest deployment, or made a new one.
use workbench.Prelude.{
  ℕ, ◌≡◌, refl, sym, ap, ◌∙◌, ◌⊎◌, inl, inr, String, ◌==◌, ◌<>◌, false, not, ◌&&◌, Option, none,
  some, List, [], ◌∷◌, ◌++◌, arith, find, Dict, Bool-cases, some_eq, eq_iff,
}
use workbench.Prelude.Action.{done, pure, ◌>>=◌, bind-done}
use workbench.Hub.{replied}
use workbench.Install.{
  no_input, deploy_input, HubCall, Token, Deployment, Pushed, Installed, HubCalls,
  InstallPackageArgs, base, Services, request_ok, latest_deployment_id, reusable, push_files,
  deploy_call, deploy, reuse_or_deploy, conclude, prepare, install_package,
}
use workbench.Install.Replies.{returned_eq, request_ok-done}

-- A deployment that can be used again
reusable-found :
    {Body : Type 0} (services : Services Body) (args : InstallPackageArgs)
    (found : Option Deployment) {id : String}
    → reusable services args found ≡ some id
    → (d : Deployment) × (found ≡ some d) × (d.status ≡ "deployed") × (d.id ≡ id)
reusable-found services args none h = absurd cc
reusable-found services args (some d) h = elim (Bool-cases (d.status == "deployed")) [
  | inl e ↦ (d, refl, (eq_iff d.status "deployed").0 e, some_eq (rw (e) at h))
  | inr e ↦ absurd (cc (rw (e) at h))
]

module _ {Body : Type 0} (services : Services Body) (args : InstallPackageArgs) where
  abbrev pub list_call : HubCall
  list_call = record {
    method = "GET";
    address = base services args <> "/workflows/deployments";
    input = no_input;
  }

  -- The deployment is the latest of the asset in the list that the hub gives, and is deployed.
  abbrev pub IsLatest : HubCalls → String → String → Type 0
  IsLatest calls asset_id deployment_id =
      (status : ℕ) × (body : Body) × (deployments : List Deployment) × (d : Deployment)
      × ((services.hub) calls list_call ≡ replied status (some body))
      × ((services.deployment_list_shape) body ≡ some deployments)
      × (find (λ d. d.definition_asset_id == asset_id) deployments ≡ some d)
      × (d.status ≡ "deployed")
      × (d.id ≡ deployment_id)

  -- The last call deploys the commit for the asset.
  abbrev pub EndsDeployed : HubCalls → String → String → Type 0
  EndsDeployed after asset_id commit_sha =
      (before : HubCalls) × (after ≡ before ++ deploy_call services args asset_id commit_sha ∷ [])

  deploy-done :
      (asset_id : String) (pushed : Pushed) (calls : HubCalls) {out : Installed} {after : HubCalls}
      → deploy services args asset_id pushed calls ≡ (done out, after)
      → (out.asset_id ≡ asset_id)
        × (out.commit_sha ≡ pushed.commit_sha)
        × (after ≡ calls ++ deploy_call services args asset_id pushed.commit_sha ∷ [])
  unfolding deploy
  deploy-done asset_id pushed calls h =
      let (id, t, e, returned) =
        bind-done
          (request_ok services args "POST" (base services args <> "/workflows/deployments")
            (deploy_input asset_id pushed.commit_sha args.entry args.source_offering_ids
              args.default_source_offering_id)
            "deploying" "the deployment" (services.id_shape))
          (λ id.
            pure
              (record { asset_id = asset_id; commit_sha = pushed.commit_sha; deployment_id = id }))
          calls h in
      let (status, body, replied_as, f, after_request) =
        request_ok-done services args "POST" _ _ "deploying" "the deployment" (services.id_shape)
          calls e in
      let (same, reached) = returned_eq returned in
      (
        sym (ap (λ (i : Installed). i.asset_id) same),
        sym (ap (λ (i : Installed). i.commit_sha) same),
        sym reached ∙ after_request,
      )

  -- The latest deployment was taken: nothing had changed and none was demanded.
  abbrev pub IsReused : HubCalls → String → Pushed → String → HubCalls → Type 0
  IsReused calls asset_id pushed deployment_id after =
      (pushed.changed ≡ false)
      × (args.redeploy ≡ false)
      × IsLatest calls asset_id deployment_id
      × (after ≡ calls ++ list_call ∷ [])

  abbrev pub IsConcluded : HubCalls → String → Pushed → Installed → HubCalls → Type 0
  IsConcluded calls asset_id pushed out after =
      (out.asset_id ≡ asset_id)
      × (out.commit_sha ≡ pushed.commit_sha)
      × (IsReused calls asset_id pushed out.deployment_id after
          ⊎ EndsDeployed after asset_id pushed.commit_sha)

  concluded :
      (asset_id : String) (pushed : Pushed) (calls start : HubCalls) {out : Installed}
      {after : HubCalls}
      → deploy services args asset_id pushed start ≡ (done out, after)
      → IsConcluded calls asset_id pushed out after
  concluded asset_id pushed calls start h =
      let (own, commit, last) = deploy-done asset_id pushed start h in
      (own, commit, inr (start, last))

  -- The list of the deployments was read.
  abbrev pub IsListed : HubCalls → String → Option String → HubCalls → Type 0
  IsListed calls asset_id latest after =
      (status : ℕ) × (body : Body) × (deployments : List Deployment) × ((services.hub) calls
          list_call
        ≡ replied status (some body))
      × ((services.deployment_list_shape) body ≡ some deployments)
      × (latest
          ≡ reusable services args (find (λ d. d.definition_asset_id == asset_id) deployments))
      × (after ≡ calls ++ list_call ∷ [])

  latest_deployment_id-done :
      (asset_id : String) (calls : HubCalls) {latest : Option String} {after : HubCalls}
      → latest_deployment_id services args asset_id calls ≡ (done latest, after)
      → IsListed calls asset_id latest after
  unfolding latest_deployment_id
  latest_deployment_id-done asset_id calls h =
      let (deployments, t, e, returned) =
        bind-done
          (request_ok services args "GET" (base services args <> "/workflows/deployments") no_input
            "listing deployments" "the deployment list" (services.deployment_list_shape))
          (λ deployments.
            pure
              (reusable services args (find (λ d. d.definition_asset_id == asset_id) deployments)))
          calls h in
      let (status, body, replied_as, f, after_request) =
        request_ok-done services args "GET" _ no_input "listing deployments" "the deployment list"
          (services.deployment_list_shape) calls e in
      let (same, reached) = returned_eq returned in
      (status, body, deployments, replied_as, f, sym same, sym reached ∙ after_request)

  reused :
      (asset_id : String) (pushed : Pushed) (calls t : HubCalls) (latest : Option String)
      {out : Installed} {after : HubCalls}
      → pushed.changed ≡ false
      → args.redeploy ≡ false
      → IsListed calls asset_id latest t
      → reuse_or_deploy services args asset_id pushed latest t ≡ (done out, after)
      → IsConcluded calls asset_id pushed out after
  unfolding reuse_or_deploy
  reused asset_id pushed calls t none unchanged wanted listed h =
      concluded asset_id pushed calls t h
  reused asset_id pushed calls t (some id) unchanged wanted listed h =
      let (status, body, deployments, replied_as, f, latest_is, t_is) = listed in
      let (d, found, deployed, own_id) = reusable-found services args _ (sym latest_is) in
      let (same, reached) = returned_eq h in
      (
        sym (ap (λ (i : Installed). i.asset_id) same),
        sym (ap (λ (i : Installed). i.commit_sha) same),
        inl (
          unchanged,
          wanted,
          (
            status,
            body,
            deployments,
            d,
            replied_as,
            f,
            found,
            deployed,
            own_id ∙ ap (λ (i : Installed). i.deployment_id) same,
          ),
          sym reached ∙ t_is,
        ),
      )

  conclude-done :
      (asset_id : String) (pushed : Pushed) (calls : HubCalls) {out : Installed} {after : HubCalls}
      → conclude services args asset_id pushed calls ≡ (done out, after)
      → IsConcluded calls asset_id pushed out after
  unfolding conclude
  conclude-done asset_id pushed calls h =
      elim (Bool-cases (not pushed.changed && not args.redeploy)) [
        | inr e ↦ concluded asset_id pushed calls calls (rw (e) at h)
        | inl e ↦
            let (latest, t, f, rest) =
              bind-done (latest_deployment_id services args asset_id)
                (reuse_or_deploy services args asset_id pushed) calls (rw (e) at h) in
            reused asset_id pushed calls t latest (ground (arith, e)) (ground (arith, e))
              (latest_deployment_id-done asset_id calls f) rest
      ]

  -- The install went through: its preparations, its push, and what follows it.
  abbrev pub IsInstalled : HubCalls → Installed → HubCalls → Type 0
  IsInstalled calls out after =
      (asset_id : String) × (source : Dict String) × (token : Token) × (ready : HubCalls)
      × (pushed : Pushed) × (published : HubCalls) × (prepare services args calls
          ≡ (done (asset_id, source, token), ready))
      × (push_files services args source token ready ≡ (done pushed, published))
      × IsConcluded published asset_id pushed out after

  -- If an install returns, then it returns the asset and the pushed commit. Either the push changed
  -- nothing and no new deployment was demanded: then the deployment is the first one of the asset in
  -- the hub's list and is deployed, and the request for that list was the last call. Or the last call
  -- deploys the pushed commit.
  pub install_package-IsInstalled :
      (calls : HubCalls) (out : Installed) (after : HubCalls)
      → install_package services args calls ≡ (done out, after)
      → IsInstalled calls out after
  unfolding install_package
  install_package-IsInstalled calls out after h =
      let ((asset_id, source, token), ready, e, rest) =
        bind-done (prepare services args)
          (λ (p : String × Dict String × Token).
            push_files services args p.1 p.2 >>= (λ pushed. conclude services args p.0 pushed))
          calls h in
      let (pushed, published, f, last) =
        bind-done (push_files services args source token) (conclude services args asset_id) ready
          rest in
      (
        asset_id,
        source,
        token,
        ready,
        pushed,
        published,
        e,
        f,
        conclude-done asset_id pushed published last,
      )
