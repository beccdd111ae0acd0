-- ===== src/WorkerStatus/Liveness.antt =====
-- What a worker's deployment says of it (apps/web/src/chat/deployment-liveness.ts, and `workerStatus` of
-- apps/web/src/worker-status.ts). `Date.parse` is a parameter; a date that it cannot read gives none.
use workbench.Prelude.{
  ℕ, ◌+◌, ◌≡◌, refl, ◌↔◌, String, ◌==◌, Bool, true, false, ◌||◌, Option, none, some, or_else, ltb,
  arith, is_some, if◌then◌else◌,
}
use workbench.WorkerStatus.{working, ready, idle, Status}

pub data DeploymentLiveness : Type 0 where
  live starting stopped : DeploymentLiveness

abbrev pub is_dead : Option String → Bool
is_dead none = false
is_dead (some status) = status == "error" || status == "stopped"

unfoldable pub deployment_liveness : String → Option String → DeploymentLiveness
deployment_liveness deployment_status run_status =
    if is_dead run_status
    then stopped
    else if deployment_status == "deployed"
    then live
    else if deployment_status == "pending" || deployment_status == "recovering"
    then starting
    else stopped

abbrev pub quick_death : ℕ
quick_death = 120000

-- A comparison with NaN is false.
abbrev pub is_quick : Option ℕ → Option ℕ → Bool
is_quick none ended = false
is_quick (some created) none = false
is_quick (some created) (some ended) = ltb ended (created + quick_death)

unfoldable pub died_quickly : (String → Option ℕ) → String → String → Option String → Bool
died_quickly parse_date created_at updated_at ended_at =
    is_quick (parse_date created_at) (parse_date (or_else ended_at updated_at))

pub data RedeployMode : Type 0 where
  auto manual : RedeployMode

pub record AgentLiveness : Type 0 where
  pub live_address : Option String
  pub latest : DeploymentLiveness
  pub capped : Bool

abbrev pub mode_of_dead : DeploymentLiveness → Bool → Option RedeployMode
mode_of_dead stopped true = some manual
mode_of_dead stopped false = some auto
mode_of_dead live capped = none
mode_of_dead starting capped = none

unfoldable pub redeploy_mode : AgentLiveness → Option RedeployMode
redeploy_mode agent =
    if is_some agent.live_address then none else mode_of_dead agent.latest agent.capped

abbrev pub is_manual : Option RedeployMode → Bool
is_manual none = false
is_manual (some auto) = false
is_manual (some manual) = true

-- `WorkerState`
unfoldable pub worker_state : AgentLiveness → DeploymentLiveness
unfolding redeploy_mode
worker_state agent =
    if is_some agent.live_address
    then live
    else if is_manual (redeploy_mode agent)
    then stopped
    else starting

abbrev pub status_of : DeploymentLiveness → Status
status_of live = record { tone = idle; text = "Waiting for mail" }
status_of stopped = record { tone = ready; text = "Stopped. Restart it to put it back to work." }
status_of starting = record { tone = working; text = "Starting up" }

unfoldable pub worker_status : AgentLiveness → Status
unfolding worker_state
worker_status agent = status_of (worker_state agent)

-- A worker waits for the person exactly if it does not redeploy on its own.
worker_status-ready :
    (agent : AgentLiveness)
    → ((worker_status agent).tone ≡ ready) ↔ (redeploy_mode agent ≡ some manual)
unfolding worker_status
worker_status-ready agent = (λ h. ground arith, λ h. ground arith)

capped_out :
    worker_status (record {
      live_address = none;
      latest = deployment_liveness "deployed" (some "error");
      capped = true;
    })
    ≡ record { tone = ready; text = "Stopped. Restart it to put it back to work." }
unfolding worker_status deployment_liveness
capped_out = refl
