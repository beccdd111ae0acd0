-- ===== src/WorkerStatus/Tests.antt =====
-- Runs of the worker's status.
use workbench.Prelude.{ℕ, ◌≡◌, refl, String, Option, none, some, List, [], ◌∷◌}
use workbench.WorkerStatus.{
  Bench, Approval, bench_worker_status, agent_status, parked_on_ask, turn_status, turn_answered,
  rank,
}

abbrev lower_none : String → String
lower_none s = s

abbrev no_date : String → Option ℕ
no_date s = none

abbrev bench : String → List Approval → Option ℕ → Bench
bench id approvals sent_at = record {
  id = id;
  agent = some (record { address = "worker"; redeploy = "auto" });
  approvals = approvals;
  sent_at = sent_at;
  timeline = some [];
}

abbrev ask : Approval
ask = record { id = "ask"; status = "pending"; agent_address = "worker" }

asks_first :
    (bench_worker_status lower_none no_date 9
      (bench "a" [] (some 8) ∷ bench "b" (ask ∷ []) none ∷ [])).text
    ≡ "Needs you"
unfolding bench_worker_status agent_status parked_on_ask turn_status turn_answered rank
asks_first = refl
