-- ===== src/WorkerStatus.antt =====
-- The status of a worker (apps/web/src/worker-status.ts): what each bench offers, and which of the
-- offers is shown. Queries and timers are left out: their data is in `Bench`. `toLowerCase`
-- and `Date.parse` are parameters. `sameAddress` stands in apps/web/src/chat/threads-api.ts.
pub mod Ranks
mod Liveness
mod Tests
use workbench.Prelude.{
  ℕ, ◌+◌, String, ◌==◌, Bool, true, false, not, ◌&&◌, ◌||◌, Option, none, some, or_else, List, [],
  ◌∷◌, any, ltb, if◌then◌else◌,
}

pub data Tone : Type 0 where
  working ready idle : Tone

pub record Status : Type 0 where
  pub tone : Tone
  pub text : String

pub record Message : Type 0 where
  pub from_other : Bool  -- `author === "other"`
  pub at : String

pub record Approval : Type 0 where
  pub id : String
  pub status : String
  pub agent_address : String

pub record Agent : Type 0 where
  pub address : String
  pub redeploy : String

-- A bench with the data of its queries; `agent` is the worker found among its participants.
pub record Bench : Type 0 where
  pub id : String
  pub agent : Option Agent
  pub approvals : List Approval
  pub sent_at : Option ℕ  -- of the pending turn
  pub timeline : Option (List Message)

abbrev pub pending_turn_timeout : ℕ
pending_turn_timeout = 600000

-- `RANK[text] ?? 0`
unfoldable pub rank : String → ℕ
rank text =
    if text == "Needs you"
    then 3
    else if text == "Working"
    then 2
    else if text == "Live"
    then 1
    else 0

-- `offer`
unfoldable pub offer : Option Status → Status → Option Status
offer none s = some s
offer (some b) s = if ltb (rank b.text) (rank s.text) then some s else some b

abbrev pub is_after : ℕ → Option ℕ → Bool
is_after sent_at none = false  -- a comparison with NaN
is_after sent_at (some t) = ltb sent_at t

abbrev pub live_status : Status
live_status = record { tone = idle; text = "Live" }

module _ (lower : String → String) (parse_date : String → Option ℕ) where
  abbrev pub same_address : String → String → Bool
  same_address a b = lower a == lower b

  unfoldable pub turn_answered : Option (List Message) → ℕ → Bool
  turn_answered timeline sent_at =
      any (λ m. m.from_other && is_after sent_at (parse_date m.at)) (or_else timeline [])

  unfoldable pub parked_on_ask : List Approval → String → Bool
  parked_on_ask approvals worker =
      any (λ row. row.status == "pending" && same_address row.agent_address worker) approvals

  unfoldable pub turn_settled : ℕ → Option (List Message) → List Approval → String → Bool
  unfolding turn_answered parked_on_ask
  turn_settled sent_at timeline approvals worker =
      parked_on_ask approvals worker || turn_answered timeline sent_at

  -- The end of the loop's body: a turn in flight, or a live worker.
  unfoldable pub turn_status : ℕ → Bench → Option ℕ → Status
  unfolding turn_answered
  turn_status now b none = live_status
  turn_status now b (some sent_at) =
      if ltb now (sent_at + pending_turn_timeout) && not (turn_answered b.timeline sent_at)
      then record { tone = working; text = "Working…" }
      else live_status

  unfoldable pub agent_status : ℕ → Bench → Agent → Status
  unfolding turn_status parked_on_ask
  agent_status now b agent =
      if agent.address == ""
      then record {
        tone = idle;
        text = if agent.redeploy == "manual" then "Stopped" else "Starting";
      }
      else if parked_on_ask b.approvals agent.address
      then record { tone = ready; text = "Needs you" }
      else turn_status now b b.sent_at

  unfoldable pub offer_bench : ℕ → Option Status → Bench → Option Agent → Option Status
  unfolding offer agent_status
  offer_bench now best b none = best
  offer_bench now best b (some agent) = offer best (agent_status now b agent)

  unfoldable pub offer_benches : ℕ → Option Status → List Bench → Option Status
  unfolding offer_bench
  offer_benches now best [] = best
  offer_benches now best (b ∷ bs) = offer_benches now (offer_bench now best b b.agent) bs

  -- What `useBenchWorkerStatus` returns.
  unfoldable pub bench_worker_status : ℕ → List Bench → Status
  unfolding offer_benches
  bench_worker_status now benches = or_else (offer_benches now none benches) live_status

  abbrev pub address_of : Option Agent → String
  address_of none = ""
  address_of (some agent) = agent.address

  abbrev pub is_settled : Bench → Option ℕ → Bool
  is_settled b none = false
  is_settled b (some sent_at) = turn_settled sent_at b.timeline b.approvals (address_of b.agent)

  -- The ids of the benches whose turn has ended.
  unfoldable pub settled : List Bench → List String
  unfolding turn_settled
  settled [] = []
  settled (b ∷ bs) = let rest = settled bs in if is_settled b b.sent_at then b.id ∷ rest else rest
