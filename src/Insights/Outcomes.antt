-- ===== src/Insights/Outcomes.antt =====
-- The words and tones of a run's state (apps/web/src/run-outcome.ts).
use workbench.Prelude.{
  ◌≡◌, refl, String, ◌==◌, Bool, false, not, ◌||◌, Option, none, some, or_else, [], ◌∷◌, Dict,
  lookup, if◌then◌else◌,
}
use workbench.Insights.{is_run_failed}

pub data RoutineTone : Type 0 where
  live failed info idle : RoutineTone

abbrev pub is_run_active : String → Bool
is_run_active status = status == "running" || status == "updating"

abbrev pub run_status_words : Dict String
run_status_words =
    ("running", "Running now")
    ∷ ("updating", "Running now")
    ∷ ("completed", "Finished")
    ∷ ("deployed", "Finished")
    ∷ ("failed", "Failed")
    ∷ ("error", "Failed")
    ∷ ("cancelled", "Cancelled")
    ∷ ("stopped", "Stopped")
    ∷ ("queued", "Waiting to start")
    ∷ ("pending", "Waiting to start")
    ∷ []

-- Of a status that is no name of `Object.prototype`
unfoldable pub run_status_label : String → String
unfolding lookup
run_status_label status = or_else (lookup status run_status_words) status

abbrev pub is_finished : String → Bool
is_finished status = status == "deployed" || status == "completed"

unfoldable pub routine_run_tone : String → RoutineTone
routine_run_tone status =
    if is_run_failed status
    then failed
    else if is_run_active status
    then info
    else if is_finished status
    then live
    else idle

unfoldable pub routine_run_label : String → String
routine_run_label status =
    if is_run_failed status then "failed" else if is_finished status then "ok" else status

abbrev pub has_failed : Option String → Bool
has_failed none = false
has_failed (some status) = is_run_failed status

abbrev pub is_active : Option String → Bool
is_active none = false
is_active (some status) = is_run_active status

-- Of the definition's status, whether its schedule is enabled, and the status of the last run
unfoldable pub routine_state : String → Bool → Option String → RoutineTone × String
routine_state status schedule_enabled last_run =
    if has_failed last_run
    then (failed, "failed")
    else if status == "stopped" || not schedule_enabled
    then (idle, "paused")
    else if is_active last_run
    then (info, "running")
    else (live, "live")

failed_first : routine_state "stopped" false (some "error") ≡ (failed, "failed")
unfolding routine_state
failed_first = refl

labelled : run_status_label "queued" ≡ "Waiting to start"
unfolding run_status_label
labelled = refl
