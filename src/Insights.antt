-- ===== src/Insights.antt =====
-- The figures of the insights page (apps/web/src/insights-stats.ts), with the outcome of a run
-- (apps/web/src/run-outcome.ts). Dates and the order of texts are in the record `Clock`; a date is the
-- number of its milliseconds. A date before 1970 counts as none: it is in no range and gives no
-- duration either way.
pub mod Figures
pub mod Rollup
mod Groups
mod Outcomes
mod Tests
use workbench.Prelude.{
  take, ℕ, zero, suc, ◌+◌, ◌-◌, ◌*◌, ◌/◌, ◌%◌, String, ◌==◌, Bool, true, false, not, ◌&&◌, ◌||◌,
  Option, none, some, or_else, List, [], ◌∷◌, ◌++◌, map, keep, length, get_elem?, Dict, lookup,
  insert, ltb, leb, nat_eq, if◌then◌else◌,
}

pub record Clock : Type 0 where
  pub parse : String → Option ℕ  -- `Date.parse`
  pub midnight : ℕ → ℕ  -- `setHours(0, 0, 0, 0)`
  pub days_before : ℕ → ℕ → ℕ  -- `setDate(getDate() - n)`
  pub is_later : String → String → Bool  -- `a.localeCompare(b) > 0`
  pub is_deploy_source : String → Bool  -- `isAgentDeploySourceAssetName`

pub record InsightsRun : Type 0 where
  pub definition_id : String
  pub definition_name : String
  pub routine_id : Option String
  pub routine_name : Option String
  pub status : String
  pub created_at : String
  pub ended_at : Option String

pub data Bucket : Type 0 where
  ok_bucket fail_bucket other_bucket : Bucket

pub record BenchDay : Type 0 where
  pub date : ℕ
  pub ok : ℕ
  pub fail : ℕ
  pub other : ℕ

pub record WorkflowRow : Type 0 where
  pub key : String
  pub name : String
  pub definition_name : String
  pub runs : ℕ
  pub ok : ℕ
  pub fail : ℕ
  pub median_twice : Option ℕ
  pub last_run : String

pub record BenchInsights : Type 0 where
  pub total : ℕ
  pub ok : ℕ
  pub fail : ℕ
  pub median_twice : Option ℕ
  pub days : List BenchDay
  pub workflows : List WorkflowRow
  pub failures : List InsightsRun

abbrev pub is_run_failed : String → Bool
is_run_failed status = status == "error" || status == "failed"

abbrev pub has_end : Option String → Bool
has_end none = false
has_end (some t) = not (t == "")

unfoldable pub run_outcome_status : String → Option String → String
run_outcome_status status ended_at =
    if status == "running"
    then if has_end ended_at then "completed" else "running"
    else if status == "error"
    then "failed"
    else status

unfoldable pub bucket_of : InsightsRun → Bucket
unfolding run_outcome_status
bucket_of run =
    let outcome = run_outcome_status run.status run.ended_at in
    if outcome == "completed"
    then ok_bucket
    else if is_run_failed outcome
    then fail_bucket
    else other_bucket

abbrev pub is_ok_bucket : Bucket → Bool
is_ok_bucket ok_bucket = true
is_ok_bucket fail_bucket = false
is_ok_bucket other_bucket = false

abbrev pub is_fail_bucket : Bucket → Bool
is_fail_bucket ok_bucket = false
is_fail_bucket fail_bucket = true
is_fail_bucket other_bucket = false

abbrev pub run_display_name : InsightsRun → String
run_display_name run = or_else run.routine_name run.definition_name

abbrev pub group_key : InsightsRun → String
group_key run = or_else run.routine_id run.definition_id

-- The stable sort of the runtime, by whether one element comes after another.
module _ {A : Type 0} (is_after : A → A → Bool) where
  unfoldable pub place_sorted : A → List A → List A
  place_sorted a [] = a ∷ []
  place_sorted a (x ∷ xs) = if is_after a x then x ∷ place_sorted a xs else a ∷ x ∷ xs

  unfoldable pub sort : List A → List A
  unfolding place_sorted
  sort [] = []
  sort (a ∷ xs) = place_sorted a (sort xs)

-- Twice the median, which may be a half.
unfoldable pub median_twice_ms : List ℕ → Option ℕ
unfolding sort
median_twice_ms [] = none
median_twice_ms (v ∷ vs) =
    let sorted = sort (λ a b. ltb b a) (v ∷ vs) in
    let mid = length sorted / 2 in
    let hi = or_else (get_elem? sorted mid) 0 in
    some
      (if nat_eq (length sorted % 2) 1 then 2 * hi else or_else (get_elem? sorted (mid - 1)) 0 + hi)

-- `groups.set(key, [...(groups.get(key) ?? []), run])`, run after run
unfoldable pub group_runs : Dict (List InsightsRun) → List InsightsRun → Dict (List InsightsRun)
group_runs groups [] = groups
group_runs groups (run ∷ runs) =
    group_runs
      (insert (group_key run) (or_else (lookup (group_key run) groups) [] ++ run ∷ []) groups) runs

abbrev pub count_on : Bucket → BenchDay → BenchDay
count_on ok_bucket day = record day { ok = suc day.ok }
count_on fail_bucket day = record day { fail = suc day.fail }
count_on other_bucket day = record day { other = suc day.other }

abbrev pub count_at : Bucket → Option ℕ → List BenchDay → List BenchDay
count_at b none days = days
count_at b (some i) [] = []
count_at b (some zero) (day ∷ days) = count_on b day ∷ days
count_at b (some (suc i)) (day ∷ days) = day ∷ count_at b (some i) days

abbrev pub day_ms : ℕ
day_ms = 86400000

-- `Math.round((midnight - start) / DAY_MS)`, as an index
unfoldable pub day_index : ℕ → ℕ → Option ℕ
day_index start midnight =
    if leb start midnight
    then some ((2 * (midnight - start) + day_ms) / (2 * day_ms))
    else if leb (2 * (start - midnight)) day_ms
    then some 0
    else none

-- What the loop of `computeBenchInsights` writes.
pub record Tally : Type 0 where
  pub ok : ℕ
  pub fail : ℕ
  pub days : List BenchDay
