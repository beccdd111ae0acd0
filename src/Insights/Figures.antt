-- ===== src/Insights/Figures.antt =====
-- The figures of the runs in a range of days: `computeBenchInsights` of apps/web/src/insights-stats.ts.
use workbench.Prelude.{
  take, ℕ, zero, suc, ◌-◌, String, ◌==◌, Bool, false, not, ◌&&◌, Option, none, some, List, [], ◌∷◌,
  keep, length, Dict, ltb, leb, if◌then◌else◌,
}
use workbench.Insights.{
  Clock, InsightsRun, BenchDay, WorkflowRow, BenchInsights, bucket_of, is_ok_bucket, is_fail_bucket,
  run_display_name, median_twice_ms, group_runs, count_at, day_index, Tally, sort,
}

module _ (clock : Clock) where
  unfoldable pub purpose_runs : List InsightsRun → List InsightsRun
  purpose_runs runs =
      keep
        (λ run.
          not (run.definition_name == "worker-deploy-source")
          && not ((clock.is_deploy_source) run.definition_name))
        runs

  abbrev pub newest_first : List InsightsRun → List InsightsRun
  newest_first runs = sort (λ a b. (clock.is_later) b.created_at a.created_at) runs

  abbrev pub duration_of : Option ℕ → Option ℕ → Option ℕ
  duration_of none c = none
  duration_of (some e) none = none
  duration_of (some e) (some c) = if ltb e c then none else some (e - c)

  abbrev pub parsed : Option String → Option ℕ
  parsed none = none
  parsed (some t) = (clock.parse) t

  unfoldable pub run_duration_ms : InsightsRun → Option ℕ
  run_duration_ms run = duration_of (parsed run.ended_at) (parsed (some run.created_at))

  abbrev pub add_duration : Option ℕ → List ℕ → List ℕ
  add_duration none ds = ds
  add_duration (some d) ds = d ∷ ds

  unfoldable pub durations : List InsightsRun → List ℕ
  unfolding run_duration_ms
  durations [] = []
  durations (run ∷ runs) = add_duration (run_duration_ms run) (durations runs)

  abbrev pub days_down : ℕ → ℕ → List BenchDay
  days_down today zero = []
  days_down today (suc i) =
      record { date = (clock.days_before) today i; ok = 0; fail = 0; other = 0 } ∷ days_down today i

  abbrev pub start_of : List BenchDay → ℕ
  start_of [] = 0
  start_of (day ∷ days) = day.date

  abbrev pub is_within : ℕ → ℕ → Option ℕ → Bool
  is_within start now none = false
  is_within start now (some t) = leb start t && leb t now

  unfoldable pub runs_within : ℕ → ℕ → List InsightsRun → List InsightsRun
  unfolding purpose_runs
  runs_within start now runs =
      keep (λ run. is_within start now ((clock.parse) run.created_at)) (purpose_runs runs)

  abbrev pub day_of : ℕ → Option ℕ → Option ℕ
  day_of start none = none
  day_of start (some t) = day_index start ((clock.midnight) t)

  unfoldable pub count_run : ℕ → InsightsRun → Tally → Tally
  unfolding bucket_of day_index
  count_run start run s =
      let b = bucket_of run in
      record {
        ok = if is_ok_bucket b then suc s.ok else s.ok;
        fail = if is_fail_bucket b then suc s.fail else s.fail;
        days = count_at b (day_of start ((clock.parse) run.created_at)) s.days;
      }

  unfoldable pub count_runs : ℕ → List InsightsRun → Tally → Tally
  unfolding count_run
  count_runs start [] s = s
  count_runs start (run ∷ runs) s = count_runs start runs (count_run start run s)

  abbrev pub first_run : List InsightsRun → Option InsightsRun
  first_run [] = none
  first_run (run ∷ runs) = some run

  abbrev pub name_of_first : String → Option InsightsRun → String
  name_of_first key none = key
  name_of_first key (some run) = run_display_name run

  abbrev pub definition_of_first : String → Option InsightsRun → String
  definition_of_first key none = key
  definition_of_first key (some run) = run.definition_name

  abbrev pub created_of_first : Option InsightsRun → String
  created_of_first none = ""
  created_of_first (some run) = run.created_at

  unfoldable pub workflow_row : String → List InsightsRun → WorkflowRow
  unfolding durations median_twice_ms bucket_of sort
  workflow_row key runs =
      let newest = first_run (newest_first runs) in
      record {
        key = key;
        name = name_of_first key newest;
        definition_name = definition_of_first key newest;
        runs = length runs;
        ok = length (keep (λ r. is_ok_bucket (bucket_of r)) runs);
        fail = length (keep (λ r. is_fail_bucket (bucket_of r)) runs);
        median_twice = median_twice_ms (durations runs);
        last_run = created_of_first newest;
      }

  unfoldable pub workflow_rows : Dict (List InsightsRun) → List WorkflowRow
  unfolding workflow_row
  workflow_rows [] = []
  workflow_rows ((key, runs) ∷ groups) = workflow_row key runs ∷ workflow_rows groups

  unfoldable pub compute_bench_insights : ℕ → ℕ → List InsightsRun → BenchInsights
  unfolding runs_within count_runs group_runs workflow_rows sort durations
  compute_bench_insights range now runs =
      let days = days_down ((clock.midnight) now) range in
      let in_range = runs_within (start_of days) now runs in
      let counted =
        count_runs (start_of days) in_range (record { ok = 0; fail = 0; days = days }) in
      record {
        total = length in_range;
        ok = counted.ok;
        fail = counted.fail;
        median_twice = median_twice_ms (durations in_range);
        days = counted.days;
        workflows =
            sort (λ a b. (clock.is_later) b.last_run a.last_run)
              (workflow_rows (group_runs [] in_range));
        failures = take 5 (newest_first (keep (λ r. is_fail_bucket (bucket_of r)) in_range));
      }
