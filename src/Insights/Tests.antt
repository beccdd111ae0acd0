-- ===== src/Insights/Tests.antt =====
-- Runs of the figures of the insights page.
use workbench.Prelude.{
  ◌*◌, ◌≡◌, refl, String, ◌==◌, false, none, some, List, [], ◌∷◌, if◌then◌else◌,
}
use workbench.Insights.{Clock, InsightsRun, day_ms, run_outcome_status, median_twice_ms}
use workbench.Insights.Figures.{compute_bench_insights}
use workbench.Insights.Rollup.{AddsUp, compute_bench_insights-AddsUp}
use workbench.Insights.Groups.{count_approvals}

-- Two dates, ten days after the beginning.
abbrev sample_clock : Clock
sample_clock = record {
  parse = λ s.
      if s == "nine" then some (9 * day_ms) else if s == "ten" then some (10 * day_ms) else none;
  midnight = λ t. t;
  days_before = λ t n. t;
  is_later = λ a b. false;
  is_deploy_source = λ s. false;
}

abbrev run : String → String → InsightsRun
run definition status = record {
  definition_id = definition;
  definition_name = definition;
  routine_id = none;
  routine_name = none;
  status = status;
  created_at = "ten";
  ended_at = some "ten";
}

abbrev runs : List InsightsRun
runs = run "a" "completed" ∷ run "b" "error" ∷ run "a" "running" ∷ run "b" "stopped" ∷ []

compute_bench_insights-AddsUp_example :
    AddsUp sample_clock (compute_bench_insights sample_clock 7 (10 * day_ms) runs)
compute_bench_insights-AddsUp_example =
    compute_bench_insights-AddsUp sample_clock 7 (10 * day_ms) runs

counted : (compute_bench_insights sample_clock 1 (10 * day_ms) runs).ok ≡ 2
unfolding compute_bench_insights run_outcome_status
counted = refl

medians : (median_twice_ms (5 ∷ 1 ∷ 4 ∷ []) ≡ some 8) × (median_twice_ms (5 ∷ 2 ∷ []) ≡ some 7)
unfolding median_twice_ms
medians = (refl, refl)

-- A timed-out approval is in no count.
approvals :
    count_approvals
      (record { once = 0; always = 0; denied = 0; waiting = 0 })
      (record { status = "approved"; scope = some "always" }
        ∷ record { status = "timed_out"; scope = none }
        ∷ record { status = "pending"; scope = none }
        ∷ [])
    ≡ record { once = 0; always = 1; denied = 0; waiting = 1 }
unfolding count_approvals
approvals = refl
