-- ===== src/Insights/Rollup.antt =====
-- The figures agree with each other.
use workbench.Prelude.{
  ℕ, suc, ◌+◌, ◌≤◌, ◌≡◌, refl, ◌∙◌, String, ◌==◌, Bool, true, false, or_else, List, [], ◌∷◌, ◌++◌,
  keep, length, length-append, Dict, lookup, insert, arith, if◌then◌else◌, Bool-cases, inl, inr,
}
use workbench.Insights.{
  Clock, InsightsRun, WorkflowRow, BenchInsights, Bucket, ok_bucket, fail_bucket, other_bucket,
  Tally, is_ok_bucket, is_fail_bucket, bucket_of, group_key, place_sorted, sort, group_runs,
}
use workbench.Insights.Figures.{
  count_run, count_runs, workflow_row, workflow_rows, compute_bench_insights, runs_within,
  days_down, start_of,
}

module _ {A : Type 0} where
  abbrev pub sum : (A → ℕ) → List A → ℕ
  sum f [] = 0
  sum f (x ∷ xs) = f x + sum f xs

  sum-append : (f : A → ℕ) (xs ys : List A) → sum f (xs ++ ys) ≡ sum f xs + sum f ys
  sum-append f [] ys = omega arith
  sum-append f (x ∷ xs) ys = omega (arith, sum-append f xs ys)

  sum-place_sorted :
      (is_after : A → A → Bool) (f : A → ℕ) (a : A) (xs : List A)
      → sum f (place_sorted is_after a xs) ≡ f a + sum f xs
  unfolding place_sorted
  sum-place_sorted is_after f a [] = refl
  sum-place_sorted is_after f a (x ∷ xs) = ground (arith, sum-place_sorted is_after f a xs)

  pub sum-sort :
      (is_after : A → A → Bool) (f : A → ℕ) (xs : List A) → sum f (sort is_after xs) ≡ sum f xs
  unfolding sort
  sum-sort is_after f [] = refl
  sum-sort is_after f (x ∷ xs) =
      omega (arith, sum-place_sorted is_after f x (sort is_after xs), sum-sort is_after f xs)

  length-keep-sum :
      (p : A → Bool) (xs : List A) → length (keep p xs) ≡ sum (λ x. if p x then 1 else 0) xs
  length-keep-sum p [] = refl
  length-keep-sum p (x ∷ xs) = ground (arith, length-keep-sum p xs)

-- Over all groups.
abbrev pub sum_groups : (List InsightsRun → ℕ) → Dict (List InsightsRun) → ℕ
sum_groups w [] = 0
sum_groups w ((key, runs) ∷ groups) = w runs + sum_groups w groups

-- A measure of lists of runs that counts each run by itself.
pub record IsCount (w : List InsightsRun → ℕ) : Type 0 where
  pub empty : w [] ≡ 0
  pub append : (xs ys : List InsightsRun) → w (xs ++ ys) ≡ w xs + w ys

module _ (w : List InsightsRun → ℕ) (count : IsCount w) where
  insert-sum :
      (key : String) (new : List InsightsRun) (extra : ℕ) (groups : Dict (List InsightsRun))
      → w new ≡ w (or_else (lookup key groups) []) + extra
      → sum_groups w (insert key new groups) ≡ sum_groups w groups + extra
  unfolding insert lookup
  insert-sum key new extra [] h = omega (arith, h, count.empty)
  insert-sum key new extra ((held, old) ∷ groups) h = elim (Bool-cases (held == key)) [
    | inl same ↦ rw same (omega (arith, rw same at h))
    | inr other ↦ rw other (omega (arith, insert-sum key new extra groups (rw other at h)))
  ]

  pub group_runs-sum :
      (runs : List InsightsRun) (groups : Dict (List InsightsRun))
      → sum_groups w (group_runs groups runs) ≡ sum_groups w groups + w runs
  unfolding group_runs
  group_runs-sum [] groups = omega (arith, count.empty)
  group_runs-sum (run ∷ runs) groups = omega (
    arith,
    group_runs-sum runs
        (insert (group_key run) (or_else (lookup (group_key run) groups) [] ++ run ∷ []) groups),
    insert-sum (group_key run) (or_else (lookup (group_key run) groups) [] ++ run ∷ [])
        (w (run ∷ [])) groups
        (count.append (or_else (lookup (group_key run) groups) []) (run ∷ [])),
    count.append (run ∷ []) runs,
  )

pub length-IsCount : IsCount length
length-IsCount = record { empty = refl; append = length-append }

-- The runs of a kind.
abbrev of_kind : (Bucket → Bool) → List InsightsRun → ℕ
of_kind is_kind runs = length (keep (λ r. is_kind (bucket_of r)) runs)

abbrev bit : Bool → ℕ
bit b = if b then 1 else 0

of_kind-sum :
    (is_kind : Bucket → Bool) (runs : List InsightsRun)
    → of_kind is_kind runs ≡ sum (λ r. bit (is_kind (bucket_of r))) runs
of_kind-sum is_kind runs = length-keep-sum (λ r. is_kind (bucket_of r)) runs

of_kind-IsCount : (is_kind : Bucket → Bool) → IsCount (of_kind is_kind)
of_kind-IsCount is_kind = record {
  empty = refl;
  append = λ xs ys.
      of_kind-sum is_kind (xs ++ ys)
      ∙ sum-append (λ r. bit (is_kind (bucket_of r))) xs ys
      ∙ omega (arith, of_kind-sum is_kind xs, of_kind-sum is_kind ys);
}

one_kind : (b : Bucket) → bit (is_ok_bucket b) + bit (is_fail_bucket b) ≤ 1
one_kind ok_bucket = omega arith
one_kind fail_bucket = omega arith
one_kind other_bucket = omega arith

sum-one_kind :
    (runs : List InsightsRun)
    → sum (λ r. bit (is_ok_bucket (bucket_of r))) runs
        + sum (λ r. bit (is_fail_bucket (bucket_of r))) runs
      ≤ length runs
sum-one_kind [] = omega arith
sum-one_kind (run ∷ runs) = omega (arith, one_kind (bucket_of run), sum-one_kind runs)

bit_add : (b : Bool) (n : ℕ) → (if b then suc n else n) ≡ n + bit b
bit_add true n = omega arith
bit_add false n = omega arith

module _ (clock : Clock) where
  workflow_rows-sum :
      (f : WorkflowRow → ℕ) (w : List InsightsRun → ℕ)
      → ((key : String) (runs : List InsightsRun) → f (workflow_row clock key runs) ≡ w runs)
      → (groups : Dict (List InsightsRun))
      → sum f (workflow_rows clock groups) ≡ sum_groups w groups
  unfolding workflow_rows
  workflow_rows-sum f w same [] = refl
  workflow_rows-sum f w same ((key, runs) ∷ groups) =
      omega (arith, same key runs, workflow_rows-sum f w same groups)

  count_runs-kinds :
      (start : ℕ) (runs : List InsightsRun) (s : Tally)
      → ((count_runs clock start runs s).ok
          ≡ s.ok + sum (λ r. bit (is_ok_bucket (bucket_of r))) runs)
        × ((count_runs clock start runs s).fail
            ≡ s.fail + sum (λ r. bit (is_fail_bucket (bucket_of r))) runs)
  unfolding count_runs count_run
  count_runs-kinds start [] s = (omega arith, omega arith)
  count_runs-kinds start (run ∷ runs) s =
      let (o, f) = count_runs-kinds start runs (count_run clock start run s) in
      (
        omega (arith, o, bit_add (is_ok_bucket (bucket_of run)) s.ok),
        omega (arith, f, bit_add (is_fail_bucket (bucket_of run)) s.fail),
      )

  rows_sum :
      (f : WorkflowRow → ℕ) (w : List InsightsRun → ℕ) (is_after : WorkflowRow → WorkflowRow → Bool)
      → IsCount w
      → ((key : String) (runs : List InsightsRun) → f (workflow_row clock key runs) ≡ w runs)
      → (runs : List InsightsRun)
      → sum f (sort is_after (workflow_rows clock (group_runs [] runs))) ≡ w runs
  rows_sum f w is_after count same runs = omega (
    arith,
    sum-sort is_after f (workflow_rows clock (group_runs [] runs)),
    workflow_rows-sum f w same (group_runs [] runs),
    group_runs-sum w count runs [],
  )

  -- The workflows' runs, successes and failures add up to those of the page, which has at most as many
  -- successes and failures as it has runs.
  abbrev pub AddsUp : BenchInsights → Type 0
  AddsUp stats =
      (sum (λ r. r.runs) stats.workflows ≡ stats.total)
      × (sum (λ r. r.ok) stats.workflows ≡ stats.ok)
      × (sum (λ r. r.fail) stats.workflows ≡ stats.fail)
      × (stats.ok + stats.fail ≤ stats.total)

  -- For every range, time and list of runs, the runs, the successes and the failures of the workflows
  -- add up to the figures of the whole, and the successes and failures together are at most the runs.
  pub compute_bench_insights-AddsUp :
      (range now : ℕ) (runs : List InsightsRun)
      → AddsUp (compute_bench_insights clock range now runs)
  unfolding compute_bench_insights workflow_row
  compute_bench_insights-AddsUp range now runs =
      let days = days_down clock ((clock.midnight) now) range in
      let in_range = runs_within clock (start_of clock days) now runs in
      let (ok, fail) =
        count_runs-kinds (start_of clock days) in_range
          (record { ok = 0; fail = 0; days = days }) in
      let after = λ (a b : WorkflowRow). (clock.is_later) b.last_run a.last_run in
      let oks =
        rows_sum (λ r. r.ok) (of_kind is_ok_bucket) after (of_kind-IsCount is_ok_bucket)
          (λ key rs. refl) in_range in
      let fails =
        rows_sum (λ r. r.fail) (of_kind is_fail_bucket) after (of_kind-IsCount is_fail_bucket)
          (λ key rs. refl) in_range in
      (
        rows_sum (λ r. r.runs) length after length-IsCount (λ key rs. refl) in_range,
        omega (arith, oks, of_kind-sum is_ok_bucket in_range, ok),
        omega (arith, fails, of_kind-sum is_fail_bucket in_range, fail),
        omega (arith, ok, fail, sum-one_kind in_range),
      )
