-- ===== src/Insights/Groups.antt =====
-- The runs grouped by definition, and the counts of artifacts and approvals
-- (apps/web/src/insights-stats.ts).
use workbench.Prelude.{
  take, ℕ, zero, suc, ◌≡◌, refl, String, ◌==◌, Bool, true, false, ◌&&◌, Option, none, some, List,
  [], ◌∷◌, keep, length, Dict, ltb, leb, arith, if◌then◌else◌,
}
use workbench.Insights.{Clock, InsightsRun, sort, group_runs}
use workbench.Insights.Figures.{
  newest_first, first_run, name_of_first, created_of_first, runs_within,
}
use workbench.Insights.Rollup.{sum, sum_groups, sum-sort, group_runs-sum, length-IsCount}

pub record RunGroup : Type 0 where
  pub key : String
  pub display_name : String
  pub runs : List InsightsRun

pub record Artifact : Type 0 where
  pub archived_at : Option String
  pub created_at : String

pub record ApprovalRuns : Type 0 where
  pub runs : List InsightsRun
  pub capped : Bool

pub record ApprovalRow : Type 0 where
  pub status : String
  pub scope : Option String

pub record ApprovalCounts : Type 0 where
  pub once : ℕ
  pub always : ℕ
  pub denied : ℕ
  pub waiting : ℕ

abbrev pub approval_run_cap : ℕ
approval_run_cap = 50

abbrev pub is_always : Option String → Bool
is_always none = false
is_always (some scope) = scope == "always"

unfoldable pub count_approval : ApprovalRow → ApprovalCounts → ApprovalCounts
count_approval a c =
    if a.status == "pending"
    then record c { waiting = suc c.waiting }
    else if a.status == "rejected"
    then record c { denied = suc c.denied }
    else if a.status == "approved"
    then if is_always a.scope
      then record c { always = suc c.always }
      else record c { once = suc c.once }
    else c

unfoldable pub count_approvals : ApprovalCounts → List ApprovalRow → ApprovalCounts
unfolding count_approval
count_approvals c [] = c
count_approvals c (a ∷ rows) = count_approvals (count_approval a c) rows

module _ (clock : Clock) where
  unfoldable pub run_group : String → List InsightsRun → RunGroup
  unfolding sort
  run_group key runs = record {
    key = key;
    display_name = name_of_first clock key (first_run clock (newest_first clock runs));
    runs = newest_first clock runs;
  }

  unfoldable pub run_groups : Dict (List InsightsRun) → List RunGroup
  unfolding run_group
  run_groups [] = []
  run_groups ((key, runs) ∷ groups) = run_group key runs ∷ run_groups groups

  unfoldable pub group_runs_by_definition : List InsightsRun → List RunGroup
  unfolding run_groups group_runs sort
  group_runs_by_definition runs =
      sort
        (λ a b.
          (clock.is_later) (created_of_first clock (first_run clock b.runs))
            (created_of_first clock (first_run clock a.runs)))
        (run_groups (group_runs [] runs))

  abbrev pub is_since : ℕ → Option ℕ → Bool
  is_since since none = false
  is_since since (some t) = leb since t

  abbrev pub is_kept : Option String → Bool
  is_kept none = true
  is_kept (some t) = false

  unfoldable pub count_saved_artifacts : List Artifact → ℕ → ℕ
  count_saved_artifacts artifacts since =
      length
        (keep (λ a. is_kept a.archived_at && is_since since ((clock.parse) a.created_at)) artifacts)

  abbrev pub pred : ℕ → ℕ
  pred zero = zero
  pred (suc n) = n

  unfoldable pub approval_runs_in_range : ℕ → ℕ → List InsightsRun → ApprovalRuns
  unfolding runs_within sort
  approval_runs_in_range range now runs =
      let start = (clock.days_before) ((clock.midnight) now) (pred range) in
      let in_range = newest_first clock (runs_within clock start now runs) in
      record {
        runs = take approval_run_cap in_range;
        capped = ltb approval_run_cap (length in_range);
      }

  length-sum : {A : Type 0} (xs : List A) → length xs ≡ sum (λ x. 1) xs
  length-sum [] = refl
  length-sum (x ∷ xs) = omega (arith, length-sum xs)

  -- The sort of a group's runs keeps their number.
  run_groups-sum :
      (groups : Dict (List InsightsRun))
      → sum (λ g. length g.runs) (run_groups groups) ≡ sum_groups length groups
  unfolding run_groups run_group
  run_groups-sum [] = refl
  run_groups-sum ((key, runs) ∷ groups) = omega (
    arith,
    length-sum runs,
    length-sum (newest_first clock runs),
    sum-sort (λ a b. (clock.is_later) b.created_at a.created_at) (λ r. 1) runs,
    run_groups-sum groups,
  )

  -- Every run is in one group: the groups have as many runs as there were.
  pub group_runs_by_definition-sum :
      (runs : List InsightsRun)
      → sum (λ g. length g.runs) (group_runs_by_definition runs) ≡ length runs
  unfolding group_runs_by_definition
  group_runs_by_definition-sum runs = omega (
    arith,
    sum-sort
        (λ a b.
          (clock.is_later) (created_of_first clock (first_run clock b.runs))
            (created_of_first clock (first_run clock a.runs)))
        (λ g. length g.runs) (run_groups (group_runs [] runs)),
    run_groups-sum (group_runs [] runs),
    group_runs-sum length length-IsCount runs [],
  )
