-- ===== src/Detection.antt =====
-- backend/app/detection.py: the two signals over the `jobs` table, and the `flake_events` table
-- that they write.
mod Tests
pub mod Signals
pub mod Recovery
pub mod Replay
pub mod Group
pub mod Both
pub mod Eligible
use flakehound.Base.{
  ℕ, ◌+◌, String, Bool, true, false, ◌&&◌, ◌||◌, not, Option, none, some, List, [], ◌∷◌, map, ltb,
  leb, ◌==◌, any, filter, keep_if, length, same, same_text?, if◌then◌else◌, is_some, coalesce, ◌++◌,
}
use flakehound.Base.Sql.{sql_and, sql_not, sql_test, is_true}
use flakehound.Base.Sort.{sort}
use flakehound.Base.Upsert.{upsert}
use flakehound.Facts.{Job}

pub record Settings : Type 0 where
  pub timed_out_is_failure : Bool
  pub exclude_infra_failures : Bool

pub data Outcome : Type 0 where
  success failure : Outcome

pub record Opportunity : Type 0 where
  pub job_id : ℕ
  pub run_id : ℕ
  pub run_attempt : ℕ
  pub outcome : Outcome
  pub workflow_id : Option ℕ
  pub head_sha : String
  pub completed_at : Option ℕ

abbrev eligible : Settings → List String
eligible s = "success" ∷ "failure" ∷ (if s.timed_out_is_failure then "timed_out" ∷ [] else [])

-- The SQL value of the filter at one row.
unfoldable pub opportunity_filter : Settings → Job → Option Bool
opportunity_filter s j = sql_and (sql_test (λ c. any (same c) (eligible s)) j.conclusion) (
    if s.exclude_infra_failures
    then sql_not (
        sql_and (sql_test (λ c. not (same c "success")) j.conclusion)
          (sql_and (some (is_some j.step_count)) (sql_test (λ n. n == 0) j.completed_step_count)))
    else some true)

-- Whether a WHERE by the filter takes the row.
unfoldable pub is_opportunity : Settings → Job → Bool
unfolding opportunity_filter
is_opportunity s j = is_true (opportunity_filter s j)

unfoldable pub outcome_expression : Job → Outcome
outcome_expression j =
    if is_true (sql_test (λ c. same c "success") j.conclusion) then success else failure

abbrev pub is_failure : Outcome → Bool
is_failure failure = true
is_failure success = false

abbrev pub is_success : Outcome → Bool
is_success success = true
is_success failure = false

unfoldable pub to_opportunity : Job → Opportunity
unfolding outcome_expression
to_opportunity j = record {
  job_id = j.id;
  run_id = j.run_id;
  run_attempt = j.run_attempt;
  outcome = outcome_expression j;
  workflow_id = j.workflow_id;
  head_sha = j.head_sha;
  completed_at = j.completed_at;
}

-- ORDER BY run_id, run_attempt
abbrev pub attempt_le : Job → Job → Bool
attempt_le a b = ltb a.run_id b.run_id || (a.run_id == b.run_id && leb a.run_attempt b.run_attempt)

unfoldable pub opportunities : Settings → (Job → Bool) → List Job → List Opportunity
unfolding is_opportunity to_opportunity
opportunities s where_clause jobs =
    map to_opportunity (sort attempt_le (filter (λ j. where_clause j && is_opportunity s j) jobs))

abbrev pub in_run : ℕ → ℕ → String → Job → Bool
in_run repo_id run_id job_name j =
    j.repo_id == repo_id && j.run_id == run_id && same j.name job_name

unfoldable pub opportunities_in_run : Settings → ℕ → ℕ → String → List Job → List Opportunity
unfolding opportunities
opportunities_in_run s repo_id run_id job_name = opportunities s (in_run repo_id run_id job_name)

-- SQL's `column = value`, where NULL is not TRUE.
abbrev pub is_num : ℕ → Option ℕ → Bool
is_num n none = false
is_num n (some m) = m == n

abbrev pub on_commit : ℕ → ℕ → String → String → Job → Bool
on_commit repo_id workflow_id job_name head_sha j =
    j.repo_id == repo_id
    && is_num workflow_id j.workflow_id
    && same j.name job_name
    && same j.head_sha head_sha

unfoldable pub opportunities_on_commit :
    Settings → ℕ → ℕ → String → String → List Job → List Opportunity
unfolding opportunities
opportunities_on_commit s repo_id workflow_id job_name head_sha =
    opportunities s (on_commit repo_id workflow_id job_name head_sha)
