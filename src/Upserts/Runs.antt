-- ===== src/Upserts/Runs.antt =====
-- `upsert_run`, `run_workflow_id` and `propagate_workflow_id` of backend/app/upserts.py.
use Prim.Native.String.{compare}
use Prim.Native.Nat.{Ordering}
use flakehound.Base.{
  ℕ, String, Bool, true, false, ◌&&◌, not, Option, none, some, List, [], ◌∷◌, map, filter, any,
  keep_if, ◌==◌, same, is_some, if◌then◌else◌,
}
use flakehound.Base.Sort.{sort}
use flakehound.Base.Upsert.{upsert}
use flakehound.Facts.{Job, WorkflowRun}
use flakehound.Upserts.Progress.{advanced, progress, identity, status_rank}

-- The columns that `upsert_run` takes by name; a stub leaves out all but the first.
pub record RunFields : Type 0 where
  pub workflow_id : Option ℕ
  pub head_branch : Option String
  pub event : Option String
  pub status : Option String
  pub conclusion : Option String
  pub run_started_at : Option ℕ
  pub github_created_at : Option ℕ
  pub github_updated_at : Option ℕ

abbrev pub stub : Option String → RunFields
stub head_branch = record {
  workflow_id = none;
  head_branch = head_branch;
  event = none;
  status = none;
  conclusion = none;
  run_started_at = none;
  github_created_at = none;
  github_updated_at = none;
}

unfoldable pub run_values : ℕ → ℕ → ℕ → ℕ → String → RunFields → WorkflowRun
run_values now repo_id run_id run_attempt head_sha f = record {
  run_id = run_id;
  run_attempt = run_attempt;
  repo_id = repo_id;
  workflow_id = f.workflow_id;
  head_sha = head_sha;
  head_branch = f.head_branch;
  event = f.event;
  status = f.status;
  conclusion = f.conclusion;
  run_started_at = f.run_started_at;
  github_created_at = f.github_created_at;
  github_updated_at = f.github_updated_at;
  created_at = now;
  updated_at = now;
}

unfoldable pub merge_run : ℕ → WorkflowRun → WorkflowRun → WorkflowRun
unfolding status_rank
merge_run now new old =
    let forward = advanced new.status old.status in
    record old {
      head_sha = new.head_sha;
      workflow_id = identity new.workflow_id old.workflow_id;
      head_branch = progress forward new.head_branch old.head_branch;
      event = progress forward new.event old.event;
      status = if forward then new.status else old.status;
      conclusion = progress forward new.conclusion old.conclusion;
      run_started_at = progress forward new.run_started_at old.run_started_at;
      github_created_at = progress forward new.github_created_at old.github_created_at;
      github_updated_at = progress forward new.github_updated_at old.github_updated_at;
      updated_at = now;
    }

abbrev pub same_attempt : WorkflowRun → WorkflowRun → Bool
same_attempt a b = b.run_id == a.run_id && b.run_attempt == a.run_attempt

unfoldable pub upsert_run : ℕ → ℕ → ℕ → ℕ → String → RunFields → List WorkflowRun → List WorkflowRun
unfolding run_values merge_run
upsert_run now repo_id run_id run_attempt head_sha f =
    let new = run_values now repo_id run_id run_attempt head_sha f in
    upsert (same_attempt new) (merge_run now new) new

-- LIMIT 1 with no order: here the first in the table's order.
unfoldable pub run_workflow_id : ℕ → List WorkflowRun → Option ℕ
run_workflow_id run_id [] = none
run_workflow_id run_id (r ∷ rs) =
    if r.run_id == run_id && is_some r.workflow_id then r.workflow_id else run_workflow_id run_id rs

abbrev pub unknown_in : ℕ → ℕ → Option ℕ → Bool
unknown_in run_id i w = i == run_id && not (is_some w)

unfoldable pub fill_run : ℕ → ℕ → ℕ → WorkflowRun → WorkflowRun
fill_run now run_id w r =
    if unknown_in run_id r.run_id r.workflow_id
    then record r { workflow_id = some w; updated_at = now }
    else r

unfoldable pub fill_job : ℕ → ℕ → ℕ → Job → Job
fill_job now run_id w j =
    if unknown_in run_id j.run_id j.workflow_id
    then record j { workflow_id = some w; updated_at = now }
    else j

abbrev text_le : String → String → Bool
text_le s t = elim (compare s t) [ Ordering.gt ↦ false | _ ↦ true ]

unfoldable pub distinct_texts : List String → List String
distinct_texts [] = []
distinct_texts (x ∷ xs) = keep_if (not (any (same x) xs)) x (distinct_texts xs)

-- The changed jobs' names, sorted and each once, then the jobs and the runs.
unfoldable pub propagate_workflow_id :
    ℕ → ℕ → ℕ → List Job → List WorkflowRun → List String × List Job × List WorkflowRun
unfolding fill_run fill_job distinct_texts
propagate_workflow_id now run_id w jobs runs = (
  sort text_le (
      distinct_texts
        (map (λ j. j.name) (filter (λ j. unknown_in run_id j.run_id j.workflow_id) jobs))),
  map (fill_job now run_id w) jobs,
  map (fill_run now run_id w) runs,
)
