-- ===== src/Upserts/Tests.antt =====
-- The theorems on backend/app/upserts.py at a job that is queued, starts and completes.
use flakehound.Base.{◌≡◌, ◌<◌, refl, inr, none, some, [], ◌∷◌, arith}
use flakehound.Base.{is_some, true, false}
use flakehound.Base.Result.{Returns}
use flakehound.Base.Upsert.{find}
use flakehound.Json.{Json, obj, field, end, num, str, bool}
use flakehound.Facts.{Job, WorkflowRun, Repository, Source, BackfillStatus}
use flakehound.Upserts.Repositories.{upsert_repository, set_repositories_active}
use flakehound.Upserts.Ownership.{IsInactive, repository_at, upsert_repository-IsInactive}
use flakehound.Upserts.Progress.{status_rank}
use flakehound.Upserts.Jobs.{merge_job}
use flakehound.Upserts.Runs.{stub, run_values, merge_run}
use flakehound.Upserts.Merge.{
  Covers, merge_job_comm, merge_all, merge_all-SameEnd, SameEnd, stub-status,
}

abbrev queued : Job
queued = record {
  id = 10;
  run_id = 1;
  run_attempt = 1;
  repo_id = 3;
  workflow_id = none;
  head_sha = "abc";
  name = "test";
  status = some "queued";
  conclusion = none;
  started_at = none;
  completed_at = none;
  runner_name = none;
  runner_labels = none;
  step_count = none;
  completed_step_count = none;
  created_at = 100;
  updated_at = 100;
}

abbrev started : Job
started = record queued { status = some "in_progress"; started_at = some 200; workflow_id = some 7 }

abbrev completed : Job
completed = record started {
  status = some "completed";
  conclusion = some "success";
  completed_at = some 300;
  step_count = some 4;
  completed_step_count = some 4;
}

behind : status_rank started.status < status_rank completed.status
unfolding status_rank
behind = omega arith

started-Covers : Covers started completed
started-Covers = record {
  conclusion = λ e. refl;
  started_at = λ e. cc;
  completed_at = λ e. refl;
  runner_name = λ e. refl;
  runner_labels = λ e. refl;
  step_count = λ e. refl;
  completed_step_count = λ e. refl;
}

merge_job_comm_example :
    merge_job 400 completed (merge_job 400 started queued)
    ≡ merge_job 400 started (merge_job 400 completed queued)
merge_job_comm_example =
    merge_job_comm 400 started completed queued behind started-Covers (inr (inr refl))

abbrev queued_run : WorkflowRun
queued_run = record {
  run_id = 1;
  run_attempt = 1;
  repo_id = 3;
  workflow_id = some 7;
  head_sha = "abc";
  head_branch = some "main";
  event = some "push";
  status = some "queued";
  conclusion = none;
  run_started_at = some 100;
  github_created_at = some 100;
  github_updated_at = some 100;
  created_at = 100;
  updated_at = 100;
}

queued_rank : status_rank queued_run.status ≡ 1
unfolding status_rank
queued_rank = refl

stub-status_example :
    let new = run_values 200 3 1 1 "abc" (stub (some "main")) in
    let run = merge_run 200 new queued_run in
    (run.status ≡ none)
    × (run.workflow_id ≡ queued_run.workflow_id)
    × (run.event ≡ queued_run.event)
    × (run.conclusion ≡ queued_run.conclusion)
    × (run.run_started_at ≡ queued_run.run_started_at)
    × (run.github_created_at ≡ queued_run.github_created_at)
    × (run.github_updated_at ≡ queued_run.github_updated_at)
stub-status_example = stub-status 200 3 1 1 "abc" (some "main") queued_run queued_rank

abbrev repository : Repository
repository = record {
  id = 3;
  installation_id = some 9;
  source = Source.installed;
  owner = "o";
  name = "r";
  full_name = "o/r";
  is_private = false;
  active = true;
  default_branch = some "main";
  backfill_status = BackfillStatus.done;
  backfill_window_start = none;
  backfill_window_end = none;
  backfill_page = none;
  backfill_completed_at = some 100;
  created_at = 100;
  updated_at = 100;
}

abbrev payload : Json
payload =
    obj (field "id" (num 3) (field "full_name" (str "o/r") (field "private" (bool false) end)))

found : is_some (repository_at 3 (repository ∷ [])) ≡ true
unfolding find
found = refl

upsert_repository-IsInactive_example :
    Returns
      (λ r. IsInactive (repository_at 3 r.1))
      (upsert_repository 300
        (some 9)
        payload
        none
        Source.installed
        (set_repositories_active 200 (3 ∷ []) false (repository ∷ [])).1)
upsert_repository-IsInactive_example =
    upsert_repository-IsInactive 200 300 3 (some 9) payload Source.installed (repository ∷ []) found

queued_behind : status_rank queued.status < status_rank completed.status
unfolding status_rank
queued_behind = omega arith

started_behind : status_rank started.status < status_rank completed.status
unfolding status_rank
started_behind = omega arith

merge_all-SameEnd_example :
    SameEnd (merge_all ((400, queued) ∷ ((410, started) ∷ [])) completed) completed
merge_all-SameEnd_example =
    merge_all-SameEnd ((400, queued) ∷ ((410, started) ∷ [])) completed
      (queued_behind, (started_behind, tt))
