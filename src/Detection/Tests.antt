-- ===== src/Detection/Tests.antt =====
-- The theorems on backend/app/detection.py at a run whose first attempt failed and whose second
-- passed.
use flakehound.Base.{◌≡◌, ◌↔◌, refl, ap, true, inl, inr, none, some, List, [], ◌∷◌, In, arith}
use flakehound.Base.Sort.{sort}
use flakehound.Facts.{Job}
use flakehound.Detection.{
  Settings, Opportunity, Outcome, is_opportunity, opportunities_in_run, in_run,
}
use flakehound.Detection.Signals.{
  evaluate_rerun_recovery, evaluate_same_commit_disagreement, known_workflow, last_attempt,
  evaluate_job,
}
use flakehound.Detection.Recovery.{FailsThenPasses, rerun_recovery_iff}
use flakehound.Detection.Eligible.{IsEligible, is_opportunity_iff}
use flakehound.Detection.Both.{recovery_disagrees}
use flakehound.Detection.Replay.{evaluate_job-again}

abbrev settings : Settings
settings = record { timed_out_is_failure = true; exclude_infra_failures = true }

abbrev failed : Job
failed = record {
  id = 10;
  run_id = 1;
  run_attempt = 1;
  repo_id = 3;
  workflow_id = some 7;
  head_sha = "abc";
  name = "test";
  status = some "completed";
  conclusion = some "failure";
  started_at = some 100;
  completed_at = some 200;
  runner_name = none;
  runner_labels = none;
  step_count = some 4;
  completed_step_count = some 2;
  created_at = 100;
  updated_at = 200;
}

abbrev passed : Job
passed = record failed {
  id = 11;
  run_attempt = 2;
  conclusion = some "success";
  completed_at = some 300;
}

abbrev jobs : List Job
jobs = passed ∷ (failed ∷ [])

abbrev first : Opportunity
first = record {
  job_id = 10;
  run_id = 1;
  run_attempt = 1;
  outcome = Outcome.failure;
  workflow_id = some 7;
  head_sha = "abc";
  completed_at = some 200;
}

abbrev second : Opportunity
second = record first {
  job_id = 11;
  run_attempt = 2;
  outcome = Outcome.success;
  completed_at = some 300;
}

rerun_recovery_iff_example :
    ((evaluate_rerun_recovery 3 1 "test" (first ∷ (second ∷ [])) []).0 ≡ true)
    ↔ FailsThenPasses (first ∷ (second ∷ []))
rerun_recovery_iff_example = rerun_recovery_iff 3 1 "test" (first ∷ (second ∷ [])) []

is_opportunity_iff_example :
    (is_opportunity settings failed ≡ true)
    ↔ IsEligible settings failed.conclusion failed.step_count failed.completed_step_count
is_opportunity_iff_example = is_opportunity_iff settings failed

one_run :
    (j : Job)
    → In j jobs
    → in_run 3 1 "test" j ≡ true
    → (j.workflow_id ≡ some 7) × (j.head_sha ≡ "abc")
one_run j (inl e) h = (ap (λ (x : Job). x.workflow_id) e, ap (λ (x : Job). x.head_sha) e)
one_run j (inr (inl e)) h = (ap (λ (x : Job). x.workflow_id) e, ap (λ (x : Job). x.head_sha) e)
one_run j (inr (inr i)) h = absurd i

attempts : opportunities_in_run settings 3 1 "test" jobs ≡ first ∷ (second ∷ [])
unfolding opportunities_in_run sort
attempts = refl

recovered : (evaluate_rerun_recovery 3 1 "test" (first ∷ (second ∷ [])) []).0 ≡ true
unfolding evaluate_rerun_recovery
recovered = refl

recovery_disagrees_example :
    (evaluate_same_commit_disagreement settings 3
      (known_workflow (first ∷ (second ∷ [])))
      "test"
      (last_attempt first (second ∷ [])).head_sha
      jobs
      []).0
    ≡ true
recovery_disagrees_example =
    recovery_disagrees settings 3 1 7 "test" "abc" jobs first (second ∷ []) (omega arith) one_run
      attempts [] [] recovered

evaluate_job-again_example :
    let once = evaluate_job settings 3 1 "test" jobs [] in
    evaluate_job settings 3 1 "test" jobs once ≡ once
evaluate_job-again_example = evaluate_job-again settings 3 1 "test" jobs []
