-- ===== src/History/Tests.antt =====
-- The theorems on backend/app/history.py at a commit that failed and then passed.
use flakehound.Base.{All, ◌≡◌, true, some, List, [], ◌∷◌}
use flakehound.Detection.{Outcome}
use flakehound.History.{Attempt, CommitHistory, HistoryRow, add_rows}
use flakehound.History.Groups.{flatten, HasAttempts, Separated, add_rows-IsGrouping}

abbrev failure : Attempt
failure = record {
  job_id = 10;
  run_id = 1;
  run_attempt = 1;
  workflow_id = some 7;
  conclusion = some "failure";
  outcome = some Outcome.failure;
  implicated = true;
  started_at = some 100;
  completed_at = some 200;
}

abbrev success : Attempt
success = record failure {
  job_id = 11;
  run_attempt = 2;
  conclusion = some "success";
  outcome = some Outcome.success;
}

abbrev rows : List HistoryRow
rows =
    record { head_sha = "abc"; attempt = failure }
    ∷ (record { head_sha = "abc"; attempt = success }
        ∷ (record { head_sha = "def"; attempt = success } ∷ []))

abbrev commit : CommitHistory
commit = record { head_sha = "abc"; attempts = failure ∷ (success ∷ []) }

add_rows-IsGrouping_example :
    (flatten (add_rows [] rows) ≡ rows)
    × All HasAttempts (add_rows [] rows)
    × Separated (add_rows [] rows)
add_rows-IsGrouping_example = add_rows-IsGrouping rows
