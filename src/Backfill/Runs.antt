-- ===== src/Backfill/Runs.antt =====
-- The store that backend/app/backfill.py works on (the repository's row, the fact tables and the
-- queue), its helpers and `_record_run`.
use flakehound.Base.{
  ℕ, zero, suc, ◌+◌, String, Bool, true, false, Option, none, some, List, ◌∷◌, if◌then◌else◌,
}
use flakehound.Base.Result.{Result, ok, err, ◌>>=◌}
use flakehound.Json.{Json, num, obj, end, field, get, number, as_num, as_str}
use flakehound.Facts.{Repository, Source, BackfillStatus, Workflow, WorkflowRun}
use flakehound.Queue.{Row}
use flakehound.Queue.System.{new_row}
use flakehound.Upserts.Progress.{parse_timestamp}
use flakehound.Upserts.Runs.{RunFields, upsert_run}
use flakehound.Upserts.Workflows.{upsert_workflow}
use flakehound.Backfill.Window.{Window}

pub record Settings : Type 0 where
  pub backfill_days : ℕ
  pub observation_backfill_days : ℕ
  pub backfill_window_days : ℕ
  pub backfill_page_size : ℕ
  pub backfill_result_cap : ℕ
  pub observation_installation_id : Option ℕ

pub data Error : Type 0 where
  value_error type_error runtime_error overflow_error key_error attribute_error : Error
  http_status : ℕ → Error

-- What GitHub answers, with the body of a successful response.
pub data Response : Type 0 where
  not_found : Response
  refused : ℕ → Response
  success : Json → Response

-- What one transaction reads and writes, `now` and `today` being its clocks.
pub record Store : Type 0 where
  pub repo : Option Repository
  pub workflows : List Workflow
  pub runs : List WorkflowRun
  pub rows : List Row
  pub next_id : ℕ

unfoldable pub is_observed : Repository → Bool
is_observed r = elim r.source [ Source.observed ↦ true | Source.installed ↦ false ]

unfoldable pub backfill_priority : Repository → ℕ
unfolding is_observed
backfill_priority r = if is_observed r then 2 else 1

unfoldable pub backfill_days : Settings → Repository → ℕ
unfolding is_observed
backfill_days s r = if is_observed r then s.observation_backfill_days else s.backfill_days

unfoldable pub or_raise : {A : Type 0} → Error → Option A → Result Error A
or_raise e none = err e
or_raise e (some a) = ok a

unfoldable pub request_identity : Settings → Repository → Result Error ℕ
unfolding or_raise
request_identity s r = elim r.installation_id [
  | some i ↦ ok i
  | none ↦ or_raise runtime_error s.observation_installation_id
]

abbrev pub window_start : Option Window → Option ℕ
window_start none = none
window_start (some w) = some w.start

abbrev pub window_end : Option Window → Option ℕ
window_end none = none
window_end (some w) = some w.end

unfoldable pub save_cursor : ℕ → Option Window → Option ℕ → BackfillStatus → Repository → Repository
save_cursor now window page status r = record r {
  backfill_window_start = window_start window;
  backfill_window_end = window_end window;
  backfill_page = page;
  backfill_status = status;
  backfill_completed_at = elim status [
    | BackfillStatus.done ↦ some now
    | _ ↦ r.backfill_completed_at
  ];
}

abbrev pub runs_job_type : String
runs_job_type = "backfill_runs"

abbrev pub jobs_job_type : String
jobs_job_type = "backfill_jobs"

unfoldable pub enqueue : ℕ → String → Json → ℕ → Store → Store
unfolding new_row
enqueue now job_type payload priority s = record s {
  rows = new_row now s.next_id none job_type none payload priority ∷ s.rows;
  next_id = s.next_id + 1;
}

abbrev pub runs_payload : ℕ → Json
runs_payload repo_id = obj (field "repo_id" (num repo_id) end)

abbrev pub jobs_payload : ℕ → ℕ → ℕ → Json
jobs_payload repo_id run_id attempt = obj (
    field "repo_id" (num repo_id)
      (field "run_id" (num run_id) (field "run_attempt" (num attempt) end)))

-- for attempt in range(first, first + n)
unfoldable pub enqueue_attempts : ℕ → ℕ → ℕ → ℕ → ℕ → ℕ → Store → Store
unfolding enqueue
enqueue_attempts now repo_id run_id priority zero first s = s
enqueue_attempts now repo_id run_id priority (suc n) first s =
    enqueue_attempts now repo_id run_id priority n (first + 1)
      (enqueue now jobs_job_type (jobs_payload repo_id run_id first) priority s)

abbrev pub or_one : Option ℕ → ℕ
or_one none = 1
or_one (some n) = n

-- The listing carries no workflow object, only its id and its path.
abbrev pub with_workflow : ℕ → ℕ → Json → Option ℕ → Store → Store
with_workflow now repo_id run none s = s
with_workflow now repo_id run (some w) s = record s {
  workflows = upsert_workflow now repo_id w none (as_str (get "path" run)) none s.workflows;
}

abbrev run_fields : (String → Option ℕ) → Json → RunFields
run_fields parse run = record {
  workflow_id = number (get "workflow_id" run);
  head_branch = as_str (get "head_branch" run);
  event = as_str (get "event" run);
  status = as_str (get "status" run);
  conclusion = as_str (get "conclusion" run);
  run_started_at = parse_timestamp parse (get "run_started_at" run);
  github_created_at = parse_timestamp parse (get "created_at" run);
  github_updated_at = parse_timestamp parse (get "updated_at" run);
}

-- The store with the run and its workflow.
unfoldable pub stored : (String → Option ℕ) → ℕ → ℕ → Json → ℕ → ℕ → String → Store → Store
unfolding get as_num number as_str upsert_run parse_timestamp
stored parse now repo_id run run_id latest head_sha s =
    let known = with_workflow now repo_id run (as_num (get "workflow_id" run)) s in
    record known {
      runs = upsert_run now repo_id run_id latest head_sha (run_fields parse run) known.runs;
    }

-- The number of attempts queued, and the store after.
unfoldable pub record_run :
    (String → Option ℕ) → ℕ → ℕ → Json → ℕ → Store → Result Error (ℕ × Store)
unfolding get as_num as_str or_raise stored enqueue_attempts
record_run parse now repo_id run priority s = elim (as_num (get "id" run)) [
  | none ↦ ok (0, s)
  | some run_id ↦ do
    head_sha ← or_raise key_error (as_str (get "head_sha" run))
    let latest = or_one (as_num (get "run_attempt" run))
    let after = stored parse now repo_id run run_id latest head_sha s
    ok (latest, enqueue_attempts now repo_id run_id priority latest 1 after)
]
