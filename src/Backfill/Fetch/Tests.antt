-- ===== src/Backfill/Fetch/Tests.antt =====
-- The theorem on `handle_backfill_jobs` of backend/app/backfill.py at a run with one job.
use flakehound.Base.{ℕ, ◌==◌, ◌∷◌, refl, ◌≡◌, String, true, false, Option, none, some, []}
use flakehound.Base.Result.{ok}
use flakehound.Base.Upsert.{find}
use flakehound.Json.{Json, obj, arr, cons, nil, field, end, num, str, get, number, as_num, as_str}
use flakehound.Json.{are_objects}
use flakehound.Json as Json
use flakehound.Facts.{Repository, Source, BackfillStatus}
use flakehound.Detection as Detection
use flakehound.Handlers.{Store}
use flakehound.Backfill.Runs.{Settings, Response, success, request_identity}
use flakehound.Backfill.Jobs.{handle_backfill_jobs}
use flakehound.Backfill.Fetch.{IsAnswered, handle_backfill_jobs-Succeeds}

abbrev settings : Settings
settings = record {
  backfill_days = 90;
  observation_backfill_days = 30;
  backfill_window_days = 3;
  backfill_page_size = 100;
  backfill_result_cap = 1000;
  observation_installation_id = none;
}

abbrev signals : Detection.Settings
signals = record { timed_out_is_failure = true; exclude_infra_failures = true }

abbrev repository : Repository
repository = record {
  id = 3;
  installation_id = some 5;
  source = Source.installed;
  owner = "o";
  name = "r";
  full_name = "o/r";
  is_private = false;
  active = true;
  default_branch = some "main";
  backfill_status = BackfillStatus.running;
  backfill_window_start = some 998;
  backfill_window_end = some 1000;
  backfill_page = some 1;
  backfill_completed_at = none;
  created_at = 100;
  updated_at = 100;
}

abbrev store : Store
store = record {
  installations = [];
  repos = repository ∷ [];
  workflows = [];
  runs = [];
  jobs = [];
  events = [];
}

abbrev parse : String → Option ℕ
parse text = none

abbrev job : Json
job = obj (
    field "id" (num 10) (
      field "run_id" (num 1) (
        field "head_sha" (str "abc") (
          field "name" (str "test") (
            field "status" (str "completed") (
              field "conclusion" (str "success") (
                field "steps" (arr (cons (obj (field "status" (str "completed") end)) nil))
                  end)))))))

abbrev body : Json
body = obj (field "total_count" (num 1) (field "jobs" (arr (cons job nil)) end))

abbrev listing : ℕ → String → ℕ → ℕ → ℕ → Response
listing identity full_name run_id run_attempt page = success body

abbrev payload : Json
payload = obj (field "repo_id" (num 3) (field "run_id" (num 1) (field "run_attempt" (num 2) end)))

answered : (page : ℕ) → IsAnswered (listing 5 "o/r" 1 2 page)
unfolding get Json.find number as_str are_objects
answered page = (
  (cons job nil, refl, (((10, refl), ((1, refl), (("test", refl), (("abc", refl), refl)))), tt)),
  (1, refl),
)

repo_id_of : as_num (get "repo_id" payload) ≡ some 3
unfolding as_num get Json.find
repo_id_of = refl

run_id_of : as_num (get "run_id" payload) ≡ some 1
unfolding as_num get Json.find
run_id_of = refl

run_attempt_of : as_num (get "run_attempt" payload) ≡ some 2
unfolding as_num get Json.find
run_attempt_of = refl

repo_of : find (λ r. r.id == 3) store.repos ≡ some repository
unfolding find
repo_of = refl

identity_of : request_identity settings repository ≡ ok 5
unfolding request_identity
identity_of = refl

handle_backfill_jobs-Succeeds_example :
    (t : Store) × (handle_backfill_jobs parse settings signals listing 500 payload store ≡ ok t)
handle_backfill_jobs-Succeeds_example =
    handle_backfill_jobs-Succeeds parse settings signals listing 500 payload store 3 1 2 5
      repository repo_id_of run_id_of run_attempt_of repo_of identity_of answered
