-- ===== src/Backfill/Jobs.antt =====
-- `handle_backfill_jobs` and `_record_job` of backend/app/backfill.py, on the store of the event
-- handlers.
use flakehound.Base.{
  ℕ, zero, suc, ◌+◌, ◌*◌, String, Bool, true, false, Option, List, [], ◌∷◌, leb, ◌==◌, same,
  text_le_then, if◌then◌else◌,
}
use flakehound.Base.Groups.{distinct}
use flakehound.Base.Result.{Result, ok, err, ◌>>=◌}
use flakehound.Base.Sort.{sort}
use flakehound.Base.Upsert.{find}
use flakehound.Json as Json
use flakehound.Json.{
  Json, Items, nil, cons, num, obj, bool, str, field, get, number, as_num, as_str, list_of, truthy,
}
use flakehound.Detection as Detection
use flakehound.Upserts.Jobs.{upsert_job}
use flakehound.Upserts.Runs.{run_workflow_id}
use flakehound.Handlers.{Store, put_stub, evaluate_all}
use flakehound.Backfill.Runs.{
  Settings, Error, value_error, type_error, key_error, attribute_error, http_status, Response,
  not_found, refused, success, or_raise, request_identity,
}

abbrev pub max_job_pages : ℕ
max_job_pages = 10

-- {**value, key: new}
unfoldable pub set_field : String → Json → Json → Json
set_field k new (obj fs) = obj (field k new fs)
set_field k new v = v

unfoldable pub record_job :
    (String → Option ℕ) → (now repo_id run_attempt : ℕ) → Json → Store → Result Error Store
unfolding get as_str number or_raise put_stub run_workflow_id upsert_job set_field
record_job parse now repo_id run_attempt job s = do
  head_sha ← or_raise key_error (as_str (get "head_sha" job))
  run_id ← or_raise key_error (number (get "run_id" job))
  let stubbed = put_stub now repo_id run_id run_attempt head_sha job s
  jobs ← or_raise key_error (
      upsert_job parse now repo_id (set_field "run_attempt" (num run_attempt) job) head_sha
        (run_workflow_id run_id stubbed.runs) stubbed.jobs)
  ok (record stubbed { jobs = jobs })

-- for job in jobs: … , with the names that it has added.
unfoldable pub record_jobs :
    (String → Option ℕ)
    → (now repo_id run_attempt : ℕ) → Items
    → List String
    → Store
    → Result Error (List String × Store)
unfolding record_job get as_str or_raise
record_jobs parse now repo_id run_attempt nil names s = ok (names, s)
record_jobs parse now repo_id run_attempt (cons job rest) names s =
    record_job parse now repo_id run_attempt job s >>= λ s'.
    or_raise key_error (as_str (get "name" job)) >>= λ name.
    record_jobs parse now repo_id run_attempt rest (name ∷ names) s'

-- How the paging ends: at a 404, or with the names of the jobs that it has recorded.
pub data Fetched : Type 0 where
  expired : Store → Fetched
  fetched : List String → Store → Fetched

-- `body.get("jobs") or []`
unfoldable pub jobs_of : Json → Result Error Items
unfolding list_of or_raise Json.find
jobs_of (obj fs) = or_raise type_error (list_of (Json.find "jobs" fs))
jobs_of v = err attribute_error

-- `int(value or 0)`; a number that is written as a text is not modelled.
unfoldable pub total_of : Json → Result Error ℕ
unfolding truthy
total_of (num n) = ok n
total_of (bool b) = ok (if b then 1 else 0)
total_of (str s) = if same s "" then ok 0 else err value_error
total_of v = if truthy v then err type_error else ok 0

unfoldable pub fetch_pages :
    (String → Option ℕ)
    → (now repo_id run_attempt page_size : ℕ) → (listing : ℕ → Response) → (pages page : ℕ)
    → List String
    → Store
    → Result Error Fetched
unfolding record_jobs get jobs_of total_of
fetch_pages parse now repo_id run_attempt page_size listing zero page names s = ok (fetched names s)
fetch_pages parse now repo_id run_attempt page_size listing (suc pages) page names s =
    elim (listing page) [
      | not_found ↦ ok (expired s)
      | refused status ↦ err (http_status status)
      | success body ↦ jobs_of body >>= λ jobs.
          record_jobs parse now repo_id run_attempt jobs names s >>= λ r.
          total_of (get "total_count" body) >>= λ total. elim (leb total (page * page_size)) [
            | true ↦ ok (fetched r.0 r.1)
            | false ↦
                fetch_pages parse now repo_id run_attempt page_size listing pages (page + 1) r.0 r.1
          ]
    ]

abbrev pub text_le : String → String → Bool
text_le s t = text_le_then s t true

-- sorted(names), of a set
unfoldable pub sorted_names : List String → List String
unfolding sort distinct
sorted_names names = sort text_le (distinct same names)

unfoldable pub evaluate_fetched : Detection.Settings → (repo_id run_id : ℕ) → Fetched → Store
unfolding sorted_names evaluate_all
evaluate_fetched d repo_id run_id (expired s) = s
evaluate_fetched d repo_id run_id (fetched names s) =
    evaluate_all d repo_id run_id (sorted_names names) s

-- `listing` is GitHub's answer, by the identity that asks, the repository's name, the run, the
-- attempt and the page.
unfoldable pub handle_backfill_jobs :
    (String → Option ℕ)
    → Settings
    → Detection.Settings
    → (listing : ℕ → String → ℕ → ℕ → ℕ → Response) → (now : ℕ) → Json
    → Store
    → Result Error Store
unfolding get as_num or_raise find request_identity fetch_pages evaluate_fetched
handle_backfill_jobs parse c d listing now payload s = do
  repo_id ← or_raise value_error (as_num (get "repo_id" payload))
  run_id ← or_raise value_error (as_num (get "run_id" payload))
  run_attempt ← or_raise value_error (as_num (get "run_attempt" payload))
  repo ← or_raise value_error (find (λ r. r.id == repo_id) s.repos)
  identity ← request_identity c repo
  pages ←
      fetch_pages parse now repo_id run_attempt c.backfill_page_size
        (listing identity repo.full_name run_id run_attempt) max_job_pages 1 [] s
  ok (evaluate_fetched d repo_id run_id pages)
