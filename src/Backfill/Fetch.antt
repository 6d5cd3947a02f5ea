-- ===== src/Backfill/Fetch.antt =====
-- When `handle_backfill_jobs` of backend/app/backfill.py ends without an error.
mod Tests
use flakehound.Base.{
  ℕ, zero, suc, ◌+◌, ◌*◌, ◌≡◌, refl, String, Bool, true, false, Option, none, some, List, [], ◌∷◌,
  ◌==◌, leb, inl, inr, Bool-cases,
}
use flakehound.Base.Result.{Result, ok, err, ◌>>=◌, Returns, Returns-bind}
use flakehound.Base.Upsert.{find}
use flakehound.Json.{
  Json, Items, nil, cons, null, bool, str, arr, num, obj, Fields, get, number, as_num, as_str,
  list_of, are_objects, truthy,
}
use flakehound.Json as Json
use flakehound.Facts.{Job, Repository}
use flakehound.Detection as Detection
use flakehound.Upserts.Jobs.{upsert_job, job_values, steps_of}
use flakehound.Upserts.Runs.{run_workflow_id}
use flakehound.Handlers.{Store, put_stub, evaluate_all}
use flakehound.Handlers.Keeps.{IsSound}
use flakehound.Backfill.Runs.{
  Settings, Error, Response, not_found, refused, success, key_error, http_status, or_raise,
  request_identity,
}
use flakehound.Backfill.Wake.{Returns-or_raise, Returns-anything}
use flakehound.Backfill.Returns.{Succeeds}
use flakehound.Backfill.Stored.{AreComplete, record_jobs-stores}
use flakehound.Backfill.Jobs.{
  Fetched, expired, fetched, set_field, record_job, record_jobs, fetch_pages, sorted_names,
  evaluate_fetched, handle_backfill_jobs, max_job_pages, jobs_of, total_of,
}

-- A page of a listing: an object with a list of complete jobs and a number of them.
abbrev pub IsPage : Json → Type 0
IsPage (obj fs) =
    ((jobs : Items) × (Json.find "jobs" fs ≡ arr jobs) × AreComplete jobs)
    × ((total : ℕ) × (Json.find "total_count" fs ≡ num total))
IsPage _ = ⊥

-- A page that GitHub answers, or a 404 for a run whose jobs are gone.
abbrev pub IsAnswered : Response → Type 0
IsAnswered not_found = Unit
IsAnswered (refused status) = ⊥
IsAnswered (success body) = IsPage body

page_reads :
    (body : Json)
    → IsPage body
    → (jobs : Items) × (total : ℕ) × (jobs_of body ≡ ok jobs)
      × AreComplete jobs
      × (total_of (get "total_count" body) ≡ ok total)
unfolding jobs_of total_of get Json.find or_raise list_of
page_reads null h = absurd h
page_reads (bool b) h = absurd h
page_reads (num n) h = absurd h
page_reads (str t) h = absurd h
page_reads (arr xs) h = absurd h
page_reads (obj fs) ((jobs, p, c), (total, q)) = (jobs, total, rw p refl, c, rw q refl)

fetch_pages-Succeeds :
    (parse : String → Option ℕ) (now repo_id run_attempt page_size : ℕ) (listing : ℕ → Response)
    (pages page : ℕ) (names : List String) (s : Store)
    → ((page : ℕ) → IsAnswered (listing page))
    → Succeeds (fetch_pages parse now repo_id run_attempt page_size listing pages page names s)
unfolding fetch_pages
fetch_pages-Succeeds parse now repo_id run_attempt page_size listing zero page names s h = (_, refl)
fetch_pages-Succeeds parse now repo_id run_attempt page_size listing (suc pages) page names s h =
    answered (listing page) (h page) (λ names' s'.
      fetch_pages-Succeeds parse now repo_id run_attempt page_size listing pages (page + 1) names'
        s' h)
  where
    answered :
        (r : Response)
        → IsAnswered r
        → ((names' : List String) (s' : Store)
            → Succeeds (
                fetch_pages parse now repo_id run_attempt page_size listing pages
                  (page + 1)
                  names'
                  s'))
        → Succeeds {A = Fetched} (elim r [
          | not_found ↦ ok (expired s)
          | refused status ↦ err (http_status status)
          | success body ↦ jobs_of body >>= λ jobs.
              record_jobs parse now repo_id run_attempt jobs names s >>= λ r.
              total_of (get "total_count" body) >>= λ total. elim (leb total (page * page_size)) [
                | true ↦ ok (fetched r.0 r.1)
                | false ↦
                    fetch_pages parse now repo_id run_attempt page_size listing pages
                      (page + 1)
                      r.0
                      r.1
              ]
        ])
    answered not_found a ih = (_, refl)
    answered (refused status) a ih = absurd a
    answered (success body) a ih =
        let (jobs, total, p, c, q) = page_reads body a in
        let (r, e, _, _) = record_jobs-stores parse now repo_id run_attempt jobs names s c in
        rw p (rw e (rw q (last (leb total (page * page_size)) r)))
      where
        last :
            (b : Bool) (r : List String × Store)
            → Succeeds {A = Fetched} (elim b [
              | true ↦ ok (fetched r.0 r.1)
              | false ↦
                  fetch_pages parse now repo_id run_attempt page_size listing pages
                    (page + 1)
                    r.0
                    r.1
            ])
        last true r = (_, refl)
        last false r = ih r.0 r.1

-- A run attempt's jobs are handled without an error when the row names the repository, the run and
-- the attempt, the repository is known and has an identity to ask by, and GitHub answers each page
-- with a 404 or with an object that has a number of jobs and a list of complete ones: each with its
-- id, run, name and commit, and its steps a list of objects if they are there.
pub handle_backfill_jobs-Succeeds :
    (parse : String → Option ℕ) (c : Settings) (d : Detection.Settings)
    (listing : ℕ → String → ℕ → ℕ → ℕ → Response) (now : ℕ) (payload : Json) (s : Store)
    (repo_id run_id run_attempt identity : ℕ) (repo : Repository)
    → as_num (get "repo_id" payload) ≡ some repo_id
    → as_num (get "run_id" payload) ≡ some run_id
    → as_num (get "run_attempt" payload) ≡ some run_attempt
    → find (λ r. r.id == repo_id) s.repos ≡ some repo
    → request_identity c repo ≡ ok identity
    → ((page : ℕ) → IsAnswered (listing identity repo.full_name run_id run_attempt page))
    → (t : Store) × (handle_backfill_jobs parse c d listing now payload s ≡ ok t)
unfolding handle_backfill_jobs or_raise
handle_backfill_jobs-Succeeds parse c d listing now payload s repo_id run_id run_attempt identity
      repo p q r f i a =
    let (pages, e) =
      fetch_pages-Succeeds parse now repo_id run_attempt c.backfill_page_size
        (listing identity repo.full_name run_id run_attempt) max_job_pages 1 [] s a in
    rw p (rw q (rw r (rw f (rw i (rw e (_, refl))))))
