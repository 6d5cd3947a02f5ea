-- ===== src/Handlers.antt =====
-- backend/app/handlers.py: turning one delivery into facts. A handler is one function on the
-- tables, since its writes are one transaction; a handler that raises leaves none of them.
mod Tests
pub mod Keeps
use flakehound.Base.{
  ℕ, String, Bool, true, false, Option, none, some, List, [], ◌∷◌, same, coalesce, is_some,
  if◌then◌else◌,
}
use flakehound.Base.Result.{Result, ok, err, ◌>>=◌}
use flakehound.Json.{Json, Items, arr, nil, cons, get, number, as_num, as_str}
use flakehound.Facts.{Job, WorkflowRun, Workflow, Repository, Installation, Source}
use flakehound.Detection.{Settings}
use flakehound.Detection.Signals.{FlakeEvent, evaluate_job}
use flakehound.Upserts.Progress.{parse_timestamp}
use flakehound.Upserts.Jobs.{items_of, upsert_job}
use flakehound.Upserts.Runs.{RunFields, stub, upsert_run, run_workflow_id, propagate_workflow_id}
use flakehound.Upserts.Workflows.{upsert_workflow}
use flakehound.Upserts.Installations.{upsert_installation, set_installation_lifecycle}
use flakehound.Upserts.Repositories.{
  upsert_repository, set_repositories_active, set_installation_repositories_active,
}
use flakehound.Upserts.Repositories as Repositories

pub data Error : Type 0 where
  value_error key_error : Error
  refused : Repositories.Error → Error

pub record Store : Type 0 where
  pub installations : List Installation
  pub repos : List Repository
  pub workflows : List Workflow
  pub runs : List WorkflowRun
  pub jobs : List Job
  pub events : List FlakeEvent

unfoldable pub or_raise : {A : Type 0} → Error → Option A → Result Error A
or_raise e none = err e
or_raise e (some a) = ok a

abbrev pub stored :
    Store → Result Repositories.Error (ℕ × List Repository) → Result Error (ℕ × Store)
stored s (ok r) = ok (r.0, record s { repos = r.1 })
stored s (err e) = err (refused e)

-- One `upsert_repository` of an installed repository, in the store.
unfoldable pub put_repository : ℕ → ℕ → Option Bool → Json → Store → Result Error (ℕ × Store)
unfolding upsert_repository
put_repository now installation_id active repository s =
    stored s
      (upsert_repository now (some installation_id) repository active Source.installed s.repos)

unfoldable pub put_installation : ℕ → ℕ → Json → Store → Store
unfolding get number as_str upsert_installation
put_installation now installation_id account s = record s {
  installations =
      upsert_installation now installation_id (number (get "id" account))
        (as_str (get "login" account)) (as_str (get "type" account)) s.installations;
}

unfoldable pub ensure_repo : ℕ → Json → Store → Result Error (ℕ × Store)
unfolding get number as_num or_raise put_installation put_repository
ensure_repo now payload s = do
  let repository = get "repository" payload
  id ← or_raise value_error (as_num (get "id" repository))
  installation_id ← or_raise value_error (number (get "id" (get "installation" payload)))
  let known = put_installation now installation_id (get "owner" repository) s
  put_repository now installation_id none repository known

abbrev pub or_one : Option ℕ → ℕ
or_one none = 1
or_one (some n) = n

unfoldable pub evaluate : Settings → ℕ → ℕ → String → Store → Store
unfolding evaluate_job
evaluate c repo_id run_id name s = record s {
  events = evaluate_job c repo_id run_id name s.jobs s.events;
}

-- for job_name in names: …
unfoldable pub evaluate_all : Settings → ℕ → ℕ → List String → Store → Store
unfolding evaluate
evaluate_all c repo_id run_id [] s = s
evaluate_all c repo_id run_id (name ∷ names) s =
    evaluate_all c repo_id run_id names (evaluate c repo_id run_id name s)

unfoldable pub put_stub : ℕ → ℕ → ℕ → ℕ → String → Json → Store → Store
unfolding get as_str upsert_run
put_stub now repo_id run_id run_attempt head_sha job s = record s {
  runs =
      upsert_run now repo_id run_id run_attempt head_sha (stub (as_str (get "head_branch" job)))
        s.runs;
}

unfoldable pub handle_workflow_job :
    (String → Option ℕ) → Settings → ℕ → Json → Store → Result Error Store
unfolding get number as_num as_str or_raise ensure_repo put_stub upsert_job run_workflow_id evaluate
handle_workflow_job parse c now payload s = do
  let job = get "workflow_job" payload
  id ← or_raise value_error (as_num (get "id" job))
  found ← ensure_repo now payload s
  head_sha ← or_raise key_error (as_str (get "head_sha" job))
  run_id ← or_raise key_error (number (get "run_id" job))
  let stubbed =
      put_stub now (found.0) run_id (or_one (as_num (get "run_attempt" job))) head_sha job (found.1)
  let workflow_id = run_workflow_id run_id stubbed.runs
  jobs ← or_raise key_error (upsert_job parse now (found.0) job head_sha workflow_id stubbed.jobs)
  name ← or_raise key_error (as_str (get "name" job))
  ok (evaluate c (found.0) run_id name (record stubbed { jobs = jobs }))

unfoldable pub put_workflow : ℕ → ℕ → Json → Store → Store
unfolding get as_num as_str upsert_workflow
put_workflow now repo_id workflow s = elim (as_num (get "id" workflow)) [
  | none ↦ s
  | some id ↦ record s {
    workflows =
        upsert_workflow now repo_id id (as_str (get "name" workflow)) (as_str (get "path" workflow))
          (as_str (get "state" workflow)) s.workflows;
  }
]

abbrev pub run_fields : (String → Option ℕ) → Json → Json → RunFields
run_fields parse run workflow = record {
  workflow_id = coalesce (as_num (get "workflow_id" run)) (number (get "id" workflow));
  head_branch = as_str (get "head_branch" run);
  event = as_str (get "event" run);
  status = as_str (get "status" run);
  conclusion = as_str (get "conclusion" run);
  run_started_at = parse_timestamp parse (get "run_started_at" run);
  github_created_at = parse_timestamp parse (get "created_at" run);
  github_updated_at = parse_timestamp parse (get "updated_at" run);
}

-- What is done once the run knows its workflow.
unfoldable pub fill_workflow : Settings → ℕ → ℕ → ℕ → Option ℕ → Store → Store
unfolding propagate_workflow_id evaluate_all
fill_workflow c now repo_id run_id none s = s
fill_workflow c now repo_id run_id (some w) s =
    let (names, jobs, runs) = propagate_workflow_id now run_id w s.jobs s.runs in
    evaluate_all c repo_id run_id names (record s { jobs = jobs; runs = runs })

unfoldable pub handle_workflow_run :
    (String → Option ℕ) → Settings → ℕ → Json → Store → Result Error Store
unfolding get number as_num as_str or_raise ensure_repo put_workflow parse_timestamp upsert_run
    run_workflow_id fill_workflow
handle_workflow_run parse c now payload s = do
  let run = get "workflow_run" payload
  let workflow = get "workflow" payload
  run_id ← or_raise value_error (as_num (get "id" run))
  found ← ensure_repo now payload s
  let filed = put_workflow now (found.0) workflow (found.1)
  head_sha ← or_raise key_error (as_str (get "head_sha" run))
  let runs =
      upsert_run now (found.0) run_id (or_one (as_num (get "run_attempt" run))) head_sha
        (run_fields parse run workflow) filed.runs
  ok (
      fill_workflow c now (found.0) run_id (run_workflow_id run_id runs)
        (record filed { runs = runs }))

-- for repository in repositories: if repository.get("id"): …
unfoldable pub put_repositories : ℕ → ℕ → Items → Store → Result Error Store
unfolding get as_num put_repository
put_repositories now installation_id nil s = ok s
put_repositories now installation_id (cons repository rest) s =
    let given = put_repository now installation_id (some true) repository s >>= λ r.
    put_repositories now installation_id rest (r.1) in
    let skipped = put_repositories now installation_id rest s in
    if is_some (as_num (get "id" repository)) then given else skipped

abbrev pub is_action : String → Json → Bool
is_action name payload = elim (as_str (get "action" payload)) [
  | some a ↦ same a name
  | none ↦ false
]

-- When the installation was suspended, by the event's action.
unfoldable pub suspended : (String → Option ℕ) → ℕ → Json → Option ℕ
unfolding get as_str parse_timestamp
suspended parse now payload =
    let at = parse_timestamp parse (get "suspended_at" (get "installation" payload)) in
    if is_action "suspend" payload
    then coalesce at (some now)
    else if is_action "unsuspend" payload
    then none
    else at

-- An uninstall deactivates every repository of the installation; else the named ones are active.
unfoldable pub watch : Bool → ℕ → ℕ → Items → Store → Result Error Store
unfolding set_installation_repositories_active put_repositories
watch true now id repositories s =
    ok (record s { repos = (set_installation_repositories_active now id false s.repos).1 })
watch false now id repositories s = put_repositories now id repositories s

unfoldable pub handle_installation : (String → Option ℕ) → ℕ → Json → Store → Result Error Store
unfolding get as_num as_str or_raise put_installation set_installation_lifecycle suspended items_of
    watch
handle_installation parse now payload s = do
  let installation = get "installation" payload
  let deleted = is_action "deleted" payload
  id ← or_raise value_error (as_num (get "id" installation))
  let known = put_installation now id (get "account" installation) s
  let marked = record known {
    installations =
        set_installation_lifecycle now id (suspended parse now payload)
          (if deleted then some now else none) known.installations;
  }
  watch deleted now id (items_of (get "repositories" payload)) marked

-- [r["id"] for r in removed if r.get("id")]
unfoldable pub ids_of : Items → List ℕ
unfolding get as_num
ids_of nil = []
ids_of (cons r rest) = elim (as_num (get "id" r)) [ none ↦ ids_of rest | some i ↦ i ∷ ids_of rest ]

unfoldable pub handle_installation_repositories : ℕ → Json → Store → Result Error Store
unfolding get as_num or_raise put_installation put_repositories items_of ids_of
    set_repositories_active
handle_installation_repositories now payload s = do
  let installation = get "installation" payload
  id ← or_raise value_error (as_num (get "id" installation))
  let known = put_installation now id (get "account" installation) s
  added ← put_repositories now id (items_of (get "repositories_added" payload)) known
  let removed = ids_of (items_of (get "repositories_removed" payload))
  ok (record added { repos = (set_repositories_active now removed false added.repos).1 })

-- `handle` for a row without a job type of its own. An event that is not in the table is ignored.
unfoldable pub handle_event :
    (String → Option ℕ) → Settings → ℕ → String → Json → Store → Result Error Store
unfolding handle_workflow_job handle_workflow_run handle_installation
    handle_installation_repositories
handle_event parse c now event payload s =
    if same event "workflow_job"
    then handle_workflow_job parse c now payload s
    else if same event "workflow_run"
    then handle_workflow_run parse c now payload s
    else if same event "installation"
    then handle_installation parse now payload s
    else if same event "installation_repositories"
    then handle_installation_repositories now payload s
    else ok s
