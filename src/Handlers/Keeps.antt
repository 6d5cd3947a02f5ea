-- ===== src/Handlers/Keeps.antt =====
-- The handlers of backend/app/handlers.py against the tables' constraints: the check constraint of
-- `repositories` and the unique key of `flake_events`.
use flakehound.Base.{
  ℕ, String, Bool, true, false, Option, none, some, List, [], ◌∷◌, All, map, any, ◌==◌, Bool-cases,
  Option-cases, inl, inr, same, is_some,
}
use flakehound.Base.Result.{Result, ok, err, ◌>>=◌, Returns, Returns-bind}
use flakehound.Json.{Json, Items, nil, cons, get, number, as_num, as_str}
use flakehound.Facts.{Repository, Source}
use flakehound.Detection.{Settings}
use flakehound.Detection.Group.{OnePerGroup, evaluate_job-OnePerGroup}
use flakehound.Upserts.Repositories.{
  set_row, changes, is_of, set_active, set_repositories_active,
  set_installation_repositories_active,
}
use flakehound.Upserts.Jobs.{items_of}
use flakehound.Upserts.Runs.{propagate_workflow_id, run_workflow_id, upsert_run}
use flakehound.Upserts.Repositories as Repositories
use flakehound.Upserts.Ownership.{IsOwned, upsert_repository-IsOwned}
use flakehound.Handlers.{
  Error, Store, or_raise, stored, put_repository, put_installation, ensure_repo, evaluate,
  evaluate_all, put_stub, put_workflow, fill_workflow, put_repositories, watch, handle_workflow_job,
  handle_workflow_run, handle_installation, handle_installation_repositories, handle_event, or_one,
  run_fields, is_action, ids_of,
}

pub record IsSound (s : Store) : Type 0 where
  pub owned : All IsOwned s.repos
  pub one_per_group : OnePerGroup s.events

Returns-or_raise :
    {A B : Type 0} (P : B → Type 0) (e : Error) (o : Option A) (f : A → Result Error B)
    → ((a : A) → Returns P (f a))
    → Returns P (or_raise e o >>= f)
unfolding or_raise
Returns-or_raise P e none f k = tt
Returns-or_raise P e (some a) f k = k a

stored-IsSound :
    (s : Store) (m : Result Repositories.Error (ℕ × List Repository))
    → OnePerGroup s.events
    → Returns (λ r. All IsOwned r.1) m
    → Returns (λ r. IsSound r.1) (stored s m)
stored-IsSound s (ok r) g h = record { owned = h; one_per_group = g }
stored-IsSound s (err e) g h = tt

put_repository-IsSound :
    (now installation_id : ℕ) (active : Option Bool) (repository : Json) (s : Store)
    → IsSound s
    → Returns (λ r. IsSound r.1) (put_repository now installation_id active repository s)
unfolding put_repository
put_repository-IsSound now installation_id active repository s h =
    stored-IsSound s _ h.one_per_group (
      upsert_repository-IsOwned now (some installation_id) repository active Source.installed
        s.repos h.owned)

put_installation-IsSound :
    (now id : ℕ) (account : Json) (s : Store)
    → IsSound s
    → IsSound (put_installation now id account s)
unfolding put_installation
put_installation-IsSound now id account s h = record {
  owned = h.owned;
  one_per_group = h.one_per_group;
}

ensure_repo-IsSound :
    (now : ℕ) (payload : Json) (s : Store)
    → IsSound s
    → Returns (λ r. IsSound r.1) (ensure_repo now payload s)
unfolding ensure_repo
ensure_repo-IsSound now payload s h =
    Returns-or_raise (λ r. IsSound r.1) _ (as_num (get "id" (get "repository" payload))) _
      λ id.
        Returns-or_raise (λ r. IsSound r.1) _ (number (get "id" (get "installation" payload))) _
          λ i.
            put_repository-IsSound now i none (get "repository" payload) _
              (put_installation-IsSound now i (get "owner" (get "repository" payload)) s h)

evaluate_all-IsSound :
    (c : Settings) (repo_id run_id : ℕ) (names : List String) (s : Store)
    → IsSound s
    → IsSound (evaluate_all c repo_id run_id names s)
unfolding evaluate_all evaluate
evaluate_all-IsSound c repo_id run_id [] s h = h
evaluate_all-IsSound c repo_id run_id (name ∷ names) s h =
    evaluate_all-IsSound c repo_id run_id names (evaluate c repo_id run_id name s) (record {
      owned = h.owned;
      one_per_group =
          evaluate_job-OnePerGroup c repo_id run_id name s.jobs s.events h.one_per_group;
    })

handle_workflow_job-IsSound :
    (parse : String → Option ℕ) (c : Settings) (now : ℕ) (payload : Json) (s : Store)
    → IsSound s
    → Returns IsSound (handle_workflow_job parse c now payload s)
unfolding handle_workflow_job evaluate put_stub
handle_workflow_job-IsSound parse c now payload s h =
    let job = get "workflow_job" payload in
    Returns-or_raise IsSound _ (as_num (get "id" job)) _ λ id.
      Returns-bind (λ r. IsSound r.1) IsSound _ _ (ensure_repo-IsSound now payload s h)
        λ r k. Returns-or_raise IsSound _ (as_str (get "head_sha" job)) _ λ head_sha.
          Returns-or_raise IsSound _ (number (get "run_id" job)) _ λ run_id.
            Returns-or_raise IsSound _ _ _ λ jobs.
              Returns-or_raise IsSound _ (as_str (get "name" job)) _ λ name. (record {
                owned = k.owned;
                one_per_group = evaluate_job-OnePerGroup c _ run_id name jobs _ k.one_per_group;
              })

fill_workflow-IsSound :
    (c : Settings) (now repo_id run_id : ℕ) (w : Option ℕ) (s : Store)
    → IsSound s
    → IsSound (fill_workflow c now repo_id run_id w s)
unfolding fill_workflow
fill_workflow-IsSound c now repo_id run_id none s h = h
fill_workflow-IsSound c now repo_id run_id (some w) s h =
    let (names, jobs, runs) = propagate_workflow_id now run_id w s.jobs s.runs in
    evaluate_all-IsSound c repo_id run_id names (record s { jobs = jobs; runs = runs })
      (record { owned = h.owned; one_per_group = h.one_per_group })

put_workflow-IsSound :
    (now repo_id : ℕ) (workflow : Json) (s : Store)
    → IsSound s
    → IsSound (put_workflow now repo_id workflow s)
unfolding put_workflow
put_workflow-IsSound now repo_id workflow s h = elim (Option-cases (as_num (get "id" workflow))) [
  | inl e ↦ rw (e, put_workflow) h
  | inr (id, e) ↦ rw (e, put_workflow) (record { owned = h.owned; one_per_group = h.one_per_group })
]

handle_workflow_run-IsSound :
    (parse : String → Option ℕ) (c : Settings) (now : ℕ) (payload : Json) (s : Store)
    → IsSound s
    → Returns IsSound (handle_workflow_run parse c now payload s)
unfolding handle_workflow_run
handle_workflow_run-IsSound parse c now payload s h =
    let run = get "workflow_run" payload in
    let workflow = get "workflow" payload in
    Returns-or_raise IsSound _ (as_num (get "id" run)) _ λ run_id.
      Returns-bind (λ r. IsSound r.1) IsSound _ _ (ensure_repo-IsSound now payload s h)
        λ r k. Returns-or_raise IsSound _ (as_str (get "head_sha" run)) _ λ head_sha.
          let filed = put_workflow-IsSound now r.0 workflow r.1 k in
          let runs =
            upsert_run now r.0 run_id (or_one (as_num (get "run_attempt" run))) head_sha
              (run_fields parse run workflow) (put_workflow now r.0 workflow r.1).runs in
          fill_workflow-IsSound c now r.0 run_id (run_workflow_id run_id runs)
            (record (put_workflow now r.0 workflow r.1) { runs = runs })
            (record { owned = filed.owned; one_per_group = filed.one_per_group })

put_repositories-IsSound :
    (now id : ℕ) (repositories : Items) (s : Store)
    → IsSound s
    → Returns IsSound (put_repositories now id repositories s)
unfolding put_repositories
put_repositories-IsSound now id nil s h = h
put_repositories-IsSound now id (cons repository rest) s h =
    elim (Bool-cases (is_some (as_num (get "id" repository)))) [
      | inl e ↦ rw (e) (
          Returns-bind (λ r. IsSound r.1) IsSound _ _
            (put_repository-IsSound now id (some true) repository s h)
            (λ r k. put_repositories-IsSound now id rest r.1 k))
      | inr e ↦ rw (e) (put_repositories-IsSound now id rest s h)
    ]

set_active-IsOwned :
    (now : ℕ) (test : Repository → Bool) (repos : List Repository)
    → All IsOwned repos
    → All IsOwned (map (set_row now test false) repos)
unfolding set_row
set_active-IsOwned now test [] h = tt
set_active-IsOwned now test (r ∷ rs) h = elim (Bool-cases (changes test false r)) [
  | inl e ↦ rw (e) (h.0, set_active-IsOwned now test rs h.1)
  | inr e ↦ rw (e) (h.0, set_active-IsOwned now test rs h.1)
]

set_repositories_active-IsOwned :
    (now : ℕ) (ids : List ℕ) (repos : List Repository)
    → All IsOwned repos
    → All IsOwned (set_repositories_active now ids false repos).1
unfolding set_repositories_active set_active
set_repositories_active-IsOwned now [] repos h = h
set_repositories_active-IsOwned now (i ∷ ids) repos h =
    set_active-IsOwned now (λ r. any (λ j. j == r.id) (i ∷ ids)) repos h

watch-IsSound :
    (deleted : Bool) (now id : ℕ) (repositories : Items) (s : Store)
    → IsSound s
    → Returns IsSound (watch deleted now id repositories s)
unfolding watch set_installation_repositories_active set_active
watch-IsSound true now id repositories s h = record {
  owned = set_active-IsOwned now (λ r. is_of id r.installation_id) s.repos h.owned;
  one_per_group = h.one_per_group;
}
watch-IsSound false now id repositories s h = put_repositories-IsSound now id repositories s h

handle_installation-IsSound :
    (parse : String → Option ℕ) (now : ℕ) (payload : Json) (s : Store)
    → IsSound s
    → Returns IsSound (handle_installation parse now payload s)
unfolding handle_installation put_installation
handle_installation-IsSound parse now payload s h =
    Returns-or_raise IsSound _ (as_num (get "id" (get "installation" payload))) _ λ id.
      watch-IsSound (is_action "deleted" payload) now id (items_of (get "repositories" payload)) _
        (record { owned = h.owned; one_per_group = h.one_per_group })

handle_installation_repositories-IsSound :
    (now : ℕ) (payload : Json) (s : Store)
    → IsSound s
    → Returns IsSound (handle_installation_repositories now payload s)
unfolding handle_installation_repositories
handle_installation_repositories-IsSound now payload s h =
    let installation = get "installation" payload in
    Returns-or_raise IsSound _ (as_num (get "id" installation)) _ λ id.
      Returns-bind IsSound IsSound _ _
        (put_repositories-IsSound now id (items_of (get "repositories_added" payload)) _
          (put_installation-IsSound now id (get "account" installation) s h))
        λ t k. (record {
          owned =
              set_repositories_active-IsOwned now
                (ids_of (items_of (get "repositories_removed" payload))) t.repos k.owned;
          one_per_group = k.one_per_group;
        })

-- Whatever the event and its payload, a handler that returns keeps the tables' constraints: that
-- every repository is installed with an installation, or observed, public and without one, and
-- that there is at most one flake event for a group and signal.
pub handle_event-IsSound :
    (parse : String → Option ℕ) (c : Settings) (now : ℕ) (event : String) (payload : Json)
    → (s : Store) → IsSound s
    → Returns IsSound (handle_event parse c now event payload s)
unfolding handle_event
handle_event-IsSound parse c now event payload s h = elim (Bool-cases (same event "workflow_job")) [
  | inl e ↦ rw (e) (handle_workflow_job-IsSound parse c now payload s h)
  | inr e ↦ elim (Bool-cases (same event "workflow_run")) [
    | inl f ↦ rw (e, f) (handle_workflow_run-IsSound parse c now payload s h)
    | inr f ↦ elim (Bool-cases (same event "installation")) [
      | inl g ↦ rw (e, f, g) (handle_installation-IsSound parse now payload s h)
      | inr g ↦ elim (Bool-cases (same event "installation_repositories")) [
        | inl k ↦ rw (e, f, g, k) (handle_installation_repositories-IsSound now payload s h)
        | inr k ↦ rw (e, f, g, k) h
      ]
    ]
  ]
]
