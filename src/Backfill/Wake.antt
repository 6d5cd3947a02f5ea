-- ===== src/Backfill/Wake.antt =====
-- The wake-up chain of backend/app/backfill.py, where one queue row does one page: the rows that
-- wake the walk, before and after a handler.
use flakehound.Base.{
  ℕ, zero, suc, ◌+◌, ◌≡◌, refl, ap, ◌∙◌, String, ◌⊎◌, inl, inr, Option, none, some, arith, filter,
  length, same, if◌then◌else◌, Bool-cases, Option-cases,
}
use flakehound.Base.Result.{Result, ok, err, ◌>>=◌, Returns, Returns-bind, Returns-map}
use flakehound.Json.{Json, Items, nil, cons, get, as_num, as_str}
use flakehound.Facts.{Repository, BackfillStatus}
use flakehound.Backfill.Window.{Window, halved, next_window, days_back}
use flakehound.Backfill.Runs.{
  Settings, Error, Response, not_found, refused, success, Store, or_raise, request_identity,
  save_cursor, runs_job_type, jobs_job_type, enqueue, enqueue_attempts, jobs_payload, record_run,
  backfill_priority, backfill_days, with_workflow, stored, or_one,
}
use flakehound.Backfill.Handler.{
  handle_response, is_running, page_of, record_runs, after_window, handle_page,
  handle_backfill_runs, wake_at, rest_at, more_pages, or_zero, listed, narrow_now,
}

-- How many rows wake the walk.
abbrev pub wakes : Store → ℕ
wakes s = length (filter (λ r. same r.job_type runs_job_type) s.rows)

wakes_attempts :
    (now repo_id run_id priority n first : ℕ) (s : Store)
    → wakes (enqueue_attempts now repo_id run_id priority n first s) ≡ wakes s
unfolding enqueue_attempts
wakes_attempts now repo_id run_id priority zero first s = refl
wakes_attempts now repo_id run_id priority (suc n) first s =
    wakes_attempts now repo_id run_id priority n (first + 1)
      (enqueue now jobs_job_type (jobs_payload repo_id run_id first) priority s)

pub Returns-or_raise :
    {A B : Type 0} (P : B → Type 0) (e : Error) (o : Option A) (f : A → Result Error B)
    → ((a : A) → Returns P (f a))
    → Returns P (or_raise e o >>= f)
unfolding or_raise
Returns-or_raise P e none f k = tt
Returns-or_raise P e (some a) f k = k a

wakes-with_workflow :
    (now repo_id : ℕ) (run : Json) (w : Option ℕ) (s : Store)
    → wakes (with_workflow now repo_id run w s) ≡ wakes s
wakes-with_workflow now repo_id run none s = refl
wakes-with_workflow now repo_id run (some w) s = refl

wakes-record_run :
    (parse : String → Option ℕ) (now repo_id : ℕ) (run : Json) (priority : ℕ) (s : Store)
    → Returns (λ r. wakes (r.1) ≡ wakes s) (record_run parse now repo_id run priority s)
unfolding record_run
wakes-record_run parse now repo_id run priority s = elim (Option-cases (as_num (get "id" run))) [
  | inl e ↦ rw (e, record_run) refl
  | inr (i, e) ↦
      rw (e, record_run)
        (Returns-or_raise (λ r. wakes (r.1) ≡ wakes s) _ (as_str (get "head_sha" run)) _
          λ sha.
            wakes_attempts now repo_id i priority (or_one (as_num (get "run_attempt" run))) 1
              (stored parse now repo_id run i (or_one (as_num (get "run_attempt" run))) sha s)
            ∙ wakes-with_workflow now repo_id run (as_num (get "workflow_id" run)) s)
]

wakes-record_runs :
    (parse : String → Option ℕ) (now repo_id : ℕ) (runs : Items) (priority : ℕ) (s : Store)
    → Returns (λ t. wakes t ≡ wakes s) (record_runs parse now repo_id runs priority s)
unfolding record_runs
wakes-record_runs parse now repo_id nil priority s = refl
wakes-record_runs parse now repo_id (cons run rest) priority s =
    Returns-bind (λ r. wakes (r.1) ≡ wakes s) (λ t. wakes t ≡ wakes s) _ _
      (wakes-record_run parse now repo_id run priority s)
      (λ r e.
        Returns-map (λ t. wakes t ≡ wakes (r.1)) (λ t. wakes t ≡ wakes s) _ (λ t q. q ∙ e)
          (wakes-record_runs parse now repo_id rest priority (r.1)))

pub Returns-anything : {A : Type 0} (m : Result Error A) → Returns {0, 0} (λ _. Unit) m
Returns-anything (ok a) = tt
Returns-anything (err e) = tt

-- What a page leaves of the repository and the queue, when it changes anything.
pub LeavesWake : Store → Store → Type 0
LeavesWake s t =
    (r : Repository) × (t.repo ≡ some r)
    × (wakes t ≡ wakes s + (if is_running r.backfill_status then 1 else 0))

wake_lem :
    (now : ℕ) (w : Window) (page : ℕ) (r : Repository) (s t : Store)
    → wakes t ≡ wakes s
    → LeavesWake s (wake_at now w page r t)
unfolding LeavesWake enqueue save_cursor
wake_lem now w page r s t q = (_, refl, ap suc q ∙ omega arith)

rest_lem :
    (now : ℕ) (r : Repository) (s t : Store)
    → wakes t ≡ wakes s
    → LeavesWake s (rest_at now BackfillStatus.done r t)
unfolding LeavesWake save_cursor
rest_lem now r s t q = (_, refl, q ∙ omega arith)

after_window-LeavesWake :
    (now : ℕ) (following : Option Window) (r : Repository) (s t : Store)
    → wakes t ≡ wakes s
    → LeavesWake s (after_window now following r t)
unfolding after_window
after_window-LeavesWake now none r s t q = rest_lem now r s t q
after_window-LeavesWake now (some w) r s t q = wake_lem now w 1 r s t q

handle_page-LeavesWake :
    (parse : String → Option ℕ) (c : Settings) (now floor : ℕ) (r : Repository) (window : Window)
    → (page : ℕ) (body : Json) (s : Store)
    → Returns (LeavesWake s) (handle_page parse c now floor r window page body s)
unfolding handle_page
handle_page-LeavesWake parse c now floor r window page body s =
    let total = or_zero (as_num (get "total_count" body)) in
    let runs = listed (get "workflow_runs" body) in
    elim (Bool-cases (narrow_now c page total window)) [
      | inl e ↦
          rw (e, handle_page)
            (Returns-or_raise (LeavesWake s) _ (halved window) _ λ w. wake_lem now w 1 r s s refl)
      | inr e ↦
          rw (e, handle_page)
            (Returns-bind (λ t. wakes t ≡ wakes s) (LeavesWake s) _ _
              (wakes-record_runs parse now r.id runs (backfill_priority r) s)
              λ t q. elim (Bool-cases (more_pages c page total runs)) [
                | inl m ↦ rw (m) (wake_lem now window (page + 1) r s t q)
                | inr m ↦ rw (m) (
                    Returns-or_raise (LeavesWake s) _
                      (next_window window floor c.backfill_window_days) _
                      λ f. after_window-LeavesWake now f r s t q)
              ])
    ]

-- What the handler does with a response.
answer-LeavesWake :
    (parse : String → Option ℕ) (c : Settings) (now floor : ℕ) (r : Repository) (window : Window)
    → (page : ℕ) (answer : Response) (s : Store)
    → Returns (LeavesWake s) (handle_response parse c now floor r window page answer s)
unfolding handle_response LeavesWake save_cursor
answer-LeavesWake parse c now floor r window page not_found s = (_, refl, omega arith)
answer-LeavesWake parse c now floor r window page (refused code) s = tt
answer-LeavesWake parse c now floor r window page (success body) s =
    handle_page-LeavesWake parse c now floor r window page body s

-- Whatever GitHub answers, a page handler that returns either changed nothing, or left a
-- repository and, in the same store, one more wake-up exactly if that repository is still running.
pub handle_backfill_runs-LeavesWake :
    (parse : String → Option ℕ) (respond : ℕ → Window → ℕ → Response) (c : Settings)
    → (now today : ℕ) (payload : Json) (s : Store)
    → Returns
        (λ t. (t ≡ s) ⊎ LeavesWake s t)
        (handle_backfill_runs parse respond c now today payload s)
unfolding handle_backfill_runs
handle_backfill_runs-LeavesWake parse respond c now today payload s =
    let P = λ (t : Store). (t ≡ s) ⊎ LeavesWake s t in
    Returns-or_raise P _ (as_num (get "repo_id" payload)) _ λ repo_id.
      Returns-or_raise P _ s.repo _ λ r. elim (Bool-cases (is_running r.backfill_status)) [
        | inr e ↦ rw (e) (inl refl)
        | inl e ↦ elim (Option-cases r.backfill_window_end) [
          | inl n ↦ rw (e, n) (inl refl)
          | inr (end, n) ↦
              rw (e, n)
                (Returns-or_raise P _ r.backfill_window_start _ λ start.
                  Returns-or_raise P _ (days_back today (backfill_days c r)) _ λ floor.
                    Returns-bind {0, 0, 0} (λ _. Unit) P _ _
                      (Returns-anything (request_identity c r))
                      λ identity _.
                        let w : Window = record { start = start; end = end } in
                        let page = page_of r.backfill_page in
                        Returns-map (LeavesWake s) P _ (λ _ l. inr l)
                          (answer-LeavesWake parse c now floor r w page (respond identity w page)
                            s))
        ]
      ]
