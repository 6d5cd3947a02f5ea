-- ===== src/Worker/Tests.antt =====
-- The theorems on backend/app/worker.py with a handler that adds a row for one job, meets the rate
-- limit on the next and fails on any other.
use flakehound.Base.{
  ℕ, zero, suc, ◌+◌, ◌≡◌, Bool, true, false, String, Option, none, some, [], ◌∷◌, ◌++◌, In, inr,
  arith, refl, subst, ap,
}
use flakehound.Json.{Json}
use flakehound.Queue.{Row, ClaimedJob, Settings, claim_batch}
use flakehound.Base.Sort.{sort}
use flakehound.Queue.System.{new_row}
use flakehound.Queue.Ids.{Unique}
use flakehound.Worker.{Store, Ending, handled, rate_limited, raised, run_jobs, run_once}
use flakehound.Detection as Detection
use flakehound.Handlers as Handlers
use flakehound.Handlers.Keeps.{IsSound}
use flakehound.Worker.Webhooks as Webhooks
use flakehound.Worker.Webhooks.{run_once-IsSound}
use flakehound.Worker.Answers.{IsQueueSafe, HasAnswer, claimed, run_once-HasAnswer}

abbrev settings : Settings
settings = record {
  retry_backoff = 5000000;
  retry_backoff_max = 300000000;
  reaper_timeout = 600000000;
}

-- The facts are a count of the jobs handled.
abbrev follow_up : Store ℕ → Store ℕ
follow_up s = record s {
  facts = s.facts + 1;
  rows = new_row 500 s.next_id none "backfill_jobs" none Json.null 1 ∷ s.rows;
  next_id = s.next_id + 1;
}

abbrev handle_id : ℕ → Store ℕ → Ending ℕ
handle_id (suc zero) s = handled (follow_up s)
handle_id (suc (suc zero)) s = rate_limited 60000000 "rate limited"
handle_id _ s = raised "boom"

abbrev handle : ClaimedJob → Store ℕ → Ending ℕ
handle job s = handle_id job.id s

abbrev store_of : Ending ℕ → Store ℕ → Store ℕ
store_of (handled t) s = t
store_of _ s = s

handle_id-IsQueueSafe :
    (i : ℕ) (s s' : Store ℕ) (x : Row) → handle_id i s ≡ handled s' → In x s.rows → In x s'.rows
handle_id-IsQueueSafe (suc zero) s s' x e m =
    subst (λ t. In x t.rows) (ap (λ n. store_of n s) e) (inr m)
handle_id-IsQueueSafe zero s s' x e m = cc
handle_id-IsQueueSafe (suc (suc zero)) s s' x e m = cc
handle_id-IsQueueSafe (suc (suc (suc i))) s s' x e m = cc

handle-IsQueueSafe : IsQueueSafe handle
handle-IsQueueSafe job s s' x e m = handle_id-IsQueueSafe job.id s s' x e m

abbrev three_rows : Store ℕ
three_rows = record {
  facts = 0;
  rows =
      new_row 120 3 none "webhook" (some "installation") Json.null 0
      ∷ (new_row 110 2 none "webhook" (some "workflow_run") Json.null 0
          ∷ (new_row 100 1 none "webhook" (some "workflow_job") Json.null 0 ∷ []));
  next_id = 4;
}

abbrev none_locked : ℕ → Bool
none_locked i = false

abbrev clock : ClaimedJob → ℕ
clock job = 400

three_rows-Unique : Unique three_rows.rows
unfolding new_row
three_rows-Unique = (
  ((λ e. absurd (omega (arith, e))), ((λ e. absurd (omega (arith, e))), tt)),
  (((λ e. absurd (omega (arith, e))), tt), (tt, tt)),
)

abbrev job : ℕ → String → ClaimedJob
job id event = record {
  id = id;
  job_type = "webhook";
  event = some event;
  payload = Json.null;
  attempts = 1;
  max_attempts = 5;
}

three_claimed :
    (claimed 300 10 none_locked three_rows).0
    ≡ (job 3 "installation" ∷ []) ++ (job 2 "workflow_run" ∷ (job 1 "workflow_job" ∷ []))
unfolding claim_batch new_row sort
three_claimed = refl

run_once-HasAnswer_example :
    HasAnswer settings 400
      (job 2 "workflow_run")
      (handle (job 2 "workflow_run") (
        run_jobs settings clock handle
          (job 3 "installation" ∷ [])
          (claimed 300 10 none_locked three_rows).1))
      (run_once settings 300 clock handle none_locked 10 three_rows).1.rows
run_once-HasAnswer_example =
    run_once-HasAnswer settings 300 clock handle none_locked 10 three_rows
      (job 3 "installation" ∷ []) (job 1 "workflow_job" ∷ []) (job 2 "workflow_run")
      handle-IsQueueSafe three_rows-Unique three_claimed

abbrev no_facts : Handlers.Store
no_facts = record {
  installations = [];
  repos = [];
  workflows = [];
  runs = [];
  jobs = [];
  events = [];
}

abbrev webhooks : Store Handlers.Store
webhooks = record {
  facts = no_facts;
  rows = new_row 100 1 (some "a") "webhook" (some "workflow_job") Json.null 0 ∷ [];
  next_id = 2;
}

no_facts-IsSound : IsSound no_facts
no_facts-IsSound = record { owned = tt; one_per_group = tt }

abbrev detection : Detection.Settings
detection = record { timed_out_is_failure = true; exclude_infra_failures = true }

abbrev parse : String → Option ℕ
parse text = none

abbrev describe : Handlers.Error → String
describe e = "ValueError"

one_claimed : (claimed 300 10 none_locked webhooks).0 ≡ [] ++ (job 1 "workflow_job" ∷ [])
unfolding claim_batch new_row sort
one_claimed = refl

run_once-IsSound_example :
    let handle = Webhooks.handle parse detection describe clock in
    IsSound (run_once settings 300 clock handle none_locked 10 webhooks).1.facts
    × HasAnswer settings 400
        (job 1 "workflow_job")
        (handle
          (job 1 "workflow_job")
          (run_jobs settings clock handle [] (claimed 300 10 none_locked webhooks).1))
        (run_once settings 300 clock handle none_locked 10 webhooks).1.rows
run_once-IsSound_example =
    run_once-IsSound parse detection describe settings 300 clock none_locked 10 webhooks [] []
      (job 1 "workflow_job") no_facts-IsSound (tt, tt) one_claimed
