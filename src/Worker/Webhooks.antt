-- ===== src/Worker/Webhooks.antt =====
-- `run_once` of backend/app/worker.py with the event handlers of backend/app/handlers.py: the rows
-- that a webhook queued.
use flakehound.Base.{ℕ, ◌≡◌, ap, String, Bool, Option, none, some, List, [], ◌∷◌, ◌++◌, In, subst}
use flakehound.Base.Result.{Result, ok, err, Returns}
use flakehound.Queue.Ids.{Unique}
use flakehound.Queue.{Row, ClaimedJob, Settings, claim_batch}
use flakehound.Worker.{Store, Ending, handled, rate_limited, raised, settle, run_jobs, run_once}
use flakehound.Worker.Answers.{IsQueueSafe, HasAnswer, claimed, run_once-HasAnswer}
use flakehound.Detection as Detection
use flakehound.Handlers as Handlers
use flakehound.Handlers.{handle_event}
use flakehound.Handlers.Keeps.{IsSound, handle_event-IsSound}

-- claimed.event or ""
abbrev pub event_of : Option String → String
event_of none = ""
event_of (some e) = e

-- What the worker makes of a handler's return or exception, of which `describe` gives the text.
unfoldable pub ending_of :
    (Handlers.Error → String)
    → Store Handlers.Store
    → Result Handlers.Error Handlers.Store
    → Ending Handlers.Store
ending_of describe s (ok facts) = handled (record s { facts = facts })
ending_of describe s (err e) = raised (describe e)

-- `handle` at a row whose job type leads to the event table.
unfoldable pub handle :
    (String → Option ℕ)
    → Detection.Settings
    → (Handlers.Error → String)
    → (ClaimedJob → ℕ)
    → ClaimedJob
    → Store Handlers.Store
    → Ending Handlers.Store
unfolding handle_event ending_of
handle parse c describe clock job s =
    ending_of describe s (handle_event parse c (clock job) (event_of job.event) job.payload s.facts)

-- A handler that is done keeps a property of the facts.
abbrev pub EndsIn : {F : Type 0} → (F → Type 0) → Ending F → Type 0
EndsIn P (handled s') = P s'.facts
EndsIn P (rate_limited seconds reason) = Unit
EndsIn P (raised error) = Unit

settle-facts :
    {F : Type 0} (P : F → Type 0) (c : Settings) (now : ℕ) (job : ClaimedJob) (e : Ending F)
    → (s : Store F) → P s.facts
    → EndsIn P e
    → P (settle c now job e s).facts
unfolding settle
settle-facts P c now job (handled s') s p q = q
settle-facts P c now job (rate_limited seconds reason) s p q = p
settle-facts P c now job (raised error) s p q = p

run_jobs-facts :
    {F : Type 0} (P : F → Type 0) (c : Settings) (clock : ClaimedJob → ℕ)
    → (handle : ClaimedJob → Store F → Ending F)
    → ((job : ClaimedJob) (s : Store F) → P s.facts → EndsIn P (handle job s))
    → (jobs : List ClaimedJob) (s : Store F) → P s.facts
    → P (run_jobs c clock handle jobs s).facts
unfolding run_jobs
run_jobs-facts P c clock handle k [] s p = p
run_jobs-facts P c clock handle k (job ∷ jobs) s p =
    run_jobs-facts P c clock handle k jobs (settle c (clock job) job (handle job s) s)
      (settle-facts P c (clock job) job (handle job s) s p (k job s p))

ending_of-IsSound :
    (describe : Handlers.Error → String) (s : Store Handlers.Store)
    → (m : Result Handlers.Error Handlers.Store) → Returns IsSound m
    → EndsIn IsSound (ending_of describe s m)
unfolding ending_of
ending_of-IsSound describe s (ok facts) h = h
ending_of-IsSound describe s (err e) h = tt

handle-IsSound :
    (parse : String → Option ℕ) (d : Detection.Settings) (describe : Handlers.Error → String)
    → (clock : ClaimedJob → ℕ) (job : ClaimedJob) (s : Store Handlers.Store) → IsSound s.facts
    → EndsIn IsSound (handle parse d describe clock job s)
unfolding handle
handle-IsSound parse d describe clock job s h =
    ending_of-IsSound describe s _
      (handle_event-IsSound parse d (clock job) (event_of job.event) job.payload s.facts h)

same_rows :
    (describe : Handlers.Error → String) (s s' : Store Handlers.Store) (x : Row)
    (m : Result Handlers.Error Handlers.Store)
    → ending_of describe s m ≡ handled s'
    → In x s.rows
    → In x s'.rows
unfolding ending_of
same_rows describe s s' x (ok facts) e i = subst (λ t. In x t.rows) (ap (λ n. store_of n s) e) i
  where
    store_of : Ending Handlers.Store → Store Handlers.Store → Store Handlers.Store
    store_of (handled t) u = t
    store_of _ u = u
same_rows describe s s' x (err y) e i = cc

pub handle-IsQueueSafe :
    (parse : String → Option ℕ) (d : Detection.Settings) (describe : Handlers.Error → String)
    (clock : ClaimedJob → ℕ)
    → IsQueueSafe (handle parse d describe clock)
unfolding handle
handle-IsQueueSafe parse d describe clock job s s' x e i = same_rows describe s s' x _ e i

-- From facts that meet the tables' constraints and a table of distinct ids, a pass of the worker over
-- webhook rows, whatever their payloads and however many handlers raise, keeps the constraints and
-- answers every job that it claims: the job's row is done if its handler returned, and unlocked and
-- pending until the backoff is over, or failed if its attempts are spent, if the handler raised.
pub run_once-IsSound :
    (parse : String → Option ℕ) (d : Detection.Settings) (describe : Handlers.Error → String)
    (c : Settings) (now : ℕ) (clock : ClaimedJob → ℕ) (locked : ℕ → Bool) (batch_size : ℕ)
    (s : Store Handlers.Store) (before after : List ClaimedJob) (job : ClaimedJob)
    → IsSound s.facts
    → Unique s.rows
    → (claimed now batch_size locked s).0 ≡ before ++ (job ∷ after)
    → IsSound (run_once c now clock (handle parse d describe clock) locked batch_size s).1.facts
      × HasAnswer c
          (clock job)
          job
          (handle parse d describe clock job (
            run_jobs c clock
              (handle parse d describe clock)
              before
              (claimed now batch_size locked s).1))
          (run_once c now clock (handle parse d describe clock) locked batch_size s).1.rows
unfolding run_once
run_once-IsSound parse d describe c now clock locked batch_size s before after job h u q =
    let (jobs, rows) = claim_batch now batch_size locked s.rows in
    (
      run_jobs-facts IsSound c clock (handle parse d describe clock)
          (handle-IsSound parse d describe clock) jobs (record s { rows = rows }) h,
      run_once-HasAnswer c now clock (handle parse d describe clock) locked batch_size s before
          after job (handle-IsQueueSafe parse d describe clock) u q,
    )
