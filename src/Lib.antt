-- ===== src/Lib.antt =====
-- Flakehound finds flaky CI jobs from the GitHub Actions history of a repository. This library
-- models the service behind it, backend/app, with theorems on its parts.
--
-- The parts, and how they work together. A webhook is recorded and queued in one transaction
-- (backend/app/ingest.py). A worker claims rows of the queue (backend/app/queue.py), handles each
-- in its own transaction and settles the row (backend/app/worker.py), and a sweep returns the rows
-- of dead workers. A handler upserts facts about runs and jobs (backend/app/upserts.py) and
-- evaluates the two flake signals over them (backend/app/detection.py). A backfill walks a
-- repository's past runs, one queue row a page (backend/app/backfill.py), and paces its requests by
-- a token bucket per installation (backend/app/ratelimit.py). A rollup recounts the facts by day
-- (backend/app/rollup.py), and the leaderboards are read from it (backend/app/stats.py). A changed
-- signal is applied to the past by queueing the stored payloads again (backend/app/reevaluate.py).
-- The dashboard reads a job's history commit by commit (backend/app/history.py), and public
-- repositories are admitted to a board by their metadata (backend/app/observe.py).
--
-- Which file models which part:
-- * Base and its children hold what the parts share: lists, Boolean tests, SQL's three-valued
--   conditions, a stable sort for ORDER BY, an upsert on a list for INSERT … ON CONFLICT, and
--   results for code that raises. Json is the value that Python's json gives, Facts the tables of
--   backend/app/models.py.
-- * Queue is backend/app/queue.py, one definition for each statement: `claim_batch`, `mark_done`,
--   `mark_for_retry`, `defer`, `reap_stuck`, `fail_exhausted`, over the rows of `event_queue`.
--   Queue/System makes them the steps of any number of workers, with the claims outstanding.
--   Queue/Sweep is the first transaction of `sweep` in backend/app/worker.py.
-- * Ingest is `record_delivery`, with Ingest/Steps relating it to the step relation of
--   Queue/System. Worker is `run_once` over any handler, Worker/Answers is about the rows that it
--   claims, and Worker/Webhooks puts the event handlers in the handler's place.
-- * Upserts/Progress, Jobs, Runs and Workflows are `_never_regress`, `upsert_job`, `upsert_run`,
--   `run_workflow_id`, `propagate_workflow_id` and `upsert_workflow`; Upserts/Installations and
--   Upserts/Repositories are the functions on installations and repositories.
-- * Handlers is backend/app/handlers.py without the dispatch on a row's job type: the four event
--   handlers over one store of tables.
-- * Detection is `opportunity_filter` and the two lookups, Detection/Signals the two signals,
--   `record_flake_event` and `evaluate_job` with the table `flake_events` as state.
-- * Backfill/Window is `Window`, `first_window` and `next_window`; Backfill/Runs and
--   Backfill/Handler are `_record_run`, `start_backfill` and `handle_backfill_runs`; Backfill/Crawl
--   is the walk that the handler makes over its windows, its pages left out, and Backfill/Progress
--   relates a page of the handler to it. Backfill/Jobs is `handle_backfill_jobs` and `_record_job`,
--   on the tables of the event handlers. Backfill/Observed is `start_observed_backfills`.
-- * RateLimit is backend/app/ratelimit.py: `Bucket` and `RateLimiter` with their operations.
--   RateLimit/Budget makes the requests and the answers of one installation a run of its bucket.
-- * Rollup is backend/app/rollup.py with `implicated_job_ids` and `flake_filter` of
--   backend/app/detection.py: `_aggregate`, `rollup_repository` and the passes over repositories,
--   with the table `job_stats_daily` as state.
-- * Stats and Stats/Public are backend/app/stats.py: the interval, `_ranked`, and the three
--   leaderboards. Stats/Oracle is what the source keeps `flaky_jobs_from_facts` for.
-- * Reevaluate is `enqueue_reevaluation` of backend/app/reevaluate.py, over the rows of
--   `event_queue`.
-- * Discover is `search_band` of backend/app/discover.py, with GitHub's answers as a parameter.
-- * ApiMetrics is the reservoir and the recorder of backend/app/apimetrics.py, without `drain`'s
--   metrics.
-- * History is the grouping loop of `job_history` and `CommitHistory`, Observe is `assess` and
--   `facts_from_payloads`.
--
-- How state and operations correspond. A table is a list of records and a statement is a function
-- on it; a session's transaction is one function, and concurrent transactions are steps in any
-- order. Instants and delays are whole microseconds, a date is its ordinal, ids and counts are the
-- natural numbers. The clock of a statement is an argument. A SQL condition that is NULL takes no
-- row. What Postgres leaves open (which rows are locked by others) is an argument; the order that
-- RETURNING leaves open is the table's here. Code that raises returns an error value, and the
-- caller's rollback is the store unchanged.
--
-- Bounds and fuel. `crawl` runs on fuel, for which days * window_days + window_days is given for a
-- backfill of that many days: a step halves a window or moves to an older one. Its floor is fixed,
-- where the handler finds it anew from the day and from `backfill_days`. The pages of a run's jobs
-- are at most `max_job_pages` and those of a search at most `search_max_pages`, as in the source.
-- Every other loop is structural, but for `acquire`, which is given the two rounds that it can take
-- where the refill is exact. Subtraction stops at 0 where the source takes a maximum with 0;
-- Postgres' decrement in `defer` does not stop there, and Queue/Holders compares the two. A date
-- below 1 is Python's OverflowError. Integers do not wrap: Postgres would raise on a bigint
-- overflow, which is left out.
--
-- Floats. The rate limiter's are exact here, in units of which a request costs one window, and a
-- wait is rounded up to a microsecond; in Python a sleep can end a rounding error before the token
-- is there, and the loop of `acquire` then goes round once more for the rest of it. The interval's
-- are a parameter with the operations that the source applies, and what a theorem needs of their
-- comparison is its hypothesis. Postgres' aggregates over durations are a parameter.
--
-- Not modelled: HTTP requests and their authentication (a parameter of the backfill), timestamps'
-- text format (a parameter), foreign keys, the dispatch on a job type, discovery but for its
-- search, the metrics' values, the routes, the migrations and the command lines.
pub mod Base
pub mod Json
pub mod Facts
pub mod Queue
pub mod Ingest
pub mod Worker
pub mod Upserts
pub mod Detection
pub mod Handlers
pub mod Backfill
pub mod RateLimit
pub mod Rollup
pub mod Stats
pub mod Reevaluate
pub mod Discover
pub mod ApiMetrics
pub mod History
pub mod Observe
