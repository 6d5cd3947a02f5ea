-- ===== src/Worker.antt =====
-- backend/app/worker.py: one pass of the worker, `run_once`, over a store that holds the queue and
-- whatever else the handlers write. Each row is one transaction, so a handler that raises leaves
-- the store as it was.
mod Tests
pub mod Answers
pub mod Webhooks
use flakehound.Base.{ℕ, String, Bool, List, [], ◌∷◌, ◌++◌, length}
use flakehound.Queue.{Row, ClaimedJob, Settings, claim_batch, mark_done, mark_for_retry, defer}

-- `facts` is every table but `event_queue`.
pub record Store (F : Type 0) : Type 0 where
  pub facts : F
  pub rows : List Row
  pub next_id : ℕ

-- How a handler ends. The texts are the reasons that the row is given, and the second number is
-- the wait that the limiter asked for.
pub data Ending (F : Type 0) : Type 0 where
  handled : Store F → Ending F
  rate_limited : ℕ → String → Ending F
  raised : String → Ending F

module _ {F : Type 0} where
  -- What the row of one claimed job comes to, at the instant of its transaction.
  unfoldable pub settle : Settings → ℕ → ClaimedJob → Ending F → Store F → Store F
  unfolding mark_done mark_for_retry defer
  settle c now job (handled s') s = record s' { rows = mark_done now job.id s'.rows }
  settle c now job (rate_limited seconds reason) s = record s {
    rows = defer now job seconds reason s.rows;
  }
  settle c now job (raised error) s = record s { rows = (mark_for_retry c now job error s.rows).1 }

  -- for job in claimed: …
  unfoldable pub run_jobs :
      Settings
      → (ClaimedJob → ℕ)
      → (ClaimedJob → Store F → Ending F)
      → List ClaimedJob
      → Store F
      → Store F
  unfolding settle
  run_jobs c clock handle [] s = s
  run_jobs c clock handle (job ∷ jobs) s =
      run_jobs c clock handle jobs (settle c (clock job) job (handle job s) s)

  -- The number of rows claimed, and the store after.
  unfoldable pub run_once :
      Settings
      → ℕ
      → (ClaimedJob → ℕ)
      → (ClaimedJob → Store F → Ending F)
      → (ℕ → Bool)
      → ℕ
      → Store F
      → ℕ × Store F
  unfolding claim_batch run_jobs
  run_once c now clock handle locked batch_size s =
      let (claimed, rows) = claim_batch now batch_size locked s.rows in
      (length claimed, run_jobs c clock handle claimed (record s { rows = rows }))
