-- ===== src/Queue/System.antt =====
-- Any number of workers, the reaper and the sweep over one `event_queue` table
-- (backend/app/queue.py, backend/app/worker.py), as steps in any order. Each statement is one
-- step, since each runs in its own short transaction. `held` are the claims that some worker has
-- not yet answered: a claim outlives the row's own `processing`, because the reaper takes the row
-- back and not the worker's copy.
use flakehound.Base.{
  ℕ, ◌+◌, ◌≡◌, String, Bool, Option, none, List, [], ◌∷◌, ◌++◌, ◌==◌, if◌then◌else◌,
}
use flakehound.Json.{Json}
use flakehound.Queue.{
  Row, ClaimedJob, Settings, Status, claim_batch, mark_done, mark_for_retry, defer, reap_stuck,
  fail_exhausted,
}

pub record System : Type 0 where
  pub rows : List Row
  pub held : List ClaimedJob
  -- The identity column's next value.
  pub next_id : ℕ

-- The row that an INSERT with the table's defaults writes.
unfoldable pub new_row : ℕ → ℕ → Option String → String → Option String → Json → ℕ → Row
new_row now i delivery_id job_type event payload priority = record {
  id = i;
  delivery_id = delivery_id;
  job_type = job_type;
  event = event;
  payload = payload;
  priority = priority;
  status = Status.pending;
  attempts = 0;
  max_attempts = 5;
  locked_at = none;
  next_attempt_at = none;
  last_error = none;
  completed_at = none;
  created_at = now;
  updated_at = now;
}

pub data Step (s : System) : System → Type 0 where
  enqueue :
      (now : ℕ) (delivery_id : Option String) (job_type : String) (event : Option String)
      (payload : Json) (priority : ℕ)
      → Step s (record s {
        rows = new_row now s.next_id delivery_id job_type event payload priority ∷ s.rows;
        next_id = s.next_id + 1;
      })
  claim :
      (now limit : ℕ) (locked : ℕ → Bool)
      → Step s (record s {
        rows = (claim_batch now limit locked s.rows).1;
        held = (claim_batch now limit locked s.rows).0 ++ s.held;
      })
  finish :
      (now : ℕ) (before after : List ClaimedJob) (j : ClaimedJob)
      → s.held ≡ before ++ (j ∷ after)
      → Step s (record s { rows = mark_done now j.id s.rows; held = before ++ after })
  retry :
      (c : Settings) (now : ℕ) (error : String) (before after : List ClaimedJob) (j : ClaimedJob)
      → s.held ≡ before ++ (j ∷ after)
      → Step s (record s { rows = (mark_for_retry c now j error s.rows).1; held = before ++ after })
  put_back :
      (now seconds : ℕ) (reason : String) (before after : List ClaimedJob) (j : ClaimedJob)
      → s.held ≡ before ++ (j ∷ after)
      → Step s (record s { rows = defer now j seconds reason s.rows; held = before ++ after })
  -- A worker dies: nothing is written.
  crash :
      (before after : List ClaimedJob) (j : ClaimedJob)
      → s.held ≡ before ++ (j ∷ after)
      → Step s (record s { held = before ++ after })
  reap : (c : Settings) (now : ℕ) → Step s (record s { rows = (reap_stuck c now s.rows).1 })
  fail : (now : ℕ) → Step s (record s { rows = (fail_exhausted now s.rows).1 })

pub data Reach (s : System) : System → Type 0 where
  here : Reach s s
  next : {t u : System} → Reach s t → Step t u → Reach s u

abbrev pub start : System
start = record { rows = []; held = []; next_id = 1 }

-- How many claims on row `i` are outstanding.
abbrev pub holders : ℕ → List ClaimedJob → ℕ
holders i [] = 0
holders i (j ∷ js) = (if j.id == i then 1 else 0) + holders i js

pub Reach-trans : {s t u : System} → Reach s t → Reach t u → Reach s u
Reach-trans r Reach.here = r
Reach-trans r (Reach.next p q) = Reach.next (Reach-trans r p) q
