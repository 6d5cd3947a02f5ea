-- ===== src/Reevaluate.antt =====
-- backend/app/reevaluate.py: the INSERT … SELECT that queues the stored webhook payloads again. A
-- repository's id is the payload's number; an id that stands there as a text is not modelled.
mod Tests
pub mod Again
use flakehound.Base.{
  ℕ, ◌+◌, String, Bool, true, false, ◌&&◌, Option, none, some, List, [], ◌∷◌, ◌++◌, filter, length,
  same, ◌==◌,
}
use flakehound.Json.{get, number}
use flakehound.Queue.{Row}
use flakehound.Queue.System.{new_row}

abbrev pub backfill_priority : ℕ
backfill_priority = 1

abbrev pub webhook_job_type : String
webhook_job_type = "webhook"

abbrev pub reevaluate_job_type : String
reevaluate_job_type = "reevaluate"

abbrev pub names_repo : ℕ → Option ℕ → Bool
names_repo repo_id none = false
names_repo repo_id (some n) = n == repo_id

-- if repo_id is not None: … the second condition
abbrev pub of_repo : Option ℕ → Row → Bool
of_repo none r = true
of_repo (some repo_id) r = names_repo repo_id (number (get "id" (get "repository" r.payload)))

-- The WHERE of the SELECT.
unfoldable pub is_source : Option ℕ → Row → Bool
unfolding get number
is_source repo_id r = same r.job_type webhook_job_type && of_repo repo_id r

-- One row of the INSERT, under the next id: no delivery, and the original's created_at.
unfoldable pub copied : (now id : ℕ) → Row → Row
unfolding new_row
copied now id r =
    record (new_row now id none reevaluate_job_type r.event r.payload backfill_priority) {
      created_at = r.created_at;
    }

unfoldable pub copy_all : (now next_id : ℕ) → List Row → List Row
unfolding copied
copy_all now next_id [] = []
copy_all now next_id (r ∷ rows) = copied now next_id r ∷ copy_all now (next_id + 1) rows

-- The rows after, the next id and the answer.
unfoldable pub enqueue_reevaluation :
    (now : ℕ) → Option ℕ → List Row → (next_id : ℕ) → List Row × (ℕ × ℕ)
unfolding is_source copy_all
enqueue_reevaluation now repo_id rows next_id =
    let source = filter (is_source repo_id) rows in
    (copy_all now next_id source ++ rows, (next_id + length source, length source))
