-- ===== src/Queue.antt =====
-- backend/app/queue.py over the `event_queue` table of backend/app/models.py. Instants and
-- delays are microseconds, the resolution of Postgres; `now` is its clock at the statement.
mod Tests
pub mod Ids
pub mod Claim
pub mod System
pub mod Holders
pub mod Shape
pub mod Sweep
pub mod Backoff
use flakehound.Base.{
  ℕ, ◌+◌, ◌-◌, ◌*◌, ◌^◌, String, Bool, true, false, ◌&&◌, ◌||◌, not, Option, none, some, List, map,
  ltb, leb, ◌==◌, any, filter, take, clip, if◌then◌else◌,
}
use flakehound.Base.Sort.{sort}
use flakehound.Json.{Json}

pub data Status : Type 0 where
  pending processing done failed : Status

pub record Row : Type 0 where
  pub id : ℕ
  pub delivery_id : Option String
  pub job_type : String
  pub event : Option String
  pub payload : Json
  pub priority : ℕ
  pub status : Status
  pub attempts : ℕ
  pub max_attempts : ℕ
  pub locked_at : Option ℕ
  pub next_attempt_at : Option ℕ
  pub last_error : Option String
  pub completed_at : Option ℕ
  pub created_at : ℕ
  pub updated_at : ℕ

pub record ClaimedJob : Type 0 where
  pub id : ℕ
  pub job_type : String
  pub event : Option String
  pub payload : Json
  pub attempts : ℕ
  pub max_attempts : ℕ

pub record Settings : Type 0 where
  pub retry_backoff : ℕ
  pub retry_backoff_max : ℕ
  pub reaper_timeout : ℕ

unfoldable pub is_pending : Status → Bool
is_pending pending = true
is_pending _ = false

unfoldable pub is_processing : Status → Bool
is_processing processing = true
is_processing _ = false

unfoldable pub exhausted : ClaimedJob → Bool
exhausted job = leb job.max_attempts job.attempts

-- `attempts - 1` stops at 0 here, which is the source's `max(attempts - 1, 0)`.
unfoldable pub retry_delay_seconds : Settings → ℕ → ℕ
retry_delay_seconds s attempts =
    let delay = s.retry_backoff * 2 ^ (attempts - 1) in
    if ltb s.retry_backoff_max delay then s.retry_backoff_max else delay

abbrev due : ℕ → Option ℕ → Bool
due now none = true
due now (some t) = leb t now

unfoldable pub claimable : ℕ → Row → Bool
unfolding is_pending
claimable now r = is_pending r.status && ltb r.attempts r.max_attempts && due now r.next_attempt_at

-- ORDER BY priority, created_at
abbrev pub key_le : Row → Row → Bool
key_le r s =
    ltb r.priority s.priority || (r.priority == s.priority && leb r.created_at s.created_at)

abbrev pub has_id : ℕ → List ℕ → Bool
has_id i ids = any (λ j. j == i) ids

-- The ids of the inner select. `locked` tells the rows that another transaction holds, which
-- SKIP LOCKED passes over before LIMIT counts.
unfoldable pub selected : ℕ → ℕ → (ℕ → Bool) → List Row → List ℕ
unfolding claimable
selected now limit locked rows =
    map (λ r. r.id)
      (take limit (sort key_le (filter (λ r. claimable now r && not (locked r.id)) rows)))

unfoldable pub to_claimed : Row → ClaimedJob
to_claimed r = record {
  id = r.id;
  job_type = r.job_type;
  event = r.event;
  payload = r.payload;
  attempts = r.attempts;
  max_attempts = r.max_attempts;
}

unfoldable pub claim_row : ℕ → Row → Row
claim_row now r = record r {
  status = processing;
  locked_at = some now;
  attempts = r.attempts + 1;
  updated_at = now;
}

-- UPDATE … WHERE id IN ids: the rows after it.
unfoldable pub claim_rows : ℕ → List ℕ → List Row → List Row
unfolding claim_row
claim_rows now ids = map (λ r. if has_id r.id ids then claim_row now r else r)

-- Its RETURNING. Postgres promises no order; here it is the table's.
unfoldable pub returned : List ℕ → List Row → List ClaimedJob
unfolding to_claimed
returned ids rows = map to_claimed (filter (λ r. has_id r.id ids) rows)

unfoldable pub claim_batch : ℕ → ℕ → (ℕ → Bool) → List Row → List ClaimedJob × List Row
unfolding selected claim_rows returned
claim_batch now limit locked rows =
    let ids = selected now limit locked rows in
    (returned ids (claim_rows now ids rows), claim_rows now ids rows)

-- UPDATE … WHERE id = i
unfoldable pub at_id : ℕ → (Row → Row) → List Row → List Row
at_id i change = map (λ r. if r.id == i then change r else r)

unfoldable pub done_row : ℕ → Row → Row
done_row now r = record r {
  status = done;
  completed_at = some now;
  locked_at = none;
  updated_at = now;
}

unfoldable pub mark_done : ℕ → ℕ → List Row → List Row
unfolding at_id done_row
mark_done now i = at_id i (done_row now)

unfoldable pub retry_row : Settings → ℕ → ClaimedJob → String → Row → Row
unfolding exhausted retry_delay_seconds
retry_row s now job error r =
    if exhausted job
    then record r {
      locked_at = none;
      last_error = some (clip 2000 error);
      updated_at = now;
      status = failed;
      completed_at = some now;
    }
    else record r {
      locked_at = none;
      last_error = some (clip 2000 error);
      updated_at = now;
      status = pending;
      next_attempt_at = some (now + retry_delay_seconds s job.attempts);
    }

-- The row after the failure, and whether it was dead-lettered.
unfoldable pub mark_for_retry : Settings → ℕ → ClaimedJob → String → List Row → Bool × List Row
unfolding at_id retry_row
mark_for_retry s now job error rows = (exhausted job, at_id job.id (retry_row s now job error) rows)

-- Postgres subtracts below 0 and this does not; Queue/Holders is about the two agreeing.
unfoldable pub defer_row : ℕ → ℕ → String → Row → Row
defer_row now seconds reason r = record r {
  status = pending;
  locked_at = none;
  attempts = r.attempts - 1;
  next_attempt_at = some (now + seconds);
  last_error = some (clip 2000 reason);
  updated_at = now;
}

unfoldable pub defer : ℕ → ClaimedJob → ℕ → String → List Row → List Row
unfolding at_id defer_row
defer now job seconds reason = at_id job.id (defer_row now seconds reason)

-- locked_at < now - timeout, where NULL is not TRUE
abbrev pub overdue : Settings → ℕ → Option ℕ → Bool
overdue s now none = false
overdue s now (some t) = ltb (t + s.reaper_timeout) now

unfoldable pub is_stuck : Settings → ℕ → Row → Bool
unfolding is_processing
is_stuck s now r = is_processing r.status && overdue s now r.locked_at

unfoldable pub reap_row : ℕ → Row → Row
reap_row now r = record r {
  status = pending;
  locked_at = none;
  next_attempt_at = none;
  last_error = some "reaped: claimed longer than the reaper timeout";
  updated_at = now;
}

unfoldable pub reap_stuck : Settings → ℕ → List Row → List ℕ × List Row
unfolding is_stuck reap_row
reap_stuck s now rows = (
  map (λ r. r.id) (filter (is_stuck s now) rows),
  map (λ r. if is_stuck s now r then reap_row now r else r) rows,
)

unfoldable pub is_spent : Row → Bool
unfolding is_pending
is_spent r = is_pending r.status && leb r.max_attempts r.attempts

unfoldable pub fail_row : ℕ → Row → Row
fail_row now r = record r {
  status = failed;
  locked_at = none;
  completed_at = some now;
  updated_at = now;
}

unfoldable pub fail_exhausted : ℕ → List Row → List ℕ × List Row
unfolding is_spent fail_row
fail_exhausted now rows = (
  map (λ r. r.id) (filter is_spent rows),
  map (λ r. if is_spent r then fail_row now r else r) rows,
)
