-- ===== src/Backfill/Handler.antt =====
-- `start_backfill` and `handle_backfill_runs` of backend/app/backfill.py. The cursor, the facts
-- and the next wake-up are written in one transaction, so each handler is one step on the store.
use Prim.Native.Nat.{min}
use flakehound.Base.{
  ℕ, ◌+◌, ◌*◌, String, Bool, true, false, ◌&&◌, Option, none, some, List, ◌==◌, any, ltb, leb, same,
  if◌then◌else◌,
}
use flakehound.Base.Result.{Result, ok, err, ◌>>=◌}
use flakehound.Json.{Json, Items, arr, nil, cons, get, number, as_num}
use flakehound.Facts.{Repository, BackfillStatus}
use flakehound.Queue.{Row, Status}
use flakehound.Backfill.Window.{Window, span_days, halved, days_back, first_window, next_window}
use flakehound.Backfill.Runs.{
  Settings, Error, value_error, overflow_error, attribute_error, http_status, Response, not_found,
  refused, success, Store, backfill_priority, backfill_days, or_raise, request_identity,
  save_cursor, runs_job_type, enqueue, runs_payload, record_run,
}

abbrev is_live : Status → Bool
is_live Status.pending = true
is_live Status.processing = true
is_live _ = false

abbrev names_repo : ℕ → Option ℕ → Bool
names_repo repo_id none = false
names_repo repo_id (some n) = n == repo_id

-- Whether a row already waits for this repository.
unfoldable pub pending_runs_row : ℕ → List Row → Bool
unfolding get number
pending_runs_row repo_id = any (λ r.
    same r.job_type runs_job_type
    && is_live r.status
    && names_repo repo_id (number (get "repo_id" r.payload)))

-- The cursor and the wake-up that goes with it.
abbrev pub wake_at : ℕ → Window → ℕ → Repository → Store → Store
wake_at now window page r s =
    enqueue now runs_job_type (runs_payload r.id) (backfill_priority r) (record s {
      repo = some (save_cursor now (some window) (some page) BackfillStatus.running r);
    })

abbrev pub rest_at : ℕ → BackfillStatus → Repository → Store → Store
rest_at now status r s = record s { repo = some (save_cursor now none none status r) }

-- `days or backfill_days(repo)`
abbrev pub span_of : Settings → Option ℕ → Repository → ℕ
span_of s none r = backfill_days s r
span_of s (some d) r = if d == 0 then backfill_days s r else d

-- The row that wakes the walk, unless one waits already, and the store after.
unfoldable pub start_backfill :
    Settings → ℕ → ℕ → Option ℕ → Store → Result Error (Option ℕ × Store)
unfolding pending_runs_row or_raise first_window enqueue save_cursor backfill_days backfill_priority
start_backfill c now today days s = do
  r ← or_raise value_error s.repo
  if pending_runs_row r.id s.rows then ok (none, s) else do
    window ← or_raise overflow_error (first_window today (span_of c days r) c.backfill_window_days)
    ok (some s.next_id, wake_at now window 1 r s)

-- for run in runs: … , the store after each.
unfoldable pub record_runs : (String → Option ℕ) → ℕ → ℕ → Items → ℕ → Store → Result Error Store
unfolding record_run
record_runs parse now repo_id nil priority s = ok s
record_runs parse now repo_id (cons run rest) priority s =
    record_run parse now repo_id run priority s >>= λ r.
    record_runs parse now repo_id rest priority (r.1)

-- The page handler reads a total that is no number as 0, and runs that are no list as none; for some
-- such bodies, which GitHub does not send, Python raises.
abbrev pub or_zero : Option ℕ → ℕ
or_zero none = 0
or_zero (some n) = n

-- body.get("workflow_runs") or []
abbrev pub listed : Json → Items
listed (arr xs) = xs
listed _ = nil

abbrev has_items : Items → Bool
has_items nil = false
has_items (cons x xs) = true

-- Where the walk goes once the window's last page is recorded.
unfoldable pub after_window : ℕ → Option Window → Repository → Store → Store
unfolding enqueue save_cursor backfill_priority
after_window now none r s = rest_at now BackfillStatus.done r s
after_window now (some following) r s = wake_at now following 1 r s

abbrev pub narrow_now : Settings → ℕ → ℕ → Window → Bool
narrow_now c page total window =
    page == 1 && ltb c.backfill_result_cap total && leb 1 (span_days window)

-- page * page_size < reachable and len(runs) > 0
abbrev pub more_pages : Settings → ℕ → ℕ → Items → Bool
more_pages c page total runs =
    ltb (page * c.backfill_page_size) (min total c.backfill_result_cap) && has_items runs

-- The listing of one page, from a repository whose cursor is at `window` and `page`.
unfoldable pub handle_page :
    (String → Option ℕ)
    → Settings
    → ℕ
    → ℕ
    → Repository
    → Window
    → ℕ
    → Json
    → Store
    → Result Error Store
unfolding get as_num record_runs after_window halved next_window span_days or_raise enqueue
    save_cursor backfill_priority
handle_page parse c now floor r window page body s =
    let total = or_zero (as_num (get "total_count" body)) in
    let runs = listed (get "workflow_runs" body) in
    if narrow_now c page total window
    then (do narrowed ← or_raise overflow_error (halved window); ok (wake_at now narrowed 1 r s))
    else (do
      s' ← record_runs parse now r.id runs (backfill_priority r) s
      if more_pages c page total runs then ok (wake_at now window (page + 1) r s') else do
        following ← or_raise overflow_error (next_window window floor c.backfill_window_days)
        ok (after_window now following r s'))

-- A 404 gives the walk up; any other refusal raises.
unfoldable pub handle_response :
    (String → Option ℕ)
    → Settings
    → ℕ
    → ℕ
    → Repository
    → Window
    → ℕ
    → Response
    → Store
    → Result Error Store
unfolding handle_page save_cursor
handle_response parse c now floor r window page not_found s =
    ok (rest_at now BackfillStatus.failed r s)
handle_response parse c now floor r window page (refused code) s = err (http_status code)
handle_response parse c now floor r window page (success body) s =
    handle_page parse c now floor r window page body s

abbrev pub is_running : BackfillStatus → Bool
is_running BackfillStatus.running = true
is_running _ = false

-- `repo.backfill_page or 1`
abbrev pub page_of : Option ℕ → ℕ
page_of none = 1
page_of (some p) = if p == 0 then 1 else p

-- `respond` is `api_request`, at the identity, the window and the page that it is asked for.
unfoldable pub handle_backfill_runs :
    (String → Option ℕ)
    → (ℕ → Window → ℕ → Response)
    → Settings
    → ℕ
    → ℕ
    → Json
    → Store
    → Result Error Store
unfolding get as_num or_raise days_back backfill_days request_identity handle_response
handle_backfill_runs parse respond c now today payload s = do
  repo_id ← or_raise value_error (as_num (get "repo_id" payload))
  r ← or_raise value_error s.repo
  if is_running r.backfill_status
      then elim r.backfill_window_end [
        | none ↦ ok s
        | some end ↦ do
          start ← or_raise attribute_error r.backfill_window_start
          let window : Window = record { start = start; end = end }
          let page = page_of r.backfill_page
          floor ← or_raise overflow_error (days_back today (backfill_days c r))
          identity ← request_identity c r
          handle_response parse c now floor r window page (respond identity window page) s
      ]
      else ok s
