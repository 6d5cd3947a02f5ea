-- ===== src/Backfill/Tests.antt =====
-- The theorems on backend/app/backfill.py at a walk of ten days in windows of three, every one of
-- which overflows the cap, and at a page of an empty listing.
use flakehound.Base.{
  ℕ, ◌+◌, ◌*◌, ◌-◌, ◌≡◌, String, Bool, true, false, ◌⊎◌, Option, none, some, List, [], arith,
}
use flakehound.Base.Result.{Returns}
use flakehound.Json.{Json, obj, num, field, end}
use flakehound.Facts.{Repository, Source, BackfillStatus}
use flakehound.Backfill.Window.{Window, first_window}
use flakehound.Backfill.Crawl.{crawl, all_days, days_down, IsValid, backfill_covers}
use flakehound.Backfill.Runs.{Settings, Response, success, Store}
use flakehound.Backfill.Handler.{handle_backfill_runs, handle_page}
use flakehound.Json.{arr, str, cons, nil}
use flakehound.Backfill.Progress.{Progress, handle_page-Progress}
use flakehound.Backfill.Wake.{LeavesWake, handle_backfill_runs-LeavesWake}

abbrev over : Window → Bool
over w = true

backfill_covers_example :
    (w : Window) × (first_window 1000 10 3 ≡ some w)
    × (ws : List Window) × (crawl (10 * 3 + 3) over (1000 + 1 - 10) 3 w ≡ some ws)
    × (all_days ws ≡ days_down 10 1000)
backfill_covers_example =
    backfill_covers over 1000 10 3 (omega arith) (omega arith) (omega arith) (omega arith)

abbrev window : Window
window = record { start = 998; end = 1000 }

window-IsValid : IsValid 991 3 window
window-IsValid = (omega arith, omega arith, omega arith)

abbrev settings : Settings
settings = record {
  backfill_days = 90;
  observation_backfill_days = 30;
  backfill_window_days = 3;
  backfill_page_size = 100;
  backfill_result_cap = 1000;
  observation_installation_id = none;
}

abbrev repository : Repository
repository = record {
  id = 3;
  installation_id = some 9;
  source = Source.installed;
  owner = "o";
  name = "r";
  full_name = "o/r";
  is_private = false;
  active = true;
  default_branch = some "main";
  backfill_status = BackfillStatus.running;
  backfill_window_start = some 998;
  backfill_window_end = some 1000;
  backfill_page = some 1;
  backfill_completed_at = none;
  created_at = 100;
  updated_at = 100;
}

abbrev store : Store
store = record { repo = some repository; workflows = []; runs = []; rows = []; next_id = 1 }

abbrev parse : String → Option ℕ
parse text = none

abbrev respond : ℕ → Window → ℕ → Response
respond identity w page = success (obj (field "total_count" (num 0) end))

abbrev payload : Json
payload = obj (field "repo_id" (num 3) end)

handle_backfill_runs-LeavesWake_example :
    Returns
      (λ t. (t ≡ store) ⊎ LeavesWake store t)
      (handle_backfill_runs parse respond settings 500 1000 payload store)
handle_backfill_runs-LeavesWake_example =
    handle_backfill_runs-LeavesWake parse respond settings 500 1000 payload store

handle_page-Progress_example :
    Returns
      (Progress settings 991 window 1)
      (handle_page parse settings 500 991 repository window 1 payload store)
handle_page-Progress_example =
    handle_page-Progress parse settings 500 991 repository window 1 payload store (omega arith)
      (omega arith) (omega arith) window-IsValid

abbrev listing : Json
listing = obj (
    field "total_count" (num 1) (
      field "workflow_runs"
        (arr (cons (obj (field "id" (num 7) (field "head_sha" (str "abc") end))) nil)) end))
