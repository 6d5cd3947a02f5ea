-- ===== src/Backfill/Window.antt =====
-- `Window`, `first_window` and `next_window` of backend/app/backfill.py. A date is its ordinal, the
-- days since 31 December of year 0, so the first date is 1; `none` is Python's OverflowError.
use Prim.Native.Nat.{max}
use flakehound.Base.{ℕ, ◌+◌, ◌-◌, ◌/◌, Option, none, some, ltb, if◌then◌else◌, ◌>>=◌}

pub record Window : Type 0 where
  pub start : ℕ
  pub end : ℕ

-- date - timedelta(days=days)
unfoldable pub minus_days : ℕ → ℕ → Option ℕ
minus_days date days = if ltb days date then some (date - days) else none

-- Of a window that starts no later than it ends (Backfill/Crawl), as all that the walk makes do.
unfoldable pub span_days : Window → ℕ
span_days w = w.end - w.start

unfoldable pub halved : Window → Option Window
unfolding span_days minus_days
halved w = do
  start ← minus_days w.end (span_days w / 2)
  some (record { start = start; end = w.end })

-- today - timedelta(days=days - 1) is tomorrow less `days`, for 0 days too.
unfoldable pub days_back : ℕ → ℕ → Option ℕ
unfolding minus_days
days_back today days = minus_days (today + 1) days

unfoldable pub first_window : ℕ → ℕ → ℕ → Option Window
unfolding days_back
first_window today days window_days = do
  floor ← days_back today days
  start ← days_back today window_days
  some (record { start = max floor start; end = today })

-- The inner `none` is the floor.
unfoldable pub next_window : Window → ℕ → ℕ → Option (Option Window)
unfolding minus_days days_back
next_window current floor window_days = do
  end ← minus_days current.start 1
  if ltb end floor then some none else do
    start ← days_back end window_days
    some (some (record { start = max floor start; end = end }))
