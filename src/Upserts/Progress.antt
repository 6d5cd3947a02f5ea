-- ===== src/Upserts/Progress.antt =====
-- `_status_rank`, `_never_regress` and `parse_timestamp` of backend/app/upserts.py.
use flakehound.Base.{
  ℕ, String, Bool, true, false, Option, none, some, leb, same, coalesce, if◌then◌else◌,
}
use flakehound.Json.{Json}

unfoldable pub status_rank : Option String → ℕ
status_rank none = 1
status_rank (some s) = if same s "completed" then 3 else if same s "in_progress" then 2 else 1

-- Whether the payload is at least as advanced as the row.
abbrev pub advanced : Option String → Option String → Bool
advanced payload row = leb (status_rank row) (status_rank payload)

-- A progress column: merged where the payload is advanced.
abbrev pub progress {ℓ} : {A : Type ℓ} → Bool → Option A → Option A → Option A
progress true payload row = coalesce payload row
progress false payload row = row

-- An identity column: the first value stays.
abbrev pub identity {ℓ} : {A : Type ℓ} → Option A → Option A → Option A
identity payload row = coalesce row payload

unfoldable pub parse_timestamp : (String → Option ℕ) → Json → Option ℕ
parse_timestamp parse (Json.str s) = if same s "" then none else parse s
parse_timestamp parse _ = none
