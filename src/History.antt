-- ===== src/History.antt =====
-- backend/app/history.py: one job's recent executions, grouped by commit. The rows are the query's
-- answer, commit by commit and in (run, attempt) order within one.
mod Tests
pub mod Groups
pub mod States
use flakehound.Base.{
  ℕ, ◌+◌, ◌-◌, String, Bool, true, false, Option, none, some, List, [], ◌∷◌, ◌++◌, any, filter,
  length, same, is_some, ◌==◌, if◌then◌else◌,
}
use flakehound.Detection.{Outcome, is_failure, is_success}

pub record Attempt : Type 0 where
  pub job_id : ℕ
  pub run_id : ℕ
  pub run_attempt : ℕ
  pub workflow_id : Option ℕ
  pub conclusion : Option String
  pub outcome : Option Outcome
  pub implicated : Bool
  pub started_at : Option ℕ
  pub completed_at : Option ℕ

pub record CommitHistory : Type 0 where
  pub head_sha : String
  pub attempts : List Attempt

pub data State : Type 0 where
  flaked failed passed unjudged : State

abbrev pub failing : Attempt → Bool
failing a = elim a.outcome [ some o ↦ is_failure o | none ↦ false ]

abbrev pub passing : Attempt → Bool
passing a = elim a.outcome [ some o ↦ is_success o | none ↦ false ]

unfoldable pub state : CommitHistory → State
state c =
    if any (λ a. a.implicated) c.attempts
    then flaked
    else if any failing c.attempts
    then failed
    else if any passing c.attempts
    then passed
    else unjudged

unfoldable pub opportunities : CommitHistory → ℕ
opportunities c = length (filter (λ a. is_some a.outcome) c.attempts)

unfoldable pub failures : CommitHistory → ℕ
failures c = length (filter failing c.attempts)

unfoldable pub flakes : CommitHistory → ℕ
flakes c = length (filter (λ a. a.implicated) c.attempts)

-- A row of the query: its commit, and the execution.
pub record HistoryRow : Type 0 where
  pub head_sha : String
  pub attempt : Attempt

abbrev pub one : HistoryRow → CommitHistory
one row = record { head_sha = row.head_sha; attempts = row.attempt ∷ [] }

-- What the loop does with `history[-1]`.
unfoldable pub to_last : CommitHistory → HistoryRow → List CommitHistory
to_last c row =
    if same c.head_sha row.head_sha
    then record c { attempts = c.attempts ++ (row.attempt ∷ []) } ∷ []
    else c ∷ (one row ∷ [])

unfoldable pub add_row : List CommitHistory → HistoryRow → List CommitHistory
unfolding to_last
add_row [] row = one row ∷ []
add_row (c ∷ []) row = to_last c row
add_row (c ∷ (d ∷ cs)) row = c ∷ add_row (d ∷ cs) row

-- for row in rows: …, from the history so far
unfoldable pub add_rows : List CommitHistory → List HistoryRow → List CommitHistory
unfolding add_row
add_rows history [] = history
add_rows history (row ∷ rows) = add_rows (add_row history row) rows
