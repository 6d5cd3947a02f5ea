-- ===== src/Observe.antt =====
-- backend/app/observe.py: which public repositories may be watched, from public metadata alone.
-- Instants are microseconds.
mod Tests
pub mod Criteria
pub mod Payloads
use flakehound.Base.{
  ℕ, ◌+◌, ◌*◌, String, Bool, true, false, Option, none, some, List, [], ◌∷◌, ◌++◌, ltb,
  if◌then◌else◌,
}

abbrev pub pushed_within_days : ℕ
pushed_within_days = 30

abbrev pub min_completed_runs : ℕ
min_completed_runs = 30

abbrev pub min_code_triggered_runs : ℕ
min_code_triggered_runs = 1

abbrev pub microseconds_a_day : ℕ
microseconds_a_day = 86400000000

pub record CandidateFacts : Type 0 where
  pub repo_id : ℕ
  pub full_name : String
  pub is_private : Bool
  pub archived : Bool
  pub disabled : Bool
  pub is_fork : Bool
  pub is_template : Bool
  pub pushed_at : Option ℕ
  pub default_branch : Option String
  pub stargazers_count : ℕ
  pub active_workflows : ℕ
  pub completed_runs : ℕ
  pub code_triggered_runs : ℕ

pub record Verdict : Type 0 where
  pub full_name : String
  pub eligible : Bool
  pub reasons : List String

-- if test: reasons.append(reason)
abbrev pub reason_if : Bool → String → List String
reason_if true reason = reason ∷ []
reason_if false reason = []

-- pushed_at < now - PUSHED_WITHIN_DAYS
abbrev pub push_reason : ℕ → Option ℕ → List String
push_reason now none = "never_pushed" ∷ []
push_reason now (some t) = reason_if (ltb (t + pushed_within_days * microseconds_a_day) now) "stale"

abbrev pub is_empty : List String → Bool
is_empty [] = true
is_empty (x ∷ xs) = false

unfoldable pub reasons : ℕ → CandidateFacts → List String
reasons now f =
    reason_if f.is_private "private"
    ++ (reason_if f.archived "archived"
        ++ (reason_if f.disabled "disabled"
            ++ (reason_if f.is_fork "fork"
                ++ (reason_if f.is_template "template"
                    ++ (push_reason now f.pushed_at
                        ++ (reason_if (ltb f.active_workflows 1) "no_active_workflows"
                            ++ (reason_if (ltb f.completed_runs min_completed_runs)
                                  "too_little_history"
                                ++ reason_if (ltb f.code_triggered_runs min_code_triggered_runs)
                                    "no_code_triggered_runs")))))))

unfoldable pub assess : ℕ → CandidateFacts → Verdict
unfolding reasons
assess now f = record {
  full_name = f.full_name;
  eligible = is_empty (reasons now f);
  reasons = reasons now f;
}
