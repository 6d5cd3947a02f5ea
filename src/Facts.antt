-- ===== src/Facts.antt =====
-- The fact tables of backend/app/models.py: job executions, run attempts, repositories, workflows
-- and installations. Instants are microseconds.
use flakehound.Base.{ℕ, String, Bool, Option, List}

pub record Job : Type 0 where
  pub id : ℕ
  pub run_id : ℕ
  pub run_attempt : ℕ
  pub repo_id : ℕ
  pub workflow_id : Option ℕ
  pub head_sha : String
  pub name : String
  pub status : Option String
  pub conclusion : Option String
  pub started_at : Option ℕ
  pub completed_at : Option ℕ
  pub runner_name : Option String
  pub runner_labels : Option (List String)
  pub step_count : Option ℕ
  pub completed_step_count : Option ℕ
  pub created_at : ℕ
  pub updated_at : ℕ

pub record WorkflowRun : Type 0 where
  pub run_id : ℕ
  pub run_attempt : ℕ
  pub repo_id : ℕ
  pub workflow_id : Option ℕ
  pub head_sha : String
  pub head_branch : Option String
  pub event : Option String
  pub status : Option String
  pub conclusion : Option String
  pub run_started_at : Option ℕ
  pub github_created_at : Option ℕ
  pub github_updated_at : Option ℕ
  pub created_at : ℕ
  pub updated_at : ℕ

pub data Source : Type 0 where
  installed observed : Source

pub data BackfillStatus : Type 0 where
  pending running done failed : BackfillStatus

-- One per repository, with the backfill's cursor. A date is its ordinal.
pub record Repository : Type 0 where
  pub id : ℕ
  pub installation_id : Option ℕ
  pub source : Source
  pub owner : String
  pub name : String
  pub full_name : String
  pub is_private : Bool
  pub active : Bool
  pub default_branch : Option String
  pub backfill_status : BackfillStatus
  pub backfill_window_start : Option ℕ
  pub backfill_window_end : Option ℕ
  pub backfill_page : Option ℕ
  pub backfill_completed_at : Option ℕ
  pub created_at : ℕ
  pub updated_at : ℕ

pub record Workflow : Type 0 where
  pub id : ℕ
  pub repo_id : ℕ
  pub name : Option String
  pub path : Option String
  pub state : Option String
  pub created_at : ℕ
  pub updated_at : ℕ

pub record Installation : Type 0 where
  pub id : ℕ
  pub account_id : Option ℕ
  pub account_login : Option String
  pub account_type : Option String
  pub suspended_at : Option ℕ
  pub deleted_at : Option ℕ
  pub created_at : ℕ
  pub updated_at : ℕ
