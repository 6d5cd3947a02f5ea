-- ===== src/Upserts.antt =====
-- backend/app/upserts.py: every fact write, as an upsert on GitHub's own ids. The JSON payload is
-- read as the source reads it; `parse` stands for `datetime.fromisoformat`, which gives `none`
-- where that raises ValueError.
mod Tests
pub mod Progress
pub mod Jobs
pub mod Runs
pub mod Workflows
pub mod Installations
pub mod Repositories
pub mod Ownership
pub mod Merge
