-- ===== src/Backfill.antt =====
-- backend/app/backfill.py: walking a repository's Actions history backwards.
mod Tests
pub mod Window
pub mod Crawl
pub mod Runs
pub mod Handler
pub mod Jobs
pub mod Observed
pub mod Stored
pub mod Fetch
pub mod Pages
pub mod Wake
pub mod Progress
pub mod Returns
