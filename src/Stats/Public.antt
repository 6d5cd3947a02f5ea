-- ===== src/Stats/Public.antt =====
-- `public_flaky_jobs` and `_board_proofs` of backend/app/stats.py: the board over all repositories.
use flakehound.Base.{
  text_le_then, ℕ, ◌-◌, ◌*◌, ◌/◌, String, Bool, true, false, not, ◌&&◌, ◌||◌, Option, none, some,
  List, [], ◌∷◌, ◌++◌, map, ltb, leb, ◌==◌, any, filter, keep_if, same, same_text?, if◌then◌else◌,
}
use flakehound.Base.Groups.{sum, groups}
use flakehound.Base.Sort.{sort}
use flakehound.Base.Sql.{is_true, sql_test}
use flakehound.Base.Upsert.{find}
use flakehound.Facts.{Job, Repository, Workflow}
use flakehound.Detection.Signals.{FlakeEvent, evidence_job_ids, same_num?}
use flakehound.Rollup.{JobStatsDaily, Table, microseconds_a_day}
use flakehound.Stats.{Floats, JobFlakiness, wilson_interval, rank_le, identity_le, ranked, latest}

pub record FlakeProof : Type 0 where
  pub job_id : ℕ
  pub run_id : ℕ
  pub run_attempt : ℕ
  pub head_sha : String
  pub conclusion : Option String
  pub completed_at : Option ℕ

-- `job` is what it inherits.
pub record PublicJobFlakiness (F : Type 0) : Type 0 where
  pub job : JobFlakiness F
  pub repo_id : ℕ
  pub repo_full_name : String
  pub workflow_name : Option String
  pub workflow_path : Option String
  pub proof : Option FlakeProof

-- GROUP BY
pub record BoardKey : Type 0 where
  pub repo_id : ℕ
  pub full_name : String
  pub workflow_id : Option ℕ
  pub workflow_name : Option String
  pub workflow_path : Option String
  pub job_name : String

abbrev pub same_board : BoardKey → BoardKey → Bool
same_board j k =
    j.repo_id == k.repo_id
    && same j.full_name k.full_name
    && same_num? j.workflow_id k.workflow_id
    && same_text? j.workflow_name k.workflow_name
    && same_text? j.workflow_path k.workflow_path
    && same j.job_name k.job_name

abbrev pub is_visible : Repository → Bool
is_visible r = not r.is_private && r.active

abbrev pub name_of : Option Workflow → Option String
name_of none = none
name_of (some w) = w.name

abbrev pub path_of : Option Workflow → Option String
path_of none = none
path_of (some w) = w.path

-- The outer join with `workflows`: a NULL id finds none.
unfoldable pub workflow_of : List Workflow → Option ℕ → Option Workflow
unfolding find
workflow_of workflows none = none
workflow_of workflows (some i) = find (λ w. w.id == i) workflows

module _ {S : Type 0} where
  abbrev pub board_key : List Workflow → Repository → JobStatsDaily S → BoardKey
  board_key workflows r row = record {
    repo_id = r.id;
    full_name = r.full_name;
    workflow_id = row.stats.key.workflow_id;
    workflow_name = name_of (workflow_of workflows row.stats.key.workflow_id);
    workflow_path = path_of (workflow_of workflows row.stats.key.workflow_id);
    job_name = row.stats.key.job_name;
  }

  abbrev pub joined_row :
      ℕ
      → List Workflow
      → JobStatsDaily S
      → Option Repository
      → List (BoardKey × JobStatsDaily S)
      → List (BoardKey × JobStatsDaily S)
  joined_row cutoff workflows row none rest = rest
  joined_row cutoff workflows row (some r) rest =
      keep_if (is_visible r && leb cutoff row.stats.key.day) (board_key workflows r row, row) rest

  -- The FROM and WHERE of the query, with the columns that it groups by.
  unfoldable pub joined :
      ℕ
      → List Repository
      → List Workflow
      → List (JobStatsDaily S)
      → List (BoardKey × JobStatsDaily S)
  unfolding find workflow_of
  joined cutoff repositories workflows [] = []
  joined cutoff repositories workflows (row ∷ rows) =
      joined_row cutoff workflows row (find (λ r. r.id == row.stats.key.repo_id) repositories)
        (joined cutoff repositories workflows rows)

-- The job ids of `implicated`, for the repositories and the job names of the board.
unfoldable pub board_job_ids : {F : Type 0} → List (PublicJobFlakiness F) → List FlakeEvent → List ℕ
unfolding evidence_job_ids
board_job_ids board [] = []
board_job_ids board (e ∷ events) =
    if any (λ b. b.repo_id == e.repo_id) board && any (λ b. same b.job.job_name e.job_name) board
    then evidence_job_ids e.evidence ++ board_job_ids board events
    else board_job_ids board events

abbrev pub later_first : Option ℕ → Option ℕ → Bool → Bool
later_first none none rest = rest
later_first none (some b) rest = false
later_first (some a) none rest = true
later_first (some a) (some b) rest = ltb b a || (a == b && rest)

-- completed_at DESC NULLS LAST, id DESC
unfoldable pub newest_le : Job → Job → Bool
newest_le a b = later_first a.completed_at b.completed_at (leb b.id a.id)

abbrev pub to_proof : Job → FlakeProof
to_proof j = record {
  job_id = j.id;
  run_id = j.run_id;
  run_attempt = j.run_attempt;
  head_sha = j.head_sha;
  conclusion = j.conclusion;
  completed_at = j.completed_at;
}

abbrev pub first_proof : List Job → Option FlakeProof
first_proof [] = none
first_proof (j ∷ jobs) = some (to_proof j)

module _ {F : Type 0} where
  -- A failing run of the row's job that an event named.
  unfoldable pub proves : List ℕ → PublicJobFlakiness F → Job → Bool
  proves ids b j =
      j.repo_id == b.repo_id
      && same_num? j.workflow_id b.job.workflow_id
      && same j.name b.job.job_name
      && any (λ i. i == j.id) ids
      && is_true (sql_test (λ c. not (same c "success")) j.conclusion)

  -- What `_board_proofs` answers at the row's key; for an empty board there is no row.
  unfoldable pub board_proof :
      List (PublicJobFlakiness F)
      → List Job
      → List FlakeEvent
      → PublicJobFlakiness F
      → Option FlakeProof
  unfolding board_job_ids proves newest_le sort
  board_proof board jobs events b =
      first_proof (sort newest_le (filter (proves (board_job_ids board events) b) jobs))

  unfoldable pub with_proof :
      List (PublicJobFlakiness F)
      → List Job
      → List FlakeEvent
      → PublicJobFlakiness F
      → PublicJobFlakiness F
  unfolding board_proof
  with_proof board jobs events b = record b { proof = board_proof board jobs events b }

module _ {F : Type 0} where
  -- (repo_full_name, job_name, workflow_id or 0)
  unfoldable pub public_identity_le : PublicJobFlakiness F → PublicJobFlakiness F → Bool
  unfolding text_le_then identity_le
  public_identity_le a b = text_le_then a.repo_full_name b.repo_full_name (identity_le a.job b.job)

module _ {F : Type 0} (f : Floats F) where
  abbrev pub public_rank_le : PublicJobFlakiness F → PublicJobFlakiness F → Bool
  public_rank_le a b = rank_le f a.job b.job

module _ {F S : Type 0} (f : Floats F) where
  unfoldable pub published : BoardKey × List (BoardKey × JobStatsDaily S) → PublicJobFlakiness F
  unfolding wilson_interval latest
  published g = record {
    job = record {
      workflow_id = g.0.workflow_id;
      job_name = g.0.job_name;
      opportunities = sum (λ r. r.1.stats.opportunities) g.1;
      failures = sum (λ r. r.1.stats.failures) g.1;
      flakes = sum (λ r. r.1.stats.flakes) g.1;
      last_flake_at = latest (λ r. r.1.stats.last_flake_at) g.1;
      interval =
          wilson_interval f (sum (λ r. r.1.stats.flakes) g.1)
            (sum (λ r. r.1.stats.opportunities) g.1);
    };
    repo_id = g.0.repo_id;
    repo_full_name = g.0.full_name;
    workflow_name = g.0.workflow_name;
    workflow_path = g.0.workflow_path;
    proof = none;
  }

  -- HAVING
  abbrev pub is_published : ℕ → BoardKey × List (BoardKey × JobStatsDaily S) → Bool
  is_published min_flakes g =
      ltb 0 (sum (λ r. r.1.stats.opportunities) g.1)
      && leb min_flakes (sum (λ r. r.1.stats.flakes) g.1)

  -- The query of `public_flaky_jobs`.
  unfoldable pub board_rows :
      (min_flakes cutoff : ℕ)
      → List Repository
      → List Workflow
      → List (JobStatsDaily S)
      → List (PublicJobFlakiness F)
  unfolding groups joined published
  board_rows min_flakes cutoff repositories workflows rows = map published (
      filter (is_published min_flakes)
        (groups same_board (λ r. r.0) (joined cutoff repositories workflows rows)))

  unfoldable pub public_flaky_jobs :
      (window_days limit min_flakes now : ℕ)
      → List Repository
      → List Workflow
      → List Job
      → List FlakeEvent
      → Table S
      → List (PublicJobFlakiness F)
  unfolding ranked board_rows public_identity_le rank_le with_proof
  public_flaky_jobs window_days limit min_flakes now repositories workflows jobs events t =
      let board = ranked public_identity_le (public_rank_le f) limit (
        board_rows min_flakes ((now - window_days * microseconds_a_day) / microseconds_a_day)
          repositories workflows t.rows) in
      map (with_proof board jobs events) board
