-- ===== src/Rollup.antt =====
-- backend/app/rollup.py: the daily aggregate of one repository's jobs, and the pass that rewrites a
-- trailing window of the table `job_stats_daily` by it. A day is counted from the epoch's; a window
-- that would start before day 0 starts there, which is before any job.
pub mod Tests
pub mod Keys
pub mod Counts
pub mod Apart
pub mod Written
pub mod Aggregate
pub mod Window
use flakehound.Base.{
  ℕ, zero, suc, ◌+◌, ◌-◌, ◌*◌, ◌/◌, String, Bool, true, false, not, ◌&&◌, Option, none, some, List,
  [], ◌∷◌, ◌++◌, map, ltb, leb, ◌==◌, any, filter, keep_if, length, same, is_some, if◌then◌else◌,
}
use flakehound.Base.Groups.{count, distinct, groups}
use flakehound.Base.Sort.{sort}
use flakehound.Base.Upsert.{upsert, find}
use flakehound.Facts.{Job, Repository}
use flakehound.Detection.{Settings, is_opportunity, outcome_expression, is_failure}
use flakehound.Detection.Signals.{FlakeEvent, evidence_job_ids, same_num?}

abbrev pub microseconds_a_day : ℕ
microseconds_a_day = 86400000000

-- _KEY, which is unique in the table, NULLS NOT DISTINCT.
pub record Key : Type 0 where
  pub repo_id : ℕ
  pub workflow_id : Option ℕ
  pub job_name : String
  pub day : ℕ

abbrev pub same_key : Key → Key → Bool
same_key j k =
    j.repo_id == k.repo_id
    && same_num? j.workflow_id k.workflow_id
    && same j.job_name k.job_name
    && j.day == k.day

-- _COLUMNS. `S` is the type of Postgres' numeric seconds.
pub record Stats (S : Type 0) : Type 0 where
  pub key : Key
  pub runs : ℕ
  pub opportunities : ℕ
  pub failures : ℕ
  pub flakes : ℕ
  pub last_flake_at : Option ℕ
  pub duration_p50_seconds : Option S
  pub duration_p95_seconds : Option S
  pub duration_total_seconds : Option S

pub record JobStatsDaily (S : Type 0) : Type 0 where
  pub id : ℕ
  pub stats : Stats S
  pub created_at : ℕ
  pub updated_at : ℕ

-- The table with its identity column, which counts up.
pub record Table (S : Type 0) : Type 0 where
  pub next_id : ℕ
  pub rows : List (JobStatsDaily S)

-- Postgres' aggregates over durations: the seconds between two instants, the continuous percentile
-- (in hundredths) and the sum, cast to the columns' types; none of no value is NULL.
pub record Durations (S : Type 0) : Type 0 where
  pub seconds_between : (started_at completed_at : ℕ) → S
  pub percentile_cont : ℕ → List S → Option S
  pub sum : List S → Option S

pub record RollupResult : Type 0 where
  pub repo_id : ℕ
  pub since : ℕ
  pub written : ℕ
  pub removed : ℕ

-- Detection's `implicated_job_ids`
unfoldable pub flattened : ℕ → List FlakeEvent → List ℕ
unfolding evidence_job_ids
flattened repo_id [] = []
flattened repo_id (e ∷ events) =
    if e.repo_id == repo_id
    then evidence_job_ids e.evidence ++ flattened repo_id events
    else flattened repo_id events

unfoldable pub implicated_job_ids : ℕ → List FlakeEvent → List ℕ
unfolding flattened distinct
implicated_job_ids repo_id events = distinct ◌==◌ (flattened repo_id events)

-- The outer join by distinct ids keeps a job's row single; whether it finds an id.
unfoldable pub is_implicated : List ℕ → Job → Bool
is_implicated implicated j = any (λ i. i == j.id) implicated

unfoldable pub flake_filter : Settings → List ℕ → Job → Bool
unfolding is_opportunity is_implicated
flake_filter s implicated j = is_opportunity s j && is_implicated implicated j

unfoldable pub day_expression : Job → Option ℕ
day_expression j = elim j.completed_at [ none ↦ none | some t ↦ some (t / microseconds_a_day) ]

-- A row of the query's FROM and WHERE: the job and its day.
pub record Dated : Type 0 where
  pub day : ℕ
  pub job : Job

abbrev pub dated_row : (repo_id since : ℕ) → Job → Option ℕ → List Dated → List Dated
dated_row repo_id since j none rest = rest
dated_row repo_id since j (some d) rest =
    keep_if (j.repo_id == repo_id && leb since d) (record { day = d; job = j }) rest

unfoldable pub dated : (repo_id since : ℕ) → List Job → List Dated
unfolding day_expression
dated repo_id since [] = []
dated repo_id since (j ∷ jobs) =
    dated_row repo_id since j (day_expression j) (dated repo_id since jobs)

unfoldable pub key_of : ℕ → Dated → Key
key_of repo_id d = record {
  repo_id = repo_id;
  workflow_id = d.job.workflow_id;
  job_name = d.job.name;
  day = d.day;
}

-- max(completed_at) of the rows, or NULL
abbrev pub later_of : Option ℕ → Option ℕ → Option ℕ
later_of none b = b
later_of (some a) none = some a
later_of (some a) (some b) = some (if leb a b then b else a)

unfoldable pub last_completed : List Dated → Option ℕ
last_completed [] = none
last_completed (d ∷ rows) = later_of d.job.completed_at (last_completed rows)

module _ {S : Type 0} (durations : Durations S) (s : Settings) where
  abbrev pub add_duration : Option ℕ → Option ℕ → List S → List S
  add_duration (some a) (some b) rest = durations.seconds_between a b ∷ rest
  add_duration _ _ rest = rest

  -- duration_expression, of the rows where it is not NULL
  unfoldable pub duration_expression : List Dated → List S
  duration_expression [] = []
  duration_expression (d ∷ rows) =
      add_duration d.job.started_at d.job.completed_at (duration_expression rows)

  -- The columns of one group.
  unfoldable pub summarise : List ℕ → Key → List Dated → Stats S
  unfolding flake_filter last_completed duration_expression is_opportunity outcome_expression
  summarise implicated k rows =
      let taken = duration_expression rows in
      record {
        key = k;
        runs = length rows;
        opportunities = count (λ d. is_opportunity s d.job) rows;
        failures =
            count (λ d. is_opportunity s d.job && is_failure (outcome_expression d.job)) rows;
        flakes = count (λ d. flake_filter s implicated d.job) rows;
        last_flake_at = last_completed (filter (λ d. flake_filter s implicated d.job) rows);
        duration_p50_seconds = durations.percentile_cont 50 taken;
        duration_p95_seconds = durations.percentile_cont 95 taken;
        duration_total_seconds = durations.sum taken;
      }

  unfoldable pub aggregate : (repo_id since : ℕ) → List Job → List FlakeEvent → List (Stats S)
  unfolding implicated_job_ids dated key_of groups summarise
  aggregate repo_id since jobs events =
      map (λ g. summarise (implicated_job_ids repo_id events) g.0 g.1)
        (groups same_key (key_of repo_id) (dated repo_id since jobs))

-- WHERE repo_id = … AND day >= since
abbrev pub in_window : (repo_id since : ℕ) → Key → Bool
in_window repo_id since k = k.repo_id == repo_id && leb since k.day

module _ {S : Type 0} where
  abbrev pub has_key : Key → JobStatsDaily S → Bool
  has_key k r = same_key k r.stats.key

  -- SET of _REFRESHED and updated_at
  unfoldable pub refreshed : ℕ → Stats S → JobStatsDaily S → JobStatsDaily S
  refreshed now new old = record old {
    stats = record new { key = old.stats.key };
    updated_at = now;
  }

  abbrev pub id_or : ℕ → Option (JobStatsDaily S) → ℕ
  id_or n none = n
  id_or n (some r) = r.id

  -- One row's INSERT … ON CONFLICT … RETURNING id.
  unfoldable pub write : ℕ → Stats S → Table S → Table S × ℕ
  unfolding upsert find refreshed
  write now new t = (
    record {
      next_id = suc t.next_id;
      rows =
          upsert (has_key new.key) (refreshed now new)
            (record { id = t.next_id; stats = new; created_at = now; updated_at = now }) t.rows;
    },
    id_or t.next_id (find (has_key new.key) t.rows),
  )

  unfoldable pub write_all : ℕ → List (Stats S) → Table S → Table S × List ℕ
  unfolding write
  write_all now [] t = (t, [])
  write_all now (new ∷ stats) t =
      let (t', id) = write now new t in let (t'', ids) = write_all now stats t' in (t'', id ∷ ids)

  unfoldable pub is_stale : (repo_id since : ℕ) → List ℕ → JobStatsDaily S → Bool
  is_stale repo_id since written r =
      in_window repo_id since r.stats.key && not (any (λ i. i == r.id) written)

-- days or settings.rollup_days, which takes the default for 0 too
abbrev pub days_or : ℕ → Option ℕ → ℕ
days_or rollup_days none = rollup_days
days_or rollup_days (some d) = if d == 0 then rollup_days else d

unfoldable pub since_of : (now rollup_days : ℕ) → Option ℕ → ℕ
since_of now rollup_days days =
    (now - days_or rollup_days days * microseconds_a_day) / microseconds_a_day

module _ {S : Type 0} (durations : Durations S) (s : Settings) where
  -- The two statements of `rollup_repository`, for a window that starts on a day.
  unfoldable pub rollup_since :
      (now repo_id since : ℕ) → List Job → List FlakeEvent → Table S → Table S × RollupResult
  unfolding aggregate write_all is_stale
  rollup_since now repo_id since jobs events t =
      let (t', written) = write_all now (aggregate durations s repo_id since jobs events) t in
      (
        record t' { rows = filter (λ r. not (is_stale repo_id since written r)) t'.rows },
        record {
          repo_id = repo_id;
          since = since;
          written = length written;
          removed = count (is_stale repo_id since written) t'.rows;
        },
      )

  unfoldable pub rollup_repository :
      (now repo_id rollup_days : ℕ)
      → Option ℕ
      → List Job
      → List FlakeEvent
      → Table S
      → Table S × RollupResult
  unfolding rollup_since since_of
  rollup_repository now repo_id rollup_days days =
      rollup_since now repo_id (since_of now rollup_days days)

  -- `clock` is the instant of each repository's transaction.
  unfoldable pub rollup_repos :
      (clock : ℕ → ℕ)
      → (rollup_days : ℕ) → List ℕ
      → List Job
      → List FlakeEvent
      → Table S
      → Table S × List RollupResult
  unfolding rollup_repository
  rollup_repos clock rollup_days [] jobs events t = (t, [])
  rollup_repos clock rollup_days (repo_id ∷ repo_ids) jobs events t =
      let (t', result) = rollup_repository (clock repo_id) repo_id rollup_days none jobs events t in
      let (t'', results) = rollup_repos clock rollup_days repo_ids jobs events t' in
      (t'', result ∷ results)

unfoldable pub repos_with_recent_activity : (since : ℕ) → List Job → List ℕ
unfolding distinct
repos_with_recent_activity since jobs =
    distinct ◌==◌ (map (λ j. j.repo_id) (filter (λ j. leb since j.updated_at) jobs))

unfoldable pub all_repo_ids : List Repository → List ℕ
unfolding sort
all_repo_ids repositories = sort leb (map (λ r. r.id) repositories)

module _ {S : Type 0} (durations : Durations S) (s : Settings) where
  unfoldable pub rollup_recent :
      (clock : ℕ → ℕ)
      → (rollup_days since : ℕ) → List Job
      → List FlakeEvent
      → Table S
      → Table S × List RollupResult
  unfolding rollup_repos repos_with_recent_activity
  rollup_recent clock rollup_days since jobs =
      rollup_repos durations s clock rollup_days (repos_with_recent_activity since jobs) jobs
