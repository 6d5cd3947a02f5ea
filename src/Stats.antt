-- ===== src/Stats.antt =====
-- backend/app/stats.py: the flake rate's interval, the ranking, and one repository's leaderboard, from
-- the daily rollup and from the facts. Python's floats are a parameter, by the operations that the
-- source applies to them; a maximum and a minimum are their comparison.
mod Tests
pub mod Ranking
pub mod Summed
pub mod Oracle
pub mod Public
pub mod Visible
use flakehound.Base.{
  text_le_then, ℕ, ◌+◌, ◌-◌, ◌*◌, ◌/◌, String, Bool, true, false, not, ◌&&◌, ◌||◌, Option, none,
  some, List, [], ◌∷◌, map, take, ltb, leb, ◌==◌, any, filter, same, if◌then◌else◌,
}
use flakehound.Base.Groups.{count, sum, distinct, groups}
use flakehound.Base.Sort.{sort}
use flakehound.Base.Sql.{is_true, sql_test}
use flakehound.Facts.{Job}
use flakehound.Detection.{Settings, is_opportunity, outcome_expression, is_failure}
use flakehound.Detection.Signals.{FlakeEvent, evidence_job_ids, same_num?}
use flakehound.Rollup.{JobStatsDaily, Table, microseconds_a_day, later_of, in_window}

-- `less` is `<`; 1 and 0 are of_nat's.
pub record Floats (F : Type 0) : Type 0 where
  pub of_nat : ℕ → F
  pub plus : F → F → F
  pub minus : F → F → F
  pub times : F → F → F
  pub over : F → F → F
  pub sqrt : F → F
  pub less : F → F → Bool
  pub z_95 : F

pub record Wilson (F : Type 0) : Type 0 where
  pub rate : F
  pub lower : F
  pub upper : F

pub record JobFlakiness (F : Type 0) : Type 0 where
  pub workflow_id : Option ℕ
  pub job_name : String
  pub opportunities : ℕ
  pub failures : ℕ
  pub flakes : ℕ
  pub last_flake_at : Option ℕ
  pub interval : Option (Wilson F)

module _ {F : Type 0} (f : Floats F) where
  open f use {of_nat, plus, minus, times, over, sqrt, less}

  -- max(a, b), which is a unless b is greater
  abbrev pub max : F → F → F
  max a b = if less a b then b else a

  abbrev pub min : F → F → F
  min a b = if less b a then b else a

  unfoldable pub interval_of : (flakes opportunities : ℕ) → F → Wilson F
  interval_of flakes opportunities z =
      let n = of_nat opportunities in
      let p = over (of_nat flakes) n in
      let z2 = times z z in
      let denominator = plus (of_nat 1) (over z2 n) in
      let centre = over (plus p (over z2 (of_nat (2 * opportunities)))) denominator in
      let margin = times (over z denominator) (
        sqrt (
          plus (over (times p (minus (of_nat 1) p)) n)
            (over z2 (of_nat (4 * opportunities * opportunities))))) in
      record {
        rate = p;
        lower = max (of_nat 0) (minus centre margin);
        upper = min (of_nat 1) (plus centre margin);
      }

  unfoldable pub wilson_interval : (flakes opportunities : ℕ) → Option (Wilson F)
  unfolding interval_of
  wilson_interval flakes opportunities =
      if opportunities == 0 then none else some (interval_of flakes opportunities f.z_95)

  unfoldable pub rank_key : JobFlakiness F → F
  rank_key j = elim j.interval [ none ↦ minus (of_nat 0) (of_nat 1) | some w ↦ w.lower ]

  -- (rank_key, opportunities), from the greatest down
  unfoldable pub rank_le : JobFlakiness F → JobFlakiness F → Bool
  unfolding rank_key
  rank_le a b =
      less (rank_key b) (rank_key a)
      || (not (less (rank_key a) (rank_key b)) && leb b.opportunities a.opportunities)

abbrev pub or_zero : Option ℕ → ℕ
or_zero none = 0
or_zero (some n) = n

-- (job_name, workflow_id or 0)
unfoldable pub identity_le : {F : Type 0} → JobFlakiness F → JobFlakiness F → Bool
unfolding text_le_then
identity_le a b =
    text_le_then a.job_name b.job_name (leb (or_zero a.workflow_id) (or_zero b.workflow_id))

-- `_ranked`: two stable sorts, and the first rows.
unfoldable pub ranked : {R : Type 0} → (by_identity by_rank : R → R → Bool) → ℕ → List R → List R
unfolding sort
ranked by_identity by_rank limit leaderboard =
    take limit (sort by_rank (sort by_identity leaderboard))

-- What a leaderboard groups by.
pub record JobKey : Type 0 where
  pub workflow_id : Option ℕ
  pub job_name : String

abbrev pub same_job : JobKey → JobKey → Bool
same_job j k = same_num? j.workflow_id k.workflow_id && same j.job_name k.job_name

-- max(column), NULL where every value is
unfoldable pub latest {ℓ} : {A : Type ℓ} → (A → Option ℕ) → List A → Option ℕ
latest f [] = none
latest f (x ∷ xs) = later_of (f x) (latest f xs)

module _ {S : Type 0} where
  abbrev pub day_job : JobStatsDaily S → JobKey
  day_job r = record { workflow_id = r.stats.key.workflow_id; job_name = r.stats.key.job_name }

  abbrev pub has_opportunities : {K : Type 0} → K × List (JobStatsDaily S) → Bool
  has_opportunities g = ltb 0 (sum (λ r. r.stats.opportunities) g.1)

module _ {F S : Type 0} (f : Floats F) where
  -- One group of daily rows.
  unfoldable pub summed : JobKey × List (JobStatsDaily S) → JobFlakiness F
  unfolding wilson_interval latest
  summed g = record {
    workflow_id = g.0.workflow_id;
    job_name = g.0.job_name;
    opportunities = sum (λ r. r.stats.opportunities) g.1;
    failures = sum (λ r. r.stats.failures) g.1;
    flakes = sum (λ r. r.stats.flakes) g.1;
    last_flake_at = latest (λ r. r.stats.last_flake_at) g.1;
    interval =
        wilson_interval f (sum (λ r. r.stats.flakes) g.1) (sum (λ r. r.stats.opportunities) g.1);
  }

  -- The query of `flaky_jobs`.
  unfoldable pub job_rows : (repo_id cutoff : ℕ) → List (JobStatsDaily S) → List (JobFlakiness F)
  unfolding groups summed
  job_rows repo_id cutoff rows = map summed (
      filter has_opportunities
        (groups same_job day_job (filter (λ r. in_window repo_id cutoff r.stats.key) rows)))

  unfoldable pub flaky_jobs : (repo_id window_days limit now : ℕ) → Table S → List (JobFlakiness F)
  unfolding ranked job_rows identity_le rank_le
  flaky_jobs repo_id window_days limit now t =
      ranked identity_le (rank_le f) limit
        (job_rows repo_id ((now - window_days * microseconds_a_day) / microseconds_a_day) t.rows)

-- The events of a repository that name a job: `occurred_at` is the latest of theirs.
unfoldable pub naming : (repo_id job_id : ℕ) → List FlakeEvent → List FlakeEvent
unfolding evidence_job_ids
naming repo_id job_id =
    filter (λ e. e.repo_id == repo_id && any (λ i. i == job_id) (evidence_job_ids e.evidence))

abbrev pub is_empty {ℓ} : {A : Type ℓ} → List A → Bool
is_empty [] = true
is_empty (x ∷ xs) = false

-- Whether the outer join with `flaky_runs` finds the job.
unfoldable pub is_flaky_run : ℕ → List FlakeEvent → Job → Bool
unfolding naming
is_flaky_run repo_id events j = not (is_empty (naming repo_id j.id events))

abbrev pub job_of : Job → JobKey
job_of j = record { workflow_id = j.workflow_id; job_name = j.name }

module _ {F : Type 0} (f : Floats F) (s : Settings) where
  -- One group of eligible jobs.
  unfoldable pub counted : ℕ → List FlakeEvent → JobKey × List Job → JobFlakiness F
  unfolding wilson_interval latest is_flaky_run naming outcome_expression
  counted repo_id events g = record {
    workflow_id = g.0.workflow_id;
    job_name = g.0.job_name;
    opportunities = count (λ j. true) g.1;
    failures = count (λ j. is_failure (outcome_expression j)) g.1;
    flakes = count (is_flaky_run repo_id events) g.1;
    last_flake_at = latest (λ j. latest (λ e. e.occurred_at) (naming repo_id j.id events)) g.1;
    interval = wilson_interval f (count (is_flaky_run repo_id events) g.1) (count (λ j. true) g.1);
  }

  -- The WHERE of `flaky_jobs_from_facts`; a job without a completion is not taken.
  unfoldable pub is_counted : (repo_id cutoff : ℕ) → Job → Bool
  unfolding is_opportunity
  is_counted repo_id cutoff j =
      j.repo_id == repo_id && is_true (sql_test (leb cutoff) j.completed_at) && is_opportunity s j

  unfoldable pub fact_rows :
      (repo_id cutoff : ℕ) → List Job → List FlakeEvent → List (JobFlakiness F)
  unfolding groups counted is_counted
  fact_rows repo_id cutoff jobs events =
      map (counted repo_id events)
        (groups same_job job_of (filter (is_counted repo_id cutoff) jobs))

  unfoldable pub flaky_jobs_from_facts :
      (repo_id window_days limit now : ℕ) → List Job → List FlakeEvent → List (JobFlakiness F)
  unfolding ranked fact_rows identity_le rank_le
  flaky_jobs_from_facts repo_id window_days limit now jobs events =
      ranked identity_le (rank_le f) limit
        (fact_rows repo_id (now - window_days * microseconds_a_day) jobs events)
