-- ===== src/Stats/Summed.antt =====
-- A column of the daily rows, summed over a window, counts the jobs of the facts.
use flakehound.Base.{
  ℕ, ◌+◌, ◌≡◌, refl, sym, ap, ◌∙◌, Bool, true, false, ◌&&◌, Option, none, some, List, [], ◌∷◌, map,
  leb, ◌==◌, inl, inr, any, filter, All, All-map, if◌then◌else◌, Bool-cases, arith,
}
use flakehound.Base.Groups.{
  count, sum, distinct, groups, distinct-IsDistinct, any-distinct, sum_groups,
}
use flakehound.Base.Sums.{sum-perm}
use flakehound.Base.Counting.{sum_filter, sum_map, count_ext, any_own_key}
use flakehound.Base.Sql.{is_true, sql_test}
use flakehound.Facts.{Job}
use flakehound.Detection.{Settings}
use flakehound.Detection.Signals.{FlakeEvent}
use flakehound.Rollup.{
  Key, same_key, Stats, Table, Durations, Dated, dated, dated_row, day_expression, key_of,
  implicated_job_ids, summarise, aggregate, in_window, rollup_since,
}
use flakehound.Rollup.Keys.{same_key_iff}
use flakehound.Rollup.Apart.{IsTable}
use flakehound.Rollup.Window.{rollup_since-window}
use flakehound.Stats.{JobKey, same_job, day_job, job_of}

-- The WHERE of the aggregate, at a job.
abbrev pub is_rolled_up : (repo_id since : ℕ) → Job → Bool
is_rolled_up repo_id since j =
    j.repo_id == repo_id && is_true (sql_test (leb since) (day_expression j))

abbrev job_of_key : Key → JobKey
job_of_key k = record { workflow_id = k.workflow_id; job_name = k.job_name }

with_true : (a b c : Bool) → c ≡ true → (a && (b && c)) ≡ (a && b)
with_true true true c e = e
with_true true false c e = refl
with_true false b c e = refl

count-dated :
    (p : Job → Bool) (repo_id since : ℕ) (jobs : List Job)
    → count (λ d. p d.job) (dated repo_id since jobs)
      ≡ count (λ j. p j && is_rolled_up repo_id since j) jobs
unfolding dated
count-dated p repo_id since [] = refl
count-dated p repo_id since (j ∷ jobs) = row (day_expression j) (count-dated p repo_id since jobs)
  where
    row :
        (o : Option ℕ)
        → count (λ d. p d.job) (dated repo_id since jobs)
          ≡ count (λ i. p i && is_rolled_up repo_id since i) jobs
        → count (λ d. p d.job) (dated_row repo_id since j o (dated repo_id since jobs))
          ≡ (if p j && (j.repo_id == repo_id && is_true (sql_test (leb since) o)) then 1 else 0)
            + count (λ i. p i && is_rolled_up repo_id since i) jobs
    row none h = ground (arith, h)
    row (some d) h = elim (Bool-cases (j.repo_id == repo_id && leb since d)) [
      | inl e ↦ rw e (ground (arith, h))
      | inr e ↦ rw e (ground (arith, h))
    ]

module _ {S : Type 0} (durations : Durations S) (s : Settings) (column : Stats S → ℕ)
    (p : List ℕ → Job → Bool)
    (counts : (ids : List ℕ) (k : Key) (rows : List Dated)
      → column (summarise durations s ids k rows) ≡ count (λ d. p ids d.job) rows) where
  aggregate-count :
      (k : JobKey) (repo_id since : ℕ) (jobs : List Job) (events : List FlakeEvent)
      → sum
          (λ x. if same_job k (job_of_key x.key) then column x else 0)
          (aggregate durations s repo_id since jobs events)
        ≡ count
            (λ d. p (implicated_job_ids repo_id events) d.job && same_job k (job_of d.job))
            (dated repo_id since jobs)
  unfolding aggregate groups summarise key_of
  aggregate-count k repo_id since jobs events =
      by_keys ks
      ∙ (sum_groups same_key same_key_iff (key_of repo_id) (λ d. p ids d.job)
            (λ x. same_job k (job_of_key x)) rows ks (distinct-IsDistinct same_key _)
          ∙ count_ext _ _ rows (
              listed rows (
                All-map (λ d e. any-distinct same_key same_key_iff (key_of repo_id d) _ ∙ e) rows
                  (any_own_key same_key (key_of repo_id) (λ j. (same_key_iff j j).1 refl) rows))))
    where
      ids : List ℕ
      ids = implicated_job_ids repo_id events

      rows : List Dated
      rows = dated repo_id since jobs

      ks : List Key
      ks = distinct same_key (map (key_of repo_id) rows)

      by_keys :
          (ks : List Key)
          → sum
              (λ x. if same_job k (job_of_key x.key) then column x else 0)
              (map
                (λ (g : Key × List Dated). summarise durations s ids g.0 g.1)
                (map (λ j. (j, filter (λ a. same_key j (key_of repo_id a)) rows)) ks))
            ≡ sum
                (λ j.
                  if same_job k (job_of_key j)
                  then count (λ d. p ids d.job) (filter (λ a. same_key j (key_of repo_id a)) rows)
                  else 0)
                ks
      by_keys [] = refl
      by_keys (j ∷ ks) = rw (counts ids j (filter (λ a. same_key j (key_of repo_id a)) rows)) (
          ap
            (λ n.
              (if same_job k (job_of_key j)
                then count (λ d. p ids d.job) (filter (λ a. same_key j (key_of repo_id a)) rows)
                else 0)
              + n)
            (by_keys ks))

      listed :
          (ds : List Dated)
          → All (λ d. any (same_key (key_of repo_id d)) ks ≡ true) ds
          → All
              (λ d.
                (p ids d.job
                  && (same_job k (job_of_key (key_of repo_id d))
                      && any (same_key (key_of repo_id d)) ks))
                ≡ (p ids d.job && same_job k (job_of d.job)))
              ds
      listed [] h = tt
      listed (d ∷ ds) h = (with_true _ _ _ h.0, listed ds h.1)

  -- After a rollup, a column that counts jobs of a group sums, over the window's rows of one job, to
  -- the count of the window's jobs.
  pub sum-counts :
      (k : JobKey) (now repo_id since : ℕ) (jobs : List Job) (events : List FlakeEvent)
      (t : Table S)
      → IsTable t
      → sum
          (λ r. column r.stats)
          (filter
            (λ r. same_job k (day_job r))
            (filter
              (λ r. in_window repo_id since r.stats.key)
              (rollup_since durations s now repo_id since jobs events t).0.rows))
        ≡ count
            (λ j.
              (p (implicated_job_ids repo_id events) j && same_job k (job_of j))
              && is_rolled_up repo_id since j)
            jobs
  sum-counts k now repo_id since jobs events t h =
      sum_filter _ _ _
      ∙ (sym (sum_map (λ x. if same_job k (job_of_key x.key) then column x else 0) (λ r. r.stats) _)
          ∙ (sum-perm (λ x. if same_job k (job_of_key x.key) then column x else 0) _ _
                (rollup_since-window durations s now repo_id since jobs events t h).0
              ∙ (aggregate-count k repo_id since jobs events
                  ∙ count-dated
                      (λ j. p (implicated_job_ids repo_id events) j && same_job k (job_of j))
                      repo_id since jobs)))
