-- ===== src/Stats/Oracle.antt =====
-- The leaderboard of the daily rollup and the leaderboard of the facts, which the source keeps as its
-- check.
use native.Mathlib.Nat.{le-div_iff_mul-le}
use flakehound.Base.{
  ℕ, ◌*◌, ◌/◌, ◌≡◌, refl, sym, ap, ◌∙◌, Bool, true, false, not, ◌&&◌, Option, none, some, List, [],
  ◌∷◌, map, ltb, leb, ◌==◌, ==_iff, inl, inr, any, filter, if◌then◌else◌, Bool-cases, arith, ◌↔◌,
  eq_iff, le→leb, leb→le,
}
use flakehound.Base.Groups.{
  count, sum, distinct, groups, distinct-IsDistinct, any-distinct, find_selected,
}
use flakehound.Base.Counting.{
  any-append, filter-true, count-filter, count_ext, All-everywhere, any_ext, any-map, any-count,
  any-sum,
}
use flakehound.Base.Sql.{is_true, sql_test}
use flakehound.Base.Upsert.{find}
use flakehound.Facts.{Job}
use flakehound.Detection.{Settings, is_opportunity, outcome_expression, is_failure}
use flakehound.Detection.Signals.{FlakeEvent, evidence_job_ids}
use flakehound.Rollup.{
  JobStatsDaily, Table, Durations, day_expression, flattened, implicated_job_ids, is_implicated,
  flake_filter, summarise, in_window, rollup_since, microseconds_a_day,
}
use flakehound.Rollup.Keys.{and_iff, same_num?_iff}
use flakehound.Rollup.Apart.{IsTable}
use flakehound.Stats.{
  Floats, JobFlakiness, JobKey, same_job, day_job, job_of, summed, has_opportunities, job_rows,
  naming, is_empty, is_flaky_run, counted, is_counted, fact_rows, wilson_interval,
}
use flakehound.Stats.Summed.{is_rolled_up, sum-counts}

same_job_iff : (j k : JobKey) → (same_job j k ≡ true) ↔ (j ≡ k)
same_job_iff j k = (equal, λ e. rw (← e) reflexive)
  where
    equal : same_job j k ≡ true → j ≡ k
    equal h =
        let (p, q) = (and_iff _ _).0 h in
        let p' = (same_num?_iff j.workflow_id k.workflow_id).0 p in
        let q' = (eq_iff j.job_name k.job_name).0 q in
        (λ i. record { workflow_id = p' i; job_name = q' i })

    reflexive : same_job j j ≡ true
    reflexive =
        rw
          (
            (same_num?_iff j.workflow_id j.workflow_id).1 refl,
            (eq_iff j.job_name j.job_name).1 refl,
          )
          refl

same_day : (since t : ℕ) → leb (since * microseconds_a_day) t ≡ leb since (t / microseconds_a_day)
same_day since t = elim (Bool-cases (leb since (t / microseconds_a_day))) [
  | inl e ↦ le→leb _ _ ((le-div_iff_mul-le (omega arith)).0 (leb→le _ _ e)) ∙ sym e
  | inr e ↦ elim (Bool-cases (leb (since * microseconds_a_day) t)) [
    | inl q ↦ absurd (cc (e, le→leb _ _ ((le-div_iff_mul-le (omega arith)).1 (leb→le _ _ q))))
    | inr q ↦ q ∙ sym e
  ]
]

same_window :
    (since : ℕ) (j : Job)
    → is_true (sql_test (leb (since * microseconds_a_day)) j.completed_at)
      ≡ is_true (sql_test (leb since) (day_expression j))
unfolding day_expression
same_window since j = at j.completed_at
  where
    at :
        (o : Option ℕ)
        → is_true (sql_test (leb (since * microseconds_a_day)) o)
          ≡ is_true (
              sql_test
                (leb since)
                (elim o [ none ↦ none | some t ↦ some (t / microseconds_a_day) ]))
    at none = refl
    at (some t) = same_day since t

eq_sym : (a b : ℕ) → (a == b) ≡ (b == a)
eq_sym a b = ground arith

-- A job that an event names is one whose id is in the flattened evidence.
same_runs :
    (repo_id : ℕ) (events : List FlakeEvent) (j : Job)
    → is_implicated (implicated_job_ids repo_id events) j ≡ is_flaky_run repo_id events j
unfolding is_implicated implicated_job_ids is_flaky_run flattened naming
same_runs repo_id events j =
    any_ext _ _ _ (λ i. eq_sym i j.id)
    ∙ (any-distinct ◌==◌ ==_iff j.id (flattened repo_id events)
        ∙ (any_ext _ _ _ (λ i. eq_sym j.id i) ∙ flat events))
  where
    flat :
        (es : List FlakeEvent)
        → any (λ i. i == j.id) (flattened repo_id es) ≡ not (is_empty (naming repo_id j.id es))
    flat [] = refl
    flat (e ∷ es) = elim (Bool-cases (e.repo_id == repo_id)) [
      | inl p ↦ rw p (
          rw (any-append (λ i. i == j.id) (evidence_job_ids e.evidence) (flattened repo_id es))
            (elim (Bool-cases (any (λ i. i == j.id) (evidence_job_ids e.evidence))) [
              | inl q ↦ rw q refl
              | inr q ↦ rw q (flat es)
            ]))
      | inr p ↦ rw p (flat es)
    ]

regroup : (o q m r t : Bool) → (((o && q) && m) && (r && t)) ≡ ((q && m) && ((r && t) && o))
regroup o q m r t = ground arith

and_true : (b : Bool) → b ≡ (b && true)
and_true true = refl
and_true false = refl

module _ {F : Type 0} where
  abbrev pub row_job : JobFlakiness F → JobKey
  row_job r = record { workflow_id = r.workflow_id; job_name = r.job_name }

  -- The row of a job on a leaderboard, without `last_flake_at`.
  abbrev pub forget : Option (JobFlakiness F) → Option (JobFlakiness F)
  forget none = none
  forget (some r) = some (record r { last_flake_at = none })

  abbrev pub row_of : JobKey → List (JobFlakiness F) → Option (JobFlakiness F)
  row_of k rows = forget (find (λ r. same_job k (row_job r)) rows)

module _ {F : Type 0} (f : Floats F) (k : JobKey) where
  columns : (opportunities failures flakes : ℕ) → Option ℕ → JobFlakiness F
  columns o p q last = record {
    workflow_id = k.workflow_id;
    job_name = k.job_name;
    opportunities = o;
    failures = p;
    flakes = q;
    last_flake_at = last;
    interval = wilson_interval f q o;
  }

  same_columns :
      (o p q o' p' q' : ℕ) (last last' : Option ℕ)
      → o ≡ o'
      → p ≡ p'
      → q ≡ q'
      → forget (if ltb 0 o then some (columns o p q last) else none)
        ≡ forget (if ltb 0 o' then some (columns o' p' q' last') else none)
  unfolding columns
  same_columns o p q o' p' q' last last' e e' e'' = rw (e, e', e'') (alike (ltb 0 o'))
    where
      alike :
          (b : Bool)
          → forget (if b then some (columns o' p' q' last) else none)
            ≡ forget (if b then some (columns o' p' q' last') else none)
      alike true = refl
      alike false = refl

module _ {F S : Type 0} (f : Floats F) (durations : Durations S) (s : Settings) where
  module _ (k : JobKey) (repo_id since : ℕ) (jobs : List Job) (events : List FlakeEvent) where
    taken : List Job
    taken = filter (is_counted f s repo_id (since * microseconds_a_day)) jobs

    -- Both conditions on a job.
    same_count :
        (p q : Job → Bool)
        → ((j : Job) → p j ≡ (is_opportunity s j && q j))
        → count (λ j. (p j && same_job k (job_of j)) && is_rolled_up repo_id since j) jobs
          ≡ count q (filter (λ j. same_job k (job_of j)) taken)
    unfolding taken is_counted
    same_count p q e =
        count_ext _ _ jobs (All-everywhere pointwise jobs)
        ∙ sym (count-filter q _ _ ∙ count-filter _ _ jobs)
      where
        pointwise :
            (j : Job)
            → ((p j && same_job k (job_of j)) && is_rolled_up repo_id since j) ≡ (
                (q j && same_job k (job_of j))
                && is_counted f s repo_id (since * microseconds_a_day) j)
        pointwise j =
            rw (e j, same_window since j)
              (regroup (is_opportunity s j) (q j) (same_job k (job_of j)) (j.repo_id == repo_id)
                (is_true (sql_test (leb since) (day_expression j))))

    window : (now : ℕ) → Table S → List (JobStatsDaily S)
    window now t =
        filter (λ r. in_window repo_id since r.stats.key)
          (rollup_since durations s now repo_id since jobs events t).0.rows

    -- The columns of the job's daily rows sum to the counts of its jobs.
    same_sums :
        (now : ℕ) (t : Table S)
        → IsTable t
        → (sum (λ r. r.stats.opportunities) (filter (λ r. same_job k (day_job r)) (window now t))
            ≡ count (λ j. true) (filter (λ j. same_job k (job_of j)) taken))
          × ((sum (λ r. r.stats.failures) (filter (λ r. same_job k (day_job r)) (window now t))
                ≡ count
                    (λ j. is_failure (outcome_expression j))
                    (filter (λ j. same_job k (job_of j)) taken))
              × (sum (λ r. r.stats.flakes) (filter (λ r. same_job k (day_job r)) (window now t))
                  ≡ count
                      (is_flaky_run repo_id events)
                      (filter (λ j. same_job k (job_of j)) taken)))
    unfolding window summarise flake_filter
    same_sums now t h = (
      sum-counts durations s (λ x. x.opportunities) (λ ids j. is_opportunity s j)
            (λ ids i rows. refl) k now repo_id since jobs events t h
          ∙ same_count _ _ (λ j. and_true (is_opportunity s j)),
      (
        sum-counts durations s (λ x. x.failures)
              (λ ids j. is_opportunity s j && is_failure (outcome_expression j))
              (λ ids i rows. refl) k now repo_id since jobs events t h
            ∙ same_count _ _ (λ j. refl),
        sum-counts durations s (λ x. x.flakes) (λ ids j. flake_filter s ids j) (λ ids i rows. refl)
              k now repo_id since jobs events t h
            ∙ same_count _ _ (λ j. ap (λ b. is_opportunity s j && b) (same_runs repo_id events j)),
      ),
    )

    rolled :
        (rows : List (JobStatsDaily S))
        → find (λ r. same_job k (row_job r)) (job_rows f repo_id since rows) ≡ (
            if ltb 0 (
              sum
                (λ r. r.stats.opportunities)
                (filter
                  (λ r. same_job k (day_job r))
                  (filter (λ r. in_window repo_id since r.stats.key) rows)))
            then some (
                summed f (
                  k,
                  filter
                      (λ r. same_job k (day_job r))
                      (filter (λ r. in_window repo_id since r.stats.key) rows),
                ))
            else none)
    unfolding job_rows groups summed
    rolled rows =
        find_selected same_job same_job_iff (λ j. (j, filter (λ r. same_job j (day_job r)) w))
          has_opportunities (summed f) row_job (λ j. refl) k (distinct same_job (map day_job w))
          (distinct-IsDistinct same_job _)
        ∙ ap (λ b. if b then some (summed f (k, filter (λ r. same_job k (day_job r)) w)) else none)
            (ap
                (λ b.
                  b
                  && ltb 0
                      (sum (λ r. r.stats.opportunities) (filter (λ r. same_job k (day_job r)) w)))
                (any-distinct same_job same_job_iff k (map day_job w)
                  ∙ any-map (same_job k) day_job w)
              ∙ any-sum (λ r. r.stats.opportunities) (λ r. same_job k (day_job r)) w)
      where
        w : List (JobStatsDaily S)
        w = filter (λ r. in_window repo_id since r.stats.key) rows

    from_facts :
        find
          (λ r. same_job k (row_job r))
          (fact_rows f s repo_id (since * microseconds_a_day) jobs events)
        ≡ (if ltb 0 (count (λ j. true) (filter (λ j. same_job k (job_of j)) taken))
            then some (counted f s repo_id events (k, filter (λ j. same_job k (job_of j)) taken))
            else none)
    unfolding fact_rows groups counted taken
    from_facts =
        ap (λ gs. find (λ r. same_job k (row_job r)) (map (counted f s repo_id events) gs))
          (sym (filter-true (groups same_job job_of taken)))
        ∙ (find_selected same_job same_job_iff (λ j. (j, filter (λ i. same_job j (job_of i)) taken))
              (λ g. true) (counted f s repo_id events) row_job (λ j. refl) k
              (distinct same_job (map job_of taken)) (distinct-IsDistinct same_job _)
            ∙ ap
                (λ b.
                  if b
                  then some
                      (counted f s repo_id events (k, filter (λ j. same_job k (job_of j)) taken))
                  else none)
                (sym (and_true _)
                  ∙ (any-distinct same_job same_job_iff k (map job_of taken)
                      ∙ (any-map (same_job k) job_of taken
                          ∙ any-count (λ j. same_job k (job_of j)) taken))))

    same_rows :
        (now : ℕ) (t : Table S)
        → IsTable t
        → row_of k (
            job_rows f repo_id since
              (rollup_since durations s now repo_id since jobs events t).0.rows)
          ≡ row_of k (fact_rows f s repo_id (since * microseconds_a_day) jobs events)
    unfolding summed counted window columns
    same_rows now t h =
        let (o, (p, q)) = same_sums now t h in
        rw (rolled (rollup_since durations s now repo_id since jobs events t).0.rows, from_facts)
          (same_columns f k _ _ _ _ _ _ _ _ o p q)

-- After the rollup of a repository's window, the leaderboard's query over the daily rows and the one
-- over the facts, for the jobs since the window's first day, have for every job the same row, but for
-- its `last_flake_at`, or both have none.
pub job_rows-fact_rows :
    {F S : Type 0} (f : Floats F) (durations : Durations S) (s : Settings) (k : JobKey)
    (now repo_id since : ℕ) (jobs : List Job) (events : List FlakeEvent) (t : Table S)
    → IsTable t
    → row_of k
        (job_rows f repo_id since (rollup_since durations s now repo_id since jobs events t).0.rows)
      ≡ row_of k (fact_rows f s repo_id (since * microseconds_a_day) jobs events)
job_rows-fact_rows f durations s k now repo_id since jobs events t h =
    same_rows f durations s k repo_id since jobs events now t h
