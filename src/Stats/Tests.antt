-- ===== src/Stats/Tests.antt =====
-- The leaderboards over the table that a rollup leaves, with whole numbers for floats.
use flakehound.Base.{
  text_le_then, ℕ, ◌+◌, ◌-◌, ◌*◌, ◌/◌, ◌≤◌, ◌≡◌, ◌⊎◌, inl, refl, true, false, none, some, List, [],
  ◌∷◌, All, In, arith, ltb, length,
}
use flakehound.Base.Groups.{distinct, groups}
use flakehound.Base.Sort.{insert, sort, IsSorted}
use flakehound.Facts.{Repository, Source, BackfillStatus}
use flakehound.Detection.{is_opportunity, opportunity_filter, outcome_expression}
use flakehound.Detection.Signals.{evidence_job_ids}
use flakehound.Rollup.{rollup_since, microseconds_a_day}
use flakehound.Rollup.Tests.{durations, settings, jobs, event, table, table-IsTable}
use flakehound.Stats.{
  Floats, JobFlakiness, wilson_interval, interval_of, job_rows, fact_rows, flaky_jobs_from_facts,
  ranked, identity_le, rank_le, rank_key, counted, is_counted, is_flaky_run, naming, latest,
}
use flakehound.Stats.Ranking.{by_both, ranked-IsSorted}
use flakehound.Stats.Oracle.{row_of, job_rows-fact_rows}
use flakehound.Stats.Public.{public_flaky_jobs}
use flakehound.Stats.Visible.{
  IsShown, IsProof, public_flaky_jobs-IsShown, public_flaky_jobs-IsProof,
}

abbrev whole : Floats ℕ
whole = record {
  of_nat = λ n. n;
  plus = λ a b. a + b;
  minus = λ a b. a - b;
  times = λ a b. a * b;
  over = λ a b. a / b;
  sqrt = λ a. a;
  less = ltb;
  z_95 = 2;
}

abbrev flaky : JobFlakiness ℕ
flaky = record {
  workflow_id = some 7;
  job_name = "test";
  opportunities = 2;
  failures = 1;
  flakes = 1;
  last_flake_at = some 172800000009;
  interval = wilson_interval whole 1 2;
}

abbrev steady : JobFlakiness ℕ
steady = record flaky { job_name = "build"; flakes = 0; last_flake_at = none }

facts_board :
    flaky_jobs_from_facts whole settings 3 1 10 172800000010 jobs (event ∷ []) ≡ flaky ∷ []
unfolding flaky_jobs_from_facts fact_rows ranked sort insert groups distinct counted is_counted
    is_flaky_run naming latest is_opportunity opportunity_filter outcome_expression evidence_job_ids
    wilson_interval interval_of identity_le text_le_then rank_le rank_key
facts_board = refl

job_rows-fact_rows_example :
    row_of
      (record { workflow_id = some 7; job_name = "test" })
      (job_rows whole 3 1 (rollup_since durations settings 900 3 1 jobs (event ∷ []) table).0.rows)
    ≡ row_of
        (record { workflow_id = some 7; job_name = "test" })
        (fact_rows whole settings 3 (1 * microseconds_a_day) jobs (event ∷ []))
job_rows-fact_rows_example =
    job_rows-fact_rows whole durations settings (record { workflow_id = some 7; job_name = "test" })
      900 3 1 jobs (event ∷ []) table table-IsTable

less_irreflexive : (a : ℕ) → ltb a a ≡ false
less_irreflexive a = ground arith

less_asymmetric : (a b : ℕ) → ltb a b ≡ true → ltb b a ≡ false
less_asymmetric a b h = ground (arith, h)

less_cotransitive : (a b c : ℕ) → ltb a c ≡ true → (ltb a b ≡ true) ⊎ (ltb b c ≡ true)
less_cotransitive a b c h = ground (arith, h)

ranked-IsSorted_example :
    IsSorted
      (by_both identity_le (rank_le whole))
      (ranked identity_le (rank_le whole) 1 (flaky ∷ (steady ∷ [])))
    × ((length (ranked identity_le (rank_le whole) 1 (flaky ∷ (steady ∷ []))) ≤ 1)
        × (In flaky (ranked identity_le (rank_le whole) 1 (flaky ∷ (steady ∷ [])))
            ⊎ (by_both identity_le (rank_le whole) steady flaky ≡ true)))
unfolding ranked sort insert wilson_interval interval_of identity_le text_le_then rank_le rank_key
ranked-IsSorted_example =
    ranked-IsSorted whole less_asymmetric less_cotransitive 1 (flaky ∷ (steady ∷ [])) steady flaky
      (inl refl) (inl refl)

abbrev repository : Repository
repository = record {
  id = 3;
  installation_id = none;
  source = Source.observed;
  owner = "o";
  name = "r";
  full_name = "o/r";
  is_private = false;
  active = true;
  default_branch = none;
  backfill_status = BackfillStatus.done;
  backfill_window_start = none;
  backfill_window_end = none;
  backfill_page = none;
  backfill_completed_at = none;
  created_at = 0;
  updated_at = 0;
}

abbrev repositories : List Repository
repositories = repository ∷ (record repository { id = 4; is_private = true } ∷ [])

public_flaky_jobs-IsShown_example : All (IsShown 1 repositories) (
    public_flaky_jobs whole 30 10 1 172800000010 repositories [] jobs
      (event ∷ [])
      (rollup_since durations settings 900 3 1 jobs (event ∷ []) table).0)
public_flaky_jobs-IsShown_example =
    public_flaky_jobs-IsShown whole 30 10 1 172800000010 repositories [] jobs (event ∷ [])
      (rollup_since durations settings 900 3 1 jobs (event ∷ []) table).0

public_flaky_jobs-IsProof_example :
    All
      (λ b. IsProof jobs (event ∷ []) b b.proof)
      (public_flaky_jobs whole 30 10 1 172800000010 repositories [] jobs
        (event ∷ [])
        (rollup_since durations settings 900 3 1 jobs (event ∷ []) table).0)
public_flaky_jobs-IsProof_example =
    public_flaky_jobs-IsProof whole 30 10 1 172800000010 repositories [] jobs (event ∷ [])
      (rollup_since durations settings 900 3 1 jobs (event ∷ []) table).0
