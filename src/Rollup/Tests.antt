-- ===== src/Rollup/Tests.antt =====
-- The rollup of a job that failed and then passed on day 2, over a table with a row of day 1 that no
-- job supports any more.
use mathlib.Core.List.{Perm}
use flakehound.Base.{ℕ, ◌-◌, ◌≡◌, refl, true, not, none, some, List, [], ◌∷◌, map, filter, arith}
use flakehound.Base.Groups.{distinct, groups}
use flakehound.Base.Upsert.{upsert, find}
use flakehound.Facts.{Job}
use flakehound.Detection.{Settings, is_opportunity, opportunity_filter, outcome_expression}
use flakehound.Detection.Signals.{FlakeEvent, Evidence, Signal, evidence_job_ids}
use flakehound.Rollup.{
  Stats, JobStatsDaily, Table, Durations, aggregate, rollup_since, rollup_repos, flattened,
  implicated_job_ids, is_implicated, flake_filter, day_expression, dated, key_of, last_completed,
  duration_expression, summarise, refreshed, write, write_all, is_stale,
}
use flakehound.Rollup.Apart.{IsTable}
use flakehound.Rollup.Counts.{AllRates, rollup_repos-AllRates}
use flakehound.Rollup.Window.{is_in, rollup_since-window}

-- Whole microseconds, the first value for a percentile.
abbrev pub durations : Durations ℕ
durations = record {
  seconds_between = λ a b. b - a;
  percentile_cont = λ p xs. elim xs [ [] ↦ none | x ∷ rest ↦ some x ];
  sum = λ xs. elim xs [ [] ↦ none | x ∷ rest ↦ some x ];
}

abbrev pub settings : Settings
settings = record { timed_out_is_failure = true; exclude_infra_failures = true }

abbrev pub failed : Job
failed = record {
  id = 10;
  run_id = 1;
  run_attempt = 1;
  repo_id = 3;
  workflow_id = some 7;
  head_sha = "abc";
  name = "test";
  status = some "completed";
  conclusion = some "failure";
  started_at = some 172800000000;
  completed_at = some 172800000005;
  runner_name = none;
  runner_labels = none;
  step_count = some 4;
  completed_step_count = some 2;
  created_at = 100;
  updated_at = 200;
}

abbrev pub jobs : List Job
jobs =
    failed
    ∷ (record failed {
      id = 11;
      run_attempt = 2;
      conclusion = some "success";
      completed_at = some 172800000009;
    }
        ∷ [])

abbrev pub event : FlakeEvent
event = record {
  repo_id = 3;
  signal = Signal.same_commit_disagreement;
  workflow_id = some 7;
  job_name = "test";
  head_sha = some "abc";
  run_id = none;
  evidence = Evidence.disagreed (10 ∷ []) [] 1;
  occurred_at = some 172800000009;
}

abbrev pub stale : JobStatsDaily ℕ
stale = record {
  id = 1;
  stats = record {
    key = record { repo_id = 3; workflow_id = none; job_name = "test"; day = 1 };
    runs = 1;
    opportunities = 1;
    failures = 0;
    flakes = 0;
    last_flake_at = none;
    duration_p50_seconds = none;
    duration_p95_seconds = none;
    duration_total_seconds = none;
  };
  created_at = 5;
  updated_at = 5;
}

abbrev pub table : Table ℕ
table = record { next_id = 2; rows = stale ∷ [] }

abbrev day_two : Stats ℕ
day_two = record {
  key = record { repo_id = 3; workflow_id = some 7; job_name = "test"; day = 2 };
  runs = 2;
  opportunities = 2;
  failures = 1;
  flakes = 1;
  last_flake_at = some 172800000005;
  duration_p50_seconds = some 5;
  duration_p95_seconds = some 5;
  duration_total_seconds = some 5;
}

rollup_runs : rollup_since durations settings 900 3 1 jobs (event ∷ []) table ≡ (
  record {
    next_id = 3;
    rows = record { id = 2; stats = day_two; created_at = 900; updated_at = 900 } ∷ [];
  },
  record { repo_id = 3; since = 1; written = 1; removed = 1 },
)
unfolding rollup_since aggregate write_all write refreshed is_stale upsert find implicated_job_ids
    flattened evidence_job_ids distinct groups dated day_expression key_of summarise flake_filter
    is_implicated is_opportunity opportunity_filter outcome_expression last_completed
    duration_expression
rollup_runs = refl

pub table-IsTable : IsTable table
table-IsTable = ((omega arith, tt), (tt, tt))

rollup_since-window_example :
    Perm
      (map
        (λ r. r.stats)
        (filter
          (is_in 3 1)
          (rollup_since durations settings 900 3 1 jobs (event ∷ []) table).0.rows))
      (aggregate durations settings 3 1 jobs (event ∷ []))
    × ((filter
            (λ r. not (is_in 3 1 r))
            (rollup_since durations settings 900 3 1 jobs (event ∷ []) table).0.rows
          ≡ filter (λ r. not (is_in 3 1 r)) table.rows)
        × IsTable (rollup_since durations settings 900 3 1 jobs (event ∷ []) table).0)
rollup_since-window_example =
    rollup_since-window durations settings 900 3 1 jobs (event ∷ []) table table-IsTable

rollup_repos-AllRates_example :
    AllRates
      (rollup_repos durations settings
        (λ i. 172800000010)
        90
        (3 ∷ [])
        jobs
        (event ∷ [])
        table).0.rows
rollup_repos-AllRates_example =
    rollup_repos-AllRates durations settings (λ i. 172800000010) 90 (3 ∷ []) jobs (event ∷ []) table
      ((omega arith, (omega arith, omega arith)), tt)
