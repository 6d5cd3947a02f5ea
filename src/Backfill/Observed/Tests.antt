-- ===== src/Backfill/Observed/Tests.antt =====
-- The theorem on `start_observed_backfills` of backend/app/backfill.py at two waiting repositories.
use flakehound.Base.{◌≡◌, refl, ◌≤◌, true, false, none, some, [], ◌∷◌, ◌==◌, length, All}
use flakehound.Base.Result.{Returns}
use flakehound.Facts.{Repository, Source, BackfillStatus}
use flakehound.Backfill.Runs.{Settings}
use flakehound.Backfill.Observed.{Pool, waiting, start_observed_backfills}
use flakehound.Backfill.Observed.Once.{start_observed_backfills-once}

abbrev settings : Settings
settings = record {
  backfill_days = 90;
  observation_backfill_days = 30;
  backfill_window_days = 3;
  backfill_page_size = 100;
  backfill_result_cap = 1000;
  observation_installation_id = none;
}

abbrev repository : Repository
repository = record {
  id = 3;
  installation_id = none;
  source = Source.observed;
  owner = "o";
  name = "r";
  full_name = "o/r";
  is_private = false;
  active = true;
  default_branch = some "main";
  backfill_status = BackfillStatus.pending;
  backfill_window_start = none;
  backfill_window_end = none;
  backfill_page = none;
  backfill_completed_at = none;
  created_at = 100;
  updated_at = 100;
}

abbrev other : Repository
other = record repository { id = 2 }

abbrev pool : Pool
pool = record { repos = repository ∷ other ∷ []; rows = []; next_id = 1 }

first_two : waiting 2 pool.repos ≡ 2 ∷ 3 ∷ []
unfolding waiting
first_two = refl

-- The repository of the smaller id is started.
starts_first : Returns (λ r. r.0 ≡ 2 ∷ []) (start_observed_backfills settings 500 1000 1 none pool)
unfolding start_observed_backfills
starts_first = refl

start_observed_backfills-once_example :
    Returns
      (λ r. (length r.0 ≤ 1) × All (λ i. All (λ j. j == i ≡ false) (waiting 5 r.1.repos)) r.0)
      (start_observed_backfills settings 500 1000 1 none pool)
start_observed_backfills-once_example =
    start_observed_backfills-once settings 500 1000 1 5 none pool
