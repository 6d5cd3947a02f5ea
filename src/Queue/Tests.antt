-- ===== src/Queue/Tests.antt =====
-- The theorems on backend/app/queue.py at a small table: two rows, one worker's claim, a reap.
use flakehound.Base.{
  ℕ, ◌+◌, ◌≡◌, ◌≢◌, refl, Bool, true, false, ◌⊎◌, inl, inr, none, some, List, [], ◌∷◌, ◌++◌, arith,
  All, In,
}
use flakehound.Base.Sort.{sort}
use flakehound.Json.{Json}
use flakehound.Queue.{
  defer_row, Row, ClaimedJob, Settings, Status, claim_batch, claim_row, to_claimed, claimable,
  key_le, reap_stuck, is_stuck,
}
use flakehound.Queue.Ids.{Unique}
use flakehound.Queue.Claim.{claim_batch-priority, claim_batch-disjoint, claimed}
use flakehound.Queue.System.{System, Step, Reach, start, new_row}
use flakehound.Queue.Holders.{defer_gives_back_one, attempts_cover_claims, IsCovered}
use flakehound.Queue.Shape.{HasShape, reachable-HasShape, reap_recovers, IsReturned}
use flakehound.Queue.Sweep.{recover, recover-dead_letters, HasFailed}

abbrev settings : Settings
settings = record {
  retry_backoff = 5000000;
  retry_backoff_max = 300000000;
  reaper_timeout = 600000000;
}

abbrev none_locked : ℕ → Bool
none_locked i = false

abbrev old_row : Row
old_row = record {
  id = 1;
  delivery_id = some "a";
  job_type = "webhook";
  event = some "workflow_job";
  payload = Json.null;
  priority = 0;
  status = Status.pending;
  attempts = 0;
  max_attempts = 5;
  locked_at = none;
  next_attempt_at = none;
  last_error = none;
  completed_at = none;
  created_at = 100;
  updated_at = 100;
}

abbrev young_row : Row
young_row = record old_row { id = 2; delivery_id = some "b"; created_at = 200; updated_at = 200 }

abbrev rows : List Row
rows = young_row ∷ (old_row ∷ [])

rows-Unique : Unique rows
rows-Unique = (((λ e. absurd (omega arith)), tt), (tt, tt))

abbrev first_job : ClaimedJob
first_job = record {
  id = 1;
  job_type = "webhook";
  event = some "workflow_job";
  payload = Json.null;
  attempts = 1;
  max_attempts = 5;
}

abbrev second_job : ClaimedJob
second_job = record first_job { id = 2 }

first_claimed : In first_job (claimed 300 1 none_locked rows)
unfolding claim_batch sort
first_claimed = inl refl

young_claimable : claimable 300 young_row ≡ true
unfolding claimable
young_claimable = refl

claim_batch-priority_example :
    In (to_claimed (claim_row 300 young_row)) (claimed 300 1 none_locked rows)
    ⊎ ((s : Row) × In s rows
        × (first_job ≡ to_claimed (claim_row 300 s))
        × (key_le s young_row ≡ true))
claim_batch-priority_example =
    claim_batch-priority 300 1 none_locked rows first_job young_row rows-Unique first_claimed
      (inl refl) young_claimable refl

second_claimed :
    In second_job (claim_batch 400 1 none_locked (claim_batch 300 1 none_locked rows).1).0
unfolding claim_batch sort
second_claimed = inl refl

claim_batch-disjoint_example : first_job.id ≢ second_job.id
claim_batch-disjoint_example =
    claim_batch-disjoint rows 300 1 400 1 none_locked none_locked first_job second_job rows-Unique
      first_claimed second_claimed

abbrev queued : System
queued = record {
  rows = new_row 100 1 none "backfill_runs" none Json.null 1 ∷ [];
  held = [];
  next_id = 1 + 1;
}

abbrev worked : System
worked = record {
  rows = (claim_batch 200 10 none_locked queued.rows).1;
  held = (claim_batch 200 10 none_locked queued.rows).0 ++ [];
  next_id = 1 + 1;
}

worked-Reach : Reach start worked
worked-Reach =
    Reach.next (Reach.next Reach.here (Step.enqueue 100 none "backfill_runs" none Json.null 1))
      (Step.claim 200 10 none_locked)

attempts_cover_claims_example : Unique worked.rows × All (IsCovered worked.held) worked.rows
attempts_cover_claims_example = attempts_cover_claims worked-Reach

reachable-HasShape_example : All HasShape worked.rows
reachable-HasShape_example = reachable-HasShape worked-Reach

abbrev backfill_row : Row
backfill_row = record old_row {
  delivery_id = none;
  job_type = "backfill_runs";
  event = none;
  priority = 1;
  status = Status.processing;
  attempts = 1;
  locked_at = some 200;
  updated_at = 200;
}

worked_row : In backfill_row worked.rows
unfolding claim_batch new_row sort
worked_row = inl refl

abbrev backfill_job : ClaimedJob
backfill_job = record {
  id = 1;
  job_type = "backfill_runs";
  event = none;
  payload = Json.null;
  attempts = 1;
  max_attempts = 5;
}

worked_job : worked.held ≡ [] ++ (backfill_job ∷ [])
unfolding claim_batch new_row sort
worked_job = refl

defer_gives_back_one_example :
    (defer_row 300 60000000 "rate limited" backfill_row).attempts + 1 ≡ backfill_row.attempts
defer_gives_back_one_example =
    defer_gives_back_one 300 60000000 "rate limited" [] [] backfill_job backfill_row worked-Reach
      worked_job worked_row refl

reap_recovers_example :
    (t : ℕ) × (backfill_row.locked_at ≡ some t)
    × (x : Row) × In x (reap_stuck settings (t + settings.reaper_timeout + (7 + 1)) worked.rows).1
    × IsReturned backfill_row x
reap_recovers_example = reap_recovers settings 7 backfill_row worked-Reach worked_row refl

abbrev dead_row : Row
dead_row = record backfill_row { attempts = 5 }

dead_stuck : is_stuck settings 700000000 dead_row ≡ true
unfolding is_stuck
dead_stuck = refl

recover-dead_letters_example :
    ((x : Row) × In x (recover settings 700000000 (dead_row ∷ rows)).2
      × HasFailed 700000000 dead_row x)
    × In dead_row.id (recover settings 700000000 (dead_row ∷ rows)).0
    × In dead_row.id (recover settings 700000000 (dead_row ∷ rows)).1
recover-dead_letters_example =
    recover-dead_letters settings 700000000 (dead_row ∷ rows) dead_row (inl refl) dead_stuck
      (omega arith)

young_kept : In young_row (recover settings 700000000 (dead_row ∷ rows)).2
unfolding recover
young_kept = inr (inl refl)
