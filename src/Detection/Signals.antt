-- ===== src/Detection/Signals.antt =====
-- Signal A, Signal B and `evaluate_job` of backend/app/detection.py, with the `flake_events`
-- table as explicit state.
use flakehound.Base.{
  ℕ, String, Bool, true, false, ◌&&◌, not, Option, none, some, List, [], ◌∷◌, map, leb, ltb, ◌==◌,
  any, keep_if, length, same, same_text?, coalesce, if◌then◌else◌,
}
use flakehound.Base.Sort.{sort}
use flakehound.Base.Upsert.{upsert}
use flakehound.Facts.{Job}
use flakehound.Detection.{
  Settings, Opportunity, Outcome, is_failure, is_success, opportunities_in_run,
  opportunities_on_commit,
}

pub data Signal : Type 0 where
  rerun_recovery same_commit_disagreement : Signal

-- {"run_attempt", "job_id", "conclusion"} of `attempts`, with "run_id" in `job_runs`.
pub record JobRun : Type 0 where
  pub run_id : ℕ
  pub run_attempt : ℕ
  pub job_id : ℕ
  pub conclusion : Outcome

-- The JSON evidence, by signal.
pub data Evidence : Type 0 where
  recovered :
      (head_sha : String) (job_ids : List ℕ) (attempts : List JobRun) (recoveries : List (ℕ × ℕ))
      → Evidence
  disagreed : (job_ids : List ℕ) (job_runs : List JobRun) (runs : ℕ) → Evidence

-- evidence["job_ids"]
unfoldable pub evidence_job_ids : Evidence → List ℕ
evidence_job_ids (recovered _ ids _ _) = ids
evidence_job_ids (disagreed ids _ _) = ids

pub record FlakeEvent : Type 0 where
  pub repo_id : ℕ
  pub signal : Signal
  pub workflow_id : Option ℕ
  pub job_name : String
  pub head_sha : Option String
  pub run_id : Option ℕ
  pub evidence : Evidence
  pub occurred_at : Option ℕ

abbrev pub same_signal : Signal → Signal → Bool
same_signal Signal.rerun_recovery Signal.rerun_recovery = true
same_signal Signal.same_commit_disagreement Signal.same_commit_disagreement = true
same_signal _ _ = false

abbrev pub same_num? : Option ℕ → Option ℕ → Bool
same_num? none none = true
same_num? (some a) (some b) = a == b
same_num? _ _ = false

-- uq_flake_events_group, NULLS NOT DISTINCT
unfoldable pub same_group : FlakeEvent → FlakeEvent → Bool
same_group e f =
    e.repo_id == f.repo_id
    && same_signal e.signal f.signal
    && same_num? e.workflow_id f.workflow_id
    && same e.job_name f.job_name
    && same_text? e.head_sha f.head_sha
    && same_num? e.run_id f.run_id

unfoldable pub refresh : FlakeEvent → FlakeEvent → FlakeEvent
refresh new old = record old {
  evidence = new.evidence;
  occurred_at = coalesce new.occurred_at old.occurred_at;
}

unfoldable pub record_flake_event : FlakeEvent → List FlakeEvent → List FlakeEvent
unfolding same_group refresh
record_flake_event new = upsert (same_group new) (refresh new) new

-- zip(attempts, attempts[1:]), kept where a failure is followed by a success
unfoldable pub recoveries : List Opportunity → List (Opportunity × Opportunity)
recoveries [] = []
recoveries (a ∷ []) = []
recoveries (a ∷ b ∷ rest) =
    keep_if (is_failure a.outcome && is_success b.outcome) (a, b) (recoveries (b ∷ rest))

-- A set's items, each once.
unfoldable pub distinct : List ℕ → List ℕ
distinct [] = []
distinct (x ∷ xs) = keep_if (not (any (λ y. y == x) xs)) x (distinct xs)

unfoldable pub sorted_set : List ℕ → List ℕ
unfolding distinct
sorted_set xs = sort leb (distinct xs)

unfoldable pub pair_ids : List (Opportunity × Opportunity) → List ℕ
pair_ids [] = []
pair_ids ((a, b) ∷ rest) = a.job_id ∷ b.job_id ∷ pair_ids rest

-- recoveries[-1][1], of the pair and those after it
unfoldable pub latest : Opportunity × Opportunity → List (Opportunity × Opportunity) → Opportunity
latest (a, b) [] = b
latest p (q ∷ rest) = latest q rest

abbrev job_run : Opportunity → JobRun
job_run a = record {
  run_id = a.run_id;
  run_attempt = a.run_attempt;
  job_id = a.job_id;
  conclusion = a.outcome;
}

unfoldable pub recovery_event :
    ℕ
    → ℕ
    → String
    → List Opportunity
    → Opportunity × Opportunity
    → List (Opportunity × Opportunity)
    → FlakeEvent
unfolding sorted_set pair_ids latest
recovery_event repo_id run_id job_name attempts first rest = record {
  repo_id = repo_id;
  signal = Signal.rerun_recovery;
  workflow_id = none;
  job_name = job_name;
  head_sha = none;
  run_id = some run_id;
  evidence =
      Evidence.recovered (latest first rest).head_sha (sorted_set (pair_ids (first ∷ rest)))
        (map job_run attempts) (map (λ p. (p.0.run_attempt, p.1.run_attempt)) (first ∷ rest));
  occurred_at = (latest first rest).completed_at;
}

-- The answer, and the events after it.
unfoldable pub evaluate_rerun_recovery :
    ℕ → ℕ → String → List Opportunity → List FlakeEvent → Bool × List FlakeEvent
unfolding recoveries recovery_event record_flake_event
evaluate_rerun_recovery repo_id run_id job_name attempts events = elim (recoveries attempts) [
  | [] ↦ (false, events)
  | first ∷ rest ↦
      (true, record_flake_event (recovery_event repo_id run_id job_name attempts first rest) events)
]

abbrev pub later : Option ℕ → Option ℕ → Option ℕ
later none t = t
later (some x) none = some x
later (some x) (some y) = if ltb x y then some y else some x

-- max((… if completed_at), default=None)
unfoldable pub latest_time : List Opportunity → Option ℕ
latest_time [] = none
latest_time (a ∷ rest) = later a.completed_at (latest_time rest)

unfoldable pub disagreement_event : ℕ → ℕ → String → String → List Opportunity → FlakeEvent
unfolding sorted_set latest_time
disagreement_event repo_id workflow_id job_name head_sha runs = record {
  repo_id = repo_id;
  signal = Signal.same_commit_disagreement;
  workflow_id = some workflow_id;
  job_name = job_name;
  head_sha = some head_sha;
  run_id = none;
  evidence =
      Evidence.disagreed (sort leb (map (λ r. r.job_id) runs)) (map job_run runs)
        (length (distinct (map (λ r. r.run_id) runs)));
  occurred_at = latest_time runs;
}

unfoldable pub evaluate_same_commit_disagreement :
    Settings → ℕ → Option ℕ → String → String → List Job → List FlakeEvent → Bool × List FlakeEvent
unfolding opportunities_on_commit disagreement_event record_flake_event
evaluate_same_commit_disagreement s repo_id none job_name head_sha jobs events = (false, events)
evaluate_same_commit_disagreement s repo_id (some workflow_id) job_name head_sha jobs events =
    let runs = opportunities_on_commit s repo_id workflow_id job_name head_sha jobs in
    if any (λ r. is_success r.outcome) runs && any (λ r. is_failure r.outcome) runs
    then (
      true,
      record_flake_event (disagreement_event repo_id workflow_id job_name head_sha runs) events,
    )
    else (false, events)

-- Python's `w or t` at ids: 0 is false too.
abbrev pub known : Option ℕ → Option ℕ → Option ℕ
known none t = t
known (some w) t = if w == 0 then t else some w

-- next((a.workflow_id for a in attempts if a.workflow_id), None)
unfoldable pub known_workflow : List Opportunity → Option ℕ
known_workflow [] = none
known_workflow (a ∷ rest) = known a.workflow_id (known_workflow rest)

-- attempts[-1], of the attempt and those after it
unfoldable pub last_attempt : Opportunity → List Opportunity → Opportunity
last_attempt a [] = a
last_attempt a (b ∷ rest) = last_attempt b rest

-- `evaluate_job` from the attempts on: Signal B only where there is an attempt to read it off.
unfoldable pub evaluate_attempts :
    Settings → ℕ → ℕ → String → List Opportunity → List Job → List FlakeEvent → List FlakeEvent
unfolding evaluate_rerun_recovery evaluate_same_commit_disagreement known_workflow last_attempt
evaluate_attempts s repo_id run_id job_name [] jobs events =
    (evaluate_rerun_recovery repo_id run_id job_name [] events).1
evaluate_attempts s repo_id run_id job_name (a ∷ rest) jobs events =
    (evaluate_same_commit_disagreement s repo_id (known_workflow (a ∷ rest)) job_name
      (last_attempt a rest).head_sha jobs
      (evaluate_rerun_recovery repo_id run_id job_name (a ∷ rest) events).1).1

unfoldable pub evaluate_job :
    Settings → ℕ → ℕ → String → List Job → List FlakeEvent → List FlakeEvent
unfolding opportunities_in_run evaluate_attempts
evaluate_job s repo_id run_id job_name jobs =
    evaluate_attempts s repo_id run_id job_name
      (opportunities_in_run s repo_id run_id job_name jobs) jobs
