-- ===== src/Upserts/Jobs.antt =====
-- `upsert_job` of backend/app/upserts.py.
use flakehound.Base.{
  ℕ, ◌+◌, String, Bool, false, Option, none, some, List, [], ◌∷◌, ◌==◌, same, if◌then◌else◌,
}
use flakehound.Base.Upsert.{upsert}
use flakehound.Json.{
  Json, Items, str, arr, nil, cons, get, number, as_num, as_str, list_of, are_objects,
}
use flakehound.Facts.{Job}
use flakehound.Upserts.Progress.{advanced, progress, identity, parse_timestamp, status_rank}

-- `payload.get(key) or []` of the installation events
unfoldable pub items_of : Json → Items
items_of (arr xs) = xs
items_of _ = nil

-- `job.get("steps") or []`; `none` where counting them raises.
unfoldable pub steps_of : Json → Option Items
unfolding list_of are_objects
steps_of v = elim (list_of v) [
  | none ↦ none
  | some steps ↦ if are_objects steps then some steps else none
]

unfoldable pub count_items : Items → ℕ
count_items nil = 0
count_items (cons x xs) = 1 + count_items xs

abbrev has_status : String → Option String → Bool
has_status s none = false
has_status s (some t) = same t s

unfoldable pub count_completed : Items → ℕ
unfolding get as_str
count_completed nil = 0
count_completed (cons x xs) =
    (if has_status "completed" (as_str (get "status" x)) then 1 else 0) + count_completed xs

-- Counted only where there are steps: zero completed steps is not an unknown number of them.
abbrev pub counted : Items → ℕ → Option ℕ
counted nil n = none
counted (cons x xs) n = some n

unfoldable pub texts : Items → List String
texts nil = []
texts (cons (str s) xs) = s ∷ texts xs
texts (cons _ xs) = texts xs

-- `list(labels) if isinstance(labels, list) else None`
unfoldable pub labels_of : Json → Option (List String)
unfolding texts
labels_of (arr xs) = some (texts xs)
labels_of _ = none

abbrev or_one : Option ℕ → ℕ
or_one none = 1
or_one (some n) = n

-- The VALUES row; `none` where `job["id"]`, `job["run_id"]` or `job["name"]` is not to be had
-- or the steps raise.
unfoldable pub job_values : (String → Option ℕ) → ℕ → ℕ → Json → String → Option ℕ → Option Job
unfolding get number as_num as_str steps_of count_items count_completed labels_of parse_timestamp
job_values parse now repo_id job head_sha workflow_id = elim (number (get "id" job)) [
  | none ↦ none
  | some id ↦ elim (number (get "run_id" job)) [
    | none ↦ none
    | some run_id ↦ elim (as_str (get "name" job)) [
      | none ↦ none
      | some name ↦ elim (steps_of (get "steps" job)) [
        | none ↦ none
        | some steps ↦ some (record {
          id = id;
          run_id = run_id;
          run_attempt = or_one (as_num (get "run_attempt" job));
          repo_id = repo_id;
          workflow_id = workflow_id;
          head_sha = head_sha;
          name = name;
          status = as_str (get "status" job);
          conclusion = as_str (get "conclusion" job);
          started_at = parse_timestamp parse (get "started_at" job);
          completed_at = parse_timestamp parse (get "completed_at" job);
          runner_name = as_str (get "runner_name" job);
          runner_labels = labels_of (get "labels" job);
          step_count = counted steps (count_items steps);
          completed_step_count = counted steps (count_completed steps);
          created_at = now;
          updated_at = now;
        })
      ]
    ]
  ]
]

-- ON CONFLICT (id) DO UPDATE, for the payload's row `new` and the stored row `old`.
unfoldable pub merge_job : ℕ → Job → Job → Job
unfolding status_rank
merge_job now new old =
    let forward = advanced new.status old.status in
    record old {
      workflow_id = identity new.workflow_id old.workflow_id;
      status = if forward then new.status else old.status;
      conclusion = progress forward new.conclusion old.conclusion;
      started_at = progress forward new.started_at old.started_at;
      completed_at = progress forward new.completed_at old.completed_at;
      runner_name = progress forward new.runner_name old.runner_name;
      runner_labels = progress forward new.runner_labels old.runner_labels;
      step_count = progress forward new.step_count old.step_count;
      completed_step_count = progress forward new.completed_step_count old.completed_step_count;
      updated_at = now;
    }

unfoldable pub write_job : ℕ → Job → List Job → List Job
unfolding merge_job
write_job now new = upsert (λ r. r.id == new.id) (merge_job now new) new

unfoldable pub upsert_job :
    (String → Option ℕ) → ℕ → ℕ → Json → String → Option ℕ → List Job → Option (List Job)
unfolding job_values write_job
upsert_job parse now repo_id job head_sha workflow_id jobs =
    elim (job_values parse now repo_id job head_sha workflow_id) [
      | none ↦ none
      | some new ↦ some (write_job now new jobs)
    ]
