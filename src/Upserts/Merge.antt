-- ===== src/Upserts/Merge.antt =====
-- The merges of backend/app/upserts.py under deliveries that repeat, are late or come in another
-- order.
use flakehound.Base.{
  ℕ, ◌≤◌, ◌<◌, ◌≡◌, refl, String, true, false, ◌⊎◌, inl, inr, Option, none, some, List, [], ◌∷◌,
  arith, All, coalesce, Bool-cases,
}
use flakehound.Facts.{Job, WorkflowRun}
use flakehound.Upserts.Progress.{advanced, status_rank}
use flakehound.Upserts.Jobs.{merge_job}
use flakehound.Upserts.Runs.{stub, run_values, merge_run}

module _ {ℓ} {A : Type ℓ} where
  coalesce_again : (a b : Option A) → coalesce a (coalesce a b) ≡ coalesce a b
  coalesce_again none b = refl
  coalesce_again (some x) b = refl

  identity_again : (a b : Option A) → coalesce (coalesce b a) a ≡ coalesce b a
  identity_again none none = refl
  identity_again (some x) none = refl
  identity_again a (some y) = refl

advanced_self : (s : Option String) → advanced s s ≡ true
advanced_self s = ground arith

-- Processing a delivery again changes nothing but the row's own update time.
merge_job-again :
    (now later : ℕ) (new old : Job)
    → merge_job later new (merge_job now new old)
      ≡ record (merge_job now new old) { updated_at = later }
unfolding merge_job
merge_job-again now later new old = elim (Bool-cases (advanced new.status old.status)) [
  | inl e ↦ rw e (rw (advanced_self new.status) (simp (coalesce_again, identity_again)))
  | inr e ↦ rw e (rw e (simp identity_again))
]

behind : (new old : Option String) → status_rank new < status_rank old → advanced new old ≡ false
behind new old h = ground arith

level : (new old : Option String) → status_rank old ≤ status_rank new → advanced new old ≡ true
level new old h = ground arith

-- A delivery that is behind the row contributes at most the workflow that the row lacked.
pub merge_job-behind :
    (now : ℕ) (new old : Job)
    → status_rank new.status < status_rank old.status
    → merge_job now new old
      ≡ record old { workflow_id = coalesce old.workflow_id new.workflow_id; updated_at = now }
unfolding merge_job
merge_job-behind now new old h = rw (behind new.status old.status h) refl

-- Rows after a run of deliveries, each processed at its own time.
pub merge_all : List (ℕ × Job) → Job → Job
merge_all [] old = old
merge_all ((now, new) ∷ rest) old = merge_all rest (merge_job now new old)

-- The columns that say how a job run ended.
abbrev pub SameEnd : Job → Job → Type 0
SameEnd a b =
    (a.status ≡ b.status)
    × (a.conclusion ≡ b.conclusion)
    × (a.completed_at ≡ b.completed_at)
    × (a.step_count ≡ b.step_count)
    × (a.completed_step_count ≡ b.completed_step_count)

-- However many late deliveries follow that are behind the row, how the job run ended stays.
pub merge_all-SameEnd :
    (deliveries : List (ℕ × Job)) (old : Job)
    → All (λ d. status_rank d.1.status < status_rank old.status) deliveries
    → SameEnd (merge_all deliveries old) old
unfolding merge_all
merge_all-SameEnd [] old h = (refl, refl, refl, refl, refl)
merge_all-SameEnd ((now, new) ∷ rest) old h =
    rw (merge_job-behind now new old h.0, merge_all)
      (merge_all-SameEnd rest
        (record old { workflow_id = coalesce old.workflow_id new.workflow_id; updated_at = now })
        h.1)

-- Every progress column that `a` knows, `b` knows.
pub record Covers (a b : Job) : Type 0 where
  pub conclusion : b.conclusion ≡ none → a.conclusion ≡ none
  pub started_at : b.started_at ≡ none → a.started_at ≡ none
  pub completed_at : b.completed_at ≡ none → a.completed_at ≡ none
  pub runner_name : b.runner_name ≡ none → a.runner_name ≡ none
  pub runner_labels : b.runner_labels ≡ none → a.runner_labels ≡ none
  pub step_count : b.step_count ≡ none → a.step_count ≡ none
  pub completed_step_count : b.completed_step_count ≡ none → a.completed_step_count ≡ none

coalesce_covered {ℓ} :
    {A : Type ℓ} (a b old : Option A)
    → (b ≡ none → a ≡ none)
    → coalesce b (coalesce a old) ≡ coalesce b old
coalesce_covered a (some x) old h = refl
coalesce_covered a none old h = rw (h refl) refl

-- Two deliveries name one workflow, or one of them names none.
abbrev pub SameWorkflow : Option ℕ → Option ℕ → Type 0
SameWorkflow a b = (a ≡ none) ⊎ ((b ≡ none) ⊎ (a ≡ b))

identity_swap :
    (a b old : Option ℕ)
    → SameWorkflow a b
    → coalesce (coalesce old a) b ≡ coalesce (coalesce old b) a
identity_swap a b (some w) h = refl
identity_swap a b none (inl e) = rw e (ground arith)
identity_swap a b none (inr (inl e)) = rw e (ground arith)
identity_swap a b none (inr (inr e)) = rw e refl

-- Two deliveries for a job run that has a row may be processed in either order, if one is more
-- advanced than the other and knows every progress column that the other does, and if both name one
-- workflow or one of them names none: the row ends the same.
pub merge_job_comm :
    (now : ℕ) (a b old : Job)
    → status_rank a.status < status_rank b.status
    → Covers a b
    → SameWorkflow a.workflow_id b.workflow_id
    → merge_job now b (merge_job now a old) ≡ merge_job now a (merge_job now b old)
unfolding merge_job
merge_job_comm now a b old lt c w =
    let swap = identity_swap a.workflow_id b.workflow_id old.workflow_id w in
    let ahead = level b.status a.status (omega arith) in
    let late = behind a.status b.status lt in
    elim (Bool-cases (advanced b.status old.status)) [
      | inl e ↦ elim (Bool-cases (advanced a.status old.status)) [
        | inl f ↦
            rw (e, f)
              (rw (ahead, late)
                (simp (
                  swap,
                  coalesce_covered a.conclusion b.conclusion old.conclusion c.conclusion,
                  coalesce_covered a.started_at b.started_at old.started_at c.started_at,
                  coalesce_covered a.completed_at b.completed_at old.completed_at c.completed_at,
                  coalesce_covered a.runner_name b.runner_name old.runner_name c.runner_name,
                  coalesce_covered a.runner_labels b.runner_labels old.runner_labels
                      c.runner_labels,
                  coalesce_covered a.step_count b.step_count old.step_count c.step_count,
                  coalesce_covered a.completed_step_count b.completed_step_count
                      old.completed_step_count c.completed_step_count,
                )))
        | inr f ↦ rw (e, f) (rw (e, late) (simp swap))
      ]
      | inr e ↦ rw (e, behind_both e) (rw e (simp swap))
    ]
  where
    behind_both : advanced b.status old.status ≡ false → advanced a.status old.status ≡ false
    behind_both e = ground arith

-- Stubbing a run from a job payload, over a stored run that is neither in progress nor completed:
-- the workflow, the event, the conclusion, the start and GitHub's two times stay, and the status becomes NULL, whatever
-- it was.
pub stub-status :
    (now repo_id run_id run_attempt : ℕ) (head_sha : String) (head_branch : Option String)
    (old : WorkflowRun)
    → status_rank old.status ≡ 1
    → let new = run_values now repo_id run_id run_attempt head_sha (stub head_branch) in
      let run = merge_run now new old in
      (run.status ≡ none)
      × (run.workflow_id ≡ old.workflow_id)
      × (run.event ≡ old.event)
      × (run.conclusion ≡ old.conclusion)
      × (run.run_started_at ≡ old.run_started_at)
      × (run.github_created_at ≡ old.github_created_at)
      × (run.github_updated_at ≡ old.github_updated_at)
unfolding merge_run run_values
stub-status now repo_id run_id run_attempt head_sha head_branch old h =
    let forward = level none old.status (rw h (omega arith)) in
    rw forward (refl, ground arith, refl, refl, refl, refl, refl)
