-- ===== src/Detection/Both.antt =====
-- How the two signals of backend/app/detection.py meet in `evaluate_job`.
use flakehound.Base.{
  ℕ, ◌≡◌, ◌≢◌, refl, sym, ap, ◌∙◌, subst, String, Bool, true, ◌&&◌, inl, inr, some, List, [], ◌∷◌,
  arith, In, any, any_of_In, of_In-map, In-map, of_In-filter, In-filter, filter, eq_iff,
}
use flakehound.Base.Sort.{sort, of_In-sort, In-sort}
use flakehound.Facts.{Job}
use flakehound.Detection.{
  Settings, Opportunity, Outcome, is_failure, is_success, is_opportunity, to_opportunity,
  attempt_le, in_run, on_commit, opportunities, opportunities_in_run, opportunities_on_commit,
}
use flakehound.Detection.Signals.{
  FlakeEvent, evaluate_rerun_recovery, evaluate_same_commit_disagreement, known_workflow,
  last_attempt,
}
use flakehound.Detection.Recovery.{FailsThenPasses, rerun_recovery_iff}

-- An opportunity is an eligible job row of its group, and every such row is one.
pub opportunity_source :
    (s : Settings) (where_clause : Job → Bool) (jobs : List Job) (o : Opportunity)
    → In o (opportunities s where_clause jobs)
    → (j : Job) × In j jobs
      × (where_clause j ≡ true)
      × (is_opportunity s j ≡ true)
      × (o ≡ to_opportunity j)
unfolding opportunities
opportunity_source s where_clause jobs o h =
    let test = λ (j : Job). where_clause j && is_opportunity s j in
    let (j, m, e) = of_In-map to_opportunity o (sort attempt_le (filter test jobs)) h in
    let (n, t) = of_In-filter test j jobs (of_In-sort attempt_le j (filter test jobs) m) in
    let (w, i) = both (where_clause j) (is_opportunity s j) t in (j, n, w, i, e)
  where
    both : (a b : Bool) → (a && b) ≡ true → (a ≡ true) × (b ≡ true)
    both a b t = ground arith

pub In-opportunities :
    (s : Settings) (where_clause : Job → Bool) (jobs : List Job) (j : Job)
    → In j jobs
    → where_clause j ≡ true
    → is_opportunity s j ≡ true
    → In (to_opportunity j) (opportunities s where_clause jobs)
unfolding opportunities
In-opportunities s where_clause jobs j m w i =
    let test = λ (j : Job). where_clause j && is_opportunity s j in
    In-map to_opportunity j (sort attempt_le (filter test jobs))
      (In-sort attempt_le j (filter test jobs) (In-filter test j jobs m (rw (w, i) refl)))

FailsThenPasses-both :
    (attempts : List Opportunity)
    → FailsThenPasses attempts
    → ((a : Opportunity) × In a attempts × (a.outcome ≡ Outcome.failure))
      × ((b : Opportunity) × In b attempts × (b.outcome ≡ Outcome.success))
FailsThenPasses-both [] h = absurd h
FailsThenPasses-both (a ∷ rest) (inl (f, (b, m, p))) = ((a, inl refl, f), (b, inr m, p))
FailsThenPasses-both (a ∷ rest) (inr h) =
    let ((a', m, f), (b, n, p)) = FailsThenPasses-both rest h in ((a', inr m, f), (b, inr n, p))

known_of_all :
    (w : ℕ) (a : Opportunity) (rest : List Opportunity)
    → w ≢ 0
    → a.workflow_id ≡ some w
    → known_workflow (a ∷ rest) ≡ some w
unfolding known_workflow
known_of_all w a rest h e = ground arith

last_attempt-In : (a : Opportunity) (rest : List Opportunity) → In (last_attempt a rest) (a ∷ rest)
unfolding last_attempt
last_attempt-In a [] = inl refl
last_attempt-In a (b ∷ rest) = inr (last_attempt-In b rest)

module _ (s : Settings) (repo_id run_id w : ℕ) (job_name sha : String) (jobs : List Job)
    (a : Opportunity) (rest : List Opportunity) (nonzero : w ≢ 0)
    (one_run : (j : Job)
      → In j jobs
      → in_run repo_id run_id job_name j ≡ true
      → (j.workflow_id ≡ some w) × (j.head_sha ≡ sha))
    (attempts : opportunities_in_run s repo_id run_id job_name jobs ≡ a ∷ rest) where
  source :
      (o : Opportunity)
      → In o (a ∷ rest)
      → (j : Job) × In j jobs
        × (in_run repo_id run_id job_name j ≡ true)
        × (is_opportunity s j ≡ true)
        × (o ≡ to_opportunity j)
  unfolding opportunities_in_run
  source o m =
      opportunity_source s (in_run repo_id run_id job_name) jobs o (subst (In o) (sym attempts) m)

  on_commit_of :
      (j : Job)
      → In j jobs
      → in_run repo_id run_id job_name j ≡ true
      → on_commit repo_id w job_name sha j ≡ true
  on_commit_of j m h =
      let (e, f) = one_run j m h in rw (e, f) (ground (arith, (eq_iff sha sha).1 refl))

  among_runs :
      (o : Opportunity)
      → In o (a ∷ rest)
      → In o (opportunities_on_commit s repo_id w job_name sha jobs)
  unfolding opportunities_on_commit
  among_runs o m =
      let (j, n, h, i, e) = source o m in
      rw e (In-opportunities s (on_commit repo_id w job_name sha) jobs j n (on_commit_of j n h) i)

  workflow_of : (o : Opportunity) → In o (a ∷ rest) → o.workflow_id ≡ some w
  unfolding to_opportunity
  workflow_of o m =
      let (j, n, h, i, e) = source o m in
      ap (λ (x : Opportunity). x.workflow_id) e ∙ (one_run j n h).0

  sha_of : (o : Opportunity) → In o (a ∷ rest) → o.head_sha ≡ sha
  unfolding to_opportunity
  sha_of o m =
      let (j, n, h, i, e) = source o m in ap (λ (x : Opportunity). x.head_sha) e ∙ (one_run j n h).1

  -- For a run whose job rows share their commit and a known workflow, a re-run recovery makes
  -- Signal B fire too, on the group that `evaluate_job` reads off the run's attempts.
  pub recovery_disagrees :
      (events events' : List FlakeEvent)
      → (evaluate_rerun_recovery repo_id run_id job_name (a ∷ rest) events).0 ≡ true
      → (evaluate_same_commit_disagreement s repo_id
          (known_workflow (a ∷ rest))
          job_name
          (last_attempt a rest).head_sha
          jobs
          events').0
        ≡ true
  unfolding evaluate_same_commit_disagreement
  recovery_disagrees events events' h =
      let ((x, m, f), (y, n, p)) =
        FailsThenPasses-both (a ∷ rest)
          ((rerun_recovery_iff repo_id run_id job_name (a ∷ rest) events).0 h) in
      let runs = opportunities_on_commit s repo_id w job_name sha jobs in
      let failed : any (λ r. is_failure r.outcome) runs ≡ true =
        any_of_In (λ r. is_failure r.outcome) x runs (among_runs x m) (rw f refl) in
      let passed : any (λ r. is_success r.outcome) runs ≡ true =
        any_of_In (λ r. is_success r.outcome) y runs (among_runs y n) (rw p refl) in
      rw
        (
          known_of_all w a rest nonzero (workflow_of a (inl refl)),
          sha_of _ (last_attempt-In a rest),
        )
        (rw (passed, failed) refl)
