-- ===== src/Detection/Recovery.antt =====
-- When Signal A of backend/app/detection.py fires, against a description that does not follow the
-- code.
use flakehound.Base.{
  ℕ, ◌≡◌, ◌↔◌, refl, Bool, true, false, ◌⊎◌, inl, inr, List, [], ◌∷◌, arith, In, String,
}
use flakehound.Detection.{Opportunity, Outcome}
use flakehound.Detection.Signals.{FlakeEvent, recoveries, evaluate_rerun_recovery}

-- Some attempt failed, and some attempt after it, not only the next, succeeded.
abbrev pub FailsThenPasses : List Opportunity → Type 0
FailsThenPasses [] = ⊥
FailsThenPasses (a ∷ rest) =
    ((a.outcome ≡ Outcome.failure)
      × ((b : Opportunity) × In b rest × (b.outcome ≡ Outcome.success)))
    ⊎ FailsThenPasses rest

abbrev any_pair : List (Opportunity × Opportunity) → Bool
any_pair [] = false
any_pair (p ∷ ps) = true

answer_lem :
    (repo_id run_id : ℕ) (job_name : String) (attempts : List Opportunity)
    (events : List FlakeEvent)
    → (evaluate_rerun_recovery repo_id run_id job_name attempts events).0
      ≡ any_pair (recoveries attempts)
unfolding evaluate_rerun_recovery
answer_lem repo_id run_id job_name attempts events = ground arith

-- A failure in front makes a pair with the first success behind it.
pair_of_failure :
    (a b : Opportunity) (rest : List Opportunity)
    → a.outcome ≡ Outcome.failure
    → In b rest
    → b.outcome ≡ Outcome.success
    → any_pair (recoveries (a ∷ rest)) ≡ true
unfolding recoveries
pair_of_failure a b [] f m p = absurd m
pair_of_failure a b (c ∷ rest) f (inl e) p = ground arith
pair_of_failure a b (c ∷ rest) f (inr m) p =
    ground (arith, λ (q : c.outcome ≡ Outcome.failure). pair_of_failure c b rest q m p)

pair_behind :
    (a : Opportunity) (rest : List Opportunity)
    → any_pair (recoveries rest) ≡ true
    → any_pair (recoveries (a ∷ rest)) ≡ true
unfolding recoveries
pair_behind a [] h = h
pair_behind a (b ∷ rest) h = ground arith

pair_of_FailsThenPasses :
    (attempts : List Opportunity) → FailsThenPasses attempts → any_pair (recoveries attempts) ≡ true
pair_of_FailsThenPasses [] h = absurd h
pair_of_FailsThenPasses (a ∷ rest) (inl (f, (b, m, p))) = pair_of_failure a b rest f m p
pair_of_FailsThenPasses (a ∷ rest) (inr h) = pair_behind a rest (pair_of_FailsThenPasses rest h)

adjacent_pair :
    (a b : Opportunity) (rest : List Opportunity)
    → any_pair (recoveries (a ∷ b ∷ rest)) ≡ true
    → ((a.outcome ≡ Outcome.failure) × (b.outcome ≡ Outcome.success))
      ⊎ (any_pair (recoveries (b ∷ rest)) ≡ true)
unfolding recoveries
adjacent_pair a b rest h = ground arith

FailsThenPasses-of_pair :
    (attempts : List Opportunity) → any_pair (recoveries attempts) ≡ true → FailsThenPasses attempts
unfolding recoveries
FailsThenPasses-of_pair [] h = cc
FailsThenPasses-of_pair (a ∷ []) h = cc
FailsThenPasses-of_pair (a ∷ b ∷ rest) h = elim (adjacent_pair a b rest h) [
  | inl (f, p) ↦ inl (f, (b, inl refl, p))
  | inr k ↦ inr (FailsThenPasses-of_pair (b ∷ rest) k)
]

-- Signal A fires exactly when some eligible attempt of the run failed and some later one, however
-- many stand between, succeeded: neither a missing attempt nor a repeated failure hides it.
pub rerun_recovery_iff :
    (repo_id run_id : ℕ) (job_name : String) (attempts : List Opportunity)
    (events : List FlakeEvent)
    → ((evaluate_rerun_recovery repo_id run_id job_name attempts events).0 ≡ true)
      ↔ FailsThenPasses attempts
rerun_recovery_iff repo_id run_id job_name attempts events =
    rw (answer_lem repo_id run_id job_name attempts events)
      (FailsThenPasses-of_pair attempts, pair_of_FailsThenPasses attempts)
