-- ===== src/Detection/Replay.antt =====
-- Idempotency layer 3 of backend/app/detection.py: evaluating the same history again.
use text.Mathlib.TextPositions.{eq_refl}
use flakehound.Base.{
  ℕ, ◌≡◌, refl, sym, ap, ◌∙◌, String, true, false, ◌&&◌, inl, inr, Option, none, some, List, [],
  ◌∷◌, arith, coalesce, same_text?, ==_iff, Bool-cases, any,
}
use flakehound.Base.Upsert.{IsSettled, IsSettled-upsert, upsert-IsSettled, upsert_other-IsSettled}
use flakehound.Facts.{Job}
use flakehound.Detection.{
  Settings, Opportunity, is_failure, is_success, opportunities_in_run, opportunities_on_commit,
}
use flakehound.Detection.Signals.{
  FlakeEvent, Signal, same_signal, same_num?, same_group, refresh, record_flake_event, recoveries,
  recovery_event, disagreement_event, evaluate_rerun_recovery, evaluate_same_commit_disagreement,
  known_workflow, last_attempt, evaluate_attempts, evaluate_job,
}

num_self : (a : Option ℕ) → same_num? a a ≡ true
num_self none = refl
num_self (some n) = (==_iff n n).1 refl

text_self : (a : Option String) → same_text? a a ≡ true
text_self none = refl
text_self (some s) = eq_refl s

signal_self : (a : Signal) → same_signal a a ≡ true
signal_self Signal.rerun_recovery = refl
signal_self Signal.same_commit_disagreement = refl

same_group_self : (e : FlakeEvent) → same_group e e ≡ true
unfolding same_group
same_group_self e = ground (
  arith,
  signal_self e.signal,
  num_self e.workflow_id,
  eq_refl e.job_name,
  text_self e.head_sha,
  num_self e.run_id,
)

coalesce_self : (t : Option ℕ) → coalesce t t ≡ t
coalesce_self none = refl
coalesce_self (some t) = refl

coalesce_twice : (t u : Option ℕ) → coalesce t (coalesce t u) ≡ coalesce t u
coalesce_twice none u = refl
coalesce_twice (some t) u = refl

refresh_self : (e : FlakeEvent) → refresh e e ≡ e
unfolding refresh
refresh_self e = rw (coalesce_self e.occurred_at) refl

refresh_twice : (new old : FlakeEvent) → refresh new (refresh new old) ≡ refresh new old
unfolding refresh
refresh_twice new old = rw (coalesce_twice new.occurred_at old.occurred_at) refl

pub same_group-refresh :
    (e new old : FlakeEvent) → same_group e (refresh new old) ≡ same_group e old
unfolding same_group refresh
same_group-refresh e new old = refl

-- Events of different signals are of different groups.
other_signal :
    (e f r : FlakeEvent)
    → same_signal e.signal f.signal ≡ false
    → same_group f r ≡ true
    → same_group e r ≡ false
unfolding same_group
other_signal e f r d h =
    rw (signals_apart e.signal f.signal r.signal d (signal_part h)) (ground arith)
  where
    signal_part : same_group f r ≡ true → same_signal f.signal r.signal ≡ true
    signal_part h = ground arith

    signals_apart :
        (a b c : Signal)
        → same_signal a b ≡ false
        → same_signal b c ≡ true
        → same_signal a c ≡ false
    signals_apart a b c d h = ground arith

abbrev pub write : Option FlakeEvent → List FlakeEvent → List FlakeEvent
write none events = events
write (some e) events = record_flake_event e events

record-IsSettled :
    (e : FlakeEvent) (events : List FlakeEvent)
    → IsSettled (same_group e) (refresh e) (record_flake_event e events)
unfolding record_flake_event
record-IsSettled e events =
    upsert-IsSettled (same_group e) (refresh e) e events (same_group_self e, refresh_self e)
      (λ r h. (same_group-refresh e e r ∙ h, refresh_twice e r))

record_again :
    (e : FlakeEvent) (events : List FlakeEvent)
    → IsSettled (same_group e) (refresh e) events
    → record_flake_event e events ≡ events
unfolding record_flake_event
record_again e events h = IsSettled-upsert (same_group e) (refresh e) e events h

record_other-IsSettled :
    (e f : FlakeEvent) (events : List FlakeEvent)
    → same_signal e.signal f.signal ≡ false
    → IsSettled (same_group e) (refresh e) events
    → IsSettled (same_group e) (refresh e) (record_flake_event f events)
unfolding record_flake_event
record_other-IsSettled e f events d h =
    upsert_other-IsSettled (same_group e) (same_group f) (refresh e) (refresh f) f events
      (λ r k. let apart = other_signal e f r d k in (apart, same_group-refresh e f r ∙ apart)) h

abbrev pub HasSignal : Signal → Option FlakeEvent → Type 0
HasSignal g none = Unit
HasSignal g (some e) = e.signal ≡ g

write_again :
    (a b : Option FlakeEvent) (events : List FlakeEvent)
    → HasSignal Signal.rerun_recovery a
    → HasSignal Signal.same_commit_disagreement b
    → write b (write a (write b (write a events))) ≡ write b (write a events)
write_again none none events p q = refl
write_again none (some f) events p q = record_again f _ (record-IsSettled f events)
write_again (some e) none events p q = record_again e _ (record-IsSettled e events)
write_again (some e) (some f) events p q =
    ap (record_flake_event f)
      (record_again e _ (record_other-IsSettled e f _ (rw (p, q) refl) (record-IsSettled e events)))
    ∙ record_again f _ (record-IsSettled f (record_flake_event e events))

-- What one evaluation writes does not depend on the events already there.
rerun_write :
    (repo_id run_id : ℕ) (job_name : String) (attempts : List Opportunity)
    → (a : Option FlakeEvent) × HasSignal Signal.rerun_recovery a
      × ((events : List FlakeEvent)
          → (evaluate_rerun_recovery repo_id run_id job_name attempts events).1 ≡ write a events)
unfolding evaluate_rerun_recovery
rerun_write repo_id run_id job_name attempts = by_pairs (recoveries attempts) refl
  where
    by_pairs :
        (ps : List (Opportunity × Opportunity))
        → recoveries attempts ≡ ps
        → (a : Option FlakeEvent) × HasSignal Signal.rerun_recovery a
          × ((events : List FlakeEvent)
              → (evaluate_rerun_recovery repo_id run_id job_name attempts events).1
                ≡ write a events)
    by_pairs [] e = (none, tt, λ events. rw (e, evaluate_rerun_recovery) refl)
    by_pairs (p ∷ ps) e = (
      some (recovery_event repo_id run_id job_name attempts p ps),
      unfold recovery_event in refl,
      λ events. rw (e, evaluate_rerun_recovery) refl,
    )

commit_write :
    (s : Settings) (repo_id : ℕ) (workflow_id : Option ℕ) (job_name head_sha : String)
    (jobs : List Job)
    → (b : Option FlakeEvent) × HasSignal Signal.same_commit_disagreement b
      × ((events : List FlakeEvent)
          → (evaluate_same_commit_disagreement s repo_id workflow_id job_name head_sha jobs
              events).1
            ≡ write b events)
unfolding evaluate_same_commit_disagreement
commit_write s repo_id none job_name head_sha jobs = (none, tt, λ events. refl)
commit_write s repo_id (some w) job_name head_sha jobs =
    let runs = opportunities_on_commit s repo_id w job_name head_sha jobs in
    elim (Bool-cases
      (any (λ r. is_success r.outcome) runs && any (λ r. is_failure r.outcome) runs)) [
        | inl e ↦ (
          some (disagreement_event repo_id w job_name head_sha runs),
          unfold disagreement_event in refl,
          λ events. rw e refl,
        )
        | inr e ↦ (none, tt, λ events. rw e refl)
      ]

pub attempts_write :
    (s : Settings) (repo_id run_id : ℕ) (job_name : String) (attempts : List Opportunity)
    (jobs : List Job)
    → (a b : Option FlakeEvent) × HasSignal Signal.rerun_recovery a
      × HasSignal Signal.same_commit_disagreement b
      × ((events : List FlakeEvent)
          → evaluate_attempts s repo_id run_id job_name attempts jobs events
            ≡ write b (write a events))
unfolding evaluate_attempts
attempts_write s repo_id run_id job_name [] jobs =
    let (a, p, f) = rerun_write repo_id run_id job_name [] in (a, none, p, tt, f)
attempts_write s repo_id run_id job_name (x ∷ xs) jobs =
    let (a, p, f) = rerun_write repo_id run_id job_name (x ∷ xs) in
    let (b, q, g) =
      commit_write s repo_id (known_workflow (x ∷ xs)) job_name (last_attempt x xs).head_sha jobs in
    (a, b, p, q, λ events. g _ ∙ ap (write b) (f events))

-- Evaluating a job again, over the same facts, changes nothing: a replayed delivery converges.
pub evaluate_job-again :
    (s : Settings) (repo_id run_id : ℕ) (job_name : String) (jobs : List Job)
    (events : List FlakeEvent)
    → let once = evaluate_job s repo_id run_id job_name jobs events in
      evaluate_job s repo_id run_id job_name jobs once ≡ once
unfolding evaluate_job
evaluate_job-again s repo_id run_id job_name jobs events =
    let attempts = opportunities_in_run s repo_id run_id job_name jobs in
    let (a, b, p, q, f) = attempts_write s repo_id run_id job_name attempts jobs in
    f _ ∙ ap (λ x. write b (write a x)) (f events) ∙ write_again a b events p q ∙ sym (f events)
