-- ===== src/Detection/Group.antt =====
-- The unique key of `flake_events` (backend/app/models.py) under backend/app/detection.py.
use flakehound.Base.{
  ℕ, ◌≡◌, refl, ◌∙◌, String, false, inl, inr, Option, none, some, List, [], ◌∷◌, arith, All, same,
  same_text?, eq_iff, Bool-cases,
}
use flakehound.Base.Upsert.{upsert}
use flakehound.Facts.{Job}
use flakehound.Detection.{Settings, opportunities_in_run}
use flakehound.Detection.Signals.{
  FlakeEvent, Signal, same_signal, same_num?, same_group, refresh, record_flake_event, evaluate_job,
}
use flakehound.Detection.Replay.{write, attempts_write, same_group-refresh}

-- No two events of the table are of one group.
abbrev pub OnePerGroup : List FlakeEvent → Type 0
OnePerGroup [] = Unit
OnePerGroup (e ∷ es) = All (λ f. same_group e f ≡ false) es × OnePerGroup es

no_match_upsert :
    (e new : FlakeEvent) (es : List FlakeEvent)
    → same_group e new ≡ false
    → All (λ f. same_group e f ≡ false) es
    → All (λ f. same_group e f ≡ false) (record_flake_event new es)
unfolding record_flake_event upsert
no_match_upsert e new [] n h = (n, tt)
no_match_upsert e new (f ∷ fs) n h = elim (Bool-cases (same_group new f)) [
  | inl k ↦ rw k (same_group-refresh e new f ∙ h.0, h.1)
  | inr k ↦ rw k (h.0, no_match_upsert e new fs n h.1)
]

str_sym : (s t : String) → same s t ≡ same t s
str_sym s t = ground (arith, eq_iff s t, eq_iff t s)

text_sym : (s t : Option String) → same_text? s t ≡ same_text? t s
text_sym none none = refl
text_sym none (some t) = refl
text_sym (some s) none = refl
text_sym (some s) (some t) = str_sym s t

num_sym : (a b : Option ℕ) → same_num? a b ≡ same_num? b a
num_sym a b = ground arith

signal_sym : (a b : Signal) → same_signal a b ≡ same_signal b a
signal_sym a b = ground arith

same_group_sym : (e f : FlakeEvent) → same_group e f ≡ same_group f e
unfolding same_group
same_group_sym e f =
    rw
      (
        signal_sym e.signal f.signal,
        num_sym e.workflow_id f.workflow_id,
        str_sym e.job_name f.job_name,
        text_sym e.head_sha f.head_sha,
        num_sym e.run_id f.run_id,
      )
      (ground arith)

OnePerGroup-record :
    (new : FlakeEvent) (es : List FlakeEvent)
    → OnePerGroup es
    → OnePerGroup (record_flake_event new es)
unfolding record_flake_event upsert same_group refresh
OnePerGroup-record new [] h = (tt, tt)
OnePerGroup-record new (f ∷ fs) h = elim (Bool-cases (same_group new f)) [
  | inl k ↦ rw k (h.0, h.1)
  | inr k ↦
      rw k (no_match_upsert f new fs (same_group_sym f new ∙ k) h.0, OnePerGroup-record new fs h.1)
]

OnePerGroup-write :
    (a : Option FlakeEvent) (es : List FlakeEvent) → OnePerGroup es → OnePerGroup (write a es)
OnePerGroup-write none es h = h
OnePerGroup-write (some e) es h = OnePerGroup-record e es h

-- Every evaluation keeps the table's unique key: at most one event for a group and signal.
pub evaluate_job-OnePerGroup :
    (s : Settings) (repo_id run_id : ℕ) (job_name : String) (jobs : List Job)
    (events : List FlakeEvent)
    → OnePerGroup events
    → OnePerGroup (evaluate_job s repo_id run_id job_name jobs events)
unfolding evaluate_job
evaluate_job-OnePerGroup s repo_id run_id job_name jobs events h =
    let attempts = opportunities_in_run s repo_id run_id job_name jobs in
    let (a, b, _, _, f) = attempts_write s repo_id run_id job_name attempts jobs in
    rw (f events) (OnePerGroup-write b _ (OnePerGroup-write a events h))
