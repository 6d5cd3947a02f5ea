-- ===== src/Observe/Criteria.antt =====
-- What admission means (backend/app/observe.py).
use flakehound.Base.{
  ℕ, ◌+◌, ◌*◌, ◌≤◌, ◌≡◌, ◌↔◌, refl, Bool, true, false, Option, none, some, List, [], ◌∷◌, ◌++◌,
  arith, ltb, String,
}
use flakehound.Observe.{CandidateFacts, assess, reasons, is_empty, reason_if, push_reason}

-- The push, as the criteria put it: known, and at most thirty days ago.
abbrev pub PushedRecently : ℕ → Option ℕ → Type 0
PushedRecently now none = ⊥
PushedRecently now (some t) = now ≤ t + 30 * 86400000000

abbrev pub IsWatchable : ℕ → CandidateFacts → Type 0
IsWatchable now f =
    (f.is_private ≡ false)
    × ((f.archived ≡ false)
        × ((f.disabled ≡ false)
            × ((f.is_fork ≡ false)
                × ((f.is_template ≡ false)
                    × (PushedRecently now f.pushed_at
                        × ((1 ≤ f.active_workflows)
                            × ((30 ≤ f.completed_runs) × (1 ≤ f.code_triggered_runs))))))))

empty-append :
    (xs ys : List String)
    → (is_empty (xs ++ ys) ≡ true) ↔ ((is_empty xs ≡ true) × (is_empty ys ≡ true))
empty-append [] ys = (λ h. (refl, h), λ h. h.1)
empty-append (x ∷ xs) ys = ground arith

empty-reason_if : (b : Bool) (r : String) → (is_empty (reason_if b r) ≡ true) ↔ (b ≡ false)
empty-reason_if b r = ground arith

empty-push_reason :
    (now : ℕ) (t : Option ℕ) → (is_empty (push_reason now t) ≡ true) ↔ PushedRecently now t
empty-push_reason now none = ground arith
empty-push_reason now (some t) = ground arith

both : {A B C D : Type 0} → A ↔ C → B ↔ D → (A × B) ↔ (C × D)
both f g = (λ h. (f.0 h.0, g.0 h.1), λ h. (f.1 h.0, g.1 h.1))

and_then :
    {A B : Type 0} (xs ys : List String)
    → (is_empty xs ≡ true) ↔ A
    → (is_empty ys ≡ true) ↔ B
    → (is_empty (xs ++ ys) ≡ true) ↔ (A × B)
and_then xs ys f g =
    let e = empty-append xs ys in let k = both f g in (λ h. k.0 (e.0 h), λ h. e.1 (k.1 h))

at_least : (n m : ℕ) (r : String) → (is_empty (reason_if (ltb n m) r) ≡ true) ↔ (m ≤ n)
at_least n m r = ground arith

-- A repository is eligible exactly if it is public, not archived, disabled, a fork or a template,
-- was pushed to within thirty days, and has an active workflow, thirty completed runs and a run
-- that code triggered. Its stars are no part of it.
pub assess_iff :
    (now : ℕ) (f : CandidateFacts) → ((assess now f).eligible ≡ true) ↔ IsWatchable now f
unfolding assess reasons
assess_iff now f = and_then _ _ (empty-reason_if f.is_private _) (
    and_then _ _ (empty-reason_if f.archived _) (
      and_then _ _ (empty-reason_if f.disabled _) (
        and_then _ _ (empty-reason_if f.is_fork _) (
          and_then _ _ (empty-reason_if f.is_template _) (
            and_then _ _ (empty-push_reason now f.pushed_at) (
              and_then _ _ (at_least f.active_workflows 1 _) (
                and_then _ _ (at_least f.completed_runs 30 _)
                  (at_least f.code_triggered_runs 1 _))))))))
