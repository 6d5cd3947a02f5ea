-- ===== src/Detection/Eligible.antt =====
-- `opportunity_filter` of backend/app/detection.py, through SQL's NULLs, against the rules that
-- its comment lists.
use flakehound.Base.{
  ℕ, ◌≡◌, ◌≢◌, ◌↔◌, refl, sym, ap, ◌∙◌, String, Bool, true, false, ◌&&◌, inl, inr, Option, none,
  some, arith, same, eq_iff, is_some, Bool-cases, Option-cases, ◌==◌, if◌then◌else◌,
}
use flakehound.Base.Sql.{sql_and, sql_not, sql_test, is_true}
use flakehound.Facts.{Job}
use flakehound.Detection.{Settings, is_opportunity}

-- The rules, in words of the conclusion and the steps. An unknown count of planned steps is not
-- evidence of a dead runner; planned steps whose completed count is unknown are not counted.
abbrev pub SomeStepRan : Option ℕ → Option ℕ → Type 0
SomeStepRan none completed = Unit
SomeStepRan (some n) none = ⊥
SomeStepRan (some n) (some m) = m ≢ 0

pub data IsEligible (s : Settings) (conclusion : Option String) (steps completed : Option ℕ)
    : Type 0 where
  passed : conclusion ≡ some "success" → IsEligible s conclusion steps completed
  failed :
      conclusion ≡ some "failure"
      → (s.exclude_infra_failures ≡ true → SomeStepRan steps completed)
      → IsEligible s conclusion steps completed
  timed_out :
      conclusion ≡ some "timed_out"
      → s.timed_out_is_failure ≡ true
      → (s.exclude_infra_failures ≡ true → SomeStepRan steps completed)
      → IsEligible s conclusion steps completed

-- The second half of the filter, where the conclusion is no success.
abbrev spared : Bool → Option ℕ → Option ℕ → Bool
spared exclude steps completed = is_true (
    if exclude
    then sql_not (sql_and (some (is_some steps)) (sql_test (λ n. n == 0) completed))
    else some true)

spared→SomeStepRan :
    (exclude : Bool) (steps completed : Option ℕ)
    → spared exclude steps completed ≡ true
    → exclude ≡ true
    → SomeStepRan steps completed
spared→SomeStepRan exclude none completed h e = tt
spared→SomeStepRan exclude (some n) none h e = cc (rw e at h)
spared→SomeStepRan exclude (some n) (some m) h e = ground arith

SomeStepRan→spared :
    (exclude : Bool) (steps completed : Option ℕ)
    → (exclude ≡ true → SomeStepRan steps completed)
    → spared exclude steps completed ≡ true
SomeStepRan→spared false steps completed h = refl
SomeStepRan→spared true none none h = refl
SomeStepRan→spared true none (some m) h = refl
SomeStepRan→spared true (some n) none h = absurd (h refl)
SomeStepRan→spared true (some n) (some m) h = let k = h refl in ground arith

module _ (s : Settings) (j : Job) where
  of_null : j.conclusion ≡ none → is_opportunity s j ≡ false
  unfolding is_opportunity
  of_null e = rw (e, is_opportunity) (ground arith)

  of_success : j.conclusion ≡ some "success" → is_opportunity s j ≡ true
  unfolding is_opportunity
  of_success e = rw (e, is_opportunity) (ground arith)

  of_failure :
      j.conclusion ≡ some "failure"
      → is_opportunity s j ≡ spared s.exclude_infra_failures j.step_count j.completed_step_count
  unfolding is_opportunity
  of_failure e = rw (e, is_opportunity) refl

  of_timed_out :
      j.conclusion ≡ some "timed_out"
      → is_opportunity s j ≡ (
          s.timed_out_is_failure
          && spared s.exclude_infra_failures j.step_count j.completed_step_count)
  unfolding is_opportunity
  of_timed_out e = rw (e, is_opportunity) (ground arith)

  of_other :
      (c : String)
      → j.conclusion ≡ some c
      → same c "success" ≡ false
      → same c "failure" ≡ false
      → same c "timed_out" ≡ false
      → is_opportunity s j ≡ false
  unfolding is_opportunity
  of_other c e p f t = rw (e, is_opportunity) (ground arith)

  eligible_of :
      is_opportunity s j ≡ true → IsEligible s j.conclusion j.step_count j.completed_step_count
  eligible_of h = elim (Option-cases j.conclusion) [
    | inl e ↦ absurd (cc (h, of_null e))
    | inr (c, e) ↦ by_text c e
  ]
    where
      ran :
          spared s.exclude_infra_failures j.step_count j.completed_step_count ≡ true
          → s.exclude_infra_failures ≡ true
          → SomeStepRan j.step_count j.completed_step_count
      ran = spared→SomeStepRan s.exclude_infra_failures j.step_count j.completed_step_count

      is_text : (c d : String) → j.conclusion ≡ some c → same c d ≡ true → j.conclusion ≡ some d
      is_text c d e k = e ∙ ap some ((eq_iff c d).0 k)

      timed :
          j.conclusion ≡ some "timed_out"
          → IsEligible s j.conclusion j.step_count j.completed_step_count
      timed e =
          let k = sym (of_timed_out e) ∙ h in
          IsEligible.timed_out e (ground arith) (ran (ground arith))

      by_text :
          (c : String)
          → j.conclusion ≡ some c
          → IsEligible s j.conclusion j.step_count j.completed_step_count
      by_text c e = elim (Bool-cases (same c "success")) [
        | inl k ↦ IsEligible.passed (is_text c "success" e k)
        | inr p ↦ elim (Bool-cases (same c "failure")) [
          | inl k ↦
              let f = is_text c "failure" e k in IsEligible.failed f (ran (sym (of_failure f) ∙ h))
          | inr f ↦ elim (Bool-cases (same c "timed_out")) [
            | inl k ↦ timed (is_text c "timed_out" e k)
            | inr t ↦ absurd (cc (h, of_other c e p f t))
          ]
        ]
      ]

  opportunity_of :
      IsEligible s j.conclusion j.step_count j.completed_step_count → is_opportunity s j ≡ true
  opportunity_of (IsEligible.passed e) = of_success e
  opportunity_of (IsEligible.failed e r) =
      of_failure e
      ∙ SomeStepRan→spared s.exclude_infra_failures j.step_count j.completed_step_count r
  opportunity_of (IsEligible.timed_out e t r) =
      of_timed_out e
      ∙ rw (t, SomeStepRan→spared s.exclude_infra_failures j.step_count j.completed_step_count r)
          refl

  -- The filter's SQL takes exactly the rows that the rules make eligible, whatever is NULL.
  pub is_opportunity_iff :
      (is_opportunity s j ≡ true) ↔ IsEligible s j.conclusion j.step_count j.completed_step_count
  is_opportunity_iff = (eligible_of, opportunity_of)
