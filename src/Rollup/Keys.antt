-- ===== src/Rollup/Keys.antt =====
-- The key of `job_stats_daily`: the Boolean test of the unique constraint is equality.
use mathlib.Core.Option.{some-injective}
use flakehound.Base.{
  ℕ, ◌≡◌, refl, ap, ◌↔◌, ==_iff, Bool, true, false, ◌&&◌, Option, none, some, eq_iff,
}
use flakehound.Detection.Signals.{same_num?}
use flakehound.Rollup.{Key, same_key}

pub and_iff : (a b : Bool) → ((a && b) ≡ true) ↔ ((a ≡ true) × (b ≡ true))
and_iff true b = (λ e. (refl, e), λ e. e.1)
and_iff false b = (λ e. absurd (cc e), λ e. e.0)

pub same_num?_iff : (a b : Option ℕ) → (same_num? a b ≡ true) ↔ (a ≡ b)
same_num?_iff none none = (λ e. refl, λ e. refl)
same_num?_iff none (some b) = (λ e. absurd (cc e), λ e. absurd (cc e))
same_num?_iff (some a) none = (λ e. absurd (cc e), λ e. absurd (cc e))
same_num?_iff (some a) (some b) =
    (λ e. ap some ((==_iff a b).0 e), λ e. (==_iff a b).1 (some-injective a b e))

pub same_key_iff : (j k : Key) → (same_key j k ≡ true) ↔ (j ≡ k)
same_key_iff j k = (equal, λ e. rw (← e) reflexive)
  where
    equal : same_key j k ≡ true → j ≡ k
    equal h =
        let (h1, t) = (and_iff _ _).0 h in
        let (h2, r) = (and_iff _ _).0 h1 in
        let (p, q) = (and_iff _ _).0 h2 in
        let p' = (==_iff j.repo_id k.repo_id).0 p in
        let q' = (same_num?_iff j.workflow_id k.workflow_id).0 q in
        let r' = (eq_iff j.job_name k.job_name).0 r in
        let t' = (==_iff j.day k.day).0 t in
        (λ i. record { repo_id = p' i; workflow_id = q' i; job_name = r' i; day = t' i })

    reflexive : same_key j j ≡ true
    reflexive =
        rw
          (
            (==_iff j.repo_id j.repo_id).1 refl,
            (same_num?_iff j.workflow_id j.workflow_id).1 refl,
            (eq_iff j.job_name j.job_name).1 refl,
            (==_iff j.day j.day).1 refl,
          )
          refl
