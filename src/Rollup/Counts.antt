-- ===== src/Rollup/Counts.antt =====
-- The counts of a daily row: what the flake rate's interval needs of them.
use flakehound.Base.{
  ℕ, ◌≤◌, ◌≡◌, inl, inr, Bool, true, none, List, [], ◌∷◌, map, All, All-filter, length, arith,
  Bool-cases,
}
use flakehound.Base.Groups.{count, groups}
use flakehound.Base.Upsert.{upsert}
use flakehound.Facts.{Job}
use flakehound.Detection.{Settings}
use flakehound.Detection.Signals.{FlakeEvent}
use flakehound.Rollup.{
  Key, Stats, JobStatsDaily, Table, Durations, Dated, flake_filter, implicated_job_ids, dated,
  key_of, same_key, summarise, aggregate, has_key, refreshed, write, write_all, rollup_since,
  since_of, rollup_repository, rollup_repos,
}

pub count-le :
    {A : Type 0} (p q : A → Bool) (xs : List A)
    → ((a : A) → p a ≡ true → q a ≡ true)
    → count p xs ≤ count q xs
count-le p q [] h = omega arith
count-le p q (x ∷ xs) h = elim (Bool-cases (p x)) [
  | inl e ↦ rw (e, h x e) (ground (arith, count-le p q xs h))
  | inr e ↦ rw e (ground (arith, count-le p q xs h))
]

count-length : {A : Type 0} (p : A → Bool) (xs : List A) → count p xs ≤ length xs
count-length p [] = omega arith
count-length p (x ∷ xs) = ground (arith, count-length p xs)

module _ {S : Type 0} where
  abbrev pub IsRate : Stats S → Type 0
  IsRate s =
      (s.flakes ≤ s.opportunities) × ((s.failures ≤ s.opportunities) × (s.opportunities ≤ s.runs))

  abbrev pub AllRates : List (JobStatsDaily S) → Type 0
  AllRates rows = All (λ r. IsRate r.stats) rows

  upsert-AllRates :
      (now : ℕ) (new : Stats S) (row : JobStatsDaily S) (rows : List (JobStatsDaily S))
      → IsRate new
      → IsRate row.stats
      → AllRates rows
      → AllRates (upsert (has_key new.key) (refreshed now new) row rows)
  unfolding upsert refreshed
  upsert-AllRates now new row [] h k all = (k, tt)
  upsert-AllRates now new row (r ∷ rows) h k all = elim (Bool-cases (has_key new.key r)) [
    | inl e ↦ rw e (h, all.1)
    | inr e ↦ rw e (all.0, upsert-AllRates now new row rows h k all.1)
  ]

  write_all-AllRates :
      (now : ℕ) (stats : List (Stats S)) (t : Table S)
      → All IsRate stats
      → AllRates t.rows
      → AllRates (write_all now stats t).0.rows
  unfolding write_all write
  write_all-AllRates now [] t h all = all
  write_all-AllRates now (new ∷ stats) t h all =
      write_all-AllRates now stats (write now new t).0 h.1
        (upsert-AllRates now new _ t.rows h.0 h.0 all)

  module _ (durations : Durations S) (s : Settings) where
    summarise-IsRate :
        (implicated : List ℕ) (k : Key) (rows : List Dated)
        → IsRate (summarise durations s implicated k rows)
    unfolding summarise flake_filter
    summarise-IsRate implicated k rows = (
      count-le _ _ rows (λ d e. ground (arith, e)),
      (count-le _ _ rows (λ d e. ground (arith, e)), count-length _ rows),
    )

    aggregate-AllRates :
        (repo_id since : ℕ) (jobs : List Job) (events : List FlakeEvent)
        → All IsRate (aggregate durations s repo_id since jobs events)
    unfolding aggregate
    aggregate-AllRates repo_id since jobs events =
        each (groups same_key (key_of repo_id) (dated repo_id since jobs))
      where
        ids : List ℕ
        ids = implicated_job_ids repo_id events

        each :
            (gs : List (Key × List Dated))
            → All IsRate (map (λ g. summarise durations s ids g.0 g.1) gs)
        each [] = tt
        each (g ∷ gs) = (summarise-IsRate ids g.0 g.1, each gs)

    -- In every row that a pass over repositories leaves, the flakes and the failures are at most the
    -- opportunities and the opportunities at most the runs, if this held of the rows before.
    pub rollup_repos-AllRates :
        (clock : ℕ → ℕ) (rollup_days : ℕ) (repo_ids : List ℕ) (jobs : List Job)
        (events : List FlakeEvent) (t : Table S)
        → AllRates t.rows
        → AllRates (rollup_repos durations s clock rollup_days repo_ids jobs events t).0.rows
    unfolding rollup_repos rollup_repository rollup_since
    rollup_repos-AllRates clock rollup_days [] jobs events t h = h
    rollup_repos-AllRates clock rollup_days (i ∷ repo_ids) jobs events t h =
        rollup_repos-AllRates clock rollup_days repo_ids jobs events _ (
          All-filter _ _ _ (
            write_all-AllRates (clock i) _ t
              (aggregate-AllRates i (since_of (clock i) rollup_days none) jobs events) h))
