-- ===== src/Rollup/Window.antt =====
-- `rollup_repository` of backend/app/rollup.py: the window of the table is the aggregate of the facts.
use mathlib.Core.List.{Perm}
use flakehound.Base.{
  ℕ, ◌≡◌, refl, sym, ap, subst, ◌∙◌, inl, inr, Bool, true, false, not, ◌&&◌, List, [], ◌∷◌, ◌++◌,
  map, All, All-filter, any, filter, keep_if, Bool-cases, ◌==◌,
}
use flakehound.Base.Sums.{All-perm}
use flakehound.Base.Upsert.{upsert}
use flakehound.Facts.{Job}
use flakehound.Detection.{Settings}
use flakehound.Detection.Signals.{FlakeEvent}
use flakehound.Rollup.{
  Key, Stats, JobStatsDaily, Table, Durations, aggregate, has_key, refreshed, write, write_all,
  in_window, is_stale, rollup_since,
}
use flakehound.Rollup.Keys.{same_key_iff}
use flakehound.Rollup.Apart.{IsTable, Apart, IsUnwritten, kept}
use flakehound.Rollup.Aggregate.{aggregate-AreDistinct, aggregate-in_window}
use flakehound.Rollup.Written.{returned, write_all-IsTable, write_all-kept}

module _ {S : Type 0} (repo_id since : ℕ) where
  abbrev pub is_in : JobStatsDaily S → Bool
  is_in r = in_window repo_id since r.stats.key

  -- A row outside the window is not touched.
  upsert-outside :
      (now : ℕ) (new : Stats S) (row : JobStatsDaily S) (rows : List (JobStatsDaily S))
      → is_in row ≡ true
      → in_window repo_id since new.key ≡ true
      → filter (λ r. not (is_in r)) (upsert (has_key new.key) (refreshed now new) row rows)
        ≡ filter (λ r. not (is_in r)) rows
  unfolding upsert refreshed
  upsert-outside now new row [] h k = rw h refl
  upsert-outside now new row (r ∷ rows) h k = elim (Bool-cases (has_key new.key r)) [
    | inl e ↦ rw e (rw (the_same e) refl)
    | inr e ↦ rw e (elim (Bool-cases (is_in r)) [
      | inl q ↦ rw q (upsert-outside now new row rows h k)
      | inr q ↦ rw q (ap (λ t. r ∷ t) (upsert-outside now new row rows h k))
    ])
  ]
    where
      the_same : has_key new.key r ≡ true → is_in r ≡ true
      the_same e =
          subst (λ x. in_window repo_id since x ≡ true) ((same_key_iff new.key r.stats.key).0 e) k

  write_all-outside :
      (now : ℕ) (stats : List (Stats S)) (t : Table S)
      → All (λ x. in_window repo_id since x.key ≡ true) stats
      → filter (λ r. not (is_in r)) (write_all now stats t).0.rows
        ≡ filter (λ r. not (is_in r)) t.rows
  unfolding write_all write
  write_all-outside now [] t h = refl
  write_all-outside now (new ∷ stats) t h =
      write_all-outside now stats (write now new t).0 h.1 ∙ upsert-outside now new _ t.rows h.0 h.0

  -- The DELETE leaves the rows outside the window and, inside it, those that were returned.
  delete-outside :
      (written : List ℕ) (rows : List (JobStatsDaily S))
      → filter (λ r. not (is_in r)) (filter (λ r. not (is_stale repo_id since written r)) rows)
        ≡ filter (λ r. not (is_in r)) rows
  unfolding is_stale
  delete-outside written [] = refl
  delete-outside written (r ∷ rows) = elim (Bool-cases (is_in r)) [
    | inl e ↦ rw e (elim (Bool-cases (any (λ i. i == r.id) written)) [
      | inl f ↦ rw f (rw e (delete-outside written rows))
      | inr f ↦ rw f (delete-outside written rows)
    ])
    | inr e ↦ rw e (rw e (ap (λ t. r ∷ t) (delete-outside written rows)))
  ]

  delete-inside :
      (written : List ℕ) (rows : List (JobStatsDaily S))
      → All (λ x. in_window repo_id since x.key ≡ true) (kept (returned written (λ i. false)) rows)
      → map
          (λ r. r.stats)
          (filter is_in (filter (λ r. not (is_stale repo_id since written r)) rows))
        ≡ kept (returned written (λ i. false)) rows
  unfolding is_stale
  delete-inside written [] h = refl
  delete-inside written (r ∷ rows) h = elim (Bool-cases (any (λ i. i == r.id) written)) [
    | inl e ↦ let k = rw e at h in rw e (named k.0 (delete-inside written rows k.1))
    | inr e ↦ rw e (elim (Bool-cases (is_in r)) [
      | inl q ↦ rw q (delete-inside written rows (rw e at h))
      | inr q ↦ rw q (rw q (delete-inside written rows (rw e at h)))
    ])
  ]
    where
      named :
          is_in r ≡ true
          → map
              (λ r. r.stats)
              (filter is_in (filter (λ r. not (is_stale repo_id since written r)) rows))
            ≡ kept (returned written (λ i. false)) rows
          → map
              (λ r. r.stats)
              (filter is_in (
                keep_if
                  (not (is_in r && false))
                  r
                  (filter (λ r. not (is_stale repo_id since written r)) rows)))
            ≡ r.stats ∷ kept (returned written (λ i. false)) rows
      named k ih = rw k (rw k (ap (λ t. r.stats ∷ t) ih))

kept_none : {S : Type 0} (rows : List (JobStatsDaily S)) → kept (λ i. false) rows ≡ []
kept_none [] = refl
kept_none (r ∷ rows) = kept_none rows

append_none : {A : Type 0} (xs : List A) → xs ++ [] ≡ xs
append_none [] = refl
append_none (x ∷ xs) = ap (λ t. x ∷ t) (append_none xs)

Apart-filter :
    {S : Type 0} (p : JobStatsDaily S → Bool) (rows : List (JobStatsDaily S))
    → Apart rows
    → Apart (filter p rows)
Apart-filter p [] h = tt
Apart-filter p (r ∷ rows) h = elim (Bool-cases (p r)) [
  | inl e ↦ rw e (All-filter _ p rows h.0, Apart-filter p rows h.1)
  | inr e ↦ rw e (Apart-filter p rows h.1)
]

-- After the rollup of a repository, the rows of its window hold, in some order, the aggregate of the
-- facts, with no row left from before; every row outside the window is as it was; and the table still
-- has one row to an id and one to a key. This is if the table had, with ids below the next one.
pub rollup_since-window :
    {S : Type 0} (durations : Durations S) (s : Settings) (now repo_id since : ℕ) (jobs : List Job)
    (events : List FlakeEvent) (t : Table S)
    → IsTable t
    → Perm
        (map
          (λ r. r.stats)
          (filter
            (is_in repo_id since)
            (rollup_since durations s now repo_id since jobs events t).0.rows))
        (aggregate durations s repo_id since jobs events)
      × ((filter
              (λ r. not (is_in repo_id since r))
              (rollup_since durations s now repo_id since jobs events t).0.rows
            ≡ filter (λ r. not (is_in repo_id since r)) t.rows)
          × IsTable (rollup_since durations s now repo_id since jobs events t).0)
unfolding rollup_since
rollup_since-window {S} durations s now repo_id since jobs events t h = (
  subst (λ x. Perm x stats) (sym (delete-inside repo_id since written t'.rows inside)) whole,
  (
    delete-outside repo_id since written t'.rows ∙ write_all-outside repo_id since now stats t ins,
    (All-filter _ _ t'.rows k.0, Apart-filter _ t'.rows k.1),
  ),
)
  where
    stats : List (Stats S)
    stats = aggregate durations s repo_id since jobs events

    t' : Table S
    t' = (write_all now stats t).0

    written : List ℕ
    written = (write_all now stats t).1

    k : IsTable t'
    k = write_all-IsTable now stats t h

    ins : All (λ x. in_window repo_id since x.key ≡ true) stats
    ins = aggregate-in_window durations s repo_id since jobs events

    none_yet : (k : Key) (rows : List (JobStatsDaily S)) → IsUnwritten (λ i. false) rows k
    none_yet k [] = tt
    none_yet k (r ∷ rows) = ((λ e. absurd (cc e)), none_yet k rows)

    unwritten : (xs : List (Stats S)) → All (λ x. IsUnwritten (λ i. false) t.rows x.key) xs
    unwritten [] = tt
    unwritten (x ∷ xs) = (none_yet x.key t.rows, unwritten xs)

    whole : Perm (kept (returned written (λ i. false)) t'.rows) stats
    whole =
        subst (λ x. Perm (kept (returned written (λ i. false)) t'.rows) x)
          (ap (λ x. stats ++ x) (kept_none t.rows) ∙ append_none stats)
          (write_all-kept now stats (λ i. false) t h
            (aggregate-AreDistinct durations s repo_id since jobs events) (unwritten stats))

    inside :
        All
          (λ x. in_window repo_id since x.key ≡ true)
          (kept (returned written (λ i. false)) t'.rows)
    inside = All-perm (λ x. in_window repo_id since x.key) _ stats whole ins
