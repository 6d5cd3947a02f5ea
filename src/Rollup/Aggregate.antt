-- ===== src/Rollup/Aggregate.antt =====
-- The aggregate of `rollup_repository`: one row to a key, all of them in the window.
use flakehound.Base.{
  ℕ, ◌≡◌, refl, ◌∙◌, Bool, true, false, ◌&&◌, Option, none, some, List, [], ◌∷◌, map, All, filter,
  keep_if, ◌==◌, ==_iff, leb,
}
use flakehound.Base.Groups.{
  distinct, groups, IsDistinct, distinct-IsDistinct, All-distinct, same_sym,
}
use flakehound.Facts.{Job}
use flakehound.Detection.{Settings}
use flakehound.Detection.Signals.{FlakeEvent}
use flakehound.Rollup.{
  Key, same_key, Stats, Durations, Dated, dated, dated_row, day_expression, key_of,
  implicated_job_ids, summarise, aggregate, in_window,
}
use flakehound.Rollup.Keys.{same_key_iff}
use flakehound.Rollup.Written.{AreDistinct}

dated-since :
    (repo_id since : ℕ) (jobs : List Job)
    → All (λ d. leb since d.day ≡ true) (dated repo_id since jobs)
unfolding dated
dated-since repo_id since [] = tt
dated-since repo_id since (j ∷ jobs) = row (day_expression j) (dated-since repo_id since jobs)
  where
    row :
        (o : Option ℕ)
        → All (λ d. leb since d.day ≡ true) (dated repo_id since jobs)
        → All (λ d. leb since d.day ≡ true) (dated_row repo_id since j o (dated repo_id since jobs))
    row none h = h
    row (some d) h = kept_row (j.repo_id == repo_id) (leb since d) refl
      where
        kept_row :
            (b c : Bool)
            → leb since d ≡ c
            → All
                (λ d. leb since d.day ≡ true)
                (keep_if (b && c) (record { day = d; job = j }) (dated repo_id since jobs))
        kept_row true true e = (e, h)
        kept_row true false e = h
        kept_row false c e = h

module _ {S : Type 0} (durations : Durations S) (s : Settings) where
  -- The aggregate has one row for a key, all of them in the window.
  pub aggregate-AreDistinct :
      (repo_id since : ℕ) (jobs : List Job) (events : List FlakeEvent)
      → AreDistinct (aggregate durations s repo_id since jobs events)
  unfolding aggregate groups summarise
  aggregate-AreDistinct repo_id since jobs events =
      apart (distinct same_key (map (key_of repo_id) rows)) (distinct-IsDistinct same_key _)
    where
      rows : List Dated
      rows = dated repo_id since jobs

      ids : List ℕ
      ids = implicated_job_ids repo_id events

      mk : Key → Stats S
      mk k = summarise durations s ids k (filter (λ a. same_key k (key_of repo_id a)) rows)

      apart :
          (ks : List Key)
          → IsDistinct same_key ks
          → AreDistinct (
              map
                (λ (g : Key × List Dated). summarise durations s ids g.0 g.1)
                (map (λ k. (k, filter (λ a. same_key k (key_of repo_id a)) rows)) ks))
      apart [] d = tt
      apart (k ∷ ks) d = (others ks d.0, apart ks d.1)
        where
          others :
              (js : List Key)
              → All (λ j. same_key k j ≡ false) js
              → All
                  (λ y. same_key y.key k ≡ false)
                  (map
                    (λ (g : Key × List Dated). summarise durations s ids g.0 g.1)
                    (map (λ i. (i, filter (λ a. same_key i (key_of repo_id a)) rows)) js))
          others [] h = tt
          others (j ∷ js) h = (same_sym same_key same_key_iff j k ∙ h.0, others js h.1)

  pub aggregate-in_window :
      (repo_id since : ℕ) (jobs : List Job) (events : List FlakeEvent)
      → All
          (λ x. in_window repo_id since x.key ≡ true)
          (aggregate durations s repo_id since jobs events)
  unfolding aggregate groups summarise key_of
  aggregate-in_window repo_id since jobs events =
      each (distinct same_key (map (key_of repo_id) rows)) (
        All-distinct same_key (λ k. in_window repo_id since k ≡ true) _
          (keys rows (dated-since repo_id since jobs)))
    where
      rows : List Dated
      rows = dated repo_id since jobs

      ids : List ℕ
      ids = implicated_job_ids repo_id events

      keys :
          (ds : List Dated)
          → All (λ d. leb since d.day ≡ true) ds
          → All (λ k. in_window repo_id since k ≡ true) (map (key_of repo_id) ds)
      keys [] h = tt
      keys (d ∷ ds) h = (rw ((==_iff repo_id repo_id).1 refl) h.0, keys ds h.1)

      each :
          (ks : List Key)
          → All (λ k. in_window repo_id since k ≡ true) ks
          → All
              (λ x. in_window repo_id since x.key ≡ true)
              (map
                (λ (g : Key × List Dated). summarise durations s ids g.0 g.1)
                (map (λ k. (k, filter (λ a. same_key k (key_of repo_id a)) rows)) ks))
      each [] h = tt
      each (k ∷ ks) h = (h.0, each ks h.1)
