-- ===== src/Rollup/Apart.antt =====
-- One write of `rollup_repository` to `job_stats_daily`: the unique id and the unique key of a row.
use mathlib.Core.List.{Perm}
use mathlib.Core.List.Perm
use flakehound.Base.{
  ℕ, ◌<◌, ◌≡◌, ◌≢◌, refl, subst, sym, ap, ◌∙◌, inl, inr, Bool, true, false, ◌||◌, List, [], ◌∷◌,
  map, All, All-map, filter, Bool-cases, ◌==◌, ==_iff,
}
use flakehound.Base.Upsert.{upsert, find}
use flakehound.Rollup.{Key, same_key, Stats, JobStatsDaily, Table, has_key, refreshed, id_or}
use flakehound.Rollup.Keys.{same_key_iff}

abbrev pub plus : (ℕ → Bool) → ℕ → ℕ → Bool
plus w n i = n == i || w i

plus_self : (w : ℕ → Bool) (n : ℕ) → plus w n n ≡ true
plus_self w n = rw ((==_iff n n).1 refl) refl

plus_other : (w : ℕ → Bool) (n i : ℕ) → n ≢ i → plus w n i ≡ w i
plus_other w n i h = elim (Bool-cases (n == i)) [
  | inl e ↦ absurd (h ((==_iff n i).0 e))
  | inr e ↦ rw e refl
]

module _ {S : Type 0} where
  abbrev pub AreApart : JobStatsDaily S → JobStatsDaily S → Type 0
  AreApart r q = (q.id ≢ r.id) × (same_key q.stats.key r.stats.key ≡ false)

  -- One row to an id and one to a key.
  abbrev pub Apart : List (JobStatsDaily S) → Type 0
  Apart [] = Unit
  Apart (r ∷ rows) = All (AreApart r) rows × Apart rows

  abbrev pub IsTable : Table S → Type 0
  IsTable t = All (λ r. r.id < t.next_id) t.rows × Apart t.rows

  -- The stats of the rows whose ids have been returned.
  abbrev pub kept : (ℕ → Bool) → List (JobStatsDaily S) → List (Stats S)
  kept w rows = map (λ r. r.stats) (filter (λ r. w r.id) rows)

  -- No row that has been returned has the key.
  abbrev pub IsUnwritten : (ℕ → Bool) → List (JobStatsDaily S) → Key → Type 0
  IsUnwritten w rows k = All (λ r. w r.id ≡ true → same_key k r.stats.key ≡ false) rows

  kept-plus :
      (w : ℕ → Bool) (n : ℕ) (rows : List (JobStatsDaily S))
      → All (λ r. r.id ≢ n) rows
      → kept (plus w n) rows ≡ kept w rows
  kept-plus w n [] h = refl
  kept-plus w n (r ∷ rows) h =
      rw (plus_other w n r.id (λ e. h.0 (sym e))) (elim (Bool-cases (w r.id)) [
        | inl e ↦ rw e (ap (λ t. r.stats ∷ t) (kept-plus w n rows h.1))
        | inr e ↦ rw e (kept-plus w n rows h.1)
      ])

  id_or-apart :
      (k : Key) (n i : ℕ) (rows : List (JobStatsDaily S))
      → i ≢ n
      → All (λ q. q.id ≢ i) rows
      → id_or n (find (has_key k) rows) ≢ i
  unfolding find
  id_or-apart k n i [] h a = λ e. h (sym e)
  id_or-apart k n i (r ∷ rows) h a = elim (Bool-cases (has_key k r)) [
    | inl e ↦ rw e a.0
    | inr e ↦ rw e (id_or-apart k n i rows h a.1)
  ]

  refreshed-stats :
      (now : ℕ) (new : Stats S) (r : JobStatsDaily S)
      → has_key new.key r ≡ true
      → (refreshed now new r).stats ≡ new
  unfolding refreshed
  refreshed-stats now new r e = ap (λ k. record new { key = k }) (sym ((same_key_iff _ _).0 e))

  module _ (now n : ℕ) (new : Stats S) (w : ℕ → Bool) where
    abbrev row : JobStatsDaily S
    row = record { id = n; stats = new; created_at = now; updated_at = now }

    pub kept-upsert :
        (rows : List (JobStatsDaily S))
        → Apart rows
        → All (λ r. r.id ≢ n) rows
        → IsUnwritten w rows new.key
        → Perm
            (kept
              (plus w (id_or n (find (has_key new.key) rows)))
              (upsert (has_key new.key) (refreshed now new) row rows))
            (new ∷ kept w rows)
    unfolding upsert find refreshed
    kept-upsert [] a f u = rw (plus_self w n) (Perm.refl _)
    kept-upsert (r ∷ rows) a f u = elim (Bool-cases (has_key new.key r)) [
      | inl e ↦ rw e (replaced e)
      | inr e ↦ rw e (passed (kept-upsert rows a.1 f.1 u.1))
    ]
      where
        target : ℕ
        target = id_or n (find (has_key new.key) rows)

        rest : List (JobStatsDaily S)
        rest = upsert (has_key new.key) (refreshed now new) row rows

        not_written : has_key new.key r ≡ true → w r.id ≡ false
        not_written e = elim (Bool-cases (w r.id)) [ inl q ↦ absurd (cc (u.0 q, e)) | inr q ↦ q ]

        replaced :
            has_key new.key r ≡ true
            → Perm (kept (plus w r.id) (refreshed now new r ∷ rows)) (new ∷ kept w (r ∷ rows))
        replaced e =
            rw
              (
                plus_self w r.id,
                refreshed-stats now new r e,
                kept-plus w r.id rows (All-map (λ q h. h.0) rows a.0),
                not_written e,
              )
              (Perm.refl _)

        passed :
            Perm (kept (plus w target) rest) (new ∷ kept w rows)
            → Perm (kept (plus w target) (r ∷ rest)) (new ∷ kept w (r ∷ rows))
        passed ih =
            rw
              (plus_other w target r.id
                (id_or-apart new.key n r.id rows f.0 (All-map (λ q h. h.0) rows a.0)))
              (elim (Bool-cases (w r.id)) [
                | inl q ↦ rw q (Perm.trans (Perm.cons r.stats ih) (Perm.swap new r.stats _))
                | inr q ↦ rw q ih
              ])

    module _ (P : JobStatsDaily S → Type 0)
        (keeps : (r : JobStatsDaily S)
          → has_key new.key r ≡ true
          → P r
          → P (refreshed now new r)) where
      pub All-upsert :
          (rows : List (JobStatsDaily S))
          → P row
          → All P rows
          → All P (upsert (has_key new.key) (refreshed now new) row rows)
      unfolding upsert
      All-upsert [] p h = (p, tt)
      All-upsert (r ∷ rows) p h = elim (Bool-cases (has_key new.key r)) [
        | inl e ↦ rw e (keeps r e h.0, h.1)
        | inr e ↦ rw e (h.0, All-upsert rows p h.1)
      ]

    pub upsert-Apart :
        (rows : List (JobStatsDaily S))
        → Apart rows
        → All (λ r. r.id ≢ n) rows
        → Apart (upsert (has_key new.key) (refreshed now new) row rows)
    unfolding upsert refreshed
    upsert-Apart [] a f = (tt, tt)
    upsert-Apart (r ∷ rows) a f = elim (Bool-cases (has_key new.key r)) [
      | inl e ↦ rw e (a.0, a.1)
      | inr e ↦ rw e (
        All-upsert (AreApart r) (λ q k h. h) rows ((λ x. f.0 (sym x)), e) a.0,
        upsert-Apart rows a.1 f.1,
      )
    ]

    IsUnwritten-plus :
        (k : Key) (i : ℕ) (rows : List (JobStatsDaily S))
        → All (λ r. r.id ≢ i) rows
        → IsUnwritten w rows k
        → IsUnwritten (plus w i) rows k
    IsUnwritten-plus k i [] h u = tt
    IsUnwritten-plus k i (r ∷ rows) h u = (
      (λ x. u.0 (sym (plus_other w i r.id (λ e. h.0 (sym e))) ∙ x)),
      IsUnwritten-plus k i rows h.1 u.1,
    )

    -- Another key that has not been written is still not.
    pub upsert-IsUnwritten :
        (k : Key) (rows : List (JobStatsDaily S))
        → same_key k new.key ≡ false
        → Apart rows
        → All (λ r. r.id ≢ n) rows
        → IsUnwritten w rows k
        → IsUnwritten
            (plus w (id_or n (find (has_key new.key) rows)))
            (upsert (has_key new.key) (refreshed now new) row rows)
            k
    unfolding upsert find refreshed
    upsert-IsUnwritten k [] d a f u = ((λ e. d), tt)
    upsert-IsUnwritten k (r ∷ rows) d a f u = elim (Bool-cases (has_key new.key r)) [
      | inl e ↦ rw e (
        (λ x. subst (λ j. same_key k j ≡ false) ((same_key_iff new.key r.stats.key).0 e) d),
        IsUnwritten-plus k r.id rows (All-map (λ q h. h.0) rows a.0) u.1,
      )
      | inr e ↦ rw e (
        (λ x. u.0 (
            sym (
              plus_other w _ r.id
                (id_or-apart new.key n r.id rows f.0 (All-map (λ q h. h.0) rows a.0)))
            ∙ x)),
        upsert-IsUnwritten k rows d a.1 f.1 u.1,
      )
    ]
