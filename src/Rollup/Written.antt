-- ===== src/Rollup/Written.antt =====
-- The INSERT … ON CONFLICT of `rollup_repository`: the rows whose ids it returns are the aggregate.
use mathlib.Core.List.{Perm, perm_middle}
use mathlib.Core.List.Perm
use flakehound.Base.{
  ℕ, suc, ◌<◌, ◌≡◌, ◌≢◌, refl, ap, inl, inr, Bool, true, false, ◌||◌, List, [], ◌∷◌, ◌++◌, All,
  All-map, any, arith, Bool-cases, ◌==◌,
}
use flakehound.Rollup.{same_key, Stats, JobStatsDaily, Table, refreshed, write, write_all}
use flakehound.Rollup.Apart.{
  IsTable, kept, IsUnwritten, plus, kept-upsert, All-upsert, upsert-Apart, upsert-IsUnwritten,
}

-- The ids returned, after those before.
abbrev pub returned : List ℕ → (ℕ → Bool) → ℕ → Bool
returned ids w i = any (λ j. j == i) ids || w i

or_shift : (a b c : Bool) → ((a || b) || c) ≡ (b || (a || c))
or_shift true true c = refl
or_shift true false c = refl
or_shift false true c = refl
or_shift false false c = refl

module _ {S : Type 0} where
  -- Every statistic of a list, whose keys are distinct, is written once.
  abbrev pub AreDistinct : List (Stats S) → Type 0
  AreDistinct [] = Unit
  AreDistinct (x ∷ xs) = All (λ y. same_key y.key x.key ≡ false) xs × AreDistinct xs

  write-IsTable : (now : ℕ) (new : Stats S) (t : Table S) → IsTable t → IsTable (write now new t).0
  unfolding write refreshed
  write-IsTable now new t (below, apart) = (
    All-upsert now t.next_id new (λ i. false) (λ r. r.id < suc t.next_id) (λ r e h. h) t.rows
        (omega arith) (All-map (λ r h. omega (arith, h)) t.rows below),
    upsert-Apart now t.next_id new (λ i. false) t.rows apart
        (All-map (λ r h. omega (arith, h)) t.rows below),
  )

  pub write_all-IsTable :
      (now : ℕ) (stats : List (Stats S)) (t : Table S)
      → IsTable t
      → IsTable (write_all now stats t).0
  unfolding write_all
  write_all-IsTable now [] t h = h
  write_all-IsTable now (new ∷ stats) t h =
      write_all-IsTable now stats (write now new t).0 (write-IsTable now new t h)

  kept_ext :
      (v w : ℕ → Bool) (rows : List (JobStatsDaily S))
      → ((i : ℕ) → v i ≡ w i)
      → kept v rows ≡ kept w rows
  kept_ext v w [] e = refl
  kept_ext v w (r ∷ rows) e = rw (e r.id) (elim (Bool-cases (w r.id)) [
    | inl q ↦ rw q (ap (λ t. r.stats ∷ t) (kept_ext v w rows e))
    | inr q ↦ rw q (kept_ext v w rows e)
  ])

  pub write_all-kept :
      (now : ℕ) (stats : List (Stats S)) (w : ℕ → Bool) (t : Table S)
      → IsTable t
      → AreDistinct stats
      → All (λ x. IsUnwritten w t.rows x.key) stats
      → Perm
          (kept (returned (write_all now stats t).1 w) (write_all now stats t).0.rows)
          (stats ++ kept w t.rows)
  unfolding write_all write
  write_all-kept now [] w t h d u = Perm.refl _
  write_all-kept now (new ∷ stats) w t h d u =
      rw
        (kept_ext (returned (id ∷ ids) w) (returned ids (plus w id)) t''.rows
          (λ i. or_shift (id == i) (any (λ j. j == i) ids) (w i)))
        (Perm.trans
          (write_all-kept now stats (plus w id) t' (write-IsTable now new t h) d.1
            (still stats d.0 u.1))
          (Perm.trans (Perm.append_left stats step) (perm_middle stats (kept w t.rows))))
    where
      t' : Table S
      t' = (write now new t).0

      id : ℕ
      id = (write now new t).1

      t'' : Table S
      t'' = (write_all now stats t').0

      ids : List ℕ
      ids = (write_all now stats t').1

      fresh : All (λ r. r.id ≢ t.next_id) t.rows
      fresh = All-map (λ r h. omega (arith, h)) t.rows h.0

      step : Perm (kept (plus w id) t'.rows) (new ∷ kept w t.rows)
      step = kept-upsert now t.next_id new w t.rows h.1 fresh u.0

      still :
          (xs : List (Stats S))
          → All (λ y. same_key y.key new.key ≡ false) xs
          → All (λ x. IsUnwritten w t.rows x.key) xs
          → All (λ x. IsUnwritten (plus w id) t'.rows x.key) xs
      still [] p q = tt
      still (x ∷ xs) p q =
          (upsert-IsUnwritten now t.next_id new w x.key t.rows p.0 h.1 fresh q.0, still xs p.1 q.1)
