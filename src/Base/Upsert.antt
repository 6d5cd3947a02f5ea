-- ===== src/Base/Upsert.antt =====
-- INSERT … ON CONFLICT (key) DO UPDATE over a table held as a list: `same` tells the row that has
-- the new row's key, and `merge` is the UPDATE's assignment to it.
use mathlib.Core.Path.{◌≡◌, refl, ap}
use mathlib.Core.Logic.{◌⊎◌, inl, inr}
use mathlib.Core.Bool.{Bool, true, false}
use mathlib.Core.Option.{Option, none, some}
use mathlib.Core.List.{List, [], ◌∷◌}
use flakehound.Base.Tests.{Bool-cases, if◌then◌else◌}

module _ {A : Type 0} where
  unfoldable pub upsert : (A → Bool) → (A → A) → A → List A → List A
  upsert same merge new [] = new ∷ []
  upsert same merge new (r ∷ rs) = if same r then merge r ∷ rs else r ∷ upsert same merge new rs

  -- SELECT … WHERE key LIMIT 1
  unfoldable pub find : (A → Bool) → List A → Option A
  find same [] = none
  find same (r ∷ rs) = if same r then some r else find same rs

  abbrev pub merged : (A → A) → A → Option A → A
  merged merge new none = new
  merged merge new (some r) = merge r

  -- The row under the key is the old row merged, or the new row.
  pub find-upsert :
      (same : A → Bool) (merge : A → A) (new : A) (rows : List A)
      → same new ≡ true
      → ((r : A) → same r ≡ true → same (merge r) ≡ true)
      → find same (upsert same merge new rows) ≡ some (merged merge new (find same rows))
  unfolding find upsert
  find-upsert same merge new [] h k = rw h refl
  find-upsert same merge new (r ∷ rs) h k = elim (Bool-cases (same r)) [
    | inl e ↦ rw e (rw (k r e) refl)
    | inr e ↦ rw e (rw e (find-upsert same merge new rs h k))
  ]

  -- A row under another key is as it was.
  pub find-upsert_other :
      (same other : A → Bool) (merge : A → A) (new : A) (rows : List A)
      → other new ≡ false
      → ((r : A) → same r ≡ true → (other r ≡ false) × (other (merge r) ≡ false))
      → find other (upsert same merge new rows) ≡ find other rows
  unfolding find upsert
  find-upsert_other same other merge new [] h k = rw h refl
  find-upsert_other same other merge new (r ∷ rs) h k = elim (Bool-cases (same r)) [
    | inl e ↦ rw e (rw ((k r e).0, (k r e).1) refl)
    | inr e ↦
        rw e
          (ap (λ t. if other r then some r else t) (find-upsert_other same other merge new rs h k))
  ]

  -- The row under the key is one that the update leaves as it is.
  abbrev pub IsSettled : (A → Bool) → (A → A) → List A → Type 0
  IsSettled same merge [] = ⊥
  IsSettled same merge (r ∷ rs) =
      ((same r ≡ true) × (merge r ≡ r)) ⊎ ((same r ≡ false) × IsSettled same merge rs)

  pub IsSettled-upsert :
      (same : A → Bool) (merge : A → A) (new : A) (rows : List A)
      → IsSettled same merge rows
      → upsert same merge new rows ≡ rows
  unfolding upsert
  IsSettled-upsert same merge new [] h = absurd h
  IsSettled-upsert same merge new (r ∷ rs) (inl h) = rw h.0 (ap (λ x. x ∷ rs) h.1)
  IsSettled-upsert same merge new (r ∷ rs) (inr h) =
      rw h.0 (ap (λ t. r ∷ t) (IsSettled-upsert same merge new rs h.1))

  pub upsert-IsSettled :
      (same : A → Bool) (merge : A → A) (new : A) (rows : List A)
      → (same new ≡ true) × (merge new ≡ new)
      → ((r : A) → same r ≡ true → (same (merge r) ≡ true) × (merge (merge r) ≡ merge r))
      → IsSettled same merge (upsert same merge new rows)
  unfolding upsert
  upsert-IsSettled same merge new [] h k = inl h
  upsert-IsSettled same merge new (r ∷ rs) h k = elim (Bool-cases (same r)) [
    | inl e ↦ rw e (inl (k r e))
    | inr e ↦ rw e (inr (e, upsert-IsSettled same merge new rs h k))
  ]

  -- An upsert under another key leaves a settled row settled.
  pub upsert_other-IsSettled :
      (same other : A → Bool) (merge change : A → A) (new : A) (rows : List A)
      → ((r : A) → other r ≡ true → (same r ≡ false) × (same (change r) ≡ false))
      → IsSettled same merge rows
      → IsSettled same merge (upsert other change new rows)
  unfolding upsert
  upsert_other-IsSettled same other merge change new [] k h = absurd h
  upsert_other-IsSettled same other merge change new (r ∷ rs) k h = elim (Bool-cases (other r)) [
    | inl e ↦ rw e (settled_tail (k r e) h)
    | inr e ↦ rw e (elim h [
      | inl q ↦ inl q
      | inr q ↦ inr (q.0, upsert_other-IsSettled same other merge change new rs k q.1)
    ])
  ]
    where
      settled_tail :
          (same r ≡ false) × (same (change r) ≡ false)
          → IsSettled same merge (r ∷ rs)
          → IsSettled same merge (change r ∷ rs)
      settled_tail c (inl q) = absurd (cc (c.0, q.0))
      settled_tail c (inr q) = inr (c.1, q.1)
