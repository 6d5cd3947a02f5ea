-- ===== src/Base/Sort.antt =====
-- ORDER BY and Python's `sorted`: a stable insertion sort by a Boolean order.
use Prim.Native.Nat.{ℕ, zero, suc}
use mathlib.Core.Path.{◌≡◌, refl, ap, ◌∙◌}
use mathlib.Core.Logic.{◌⊎◌, inl, inr}
use mathlib.Core.Bool.{Bool, true, false}
use mathlib.Core.List.{List, [], ◌∷◌}
use mathlib.Core.List.{Perm}
use mathlib.Core.List.Perm
use native.Mathlib.Omega.{arith}
use flakehound.Base.Tests.{Bool-cases, if◌then◌else◌}
use flakehound.Base.Lists.{All, In, take, length, All-map}

module _ {A : Type 0} (le : A → A → Bool) where
  unfoldable pub insert : A → List A → List A
  insert x [] = x ∷ []
  insert x (y ∷ ys) = if le x y then x ∷ y ∷ ys else y ∷ insert x ys

  unfoldable pub sort : List A → List A
  unfolding insert
  sort [] = []
  sort (x ∷ xs) = insert x (sort xs)

  -- Every item is at most each later one.
  abbrev pub IsSorted : List A → Type 0
  IsSorted [] = Unit
  IsSorted (x ∷ xs) = All (λ y. le x y ≡ true) xs × IsSorted xs

  insert-perm : (x : A) (ys : List A) → Perm (insert x ys) (x ∷ ys)
  unfolding insert
  insert-perm x [] = Perm.refl (x ∷ [])
  insert-perm x (y ∷ ys) = elim (Bool-cases (le x y)) [
    | inl e ↦ rw e (Perm.refl _)
    | inr e ↦ rw e (Perm.trans (Perm.cons y (insert-perm x ys)) (Perm.swap x y ys))
  ]

  pub sort-perm : (xs : List A) → Perm (sort xs) xs
  unfolding sort
  sort-perm [] = Perm.refl []
  sort-perm (x ∷ xs) = Perm.trans (insert-perm x (sort xs)) (Perm.cons x (sort-perm xs))

  pub of_In-insert : (a x : A) (ys : List A) → In a (insert x ys) → (a ≡ x) ⊎ In a ys
  unfolding insert
  of_In-insert a x [] h = h
  of_In-insert a x (y ∷ ys) h = elim (Bool-cases (le x y)) [
    | inl e ↦ rw e at h
    | inr e ↦ later (of_In-insert a x ys) (rw e at h)
  ]
    where
      later :
          (In a (insert x ys) → (a ≡ x) ⊎ In a ys)
          → (a ≡ y) ⊎ In a (insert x ys)
          → (a ≡ x) ⊎ In a (y ∷ ys)
      later ih (inl q) = inr (inl q)
      later ih (inr t) = elim (ih t) [ inl q ↦ inl q | inr i ↦ inr (inr i) ]

  In-insert : (a x : A) (ys : List A) → (a ≡ x) ⊎ In a ys → In a (insert x ys)
  unfolding insert
  In-insert a x [] h = h
  In-insert a x (y ∷ ys) h = elim (Bool-cases (le x y)) [
    | inl e ↦ rw e h
    | inr e ↦ rw e (later (In-insert a x ys) h)
  ]
    where
      later :
          ((a ≡ x) ⊎ In a ys → In a (insert x ys))
          → (a ≡ x) ⊎ In a (y ∷ ys)
          → In a (y ∷ insert x ys)
      later ih (inl q) = inr (ih (inl q))
      later ih (inr (inl q)) = inl q
      later ih (inr (inr t)) = inr (ih (inr t))

  pub In-sort : (a : A) (xs : List A) → In a xs → In a (sort xs)
  unfolding sort
  In-sort a [] h = h
  In-sort a (x ∷ xs) (inl e) = In-insert a x (sort xs) (inl e)
  In-sort a (x ∷ xs) (inr t) = In-insert a x (sort xs) (inr (In-sort a xs t))

  pub of_In-sort : (a : A) (xs : List A) → In a (sort xs) → In a xs
  unfolding sort
  of_In-sort a [] h = h
  of_In-sort a (x ∷ xs) h = elim (of_In-insert a x (sort xs) h) [
    | inl e ↦ inl e
    | inr t ↦ inr (of_In-sort a xs t)
  ]

  pub length-insert : (x : A) (xs : List A) → length (insert x xs) ≡ suc (length xs)
  unfolding insert
  length-insert x [] = refl
  length-insert x (y ∷ ys) = ground (arith, length-insert x ys)

  pub length-sort : (xs : List A) → length (sort xs) ≡ length xs
  unfolding sort
  length-sort [] = refl
  length-sort (x ∷ xs) = length-insert x (sort xs) ∙ ap suc (length-sort xs)

  pub All-insert {κ} : (P : A → Type κ) (x : A) (ys : List A) → P x → All P ys → All P (insert x ys)
  unfolding insert
  All-insert P x [] p h = (p, tt)
  All-insert P x (y ∷ ys) p h = elim (Bool-cases (le x y)) [
    | inl e ↦ rw e (p, (h.0, h.1))
    | inr e ↦ rw e (h.0, All-insert P x ys p h.1)
  ]

  pub All-sort {κ} : (P : A → Type κ) (xs : List A) → All P xs → All P (sort xs)
  unfolding sort
  All-sort P [] h = tt
  All-sort P (x ∷ xs) h = All-insert P x (sort xs) h.0 (All-sort P xs h.1)

  module _ (total : (a b : A) → le a b ≡ false → le b a ≡ true)
      (trans : (a b c : A) → le a b ≡ true → le b c ≡ true → le a c ≡ true) where
    insert-IsSorted : (x : A) (ys : List A) → IsSorted ys → IsSorted (insert x ys)
    unfolding insert
    insert-IsSorted x [] s = (tt, tt)
    insert-IsSorted x (y ∷ ys) s = elim (Bool-cases (le x y)) [
      | inl e ↦ rw e ((e, All-map (λ z. trans x y z e) ys s.0), (s.0, s.1))
      | inr e ↦ rw e (All-insert _ x ys (total x y e) s.0, insert-IsSorted x ys s.1)
    ]

    pub sort-IsSorted : (xs : List A) → IsSorted (sort xs)
    unfolding sort
    sort-IsSorted [] = tt
    sort-IsSorted (x ∷ xs) = insert-IsSorted x (sort xs) (sort-IsSorted xs)

    -- What LIMIT n keeps comes before what it cuts off.
    pub take_first :
        (n : ℕ) (xs : List A)
        → IsSorted xs
        → (a b : A) → In a (take n xs)
        → In b xs
        → In b (take n xs) ⊎ (le a b ≡ true)
    take_first zero xs s a b h k = absurd h
    take_first (suc n) [] s a b h k = absurd h
    take_first (suc n) (x ∷ xs) s a b h (inl e) = inl (inl e)
    take_first (suc n) (x ∷ xs) s a b (inl e) (inr k) = inr (rw e (All_le xs s.0 k))
      where
        All_le : (ys : List A) → All (λ y. le x y ≡ true) ys → In b ys → le x b ≡ true
        All_le [] l i = absurd i
        All_le (y ∷ ys) l (inl q) = rw q l.0
        All_le (y ∷ ys) l (inr t) = All_le ys l.1 t
    take_first (suc n) (x ∷ xs) s a b (inr h) (inr k) = elim (take_first n xs s.1 a b h k) [
      | inl i ↦ inl (inr i)
      | inr l ↦ inr l
    ]
