-- ===== src/Base/Counting.antt =====
-- Counts and sums over filtered lists.
use Prim.Native.Nat.{ℕ, ◌+◌}
use mathlib.Core.Path.{◌≡◌, refl, ap}
use mathlib.Core.Logic.{inl, inr}
use mathlib.Core.Bool.{Bool, true, ◌&&◌, ◌||◌}
use mathlib.Core.List.{List, [], ◌∷◌, ◌++◌, map}
use native.Mathlib.Omega.{arith}
use flakehound.Base.Tests.{Bool-cases, if◌then◌else◌, ltb}
use flakehound.Base.Lists.{All, filter, any, any_of_In, In-map, All-of_In}
use flakehound.Base.Groups.{count, sum}

module _ {A : Type 0} where
  pub filter-true : (xs : List A) → filter (λ a. true) xs ≡ xs
  filter-true [] = refl
  filter-true (x ∷ xs) = ap (λ t. x ∷ t) (filter-true xs)

  pub sum_filter :
      (c : A → ℕ) (p : A → Bool) (xs : List A)
      → sum c (filter p xs) ≡ sum (λ a. if p a then c a else 0) xs
  sum_filter c p [] = refl
  sum_filter c p (x ∷ xs) = elim (Bool-cases (p x)) [
    | inl e ↦ rw e (ap (λ n. c x + n) (sum_filter c p xs))
    | inr e ↦ let q = sum_filter c p xs in rw e (omega (arith, q))
  ]

  pub count-filter :
      (q p : A → Bool) (xs : List A) → count q (filter p xs) ≡ count (λ a. q a && p a) xs
  count-filter q p [] = refl
  count-filter q p (x ∷ xs) = elim (Bool-cases (p x)) [
    | inl e ↦ let r = count-filter q p xs in rw e (ground (arith, r))
    | inr e ↦ let r = count-filter q p xs in rw e (ground (arith, r))
  ]

  pub count_ext : (p q : A → Bool) (xs : List A) → All (λ a. p a ≡ q a) xs → count p xs ≡ count q xs
  count_ext p q [] h = refl
  count_ext p q (x ∷ xs) h = rw h.0 (ap (λ n. (if q x then 1 else 0) + n) (count_ext p q xs h.1))

  pub All-everywhere {κ} : {P : A → Type κ} → ((a : A) → P a) → (xs : List A) → All P xs
  All-everywhere f [] = tt
  All-everywhere f (x ∷ xs) = (f x, All-everywhere f xs)

  pub sum_map :
      {B : Type 0} (c : B → ℕ) (f : A → B) (xs : List A) → sum c (map f xs) ≡ sum (λ a. c (f a)) xs
  sum_map c f [] = refl
  sum_map c f (x ∷ xs) = ap (λ n. c (f x) + n) (sum_map c f xs)

  pub any_ext : (p q : A → Bool) (xs : List A) → ((a : A) → p a ≡ q a) → any p xs ≡ any q xs
  any_ext p q [] h = refl
  any_ext p q (x ∷ xs) h = rw (h x) (ap (λ b. q x || b) (any_ext p q xs h))

  pub any-map :
      {B : Type 0} (p : B → Bool) (f : A → B) (xs : List A)
      → any p (map f xs) ≡ any (λ a. p (f a)) xs
  any-map p f [] = refl
  any-map p f (x ∷ xs) = ap (λ b. p (f x) || b) (any-map p f xs)

  pub any-count : (p : A → Bool) (xs : List A) → any p xs ≡ ltb 0 (count (λ a. true) (filter p xs))
  any-count p [] = refl
  any-count p (x ∷ xs) = elim (Bool-cases (p x)) [
    | inl e ↦ rw e (ground arith)
    | inr e ↦ rw e (any-count p xs)
  ]

  -- A positive sum over the items that pass a test is over some.
  pub any-sum :
      (c : A → ℕ) (p : A → Bool) (xs : List A)
      → (any p xs && ltb 0 (sum c (filter p xs))) ≡ ltb 0 (sum c (filter p xs))
  any-sum c p [] = refl
  any-sum c p (x ∷ xs) = elim (Bool-cases (p x)) [
    | inl e ↦ rw e refl
    | inr e ↦ rw e (any-sum c p xs)
  ]

  -- Every item's key is among the keys.
  pub any_own_key :
      {K : Type 0} (same : K → K → Bool) (key : A → K)
      → ((k : K) → same k k ≡ true)
      → (xs : List A) → All (λ a. any (same (key a)) (map key xs) ≡ true) xs
  any_own_key same key own xs =
      All-of_In xs
        (λ a i. any_of_In (same (key a)) (key a) (map key xs) (In-map key a xs i) (own (key a)))

  pub any-append : (p : A → Bool) (xs ys : List A) → any p (xs ++ ys) ≡ (any p xs || any p ys)
  any-append p [] ys = refl
  any-append p (x ∷ xs) ys = elim (Bool-cases (p x)) [
    | inl e ↦ rw e refl
    | inr e ↦ rw e (any-append p xs ys)
  ]
