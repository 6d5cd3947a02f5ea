-- ===== src/Base/Lists.antt =====
-- Lists over native numbers and Boolean tests, with predicates by recursion.
use Prim.Native.Nat.{ℕ, zero, suc, ◌+◌, min}
use mathlib.Core.Path.{◌≡◌, refl, ap, sym, subst}
use mathlib.Core.Logic.{◌⊎◌, inl, inr}
use mathlib.Core.Bool.{Bool, true, false, ◌||◌}
use mathlib.Core.List.{List, [], ◌∷◌, ◌++◌, map}
use native.Mathlib.Omega.{arith}

-- Every item has the property.
abbrev pub All {ℓ κ} : {A : Type ℓ} → (A → Type κ) → List A → Type κ
All P [] = Unit
All P (x ∷ xs) = P x × All P xs

-- Membership with its position kept.
abbrev pub In : {A : Type 0} → A → List A → Type 0
In a [] = ⊥
In a (x ∷ xs) = (a ≡ x) ⊎ In a xs

module _ {ℓ} {A : Type ℓ} where
  abbrev pub length : List A → ℕ
  length [] = 0
  length (x ∷ xs) = suc (length xs)

  -- One recursive call for either answer of the test.
  abbrev pub keep_if : Bool → A → List A → List A
  keep_if true x rest = x ∷ rest
  keep_if false x rest = rest

  abbrev pub filter : (A → Bool) → List A → List A
  filter p [] = []
  filter p (x ∷ xs) = keep_if (p x) x (filter p xs)

  abbrev pub take : ℕ → List A → List A
  take zero xs = []
  take (suc n) [] = []
  take (suc n) (x ∷ xs) = x ∷ take n xs

  abbrev pub any : (A → Bool) → List A → Bool
  any p [] = false
  any p (x ∷ xs) = p x || any p xs

  pub length-take : (n : ℕ) (xs : List A) → length (take n xs) ≡ min n (length xs)
  length-take zero xs = omega arith
  length-take (suc n) [] = omega arith
  length-take (suc n) (x ∷ xs) = omega (arith, length-take n xs)

  pub length-append : (xs ys : List A) → length (xs ++ ys) ≡ length xs + length ys
  length-append [] ys = omega arith
  length-append (x ∷ xs) ys = omega (arith, length-append xs ys)

  pub All-map {κ μ} :
      {P : A → Type κ} {Q : A → Type μ} (f : (a : A) → P a → Q a) (xs : List A)
      → All P xs
      → All Q xs
  All-map f [] h = tt
  All-map f (x ∷ xs) h = (f x h.0, All-map f xs h.1)

  pub All-take {κ} : (P : A → Type κ) (n : ℕ) (xs : List A) → All P xs → All P (take n xs)
  All-take P zero xs h = tt
  All-take P (suc n) [] h = tt
  All-take P (suc n) (x ∷ xs) h = (h.0, All-take P n xs h.1)

  pub All-filter {κ} :
      (P : A → Type κ) (p : A → Bool) (xs : List A) → All P xs → All P (filter p xs)
  All-filter P p [] h = tt
  All-filter P p (x ∷ xs) h = kept (p x) (All-filter P p xs h.1)
    where
      kept : (b : Bool) → All P (filter p xs) → All P (keep_if b x (filter p xs))
      kept true k = (h.0, k)
      kept false k = k

  pub All-append {κ} : (P : A → Type κ) (xs ys : List A) → All P xs → All P ys → All P (xs ++ ys)
  All-append P [] ys h k = k
  All-append P (x ∷ xs) ys h k = (h.0, All-append P xs ys h.1 k)

module _ {A : Type 0} where
  pub In-map : {B : Type 0} (f : A → B) (a : A) (xs : List A) → In a xs → In (f a) (map f xs)
  In-map f a [] h = absurd h
  In-map f a (x ∷ xs) (inl e) = inl (ap f e)
  In-map f a (x ∷ xs) (inr t) = inr (In-map f a xs t)

  -- An item of a mapped list has a source.
  pub of_In-map :
      {B : Type 0} (f : A → B) (b : B) (xs : List A)
      → In b (map f xs)
      → (a : A) × In a xs × (b ≡ f a)
  of_In-map f b [] h = absurd h
  of_In-map f b (x ∷ xs) (inl e) = (x, inl refl, e)
  of_In-map f b (x ∷ xs) (inr t) = let (a, i, e) = of_In-map f b xs t in (a, inr i, e)

  pub In-filter : (p : A → Bool) (a : A) (xs : List A) → In a xs → p a ≡ true → In a (filter p xs)
  In-filter p a [] h e = absurd h
  In-filter p a (x ∷ xs) (inl q) e = rw (← q) (rw e (inl refl))
  In-filter p a (x ∷ xs) (inr t) e = keep_tail (p x) (In-filter p a xs t e)
    where
      keep_tail : (b : Bool) → In a (filter p xs) → In a (keep_if b x (filter p xs))
      keep_tail true i = inr i
      keep_tail false i = i

  pub of_In-filter :
      (p : A → Bool) (a : A) (xs : List A) → In a (filter p xs) → In a xs × (p a ≡ true)
  of_In-filter p a [] h = absurd h
  of_In-filter p a (x ∷ xs) h = split (p x) refl (of_In-filter p a xs) h
    where
      split :
          (b : Bool)
          → p x ≡ b
          → (In a (filter p xs) → In a xs × (p a ≡ true))
          → In a (keep_if b x (filter p xs))
          → In a (x ∷ xs) × (p a ≡ true)
      split true e ih (inl q) = (inl q, rw q e)
      split true e ih (inr t) = let (i, k) = ih t in (inr i, k)
      split false e ih t = let (i, k) = ih t in (inr i, k)

  pub In-append_left : (a : A) (xs ys : List A) → In a xs → In a (xs ++ ys)
  In-append_left a [] ys h = absurd h
  In-append_left a (x ∷ xs) ys (inl e) = inl e
  In-append_left a (x ∷ xs) ys (inr t) = inr (In-append_left a xs ys t)

  pub In-append_right : (a : A) (xs ys : List A) → In a ys → In a (xs ++ ys)
  In-append_right a [] ys h = h
  In-append_right a (x ∷ xs) ys h = inr (In-append_right a xs ys h)

  pub of_In-take : (a : A) (n : ℕ) (xs : List A) → In a (take n xs) → In a xs
  of_In-take a zero xs h = absurd h
  of_In-take a (suc n) [] h = absurd h
  of_In-take a (suc n) (x ∷ xs) (inl e) = inl e
  of_In-take a (suc n) (x ∷ xs) (inr t) = inr (of_In-take a n xs t)

  pub All-In {κ} : (P : A → Type κ) (a : A) (xs : List A) → All P xs → In a xs → P a
  All-In P a [] h i = absurd i
  All-In P a (x ∷ xs) h (inl e) = subst P (sym e) h.0
  All-In P a (x ∷ xs) h (inr t) = All-In P a xs h.1 t

  pub All-of_In {κ} : {P : A → Type κ} (xs : List A) → ((a : A) → In a xs → P a) → All P xs
  All-of_In [] f = tt
  All-of_In (x ∷ xs) f = (f x (inl refl), All-of_In xs (λ a i. f a (inr i)))

  -- A Boolean search that succeeds has found an item.
  pub of_any : (p : A → Bool) (xs : List A) → any p xs ≡ true → (a : A) × In a xs × (p a ≡ true)
  of_any p [] h = cc
  of_any p (x ∷ xs) h = split (p x) refl (of_any p xs) h
    where
      split :
          (b : Bool)
          → p x ≡ b
          → (any p xs ≡ true → (a : A) × In a xs × (p a ≡ true))
          → (b || any p xs) ≡ true
          → (a : A) × In a (x ∷ xs) × (p a ≡ true)
      split true e ih k = (x, inl refl, e)
      split false e ih k = let (a, i, q) = ih k in (a, inr i, q)

  pub any_of_In : (p : A → Bool) (a : A) (xs : List A) → In a xs → p a ≡ true → any p xs ≡ true
  any_of_In p a [] h e = absurd h
  any_of_In p a (x ∷ xs) (inl q) e = rw (← q) (rw e refl)
  any_of_In p a (x ∷ xs) (inr t) e = ground (arith, any_of_In p a xs t e)
