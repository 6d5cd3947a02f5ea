-- ===== src/Base/Sums.antt =====
-- Sums and tests over a list that do not depend on its order.
use Prim.Native.Nat.{ℕ, ◌+◌}
use mathlib.Core.Path.{◌≡◌, refl, ap, ap₂, ◌∙◌}
use mathlib.Core.Logic.{∥∥₁_elim, inl, inr}
use mathlib.Core.Bool.{Bool, true}
use mathlib.Core.List.{List, [], ◌∷◌, Perm, Permᴰ}
use native.Mathlib.Nat.{ℕ_set}
use native.Mathlib.Omega.{arith}
use flakehound.Base.Tests.{Bool-cases, if◌then◌else◌}
use flakehound.Base.Lists.{All}
use flakehound.Base.Groups.{sum}

module _ {A : Type 0} where
  sum-permᴰ : (f : A → ℕ) (xs ys : List A) → Permᴰ xs ys → sum f xs ≡ sum f ys
  sum-permᴰ f _ _ Permᴰ.nil = refl
  sum-permᴰ f _ _ (Permᴰ.cons {a = a} {b = b} {l₁ = l} {l₂ = l'} e p) =
      ap₂ (λ m n. m + n) (ap f e) (sum-permᴰ f l l' p)
  sum-permᴰ f _ _ (Permᴰ.swap {a = a} {b = b} {a' = a'} {b' = b'} {l = l} e e') =
      let p = ap f e in let q = ap f e' in omega (arith, p, q)
  sum-permᴰ f _ _ (Permᴰ.trans {l₁ = l} {l₂ = m} {l₃ = n} p q) =
      sum-permᴰ f l m p ∙ sum-permᴰ f m n q

  pub sum-perm : (f : A → ℕ) (xs ys : List A) → Perm xs ys → sum f xs ≡ sum f ys
  sum-perm f xs ys p = ∥∥₁_elim p (ℕ_set _ _) (sum-permᴰ f xs ys)

  All→sum :
      (p : A → Bool) (xs : List A)
      → All (λ a. p a ≡ true) xs
      → sum (λ a. if p a then 0 else 1) xs ≡ 0
  All→sum p [] h = refl
  All→sum p (x ∷ xs) h = let q = All→sum p xs h.1 in rw h.0 (omega (arith, q))

  sum→All :
      (p : A → Bool) (xs : List A)
      → sum (λ a. if p a then 0 else 1) xs ≡ 0
      → All (λ a. p a ≡ true) xs
  sum→All p [] h = tt
  sum→All p (x ∷ xs) h = elim (Bool-cases (p x)) [
    | inl e ↦ (e, sum→All p xs (no_more (rw e at h)))
    | inr e ↦ absurd (one_more (rw e at h))
  ]
    where
      no_more : 0 + sum (λ a. if p a then 0 else 1) xs ≡ 0 → sum (λ a. if p a then 0 else 1) xs ≡ 0
      no_more k = omega (arith, k)

      one_more : 1 + sum (λ a. if p a then 0 else 1) xs ≡ 0 → ⊥
      one_more k = omega (arith, k)

  -- A test that every item of a list passes, every item of its rearrangements passes.
  pub All-perm :
      (p : A → Bool) (xs ys : List A)
      → Perm xs ys
      → All (λ a. p a ≡ true) ys
      → All (λ a. p a ≡ true) xs
  All-perm p xs ys q h = sum→All p xs (sum-perm _ xs ys q ∙ All→sum p ys h)
