-- ===== src/Base/Groups.antt =====
-- GROUP BY: the distinct keys of a list of rows, each with its rows, and sums over the groups.
use Prim.Native.Nat.{ℕ, ◌+◌}
use mathlib.Core.Path.{◌≡◌, refl, sym, ap, ap₂, ◌∙◌}
use mathlib.Core.Logic.{◌↔◌, inl, inr}
use mathlib.Core.Bool.{Bool, true, false, not, ◌&&◌}
use mathlib.Core.Option.{none, some}
use mathlib.Core.List.{List, [], ◌∷◌, map}
use native.Mathlib.Omega.{arith}
use flakehound.Base.Tests.{Bool-cases, if◌then◌else◌}
use flakehound.Base.Lists.{All, All-filter, filter, keep_if, any}
use flakehound.Base.Upsert.{find}

abbrev pub count {ℓ} : {A : Type ℓ} → (A → Bool) → List A → ℕ
count p [] = 0
count p (x ∷ xs) = (if p x then 1 else 0) + count p xs

-- SUM(column), 0 where there is no row
abbrev pub sum {ℓ} : {A : Type ℓ} → (A → ℕ) → List A → ℕ
sum f [] = 0
sum f (x ∷ xs) = f x + sum f xs

module _ {K : Type 0} (same : K → K → Bool) where
  -- SELECT DISTINCT
  unfoldable pub distinct : List K → List K
  distinct [] = []
  distinct (k ∷ ks) = k ∷ filter (λ j. not (same k j)) (distinct ks)

  unfoldable pub groups : {A : Type 0} → (A → K) → List A → List (K × List A)
  unfolding distinct
  groups key rows = map (λ k. (k, filter (λ a. same k (key a)) rows)) (distinct (map key rows))

  -- No key is listed twice.
  abbrev pub IsDistinct : List K → Type 0
  IsDistinct [] = Unit
  IsDistinct (k ∷ ks) = All (λ j. same k j ≡ false) ks × IsDistinct ks

  IsDistinct-filter : (p : K → Bool) (ks : List K) → IsDistinct ks → IsDistinct (filter p ks)
  IsDistinct-filter p [] h = tt
  IsDistinct-filter p (k ∷ ks) h = elim (Bool-cases (p k)) [
    | inl e ↦ rw e (All-filter (λ j. same k j ≡ false) p ks h.0, IsDistinct-filter p ks h.1)
    | inr e ↦ rw e (IsDistinct-filter p ks h.1)
  ]

  filtered_out :
      (k : K) (ks : List K) → All (λ j. same k j ≡ false) (filter (λ j. not (same k j)) ks)
  filtered_out k [] = tt
  filtered_out k (j ∷ ks) = elim (Bool-cases (same k j)) [
    | inl e ↦ rw e (filtered_out k ks)
    | inr e ↦ rw e (rw e refl, filtered_out k ks)
  ]

  pub distinct-IsDistinct : (ks : List K) → IsDistinct (distinct ks)
  unfolding distinct
  distinct-IsDistinct [] = tt
  distinct-IsDistinct (k ∷ ks) = (
    filtered_out k (distinct ks),
    IsDistinct-filter (λ j. not (same k j)) (distinct ks) (distinct-IsDistinct ks),
  )

  pub All-distinct : (P : K → Type 0) (ks : List K) → All P ks → All P (distinct ks)
  unfolding distinct
  All-distinct P [] h = tt
  All-distinct P (k ∷ ks) h = (h.0, All-filter P _ (distinct ks) (All-distinct P ks h.1))

  module _ (same_iff : (j k : K) → (same j k ≡ true) ↔ (j ≡ k)) where
    any-filter_out :
        (j k : K) (ks : List K)
        → same k j ≡ false
        → any (same j) (filter (λ i. not (same k i)) ks) ≡ any (same j) ks
    any-filter_out j k [] e = refl
    any-filter_out j k (i ∷ ks) e = elim (Bool-cases (same k i)) [
      | inl f ↦ rw f (rw (not_same f) (any-filter_out j k ks e))
      | inr f ↦ rw f (rw (any-filter_out j k ks e) refl)
    ]
      where
        not_same : same k i ≡ true → same j i ≡ false
        not_same f = elim (Bool-cases (same j i)) [
          | inl g ↦
              absurd (cc (e, (same_iff k j).1 ((same_iff k i).0 f ∙ sym ((same_iff j i).0 g))))
          | inr g ↦ g
        ]

    pub same_sym : (j k : K) → same j k ≡ same k j
    same_sym j k = elim (Bool-cases (same j k)) [
      | inl e ↦ e ∙ sym ((same_iff k j).1 (sym ((same_iff j k).0 e)))
      | inr e ↦ elim (Bool-cases (same k j)) [
        | inl f ↦ (same_iff j k).1 (sym ((same_iff k j).0 f)) ∙ sym f
        | inr f ↦ e ∙ sym f
      ]
    ]

    pub any-distinct : (j : K) (ks : List K) → any (same j) (distinct ks) ≡ any (same j) ks
    unfolding distinct
    any-distinct j [] = refl
    any-distinct j (k ∷ ks) = elim (Bool-cases (same j k)) [
      | inl e ↦ rw e refl
      | inr e ↦ rw e (any-filter_out j k (distinct ks) (same_sym k j ∙ e) ∙ any-distinct j ks)
    ]

    none_alike : (k : K) (ks : List K) → All (λ j. same k j ≡ false) ks → any (same k) ks ≡ false
    none_alike k [] h = refl
    none_alike k (j ∷ ks) h = rw h.0 (none_alike k ks h.1)

    find-none :
        {G X : Type 0} (mk : K → G) (h : G → Bool) (f : G → X) (key : X → K)
        → ((j : K) → key (f (mk j)) ≡ j)
        → (k : K) (ks : List K) → any (same k) ks ≡ false
        → find (λ x. same k (key x)) (map f (filter h (map mk ks))) ≡ none
    unfolding find
    find-none mk h f key e k [] a = refl
    find-none mk h f key e k (j ∷ ks) a = elim (Bool-cases (same k j)) [
      | inl q ↦ absurd (cc (rw q at a))
      | inr q ↦ elim (Bool-cases (h (mk j))) [
        | inl u ↦ rw (u, e j, q) (find-none mk h f key e k ks (rw q at a))
        | inr u ↦ rw u (find-none mk h f key e k ks (rw q at a))
      ]
    ]

    -- The row of a SELECT … GROUP BY … HAVING under a key.
    pub find_selected :
        {G X : Type 0} (mk : K → G) (h : G → Bool) (f : G → X) (key : X → K)
        → ((j : K) → key (f (mk j)) ≡ j)
        → (k : K) (ks : List K) → IsDistinct ks
        → find (λ x. same k (key x)) (map f (filter h (map mk ks)))
          ≡ (if any (same k) ks && h (mk k) then some (f (mk k)) else none)
    unfolding find
    find_selected mk h f key e k [] d = refl
    find_selected mk h f key e k (j ∷ ks) d = elim (Bool-cases (same k j)) [
      | inl q ↦ rw q (first ((same_iff k j).0 q))
      | inr q ↦ elim (Bool-cases (h (mk j))) [
        | inl u ↦ rw (u, e j, q) (find_selected mk h f key e k ks d.1)
        | inr u ↦ rw (u, q) (find_selected mk h f key e k ks d.1)
      ]
    ]
      where
        absent : k ≡ j → any (same k) ks ≡ false
        absent q = rw q (none_alike j ks d.0)

        first :
            k ≡ j
            → find (λ x. same k (key x)) (map f (keep_if (h (mk j)) (mk j) (filter h (map mk ks))))
              ≡ (if h (mk k) then some (f (mk k)) else none)
        first q = elim (Bool-cases (h (mk j))) [
          | inl u ↦
              rw (u, e j, (same_iff k j).1 q, ap (λ i. h (mk i)) q, u)
                (ap (λ i. some (f (mk i))) (sym q))
          | inr u ↦ rw (u, ap (λ i. h (mk i)) q, u) (find-none mk h f key e k ks (absent q))
        ]

    -- What a row adds to the groups is what it adds to the whole.
    sum_one :
        (b : K → Bool) (j : K) (ks : List K)
        → IsDistinct ks
        → sum (λ k. if b k && same k j then 1 else 0) ks ≡ (if b j && any (same j) ks then 1 else 0)
    sum_one b j [] d = ground arith
    sum_one b j (k ∷ ks) d = elim (Bool-cases (same k j)) [
      | inl q ↦
          let e = (same_iff k j).0 q in
          rw (same_sym j k, q) (ends (ap b e) (rw (← e) (none_alike k ks d.0)) (sum_one b j ks d.1))
      | inr q ↦ rw (same_sym j k, q) (ground (arith, sum_one b j ks d.1))
    ]
      where
        ends :
            b k ≡ b j
            → any (same j) ks ≡ false
            → sum (λ k'. if b k' && same k' j then 1 else 0) ks
              ≡ (if b j && any (same j) ks then 1 else 0)
            → (if b k && true then 1 else 0) + sum (λ k'. if b k' && same k' j then 1 else 0) ks
              ≡ (if b j && true then 1 else 0)
        ends e f ih = rw (ih, e, f) (ground arith)

    sum_zero : (b : K → Bool) (ks : List K) → sum (λ k. if b k then 0 else 0) ks ≡ 0
    sum_zero b [] = refl
    sum_zero b (k ∷ ks) = ground (arith, sum_zero b ks)

    -- Over distinct keys, counting in the groups of the keys in question is counting the rows.
    pub sum_groups :
        {A : Type 0} (key : A → K) (p : A → Bool) (b : K → Bool) (rows : List A) (ks : List K)
        → IsDistinct ks
        → sum (λ k. if b k then count p (filter (λ a. same k (key a)) rows) else 0) ks
          ≡ count (λ a. p a && (b (key a) && any (same (key a)) ks)) rows
    sum_groups key p b [] ks d = sum_zero b ks
    sum_groups key p b (x ∷ rows) ks d =
        one_more ks
        ∙ ap₂ (λ m n. m + n) (counted (p x) (sum_one b (key x) ks d)) (sum_groups key p b rows ks d)
      where
        one_more :
            (ks : List K)
            → sum (λ k. if b k then count p (filter (λ a. same k (key a)) (x ∷ rows)) else 0) ks
              ≡ (if p x then sum (λ k. if b k && same k (key x) then 1 else 0) ks else 0)
                + sum (λ k. if b k then count p (filter (λ a. same k (key a)) rows) else 0) ks
        one_more [] = ground arith
        one_more (k ∷ ks) = elim (Bool-cases (same k (key x))) [
          | inl q ↦ rw q (ground (arith, one_more ks))
          | inr q ↦ rw q (ground (arith, one_more ks))
        ]

        counted :
            (c : Bool)
            → sum (λ k. if b k && same k (key x) then 1 else 0) ks
              ≡ (if b (key x) && any (same (key x)) ks then 1 else 0)
            → (if c then sum (λ k. if b k && same k (key x) then 1 else 0) ks else 0)
              ≡ (if c && (b (key x) && any (same (key x)) ks) then 1 else 0)
        counted true e = e
        counted false e = refl
