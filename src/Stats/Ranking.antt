-- ===== src/Stats/Ranking.antt =====
-- The order of a leaderboard: `_ranked` of backend/app/stats.py.
use Prim.Native.String.{String}
use flakehound.Base.{
  text_le_then, ℕ, zero, suc, In, All-take, ◌≤◌, ◌≡◌, refl, inl, inr, ◌⊎◌, Bool, true, false, not,
  ◌&&◌, ◌||◌, List, [], ◌∷◌, take, All, length, length-take, arith, Bool-cases,
}
use flakehound.Base.Sort.{
  insert, sort, IsSorted, All-insert, All-sort, sort-IsSorted, In-sort, take_first,
}
use flakehound.Rollup.Keys.{and_iff}
use flakehound.Stats.{Floats, JobFlakiness, rank_key, rank_le, identity_le, ranked}

or_true : (b : Bool) → (b || true) ≡ true
or_true true = refl
or_true false = refl

module _ {R : Type 0} (first second : R → R → Bool) where
  -- By `second`, and by `first` where that ties.
  abbrev pub by_both : R → R → Bool
  by_both a b = second a b && (not (second b a) || first a b)

  module _ (total : (a b : R) → second a b ≡ false → second b a ≡ true)
      (trans : (a b c : R) → second a b ≡ true → second b c ≡ true → second a c ≡ true) where
    both : (a b : R) → second a b ≡ true → first a b ≡ true → by_both a b ≡ true
    both a b e h = rw (e, h) (or_true _)

    both_strictly : (a b : R) → second a b ≡ false → by_both b a ≡ true
    both_strictly a b e = rw (total a b e, e) refl

    insert-both :
        (x : R) (ys : List R)
        → All (λ y. first x y ≡ true) ys
        → IsSorted by_both ys
        → IsSorted by_both (insert second x ys)
    unfolding insert
    insert-both x [] h s = (tt, tt)
    insert-both x (y ∷ ys) h s = elim (Bool-cases (second x y)) [
      | inl e ↦ rw e ((both x y e h.0, rest e ys s.0 h.1), s)
      | inr e ↦ rw e (All-insert second _ x ys (both_strictly x y e) s.0, insert-both x ys h.1 s.1)
    ]
      where
        rest :
            second x y ≡ true
            → (zs : List R) → All (λ z. by_both y z ≡ true) zs
            → All (λ z. first x z ≡ true) zs
            → All (λ z. by_both x z ≡ true) zs
        rest e [] p q = tt
        rest e (z ∷ zs) p q =
            (both x z (trans x y z e ((and_iff _ _).0 p.0).0) q.0, rest e zs p.1 q.1)

    -- A stable sort keeps the first order among its ties.
    pub sort-both : (xs : List R) → IsSorted first xs → IsSorted by_both (sort second xs)
    unfolding sort
    sort-both [] s = tt
    sort-both (x ∷ xs) s =
        insert-both x (sort second xs) (All-sort second _ xs s.0) (sort-both xs s.1)

    module _ (first_total : (a b : R) → first a b ≡ false → first b a ≡ true)
        (first_trans : (a b c : R) → first a b ≡ true → first b c ≡ true → first a c ≡ true) where
      by_both-total : (a b : R) → by_both a b ≡ false → by_both b a ≡ true
      by_both-total a b h = ground (arith, h, total a b, first_total a b)

      by_both_trans : (a b c : R) → by_both a b ≡ true → by_both b c ≡ true → by_both a c ≡ true
      by_both_trans a b c h k =
          ground (arith, h, k, trans a b c, trans b c a, trans c a b, first_trans a b c)

text_le_then-total :
    (s t : String) (r r' : Bool)
    → (r ≡ false → r' ≡ true)
    → text_le_then s t r ≡ false
    → text_le_then t s r' ≡ true
unfolding text_le_then
text_le_then-total String.[] String.[] r r' h e = h e
text_le_then-total String.[] (String.◌∷◌ d t) r r' h e = absurd (cc e)
text_le_then-total (String.◌∷◌ c s) String.[] r r' h e = refl
text_le_then-total (String.◌∷◌ c s) (String.◌∷◌ d t) r r' h e =
    ground (arith, e, text_le_then-total s t r r' h)

text_le_then_trans :
    (s t u : String) (r r' r'' : Bool)
    → (r ≡ true → r' ≡ true → r'' ≡ true)
    → text_le_then s t r ≡ true
    → text_le_then t u r' ≡ true
    → text_le_then s u r'' ≡ true
unfolding text_le_then
text_le_then_trans String.[] String.[] String.[] r r' r'' h e e' = h e e'
text_le_then_trans String.[] String.[] (String.◌∷◌ d u) r r' r'' h e e' = refl
text_le_then_trans String.[] (String.◌∷◌ d t) String.[] r r' r'' h e e' = absurd (cc e')
text_le_then_trans String.[] (String.◌∷◌ d t) (String.◌∷◌ x u) r r' r'' h e e' = refl
text_le_then_trans (String.◌∷◌ c s) String.[] u r r' r'' h e e' = absurd (cc e)
text_le_then_trans (String.◌∷◌ c s) (String.◌∷◌ d t) String.[] r r' r'' h e e' = absurd (cc e')
text_le_then_trans (String.◌∷◌ c s) (String.◌∷◌ d t) (String.◌∷◌ x u) r r' r'' h e e' =
    ground (arith, e, e', text_le_then_trans s t u r r' r'' h)

take-IsSorted :
    {R : Type 0} (le : R → R → Bool) (n : ℕ) (xs : List R)
    → IsSorted le xs
    → IsSorted le (take n xs)
take-IsSorted le zero xs s = tt
take-IsSorted le (suc n) [] s = tt
take-IsSorted le (suc n) (x ∷ xs) s = (All-take _ n xs s.0, take-IsSorted le n xs s.1)

module _ {F : Type 0} where
  identity_le-total : (a b : JobFlakiness F) → identity_le a b ≡ false → identity_le b a ≡ true
  unfolding identity_le
  identity_le-total a b = text_le_then-total a.job_name b.job_name _ _ (λ e. ground (arith, e))

  identity_le_trans :
      (a b c : JobFlakiness F)
      → identity_le a b ≡ true
      → identity_le b c ≡ true
      → identity_le a c ≡ true
  unfolding identity_le
  identity_le_trans a b c =
      text_le_then_trans a.job_name b.job_name c.job_name _ _ _ (λ e e'. ground (arith, e, e'))

  module _ (f : Floats F) (asymmetric : (a b : F) → f.less a b ≡ true → f.less b a ≡ false)
      (cotransitive : (a b c : F)
        → f.less a c ≡ true
        → (f.less a b ≡ true) ⊎ (f.less b c ≡ true)) where
    rank_le-total : (a b : JobFlakiness F) → rank_le f a b ≡ false → rank_le f b a ≡ true
    unfolding rank_le
    rank_le-total a b h = ground (arith, h)

    rank_le_trans :
        (a b c : JobFlakiness F)
        → rank_le f a b ≡ true
        → rank_le f b c ≡ true
        → rank_le f a c ≡ true
    unfolding rank_le
    rank_le_trans a b c h k = ground (
      arith,
      h,
      k,
      asymmetric x y,
      asymmetric y z,
      cotransitive x y z,
      cotransitive y z x,
      cotransitive z x y,
    )
      where
        x : F
        x = rank_key f a

        y : F
        y = rank_key f b

        z : F
        z = rank_key f c

    -- The rows of a leaderboard stand in the order of their rank key and opportunities, those that tie
    -- in the order of their identity, there are at most `limit` of them, and a row that is kept comes
    -- before every row that is cut off, if the comparison of floats is a strict weak order.
    pub ranked-IsSorted :
        (limit : ℕ) (rows : List (JobFlakiness F)) (a b : JobFlakiness F)
        → In a (ranked identity_le (rank_le f) limit rows)
        → In b rows
        → IsSorted (by_both identity_le (rank_le f)) (ranked identity_le (rank_le f) limit rows)
          × ((length (ranked identity_le (rank_le f) limit rows) ≤ limit)
              × (In b (ranked identity_le (rank_le f) limit rows)
                  ⊎ (by_both identity_le (rank_le f) a b ≡ true)))
    unfolding ranked
    ranked-IsSorted limit rows a b i j = (
      take-IsSorted _ limit all sorted,
      (
        let q = length-take limit all in ground (arith, q),
        take_first _
            (by_both-total identity_le (rank_le f) rank_le-total rank_le_trans identity_le-total
              identity_le_trans)
            (by_both_trans identity_le (rank_le f) rank_le-total rank_le_trans identity_le-total
              identity_le_trans)
            limit all sorted a b i (In-sort _ b _ (In-sort _ b rows j)),
      ),
    )
      where
        all : List (JobFlakiness F)
        all = sort (rank_le f) (sort identity_le rows)

        sorted : IsSorted (by_both identity_le (rank_le f)) all
        sorted =
            sort-both identity_le (rank_le f) rank_le-total rank_le_trans _
              (sort-IsSorted identity_le identity_le-total identity_le_trans rows)
