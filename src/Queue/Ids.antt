-- ===== src/Queue/Ids.antt =====
-- The primary key of `event_queue` (backend/app/queue.py): one row to an id.
use flakehound.Base.{
  ℕ, ◌≡◌, ◌≢◌, refl, sym, ap, ◌∙◌, Bool, true, false, inl, inr, List, [], ◌∷◌, map, All, In, of_any,
  any_of_In, of_In-map, In-map, ==_iff, ◌==◌, if◌then◌else◌, All-In,
}
use flakehound.Queue.{Row, has_id}

abbrev pub Unique : List Row → Type 0
Unique [] = Unit
Unique (r ∷ rs) = All (λ s. s.id ≢ r.id) rs × Unique rs

-- Two rows of the table with one id are one row.
pub Unique-eq :
    (rows : List Row) (r s : Row) → Unique rows → In r rows → In s rows → r.id ≡ s.id → r ≡ s
Unique-eq [] r s u i j e = absurd i
Unique-eq (x ∷ xs) r s u (inl p) (inl q) e = p ∙ sym q
Unique-eq (x ∷ xs) r s u (inl p) (inr j) e =
    absurd (All-In (λ y. y.id ≢ x.id) s xs u.0 j (sym e ∙ ap (λ (y : Row). y.id) p))
Unique-eq (x ∷ xs) r s u (inr i) (inl q) e =
    absurd (All-In (λ y. y.id ≢ x.id) r xs u.0 i (e ∙ ap (λ (y : Row). y.id) q))
Unique-eq (x ∷ xs) r s u (inr i) (inr j) e = Unique-eq xs r s u.1 i j e

module _ (f : Row → Row) (keeps : (r : Row) → (f r).id ≡ r.id) where
  All-map_id : (i : ℕ) (rs : List Row) → All (λ s. s.id ≢ i) rs → All (λ s. s.id ≢ i) (map f rs)
  All-map_id i [] h = tt
  All-map_id i (r ∷ rs) h = ((λ e. h.0 (sym (keeps r) ∙ e)), All-map_id i rs h.1)

  -- An UPDATE that leaves the ids alone keeps them distinct.
  pub map-Unique : (rows : List Row) → Unique rows → Unique (map f rows)
  map-Unique [] u = tt
  map-Unique (r ∷ rs) u = rw (keeps r) (All-map_id r.id rs u.0, map-Unique rs u.1)

pub if_id : (b : Bool) (r s : Row) → s.id ≡ r.id → (if b then s else r).id ≡ r.id
if_id true r s e = e
if_id false r s e = refl

pub has_id→In :
    (i : ℕ) (rows : List Row)
    → has_id i (map (λ r. r.id) rows) ≡ true
    → (r : Row) × In r rows × (r.id ≡ i)
has_id→In i rows h =
    let (j, k, e) = of_any (λ j. j == i) (map (λ (r : Row). r.id) rows) h in
    let (r, m, q) = of_In-map (λ (r : Row). r.id) j rows k in (r, m, sym q ∙ (==_iff j i).0 e)

pub In→has_id : (r : Row) (rows : List Row) → In r rows → has_id r.id (map (λ r. r.id) rows) ≡ true
In→has_id r rows m =
    any_of_In (λ j. j == r.id) r.id (map (λ (s : Row). s.id) rows)
      (In-map (λ (s : Row). s.id) r rows m) ((==_iff r.id r.id).1 refl)
