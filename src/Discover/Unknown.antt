-- ===== src/Discover/Unknown.antt =====
-- What `search_band` of backend/app/discover.py returns.
mod Tests
use flakehound.Base.{
  ℕ, zero, suc, ◌+◌, ◌≡◌, refl, sym, subst, eq_iff, ◌≤◌, String, Bool, true, false, not, ◌&&◌, ◌||◌,
  Option, none, some, List, [], ◌∷◌, ◌++◌, inl, inr, arith, length, length-take, same, any, take,
  ltb, leb, Bool-cases, All, All-append, All-take,
}
use flakehound.Base.Result.{Result, ok, err, ◌>>=◌, Returns, Returns-bind}
use flakehound.Json.{Json, Items, nil, cons, get, number, as_str}
use flakehound.Backfill.Runs.{
  Error, Response, not_found, refused, success, key_error, http_status, or_raise,
}
use flakehound.Backfill.Handler.{listed}
use flakehound.Discover.{
  id_is_stored, name_is_stored, hit_is_stored, scan_items, item_count, is_skipping, requested,
  search_pages, search_band, search_max_pages,
}

-- No stored repository has this name.
abbrev pub IsUnknown : List String → String → Type 0
IsUnknown names name = any (same name) names ≡ false

-- No stored repository has one of the names found.
abbrev AreUnknown : List String → List String × ℕ → Type 0
AreUnknown names r = All (IsUnknown names) r.0

-- No stored repository has an empty name.
abbrev pub AreNamed : List String → Type 0
AreNamed names = any (same "") names ≡ false

or_right_false : (a b : Bool) → a || b ≡ false → b ≡ false
or_right_false true b h = cc
or_right_false false b h = h

module _ (wanted : ℕ) (ids : List ℕ) (names : List String) (named : AreNamed names) where
  unknown : (name : String) → name_is_stored names (some name) ≡ false → IsUnknown names name
  unknown name h = elim (Bool-cases (same name "")) [
    | inl e ↦ subst (IsUnknown names) (sym ((eq_iff name "").0 e)) named
    | inr e ↦ known_of (same name "") (any (same name) names) e h
  ]
    where
      known_of : (a b : Bool) → a ≡ false → (not a && b) ≡ false → b ≡ false
      known_of true b e h = cc
      known_of false b e h = h

  scan_items-AreUnknown :
      (items : Items) (found : List String) (skipped : ℕ)
      → All (IsUnknown names) found
      → Returns (AreUnknown names) (scan_items wanted ids names items found skipped)
  unfolding scan_items hit_is_stored or_raise
  scan_items-AreUnknown nil found skipped h = h
  scan_items-AreUnknown (cons item rest) found skipped h =
      scanned (hit_is_stored item ids names) refl (scan_items-AreUnknown rest found (skipped + 1) h)
        (λ name k. scan_items-AreUnknown rest (found ++ (name ∷ [])) skipped k)
    where
      scanned :
          (b : Bool)
          → hit_is_stored item ids names ≡ b
          → Returns (AreUnknown names) (scan_items wanted ids names rest found (skipped + 1))
          → ((name : String)
              → All (IsUnknown names) (found ++ (name ∷ []))
              → Returns
                  (AreUnknown names)
                  (scan_items wanted ids names rest (found ++ (name ∷ [])) skipped))
          → Returns (AreUnknown names) (elim b [
            | true ↦ scan_items wanted ids names rest found (skipped + 1)
            | false ↦ or_raise key_error (as_str (get "full_name" item)) >>= λ name.
                elim (leb wanted (length (found ++ (name ∷ [])))) [
                  | true ↦ ok (found ++ (name ∷ []), skipped)
                  | false ↦ scan_items wanted ids names rest (found ++ (name ∷ [])) skipped
                ]
          ])
      scanned true e skip add = skip
      scanned false e skip add = added (as_str (get "full_name" item)) (
          or_right_false (id_is_stored ids (number (get "id" item)))
            (name_is_stored names (as_str (get "full_name" item))) e)
        where
          added :
              (o : Option String)
              → name_is_stored names o ≡ false
              → Returns (AreUnknown names) (
                  or_raise key_error o >>= λ name.
                  elim (leb wanted (length (found ++ (name ∷ [])))) [
                    | true ↦ ok (found ++ (name ∷ []), skipped)
                    | false ↦ scan_items wanted ids names rest (found ++ (name ∷ [])) skipped
                  ])
          added none k = tt
          added (some name) k =
              last (leb wanted (length (found ++ (name ∷ []))))
                (All-append (IsUnknown names) found _ h (unknown name k, tt))
            where
              last :
                  (b : Bool)
                  → All (IsUnknown names) (found ++ (name ∷ []))
                  → Returns (AreUnknown names) (elim b [
                    | true ↦ ok (found ++ (name ∷ []), skipped)
                    | false ↦ scan_items wanted ids names rest (found ++ (name ∷ [])) skipped
                  ])
              last true q = q
              last false q = add name q

  search_pages-AreUnknown :
      (answers : ℕ → ℕ → Response) (pages page : ℕ) (found : List String) (skipped : ℕ)
      → All (IsUnknown names) found
      → Returns (AreUnknown names) (search_pages wanted ids names answers pages page found skipped)
  unfolding search_pages
  search_pages-AreUnknown answers zero page found skipped h = h
  search_pages-AreUnknown answers (suc pages) page found skipped h =
      paged (ltb (length found) wanted)
        (answers (requested (is_skipping ids names) wanted (length found)) page)
        (λ found' skipped' k. search_pages-AreUnknown answers pages (page + 1) found' skipped' k)
    where
      paged :
          (b : Bool) (answer : Response)
          → ((found' : List String) (skipped' : ℕ)
              → All (IsUnknown names) found'
              → Returns
                  (AreUnknown names)
                  (search_pages wanted ids names answers pages (page + 1) found' skipped'))
          → Returns (AreUnknown names) (elim b [
            | false ↦ ok (found, skipped)
            | true ↦
                let size = requested (is_skipping ids names) wanted (length found) in
                elim answer [
                  | not_found ↦ err (http_status 404)
                  | refused status ↦ err (http_status status)
                  | success body ↦
                      scan_items wanted ids names (listed (get "items" body)) found skipped >>= λ r.
                      elim (ltb (item_count (listed (get "items" body))) size) [
                        | true ↦ ok r
                        | false ↦ search_pages wanted ids names answers pages (page + 1) r.0 r.1
                      ]
                ]
          ])
      paged false answer more = h
      paged true not_found more = tt
      paged true (refused status) more = tt
      paged true (success body) more =
          Returns-bind (AreUnknown names) (AreUnknown names) _ _
            (scan_items-AreUnknown (listed (get "items" body)) found skipped h)
            λ r k.
              turned
                (ltb (item_count (listed (get "items" body)))
                  (requested (is_skipping ids names) wanted (length found)))
                r k
        where
          turned :
              (b : Bool) (r : List String × ℕ)
              → All (IsUnknown names) r.0
              → Returns (AreUnknown names) (elim b [
                | true ↦ ok r
                | false ↦ search_pages wanted ids names answers pages (page + 1) r.0 r.1
              ])
          turned true r k = k
          turned false r k = more r.0 r.1 k

  -- If no stored repository has an empty name, a band gives at most `wanted` names, and no stored
  -- repository has one of them.
  pub search_band-AreUnknown :
      (answers : ℕ → ℕ → Response)
      → Returns
          (λ (r : List String × ℕ). (length r.0 ≤ wanted) × All (IsUnknown names) r.0)
          (search_band wanted ids names answers)
  unfolding search_band
  search_band-AreUnknown answers =
      Returns-bind (AreUnknown names)
        (λ (r : List String × ℕ). (length r.0 ≤ wanted) × All (IsUnknown names) r.0) _ _
        (search_pages-AreUnknown answers search_max_pages 1 [] 0 tt)
        λ r h. (omega (arith, length-take wanted r.0), All-take (IsUnknown names) wanted r.0 h)
