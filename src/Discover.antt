-- ===== src/Discover.antt =====
-- `search_band` and `_hit_is_stored` of backend/app/discover.py: the search for repositories that
-- are not stored yet. An id that stands in a hit as a text is not modelled.
pub mod Unknown
use Prim.Native.Nat.{min}
use flakehound.Base.{
  ℕ, zero, suc, ◌+◌, ◌-◌, String, Bool, true, false, ◌&&◌, ◌||◌, not, Option, none, some, List, [],
  ◌∷◌, ◌++◌, leb, ltb, ◌==◌, same, any, length, take, if◌then◌else◌,
}
use flakehound.Base.Result.{Result, ok, err, ◌>>=◌}
use flakehound.Json.{Json, Items, nil, cons, get, number, as_str}
use flakehound.Backfill.Runs.{
  Error, key_error, http_status, Response, not_found, refused, success, or_raise,
}
use flakehound.Backfill.Handler.{listed}

abbrev pub search_page_size : ℕ
search_page_size = 100

abbrev pub search_max_pages : ℕ
search_max_pages = 10

abbrev pub id_is_stored : List ℕ → Option ℕ → Bool
id_is_stored ids none = false
id_is_stored ids (some i) = any (λ j. j == i) ids

-- bool(name) and name in names
abbrev pub name_is_stored : List String → Option String → Bool
name_is_stored names none = false
name_is_stored names (some name) = not (same name "") && any (same name) names

unfoldable pub hit_is_stored : Json → List ℕ → List String → Bool
unfolding get number as_str
hit_is_stored item ids names =
    id_is_stored ids (number (get "id" item))
    || name_is_stored names (as_str (get "full_name" item))

-- for item in items: … , the names found and the hits skipped.
unfoldable pub scan_items :
    (wanted : ℕ) → List ℕ → List String → Items → List String → ℕ → Result Error (List String × ℕ)
unfolding hit_is_stored get as_str or_raise
scan_items wanted ids names nil found skipped = ok (found, skipped)
scan_items wanted ids names (cons item rest) found skipped = elim (hit_is_stored item ids names) [
  | true ↦ scan_items wanted ids names rest found (skipped + 1)
  | false ↦ or_raise key_error (as_str (get "full_name" item)) >>= λ name.
      elim (leb wanted (length (found ++ (name ∷ [])))) [
        | true ↦ ok (found ++ (name ∷ []), skipped)
        | false ↦ scan_items wanted ids names rest (found ++ (name ∷ [])) skipped
      ]
]

abbrev pub item_count : Items → ℕ
item_count nil = 0
item_count (cons item rest) = suc (item_count rest)

abbrev pub is_skipping : List ℕ → List String → Bool
is_skipping [] [] = false
is_skipping _ _ = true

abbrev pub page_size : Bool → ℕ → ℕ
page_size skipping wanted = if skipping then search_page_size else min search_page_size wanted

abbrev pub requested : Bool → (wanted found : ℕ) → ℕ
requested skipping wanted found =
    if skipping then page_size skipping wanted else min (page_size skipping wanted) (wanted - found)

-- The while loop, with the pages that are left; an empty page is a short one. `answers` is GitHub's answer, by the page's size
-- and its number.
unfoldable pub search_pages :
    (wanted : ℕ)
    → List ℕ
    → List String
    → (answers : ℕ → ℕ → Response) → (pages page : ℕ) → List String
    → ℕ
    → Result Error (List String × ℕ)
unfolding scan_items get
search_pages wanted ids names answers zero page found skipped = ok (found, skipped)
search_pages wanted ids names answers (suc pages) page found skipped =
    elim (ltb (length found) wanted) [
      | false ↦ ok (found, skipped)
      | true ↦
          let size = requested (is_skipping ids names) wanted (length found) in
          elim (answers size page) [
            | not_found ↦ err (http_status 404)
            | refused status ↦ err (http_status status)
            | success body ↦
                scan_items wanted ids names (listed (get "items" body)) found skipped >>= λ r.
                elim (ltb (item_count (listed (get "items" body))) size) [
                  | true ↦ ok r
                  | false ↦ search_pages wanted ids names answers pages (page + 1) r.0 r.1
                ]
          ]
    ]

unfoldable pub search_band :
    (wanted : ℕ)
    → List ℕ
    → List String
    → (answers : ℕ → ℕ → Response) → Result Error (List String × ℕ)
unfolding search_pages
search_band wanted ids names answers =
    search_pages wanted ids names answers search_max_pages 1 [] 0 >>= λ r. ok (take wanted r.0, r.1)
