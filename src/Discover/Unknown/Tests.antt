-- ===== src/Discover/Unknown/Tests.antt =====
-- The theorem on `search_band` of backend/app/discover.py at a page of two hits, one of them stored.
use flakehound.Base.{ℕ, ◌≡◌, refl, ◌≤◌, String, List, [], ◌∷◌, length, All}
use flakehound.Base.Result.{ok, Returns}
use flakehound.Json.{Json, obj, arr, cons, nil, field, end, num, str}
use flakehound.Backfill.Runs.{Response, success}
use flakehound.Discover.{search_band}
use flakehound.Discover.Unknown.{AreNamed, IsUnknown, search_band-AreUnknown}

abbrev hit : ℕ → String → Json
hit id name = obj (field "id" (num id) (field "full_name" (str name) end))

abbrev answers : ℕ → ℕ → Response
answers size page =
    success (obj (field "items" (arr (cons (hit 3 "o/r") (cons (hit 4 "o/s") nil))) end))

abbrev stored : List String
stored = "o/r" ∷ []

found_one : search_band 5 (3 ∷ []) stored answers ≡ ok ("o/s" ∷ [], 1)
unfolding search_band
found_one = refl

stored-AreNamed : AreNamed stored
stored-AreNamed = refl

search_band-AreUnknown_example :
    Returns
      (λ r. (length r.0 ≤ 5) × All (IsUnknown stored) r.0)
      (search_band 5 (3 ∷ []) stored answers)
search_band-AreUnknown_example = search_band-AreUnknown 5 (3 ∷ []) stored stored-AreNamed answers
