-- ===== src/ApiMetrics/Tests.antt =====
-- The theorem on backend/app/apimetrics.py at three requests, one over the limit of a reservoir.
use flakehound.Base.{ℕ, ◌≡◌, refl, List, [], ◌∷◌}
use flakehound.ApiMetrics.{fresh, observe_request, count}
use flakehound.ApiMetrics.Bounds.{Call, request, counted, after, requests, Holds, after-Holds}

abbrev calls : List (Call ℕ)
calls =
    request "/b" 0 30
    ∷ request "/a" 1 20
    ∷ counted "webhook_deliveries_received" 1
    ∷ request "/a" 0 10
    ∷ request "/a" 0 5
    ∷ []

-- A delivery is counted once.
counted_once : (after calls (fresh 2)).counters ≡ ("webhook_deliveries_received", 1) ∷ []
unfolding observe_request count
counted_once = refl

after-Holds_example : Holds 2 (requests calls) (after calls (fresh 2)).latency
after-Holds_example = after-Holds 2 calls
