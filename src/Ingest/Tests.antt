-- ===== src/Ingest/Tests.antt =====
-- The theorem on backend/app/ingest.py at a redelivery.
use flakehound.Base.{◌≡◌, List, [], ◌∷◌, if◌then◌else◌}
use flakehound.Json.{Json}
use flakehound.Ingest.{Delivery}
use flakehound.Ingest.Once.{record_all, empty, queued, arrived, record_delivery-once}

abbrev push : Delivery
push = record { now = 100; delivery_id = "a"; event = "workflow_run"; payload = Json.null }

abbrev other : Delivery
other = record { now = 200; delivery_id = "b"; event = "workflow_job"; payload = Json.null }

abbrev arrivals : List Delivery
arrivals = push ∷ (other ∷ (push ∷ []))

record_delivery-once_example :
    queued "a" (record_all arrivals empty).rows ≡ (if arrived "a" arrivals then 1 else 0)
record_delivery-once_example = record_delivery-once "a" arrivals
