-- ===== src/Ingest/Steps.antt =====
-- Recording a delivery (backend/app/ingest.py) against the steps of the queue.
use flakehound.Base.{some, List, Bool-cases, inl, inr}
use flakehound.Queue.{ClaimedJob}
use flakehound.Queue.System.{System, Step, Reach}
use flakehound.Ingest.{Delivery, Store, record_delivery, is_duplicate}

abbrev pub queue_of : Store → List ClaimedJob → System
queue_of s held = record { rows = s.rows; held = held; next_id = s.next_id }

-- Recording a delivery is, for the queue, a sequence of the queue's steps that leaves the
-- outstanding claims as they are.
record_delivery-Reach :
    (d : Delivery) (s : Store) (held : List ClaimedJob)
    → Reach (queue_of s held) (queue_of (record_delivery d s).1 held)
unfolding record_delivery
record_delivery-Reach d s held = elim (Bool-cases (is_duplicate d.delivery_id s)) [
  | inl e ↦ rw (e) Reach.here
  | inr e ↦ rw (e) (
      Reach.next Reach.here
        (Step.enqueue d.now (some d.delivery_id) "webhook" (some d.event) d.payload 0))
]
