-- ===== src/Ingest.antt =====
-- backend/app/ingest.py: recording a webhook delivery and queueing its work, over the
-- `webhook_deliveries` and `event_queue` tables of backend/app/models.py. The savepoint and the
-- commit make both inserts one step, and the primary key is the only test for a redelivery.
mod Tests
pub mod Once
pub mod Steps
use flakehound.Base.{
  ℕ, ◌+◌, String, Bool, true, false, Option, some, List, ◌∷◌, any, same, if◌then◌else◌,
}
use flakehound.Json.{Json, get, as_str, number}
use flakehound.Queue.{Row}
use flakehound.Queue.System.{new_row}

pub record WebhookDelivery : Type 0 where
  pub delivery_id : String
  pub event : String
  pub action : Option String
  pub installation_id : Option ℕ
  pub repo_id : Option ℕ
  pub received_at : ℕ

pub record Store : Type 0 where
  pub deliveries : List WebhookDelivery
  pub rows : List Row
  pub next_id : ℕ

-- What the route passes on, and the clock of its transaction.
pub record Delivery : Type 0 where
  pub now : ℕ
  pub delivery_id : String
  pub event : String
  pub payload : Json

abbrev live_priority : ℕ
live_priority = 0

unfoldable pub nested_id : Json → String → Option ℕ
unfolding get number
nested_id payload key = number (get "id" (get key payload))

unfoldable pub to_delivery : Delivery → WebhookDelivery
unfolding nested_id get as_str
to_delivery d = record {
  delivery_id = d.delivery_id;
  event = d.event;
  action = as_str (get "action" d.payload);
  installation_id = nested_id d.payload "installation";
  repo_id = nested_id d.payload "repository";
  received_at = d.now;
}

-- The unique violation that the first insert raises.
unfoldable pub is_duplicate : String → Store → Bool
is_duplicate i s = any (λ w. same w.delivery_id i) s.deliveries

-- Whether the delivery was new, and the store after.
unfoldable pub record_delivery : Delivery → Store → Bool × Store
unfolding is_duplicate to_delivery new_row
record_delivery d s = if is_duplicate d.delivery_id s then (false, s) else (
  true,
  record {
    deliveries = to_delivery d ∷ s.deliveries;
    rows =
        new_row d.now s.next_id (some d.delivery_id) "webhook" (some d.event) d.payload
          live_priority
        ∷ s.rows;
    next_id = s.next_id + 1;
  },
)
