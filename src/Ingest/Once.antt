-- ===== src/Ingest/Once.antt =====
-- Redelivered webhooks (backend/app/ingest.py), and the rows queued for them.
use flakehound.Base.{
  ℕ, ◌+◌, ◌≡◌, refl, ap, ◌∙◌, sym, String, Bool, true, false, Option, none, some, List, [], ◌∷◌,
  any, same, if◌then◌else◌, Bool-cases, inl, inr, arith, eq_iff, subst, filter, length, ◌||◌,
}
use mathlib.Core.Bool.{or_assoc, or_comm}
use flakehound.Queue.{Row}
use flakehound.Ingest.{Delivery, Store, record_delivery, is_duplicate}

-- The deliveries that reached the route, in order.
abbrev pub record_all : List Delivery → Store → Store
record_all [] s = s
record_all (d ∷ ds) s = record_all ds (record_delivery d s).1

abbrev pub empty : Store
empty = record { deliveries = []; rows = []; next_id = 1 }

abbrev names : String → Option String → Bool
names i none = false
names i (some j) = same j i

-- How many rows are queued for a delivery id.
abbrev pub queued : String → List Row → ℕ
queued i rows = length (filter (λ r. names i r.delivery_id) rows)

abbrev pub arrived : String → List Delivery → Bool
arrived i = any (λ d. same d.delivery_id i)

Queued : String → Store → Type 0
Queued i s = queued i s.rows ≡ (if is_duplicate i s then 1 else 0)

known_after :
    (i : String) (d : Delivery) (s : Store)
    → is_duplicate i (record_delivery d s).1 ≡ (is_duplicate i s || same d.delivery_id i)
unfolding record_delivery
known_after i d s = elim (Bool-cases (is_duplicate d.delivery_id s)) [
  | inl e ↦ elim (Bool-cases (same d.delivery_id i)) [
    | inl q ↦
        let twice = subst (λ j. is_duplicate j s ≡ true) ((eq_iff _ _).0 q) e in
        rw (e, q, twice) refl
    | inr q ↦ rw (e, q) (or_comm false _)
  ]
  | inr e ↦ rw (e) (or_comm (same d.delivery_id i) _)
]

queued_after :
    (i : String) (d : Delivery) (s : Store)
    → queued i (record_delivery d s).1.rows
      ≡ (if is_duplicate d.delivery_id s then 0 else if same d.delivery_id i then 1 else 0)
        + queued i s.rows
unfolding record_delivery
queued_after i d s = elim (Bool-cases (is_duplicate d.delivery_id s)) [
  | inl e ↦ rw (e) (omega arith)
  | inr e ↦ elim (Bool-cases (same d.delivery_id i)) [
    | inl q ↦ rw (e, q) (omega arith)
    | inr q ↦ rw (e, q) (omega arith)
  ]
]

one_more :
    (fresh here known : Bool) (n : ℕ)
    → (here ≡ true → known ≡ fresh)
    → n ≡ (if known then 1 else 0)
    → (if fresh then 0 else if here then 1 else 0) + n ≡ (if known || here then 1 else 0)
one_more fresh here known n same_name h = ground arith

Queued-record_delivery :
    (i : String) (d : Delivery) (s : Store) → Queued i s → Queued i (record_delivery d s).1
unfolding Queued
Queued-record_delivery i d s h =
    queued_after i d s
    ∙ one_more _ _ (is_duplicate i s) _ (λ q. ap (λ j. is_duplicate j s) (sym ((eq_iff _ _).0 q))) h
    ∙ ap (λ b. if b then 1 else 0) (sym (known_after i d s))

record_all-queued :
    (i : String) (ds : List Delivery) (s : Store)
    → Queued i s
    → queued i (record_all ds s).rows ≡ (if is_duplicate i s || arrived i ds then 1 else 0)
unfolding Queued
record_all-queued i [] s h = elim (Bool-cases (is_duplicate i s)) [
  | inl e ↦ h ∙ rw e refl
  | inr e ↦ h ∙ rw e refl
]
record_all-queued i (d ∷ ds) s h =
    record_all-queued i ds (record_delivery d s).1 (Queued-record_delivery i d s h)
    ∙ rw (known_after i d s) (ap (λ b. if b then 1 else 0) (or_assoc (is_duplicate i s) _ _))

-- From the empty tables, after any deliveries in any order and with any repetitions, exactly one
-- row is queued for an id that arrived and none for any other.
pub record_delivery-once :
    (i : String) (ds : List Delivery)
    → queued i (record_all ds empty).rows ≡ (if arrived i ds then 1 else 0)
unfolding Queued is_duplicate
record_delivery-once i ds = record_all-queued i ds empty refl
