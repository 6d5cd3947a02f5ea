-- ===== src/Reevaluate/Again.antt =====
-- Queuing the stored payloads again does not compound.
use flakehound.Base.{
  String, ℕ, ◌+◌, ◌≡◌, refl, ap, ◌∙◌, false, Option, List, [], ◌∷◌, ◌++◌, map, filter, length,
}
use flakehound.Json.{Json}
use flakehound.Queue.{Row}
use flakehound.Reevaluate.{is_source, copied, copy_all, enqueue_reevaluation}

copied_source :
    (repo_id : Option ℕ) (now id : ℕ) (r : Row) → is_source repo_id (copied now id r) ≡ false
unfolding is_source copied
copied_source repo_id now id r = refl

filter-copies :
    (repo_id : Option ℕ) (now id : ℕ) (source rows : List Row)
    → filter (is_source repo_id) (copy_all now id source ++ rows) ≡ filter (is_source repo_id) rows
unfolding copy_all
filter-copies repo_id now id [] rows = refl
filter-copies repo_id now id (r ∷ source) rows =
    rw (copied_source repo_id now id r) (filter-copies repo_id now (id + 1) source rows)

-- What a row of the queue asks a worker to do, and when it arrived.
abbrev pub content : Row → Option String × (Json × ℕ)
content r = (r.event, (r.payload, r.created_at))

contents : (now id : ℕ) (rows : List Row) → map content (copy_all now id rows) ≡ map content rows
unfolding copy_all copied
contents now id [] = refl
contents now id (r ∷ rows) = ap (λ t. content r ∷ t) (contents now (id + 1) rows)

-- A run after another, for whatever repositories, queues one row for each stored webhook row that it
-- selects, as if the other had not been: with the row's event, payload and created_at, in front of a
-- table that is otherwise as it was; and it answers with their number.
pub enqueue_reevaluation-again :
    (before : Option ℕ) (repo_id : Option ℕ) (now later next_id : ℕ) (rows : List Row)
    → (added : List Row) × (((enqueue_reevaluation later repo_id
            (enqueue_reevaluation now before rows next_id).0
            (enqueue_reevaluation now before rows next_id).1.0).0
          ≡ added ++ (enqueue_reevaluation now before rows next_id).0)
        × ((map content added ≡ map content (filter (is_source repo_id) rows))
            × ((enqueue_reevaluation later repo_id
                  (enqueue_reevaluation now before rows next_id).0
                  (enqueue_reevaluation now before rows next_id).1.0).1.1
                ≡ length (filter (is_source repo_id) rows))))
unfolding enqueue_reevaluation
enqueue_reevaluation-again before repo_id now later next_id rows =
    let first = copy_all now next_id (filter (is_source before) rows) in
    let again = filter (is_source repo_id) (first ++ rows) in
    let next = next_id + length (filter (is_source before) rows) in
    let same_rows = filter-copies repo_id now next_id (filter (is_source before) rows) rows in
    (
      copy_all later next again,
      (refl, (contents later next again ∙ ap (λ t. map content t) same_rows, ap length same_rows)),
    )
