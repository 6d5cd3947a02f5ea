-- ===== src/Queue/Sweep.antt =====
-- The worker's sweep (backend/app/worker.py): `reap_stuck` and then `fail_exhausted`, in one
-- transaction.
use flakehound.Base.{
  ℕ, ◌<◌, ◌≤◌, ◌≡◌, refl, subst, true, none, some, List, arith, In, In-map, of_In-map, In-filter,
  if◌then◌else◌,
}
use flakehound.Queue.{
  Row, Status, Settings, reap_row, fail_row, is_stuck, is_spent, reap_stuck, fail_exhausted,
}

-- Both statements see one `now`: Postgres' clock stands still within a transaction.
unfoldable pub recover : Settings → ℕ → List Row → List ℕ × List ℕ × List Row
unfolding reap_stuck fail_exhausted
recover s now rows =
    let (reaped, rows') = reap_stuck s now rows in
    let (spent, rows'') = fail_exhausted now rows' in (reaped, spent, rows'')

room_after :
    (now : ℕ) (r x : Row)
    → r ≡ (if is_spent x then fail_row now x else x)
    → r.status ≡ Status.pending
    → r.attempts < r.max_attempts
unfolding is_spent fail_row
room_after now r x q e = ground arith

-- After a sweep whatever is pending can still be claimed: its attempts are below its ceiling.
recover-has_room :
    (s : Settings) (now : ℕ) (rows : List Row) (r : Row)
    → In r (recover s now rows).2
    → r.status ≡ Status.pending
    → r.attempts < r.max_attempts
unfolding recover
recover-has_room s now rows r m e =
    let (x, _, q) =
      of_In-map (λ (x : Row). if is_spent x then fail_row now x else x) r (reap_stuck s now rows).1
        m in
    room_after now r x q e

-- What the sweep makes of a row that is out of attempts: failed, unlocked, completed now, and with
-- its attempts still counted.
pub record HasFailed (now : ℕ) (r x : Row) : Type 0 where
  pub id : x.id ≡ r.id
  pub status : x.status ≡ Status.failed
  pub locked_at : x.locked_at ≡ none
  pub completed_at : x.completed_at ≡ some now
  pub attempts : x.attempts ≡ r.attempts

fail_row-HasFailed : (now : ℕ) (r : Row) → HasFailed now r (fail_row now (reap_row now r))
unfolding fail_row reap_row
fail_row-HasFailed now r = record {
  id = refl;
  status = refl;
  locked_at = refl;
  completed_at = refl;
  attempts = refl;
}

-- A row of the table that is stuck and has no attempt left is dead-lettered by one sweep: the table
-- holds in its place a failed row, unlocked, completed at the sweep and with its attempts counted,
-- and both statements report its id.
pub recover-dead_letters :
    (s : Settings) (now : ℕ) (rows : List Row) (r : Row)
    → In r rows
    → is_stuck s now r ≡ true
    → r.max_attempts ≤ r.attempts
    → ((x : Row) × In x (recover s now rows).2 × HasFailed now r x)
      × In r.id (recover s now rows).0
      × In r.id (recover s now rows).1
unfolding recover reap_row
recover-dead_letters s now rows r m stuck h =
    let reaped : In (reap_row now r) (reap_stuck s now rows).1 =
      subst (λ x. In x (reap_stuck s now rows).1) (rw stuck refl)
        (In-map (λ (x : Row). if is_stuck s now x then reap_row now x else x) r rows m) in
    let spent : is_spent (reap_row now r) ≡ true = unfold is_spent in ground arith in
    (
      (
        fail_row now (reap_row now r),
        subst (λ x. In x (recover s now rows).2) (rw spent refl)
            (In-map (λ (x : Row). if is_spent x then fail_row now x else x) (reap_row now r) _
              reaped),
        fail_row-HasFailed now r,
      ),
      In-map (λ (x : Row). x.id) r _ (In-filter (is_stuck s now) r rows m stuck),
      In-map (λ (x : Row). x.id) (reap_row now r) _
          (In-filter is_spent (reap_row now r) (reap_stuck s now rows).1 reaped spent),
    )
