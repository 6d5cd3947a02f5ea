-- ===== src/Queue/Shape.antt =====
-- The shape of an `event_queue` row under the statements of backend/app/queue.py: which columns go
-- with which status, and what the reaper finds.
use flakehound.Base.{
  ℕ, ◌+◌, ◌<◌, refl, subst, String, All-In, ◌==◌, ◌≡◌, Bool, true, false, Option, none, some, List,
  [], ◌∷◌, ltb, map, arith, All, Bool-cases, if◌then◌else◌, In, inl, inr, In-map,
}
use flakehound.Queue.Claim.{ids}
use flakehound.Queue.{
  Row, ClaimedJob, exhausted, Status, Settings, claim_batch, claim_row, at_id, done_row, retry_row,
  defer_row, reap_row, fail_row, claimable, is_stuck, is_spent, mark_done, mark_for_retry, defer,
  reap_stuck, fail_exhausted, has_id,
}
use flakehound.Queue.System.{System, Step, Reach, start, new_row}

abbrev pub Fits : Status → Option ℕ → Option ℕ → Type 0
Fits Status.pending locked completed = locked ≡ none
Fits Status.processing locked completed = (t : ℕ) × (locked ≡ some t)
Fits _ locked completed = (locked ≡ none) × ((t : ℕ) × (completed ≡ some t))

-- A processing row is locked and no other row is; a finished row says when it finished.
abbrev pub HasShape : Row → Type 0
HasShape r = Fits r.status r.locked_at r.completed_at

if-HasShape : (b : Bool) (r s : Row) → HasShape r → HasShape s → HasShape (if b then s else r)
if-HasShape true r s h k = k
if-HasShape false r s h k = h

map-HasShape :
    (test : Row → Bool) (f : Row → Row) (rows : List Row)
    → ((r : Row) → HasShape (f r))
    → All HasShape rows
    → All HasShape (map (λ r. if test r then f r else r) rows)
map-HasShape test f [] k h = tt
map-HasShape test f (r ∷ rs) k h =
    (if-HasShape (test r) r (f r) h.0 (k r), map-HasShape test f rs k h.1)

retry-HasShape :
    (s : Settings) (now : ℕ) (j : ClaimedJob) (error : String) (r : Row)
    → HasShape (retry_row s now j error r)
unfolding retry_row
retry-HasShape s now j error r = elim (Bool-cases (exhausted j)) [
  | inl e ↦ rw e (refl, (now, refl))
  | inr e ↦ rw e refl
]

step-HasShape : {s t : System} → Step s t → All HasShape s.rows → All HasShape t.rows
unfolding new_row claim_batch claim_row at_id mark_done done_row mark_for_retry defer defer_row
    reap_stuck reap_row fail_exhausted fail_row
step-HasShape (Step.enqueue now d t e p q) h = (refl, h)
step-HasShape {s} (Step.claim now limit locked) h =
    map-HasShape (λ r. has_id r.id (ids now limit locked s.rows)) (claim_row now) s.rows
      (λ r. (now, refl)) h
step-HasShape {s} (Step.finish now before after j e) h =
    map-HasShape (λ r. r.id == j.id) (done_row now) s.rows (λ r. (refl, (now, refl))) h
step-HasShape {s} (Step.retry c now error before after j e) h =
    map-HasShape (λ r. r.id == j.id) (retry_row c now j error) s.rows (retry-HasShape c now j error)
      h
step-HasShape {s} (Step.put_back now seconds reason before after j e) h =
    map-HasShape (λ r. r.id == j.id) (defer_row now seconds reason) s.rows (λ r. refl) h
step-HasShape (Step.crash before after j e) h = h
step-HasShape {s} (Step.reap c now) h =
    map-HasShape (is_stuck c now) (reap_row now) s.rows (λ r. refl) h
step-HasShape {s} (Step.fail now) h =
    map-HasShape is_spent (fail_row now) s.rows (λ r. (refl, (now, refl))) h

Reach-HasShape : {s t : System} → All HasShape s.rows → Reach s t → All HasShape t.rows
Reach-HasShape h Reach.here = h
Reach-HasShape h (Reach.next p st) = step-HasShape st (Reach-HasShape h p)

-- In every reachable table a processing row has a lock time, a pending row has none, and a done
-- or failed row has none and a completion time.
pub reachable-HasShape : {s : System} → Reach start s → All HasShape s.rows
reachable-HasShape p = Reach-HasShape tt p

stuck_of :
    (c : Settings) (now t : ℕ) (r : Row)
    → r.status ≡ Status.processing
    → r.locked_at ≡ some t
    → t + c.reaper_timeout < now
    → is_stuck c now r ≡ true
unfolding is_stuck
stuck_of c now t r e l h = ground arith

lock_of : (r : Row) → HasShape r → r.status ≡ Status.processing → (t : ℕ) × (r.locked_at ≡ some t)
lock_of r h e = subst (λ st. Fits st r.locked_at r.completed_at) e h

-- What the reaper makes of a row: pending, unlocked, with every attempt still counted, and claimable,
-- at any instant, exactly if an attempt is left.
pub record IsReturned (r x : Row) : Type 0 where
  pub id : x.id ≡ r.id
  pub status : x.status ≡ Status.pending
  pub locked_at : x.locked_at ≡ none
  pub attempts : x.attempts ≡ r.attempts
  pub ready : (later : ℕ) → claimable later x ≡ ltb r.attempts r.max_attempts

reap_row-IsReturned : (now : ℕ) (r : Row) → IsReturned r (reap_row now r)
unfolding reap_row claimable
reap_row-IsReturned now r = record {
  id = refl;
  status = refl;
  locked_at = refl;
  attempts = refl;
  ready = λ later. ground arith;
}

-- No work is lost with a worker: in every reachable table, a row that is processing has a lock
-- time, and a pass of the reaper at any instant after that and the timeout leaves in its place a
-- pending row, unlocked and with its attempts still counted, which can be claimed, at any instant, exactly
-- if they are below the ceiling. The instant is `after + 1` microseconds past the timeout.
pub reap_recovers :
    {s : System} (c : Settings) (after : ℕ) (r : Row)
    → Reach start s
    → In r s.rows
    → r.status ≡ Status.processing
    → (t : ℕ) × (r.locked_at ≡ some t)
      × (x : Row) × In x (reap_stuck c (t + c.reaper_timeout + (after + 1)) s.rows).1
      × IsReturned r x
unfolding reap_stuck
reap_recovers {s} c after r p m e =
    let (t, l) = lock_of r (All-In HasShape r s.rows (reachable-HasShape p) m) e in
    let now = t + c.reaper_timeout + (after + 1) in
    (
      t,
      l,
      reap_row now r,
      subst (λ x. In x (reap_stuck c now s.rows).1) (rw (stuck_of c now t r e l (omega arith)) refl)
          (In-map (λ (x : Row). if is_stuck c now x then reap_row now x else x) r s.rows m),
      reap_row-IsReturned now r,
    )
