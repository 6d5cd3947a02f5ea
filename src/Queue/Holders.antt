-- ===== src/Queue/Holders.antt =====
-- The attempts of a row against the claims on it (backend/app/queue.py), over every interleaving of
-- backend/app/worker.py's workers with the reaper and the sweep.
use flakehound.Base.{
  ℕ, ◌+◌, ◌≤◌, ◌<◌, ◌≡◌, ◌≢◌, refl, ap, subst, String, Bool, inl, inr, List, [], ◌∷◌, ◌++◌, map,
  arith, All, In, filter, All-In, All-of_In, All-map, All-append, of_In-map, of_In-filter, In-map,
  ◌==◌, if◌then◌else◌,
}
use flakehound.Queue.{
  Row, ClaimedJob, has_id, to_claimed, claim_row, at_id, claim_batch, done_row, retry_row,
  defer_row, reap_row, fail_row, is_stuck, is_spent, mark_done, mark_for_retry, defer, reap_stuck,
  fail_exhausted,
}
use flakehound.Queue.Ids.{Unique, map-Unique, if_id}
use flakehound.Queue.Claim.{ids, selected_room, after_claim-Unique}
use flakehound.Queue.System.{System, Step, Reach, start, holders, new_row}

holders-append :
    (i : ℕ) (js ks : List ClaimedJob) → holders i (js ++ ks) ≡ holders i js + holders i ks
holders-append i [] ks = omega arith
holders-append i (j ∷ js) ks = omega (arith, holders-append i js ks)

-- Taking one claim out of the outstanding ones.
holders_without :
    (i : ℕ) (before after : List ClaimedJob) (j : ClaimedJob)
    → holders i (before ++ (j ∷ after)) ≡ (if j.id == i then 1 else 0) + holders i (before ++ after)
holders_without i before after j =
    omega (arith, holders-append i before (j ∷ after), holders-append i before after)

holders_absent :
    (i : ℕ) (test : Row → Bool) (rs : List Row)
    → All (λ s. s.id ≢ i) rs
    → holders i (map to_claimed (filter test rs)) ≡ 0
unfolding to_claimed
holders_absent i test [] h = refl
holders_absent i test (r ∷ rs) h = ground (arith, holders_absent i test rs h.1)

holders_returned :
    (r : Row) (test : Row → Bool) (rs : List Row)
    → Unique rs
    → In r rs
    → holders r.id (map to_claimed (filter test rs)) ≤ (if test r then 1 else 0)
unfolding to_claimed
holders_returned r test [] u m = absurd m
holders_returned r test (x ∷ xs) u (inl e) = ground (arith, holders_absent x.id test xs u.0)
holders_returned r test (x ∷ xs) u (inr m) =
    let apart : r.id ≢ x.id = All-In (λ y. y.id ≢ x.id) r xs u.0 m in
    ground (arith, holders_returned r test xs u.1 m)

-- A row's attempts cover the claims outstanding on it, and stay within its ceiling.
abbrev pub IsCovered : List ClaimedJob → Row → Type 0
IsCovered held r = (holders r.id held ≤ r.attempts) × (r.attempts ≤ r.max_attempts)

pub record Accounted (s : System) : Type 0 where
  pub unique : Unique s.rows
  pub covered : All (IsCovered s.held) s.rows
  pub rows_below : All (λ r. r.id < s.next_id) s.rows
  pub held_below : All (λ j. j.id < s.next_id) s.held

-- The rows under an UPDATE, and the claims outstanding after it.
module _ (held held' : List ClaimedJob) (f : Row → Row) where
  map-IsCovered :
      (rows : List Row)
      → ((r : Row) → In r rows → IsCovered held r → IsCovered held' (f r))
      → All (IsCovered held) rows
      → All (IsCovered held') (map f rows)
  map-IsCovered [] g h = tt
  map-IsCovered (r ∷ rs) g h = (g r (inl refl) h.0, map-IsCovered rs (λ x i. g x (inr i)) h.1)

map_below :
    (f : Row → Row) (n : ℕ) (rows : List Row)
    → ((r : Row) → (f r).id ≡ r.id)
    → All (λ r. r.id < n) rows
    → All (λ r. r.id < n) (map f rows)
map_below f n [] keeps h = tt
map_below f n (r ∷ rs) keeps h = (rw (keeps r) h.0, map_below f n rs keeps h.1)

without_below :
    (n : ℕ) (before after : List ClaimedJob) (j : ClaimedJob)
    → All (λ j. j.id < n) (before ++ (j ∷ after))
    → All (λ j. j.id < n) (before ++ after)
without_below n [] after j h = h.1
without_below n (k ∷ before) after j h = (h.0, without_below n before after j h.1)

-- A step that maps the rows one by one and drops a claim, or none.
update-Accounted :
    (s : System) (held' : List ClaimedJob) (f : Row → Row)
    → Accounted s
    → ((r : Row) → (f r).id ≡ r.id)
    → All (λ j. j.id < s.next_id) held'
    → ((r : Row) → IsCovered s.held r → IsCovered held' (f r))
    → Accounted (record s { rows = map f s.rows; held = held' })
update-Accounted s held' f v keeps below g = record {
  unique = map-Unique f keeps s.rows v.unique;
  covered = map-IsCovered s.held held' f s.rows (λ r _. g r) v.covered;
  rows_below = map_below f s.next_id s.rows keeps v.rows_below;
  held_below = below;
}

module _ (s : System) (before after : List ClaimedJob) (j : ClaimedJob)
    (e : s.held ≡ before ++ (j ∷ after)) (change : Row → Row)
    (keeps : (r : Row) → (change r).id ≡ r.id) where
  -- An answer to a claim that spends at most the attempt it was counted for.
  answer-Accounted :
      Accounted s
      → ((r : Row)
          → (r.attempts ≤ (change r).attempts + 1)
            × ((change r).attempts ≤ r.attempts)
            × ((change r).max_attempts ≡ r.max_attempts))
      → Accounted (record s { rows = at_id j.id change s.rows; held = before ++ after })
  unfolding at_id
  answer-Accounted v cost =
      update-Accounted s (before ++ after) (λ r. if r.id == j.id then change r else r) v
        (λ r. if_id (r.id == j.id) r (change r) (keeps r))
        (without_below s.next_id before after j
          (subst (All (λ j. j.id < s.next_id)) e v.held_below))
        (λ r c.
          ground (arith, cost r, keeps r, ap (holders r.id) e, holders_without r.id before after j))

below_mono : (n : ℕ) (rows : List Row) → All (λ r. r.id < n) rows → All (λ r. r.id < n + 1) rows
below_mono n rows = All-map (λ r h. omega arith) rows

holders_above : (n : ℕ) (held : List ClaimedJob) → All (λ j. j.id < n) held → holders n held ≡ 0
holders_above n [] h = refl
holders_above n (j ∷ js) h = ground (arith, holders_above n js h.1)

enqueue-Accounted :
    (s : System) (r : Row)
    → r.id ≡ s.next_id
    → r.attempts ≡ 0
    → Accounted s
    → Accounted (record s { rows = r ∷ s.rows; next_id = s.next_id + 1 })
enqueue-Accounted s r i a v = record {
  unique = (All-map (λ x h e. absurd (omega arith)) s.rows v.rows_below, v.unique);
  covered = (
    omega (arith, holders_above s.next_id s.held v.held_below, ap (λ n. holders n s.held) i),
    v.covered,
  );
  rows_below = (omega arith, below_mono s.next_id s.rows v.rows_below);
  held_below = All-map (λ j h. omega arith) s.held v.held_below;
}

module _ (s : System) (now limit : ℕ) (locked : ℕ → Bool) (v : Accounted s) where
  abbrev test : Row → Bool
  test r = has_id r.id (ids now limit locked s.rows)

  abbrev claimed_row : Row → Row
  claimed_row r = if test r then claim_row now r else r

  claimed_row_id : (r : Row) → (claimed_row r).id ≡ r.id
  unfolding claim_row
  claimed_row_id r = if_id (test r) r (claim_row now r) refl

  claims_below : All (λ j. j.id < s.next_id) (map to_claimed (filter test (map claimed_row s.rows)))
  unfolding to_claimed
  claims_below = All-of_In _ λ j i.
      let (r', k, e) = of_In-map to_claimed j (filter test (map claimed_row s.rows)) i in
      let (m, _) = of_In-filter test r' (map claimed_row s.rows) k in
      let below =
        All-In (λ (r : Row). r.id < s.next_id) r' _
          (map_below claimed_row s.next_id s.rows claimed_row_id v.rows_below) m in
      omega (arith, ap (λ (j : ClaimedJob). j.id) e)

  abbrev claims : List ClaimedJob
  claims = map to_claimed (filter test (map claimed_row s.rows))

  claims_once :
      (r : Row) → In r s.rows → holders (claimed_row r).id claims ≤ (if test r then 1 else 0)
  claims_once r m =
      subst
        (λ i.
          holders (claimed_row r).id claims
          ≤ (if has_id i (ids now limit locked s.rows) then 1 else 0))
        (claimed_row_id r)
        (holders_returned (claimed_row r) test (map claimed_row s.rows)
          (map-Unique claimed_row claimed_row_id s.rows v.unique) (In-map claimed_row r s.rows m))

  claim_covers :
      (r : Row) → In r s.rows → IsCovered s.held r → IsCovered (claims ++ s.held) (claimed_row r)
  unfolding claim_row
  claim_covers r m c = ground (
    arith,
    claims_once r m,
    selected_room now limit locked s.rows r v.unique m,
    holders-append (claimed_row r).id claims s.held,
    claimed_row_id r,
    ap (λ i. holders i s.held) (claimed_row_id r),
  )

  claim-Accounted : Accounted (record s {
    rows = (claim_batch now limit locked s.rows).1;
    held = (claim_batch now limit locked s.rows).0 ++ s.held;
  })
  unfolding claim_batch
  claim-Accounted = record {
    unique = after_claim-Unique now limit locked s.rows v.unique;
    covered = map-IsCovered s.held _ claimed_row s.rows claim_covers v.covered;
    rows_below = map_below claimed_row s.next_id s.rows claimed_row_id v.rows_below;
    held_below = All-append (λ j. j.id < s.next_id) _ s.held claims_below v.held_below;
  }

step-Accounted : {s t : System} → Step s t → Accounted s → Accounted t
unfolding mark_done mark_for_retry defer reap_stuck reap_row fail_exhausted fail_row new_row
step-Accounted {s} (Step.enqueue now d t e p q) v = enqueue-Accounted s _ refl refl v
step-Accounted {s} (Step.claim now limit locked) v = claim-Accounted s now limit locked v
step-Accounted {s} (Step.finish now before after j e) v =
    answer-Accounted s before after j e (done_row now) (λ r. refl) v (λ r. omega arith)
step-Accounted {s} (Step.retry c now error before after j e) v =
    answer-Accounted s before after j e (retry_row c now j error) (λ r. ground arith) v
      (λ r. ground arith)
step-Accounted {s} (Step.put_back now seconds reason before after j e) v =
    answer-Accounted s before after j e (defer_row now seconds reason) (λ r. refl) v
      (λ r. ground arith)
step-Accounted {s} (Step.crash before after j e) v = record {
  unique = v.unique;
  covered =
      All-map (λ r c. ground (arith, ap (holders r.id) e, holders_without r.id before after j))
        s.rows v.covered;
  rows_below = v.rows_below;
  held_below =
      without_below s.next_id before after j (subst (All (λ j. j.id < s.next_id)) e v.held_below);
}
step-Accounted {s} (Step.reap c now) v =
    update-Accounted s s.held (λ r. if is_stuck c now r then reap_row now r else r) v
      (λ r. if_id (is_stuck c now r) r (reap_row now r) refl) v.held_below (λ r h. ground arith)
step-Accounted {s} (Step.fail now) v =
    update-Accounted s s.held (λ r. if is_spent r then fail_row now r else r) v
      (λ r. if_id (is_spent r) r (fail_row now r) refl) v.held_below (λ r h. ground arith)

pub Reach-Accounted : {s t : System} → Accounted s → Reach s t → Accounted t
Reach-Accounted v Reach.here = v
Reach-Accounted v (Reach.next p st) = step-Accounted st (Reach-Accounted v p)

pub start-Accounted : Accounted start
start-Accounted = record { unique = tt; covered = tt; rows_below = tt; held_below = tt }

-- From the empty table, whatever the workers, the reaper, the sweep and crashes do, and in
-- whatever order: the ids stay distinct, no row has more claims outstanding than attempts counted,
-- and no row's attempts pass its ceiling.
pub attempts_cover_claims :
    {s : System} → Reach start s → Unique s.rows × All (IsCovered s.held) s.rows
attempts_cover_claims p = let v = Reach-Accounted start-Accounted p in (v.unique, v.covered)

-- In every reachable table, deferring a row with a claim outstanding gives back exactly one
-- attempt, also when the reaper has meanwhile given the row to another worker: the count is never
-- below one when it is decremented.
pub defer_gives_back_one :
    {s : System} (now seconds : ℕ) (reason : String) (before after : List ClaimedJob)
    (j : ClaimedJob) (r : Row)
    → Reach start s
    → s.held ≡ before ++ (j ∷ after)
    → In r s.rows
    → r.id ≡ j.id
    → (defer_row now seconds reason r).attempts + 1 ≡ r.attempts
unfolding defer_row
defer_gives_back_one {s} now seconds reason before after j r p e m i =
    let c = All-In (IsCovered s.held) r s.rows (Reach-Accounted start-Accounted p).covered m in
    ground (arith, c, ap (holders r.id) e, holders_without r.id before after j)
