-- ===== src/Worker/Answers.antt =====
-- What a pass of the worker (backend/app/worker.py) makes of each row that it has claimed.
use flakehound.Base.{
  ℕ, String, ◌+◌, ◌-◌, ◌≡◌, ◌≢◌, refl, sym, ap, ◌∙◌, subst, Bool, true, false, none, some, inl, inr,
  List, [], ◌∷◌, ◌++◌, ◌==◌, ==_iff, filter, map, All, All-map, All-filter, All-In, In, In-map,
  of_In-map, of_In-filter, In-append_right, Bool-cases, if◌then◌else◌,
}
use flakehound.Queue.{
  Row, ClaimedJob, Settings, Status, claim_batch, claim_rows, claim_row, returned, selected, has_id,
  to_claimed, at_id, done_row, retry_row, defer_row, mark_done, mark_for_retry, defer, exhausted,
  retry_delay_seconds,
}
use flakehound.Queue.Ids.{Unique, map-Unique, if_id}
use flakehound.Worker.{Store, Ending, settle, run_jobs, run_once}

-- A handler leaves the rows of the queue that are there; it may add more.
abbrev pub IsQueueSafe : {F : Type 0} → (ClaimedJob → Store F → Ending F) → Type 0
IsQueueSafe {F} handle =
    (job : ClaimedJob) (s s' : Store F) (x : Row)
    → handle job s ≡ Ending.handled s'
    → In x s.rows
    → In x s'.rows

-- After a failure: out of attempts, or due again after the backoff.
abbrev Retried : Settings → ℕ → ClaimedJob → Bool → Row → Type 0
Retried c now job true r =
    (r.status ≡ Status.failed) × (r.completed_at ≡ some now) × (r.attempts ≡ job.attempts)
Retried c now job false r =
    (r.status ≡ Status.pending)
    × (r.next_attempt_at ≡ some (now + retry_delay_seconds c job.attempts))
    × (r.attempts ≡ job.attempts)

-- A claimed row that is answered: unlocked, and done, put back without the attempt, or retried, as
-- its handler ended.
abbrev pub Answered : {F : Type 0} → Settings → ℕ → ClaimedJob → Ending F → Row → Type 0
Answered c now job (Ending.handled s) r =
    (r.locked_at ≡ none) × (r.status ≡ Status.done) × (r.completed_at ≡ some now)
Answered c now job (Ending.rate_limited seconds reason) r =
    (r.locked_at ≡ none)
    × (r.status ≡ Status.pending)
    × (r.next_attempt_at ≡ some (now + seconds))
    × (r.attempts ≡ job.attempts - 1)
Answered c now job (Ending.raised error) r =
    (r.locked_at ≡ none) × Retried c now job (exhausted job) r

-- The row of a job in a table, answered.
abbrev pub HasAnswer : {F : Type 0} → Settings → ℕ → ClaimedJob → Ending F → List Row → Type 0
HasAnswer c now job e rows = (r : Row) × In r rows × (r.id ≡ job.id) × Answered c now job e r

-- An UPDATE of another row.
at_id-other :
    (i : ℕ) (f : Row → Row) (x : Row) (rows : List Row)
    → x.id ≢ i
    → In x rows
    → In x (at_id i f rows)
unfolding at_id
at_id-other i f x rows n m = elim (Bool-cases (x.id == i)) [
  | inl e ↦ absurd (n ((==_iff x.id i).0 e))
  | inr e ↦
      subst (λ y. In y (at_id i f rows)) (rw e refl)
        (In-map (λ r. if r.id == i then f r else r) x rows m)
]

-- An UPDATE of the row itself.
at_id-same :
    (i : ℕ) (f : Row → Row) (x : Row) (rows : List Row)
    → x.id ≡ i
    → In x rows
    → In (f x) (at_id i f rows)
unfolding at_id
at_id-same i f x rows q m =
    subst (λ y. In y (at_id i f rows)) (rw ((==_iff x.id i).1 q) refl)
      (In-map (λ r. if r.id == i then f r else r) x rows m)

module _ {F : Type 0} (c : Settings) where
  settle-other :
      (now : ℕ) (job : ClaimedJob) (e : Ending F) (s : Store F) (x : Row)
      → ((s' : Store F) → e ≡ Ending.handled s' → In x s'.rows)
      → x.id ≢ job.id
      → In x s.rows
      → In x (settle c now job e s).rows
  unfolding settle mark_done mark_for_retry defer
  settle-other now job (Ending.handled s') s x safe n m =
      at_id-other job.id (done_row now) x s'.rows n (safe s' refl)
  settle-other now job (Ending.rate_limited seconds reason) s x safe n m =
      at_id-other job.id (defer_row now seconds reason) x s.rows n m
  settle-other now job (Ending.raised error) s x safe n m =
      at_id-other job.id (retry_row c now job error) x s.rows n m

  retry_row-Answered :
      (now : ℕ) (job : ClaimedJob) (error : String) (s : Store F) (x : Row)
      → x.attempts ≡ job.attempts
      → ((retry_row c now job error x).id ≡ x.id)
        × Answered {F = F} c now job (Ending.raised error) (retry_row c now job error x)
  unfolding retry_row
  retry_row-Answered now job error s x a = elim (Bool-cases (exhausted job)) [
    | inl e ↦ rw e (refl, (refl, (refl, refl, a)))
    | inr e ↦ rw e (refl, (refl, (refl, refl, a)))
  ]

  settle-HasAnswer :
      (now : ℕ) (job : ClaimedJob) (e : Ending F) (s : Store F) (x : Row)
      → ((s' : Store F) → e ≡ Ending.handled s' → In x s'.rows)
      → x.id ≡ job.id
      → x.attempts ≡ job.attempts
      → In x s.rows
      → HasAnswer c now job e (settle c now job e s).rows
  unfolding settle mark_done mark_for_retry defer done_row defer_row
  settle-HasAnswer now job (Ending.handled s') s x safe q a m = (
    done_row now x,
    at_id-same job.id (done_row now) x s'.rows q (safe s' refl),
    q,
    (refl, refl, refl),
  )
  settle-HasAnswer now job (Ending.rate_limited seconds reason) s x safe q a m = (
    defer_row now seconds reason x,
    at_id-same job.id (defer_row now seconds reason) x s.rows q m,
    q,
    (refl, refl, refl, ap (λ n. n - 1) a),
  )
  settle-HasAnswer now job (Ending.raised error) s x safe q a m =
      let (k, h) = retry_row-Answered now job error s x a in
      (
        retry_row c now job error x,
        at_id-same job.id (retry_row c now job error) x s.rows q m,
        k ∙ q,
        h,
      )

  module _ (clock : ClaimedJob → ℕ) (handle : ClaimedJob → Store F → Ending F)
      (safe : IsQueueSafe handle) where
    run_jobs-other :
        (jobs : List ClaimedJob) (s : Store F) (x : Row)
        → All (λ j. x.id ≢ j.id) jobs
        → In x s.rows
        → In x (run_jobs c clock handle jobs s).rows
    unfolding run_jobs
    run_jobs-other [] s x h m = m
    run_jobs-other (job ∷ jobs) s x h m =
        run_jobs-other jobs (settle c (clock job) job (handle job s) s) x h.1
          (settle-other (clock job) job (handle job s) s x (λ s' e. safe job s s' x e m) h.0 m)

    -- The jobs before it leave its row alone, its handler's ending answers it, and the jobs after it
    -- leave the answer alone.
    run_jobs-HasAnswer :
        (before after : List ClaimedJob) (job : ClaimedJob) (s : Store F) (x : Row)
        → All (λ j. x.id ≢ j.id) before
        → All (λ j. x.id ≢ j.id) after
        → x.id ≡ job.id
        → x.attempts ≡ job.attempts
        → In x s.rows
        → HasAnswer c
            (clock job)
            job
            (handle job (run_jobs c clock handle before s))
            (run_jobs c clock handle (before ++ (job ∷ after)) s).rows
    unfolding run_jobs
    run_jobs-HasAnswer [] after job s x h k q a m =
        let (r, i, e, w) =
          settle-HasAnswer (clock job) job (handle job s) s x (λ s' e. safe job s s' x e m) q a m in
        (r, run_jobs-other after _ r (subst (λ n. All (λ j. n ≢ j.id) after) (q ∙ sym e) k) i, e, w)
    run_jobs-HasAnswer (b ∷ before) after job s x h k q a m =
        run_jobs-HasAnswer before after job (settle c (clock b) b (handle b s) s) x h.1 k q a
          (settle-other (clock b) b (handle b s) s x (λ s' e. safe b s s' x e m) h.0 m)

-- Claims of distinct rows.
abbrev Apart : List ClaimedJob → Type 0
Apart [] = Unit
Apart (j ∷ js) = All (λ k. k.id ≢ j.id) js × Apart js

Unique-filter : (p : Row → Bool) (rows : List Row) → Unique rows → Unique (filter p rows)
Unique-filter p [] u = tt
Unique-filter p (x ∷ xs) u = elim (Bool-cases (p x)) [
  | inl e ↦ rw e (All-filter (λ s. s.id ≢ x.id) p xs u.0, Unique-filter p xs u.1)
  | inr e ↦ rw e (Unique-filter p xs u.1)
]

All-claimed :
    (i : ℕ) (rows : List Row) → All (λ s. s.id ≢ i) rows → All (λ k. k.id ≢ i) (map to_claimed rows)
unfolding to_claimed
All-claimed i [] h = tt
All-claimed i (x ∷ xs) h = (h.0, All-claimed i xs h.1)

Apart-claimed : (rows : List Row) → Unique rows → Apart (map to_claimed rows)
unfolding to_claimed
Apart-claimed [] u = tt
Apart-claimed (x ∷ xs) u = (All-claimed x.id xs u.0, Apart-claimed xs u.1)

Apart-split :
    (before after : List ClaimedJob) (job : ClaimedJob)
    → Apart (before ++ (job ∷ after))
    → All (λ j. job.id ≢ j.id) before × All (λ j. job.id ≢ j.id) after
Apart-split [] after job h = (tt, All-map (λ k n e. n (sym e)) after h.0)
Apart-split (b ∷ before) after job h =
    let (l, r) = Apart-split before after job h.1 in
    (
      (
        All-In (λ k. k.id ≢ b.id) job (before ++ (job ∷ after)) h.0
            (In-append_right job before (job ∷ after) (inl refl)),
        l,
      ),
      r,
    )

-- The jobs and the store that a pass goes over.
abbrev pub claimed : {F : Type 0} → ℕ → ℕ → (ℕ → Bool) → Store F → List ClaimedJob × Store F
claimed now batch_size locked s =
    let (jobs, rows) = claim_batch now batch_size locked s.rows in (jobs, record s { rows = rows })

claim_rows-Unique :
    (now : ℕ) (ids : List ℕ) (rows : List Row) → Unique rows → Unique (claim_rows now ids rows)
unfolding claim_rows claim_row
claim_rows-Unique now ids rows u =
    map-Unique (λ r. if has_id r.id ids then claim_row now r else r)
      (λ r. if_id (has_id r.id ids) r (claim_row now r) refl) rows u

-- Over a table of distinct ids, a pass of the worker answers every job that it claims, whatever the
-- handlers do but take rows out of the queue: the job's row is unlocked and done if its handler
-- returned, unlocked and pending until the limiter's wait is over, without the attempt, if the
-- handler was rate limited, and unlocked and pending until the backoff is over, or failed if its
-- attempts are spent, with the attempt counted, if the handler raised. The handler sees the store
-- that the jobs before it have left.
pub run_once-HasAnswer :
    {F : Type 0} (c : Settings) (now : ℕ) (clock : ClaimedJob → ℕ)
    (handle : ClaimedJob → Store F → Ending F) (locked : ℕ → Bool) (batch_size : ℕ) (s : Store F)
    (before after : List ClaimedJob) (job : ClaimedJob)
    → IsQueueSafe handle
    → Unique s.rows
    → (claimed now batch_size locked s).0 ≡ before ++ (job ∷ after)
    → HasAnswer c
        (clock job)
        job
        (handle job (run_jobs c clock handle before (claimed now batch_size locked s).1))
        (run_once c now clock handle locked batch_size s).1.rows
unfolding run_once claim_batch returned to_claimed
run_once-HasAnswer c now clock handle locked batch_size s before after job safe u q =
    let ids = selected now batch_size locked s.rows in
    let rows = claim_rows now ids s.rows in
    let kept = filter (λ r. has_id r.id ids) rows in
    let unique = Unique-filter (λ r. has_id r.id ids) rows (claim_rows-Unique now ids s.rows u) in
    let found = subst (In job) (sym q) (In-append_right job before (job ∷ after) (inl refl)) in
    let (x, i, e) = of_In-map to_claimed job kept found in
    let (m, _) = of_In-filter (λ r. has_id r.id ids) x rows i in
    let id : x.id ≡ job.id = ap (λ (j : ClaimedJob). j.id) (sym e) in
    let (l, r) = Apart-split before after job (subst Apart q (Apart-claimed kept unique)) in
    let on = λ (jobs : List ClaimedJob). subst (λ n. All (λ j. n ≢ j.id) jobs) (sym id) in
    rw q (
      run_jobs-HasAnswer c clock handle safe before after job (record s { rows = rows }) x
        (on before l) (on after r) id (ap (λ (j : ClaimedJob). j.attempts) (sym e)) m)
