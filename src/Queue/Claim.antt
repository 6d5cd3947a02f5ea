-- ===== src/Queue/Claim.antt =====
-- What `claim_batch` of backend/app/queue.py hands a worker.
use flakehound.Base.{
  ℕ, ◌<◌, ◌≡◌, ◌≢◌, refl, sym, ap, subst, ◌∙◌, Bool, true, false, ◌&&◌, not, ◌⊎◌, inl, inr, List,
  arith, In, In-map, of_In-map, In-filter, of_In-filter, of_In-take, take, filter, if◌then◌else◌,
}
use flakehound.Base.Sort.{sort, of_In-sort, In-sort, sort-IsSorted, take_first}
use flakehound.Queue.{
  Row, ClaimedJob, Status, claimable, key_le, has_id, selected, to_claimed, claim_row, claim_rows,
  claim_batch,
}
use flakehound.Queue.Ids.{Unique, Unique-eq, map-Unique, if_id, has_id→In, In→has_id}

key_total : (r s : Row) → key_le r s ≡ false → key_le s r ≡ true
key_total r s h = ground arith

key_trans : (r s t : Row) → key_le r s ≡ true → key_le s t ≡ true → key_le r t ≡ true
key_trans r s t h k = ground arith

module _ (now limit : ℕ) (locked : ℕ → Bool) (rows : List Row) where
  abbrev free : Row → Bool
  free r = claimable now r && not (locked r.id)

  abbrev pub ids : List ℕ
  ids = selected now limit locked rows

  abbrev pub claimed : List ClaimedJob
  claimed = (claim_batch now limit locked rows).0

  abbrev pub after_claim : List Row
  after_claim = (claim_batch now limit locked rows).1

  free_parts : (r : Row) → free r ≡ true → (claimable now r ≡ true) × (locked r.id ≡ false)
  free_parts r h = ground arith

  -- A selected id is that of a free row, and of one that the sort and the limit let through.
  selected_row :
      (i : ℕ)
      → has_id i ids ≡ true
      → (r : Row) × In r (take limit (sort key_le (filter free rows))) × (r.id ≡ i)
  unfolding selected
  selected_row i h = has_id→In i (take limit (sort key_le (filter free rows))) h

  abbrev picked : List Row
  picked = take limit (sort key_le (filter free rows))

  selected_picked :
      (u : Unique rows) (r : Row)
      → In r rows
      → has_id r.id ids ≡ true
      → In r picked × (free r ≡ true)
  selected_picked u r m h =
      let (s, k, e) = selected_row r.id h in
      let in_free = of_In-sort key_le s (filter free rows) (of_In-take s limit _ k) in
      let (n, f) = of_In-filter free s rows in_free in
      let same_row = Unique-eq rows s r u n m e in
      (subst (λ t. In t picked) same_row k, subst (λ t. free t ≡ true) same_row f)

  claim_source :
      (j : ClaimedJob)
      → Unique rows
      → In j claimed
      → (r : Row) × In r rows
        × In r picked
        × (free r ≡ true)
        × (j ≡ to_claimed (claim_row now r))
        × In (claim_row now r) after_claim
  unfolding claim_batch
  claim_source j u h =
      let test = λ (r : Row). has_id r.id ids in
      let (r', m', e) = of_In-map to_claimed j (filter test (claim_rows now ids rows)) h in
      let (n', k) = of_In-filter test r' (claim_rows now ids rows) m' in
      let (r, m, q) = of_In-map (λ (r : Row). if test r then claim_row now r else r) r' rows n' in
      let k' : test r ≡ true =
        ground (arith, if_id (test r) r (claim_row now r) refl, ap (λ (s : Row). s.id) q) in
      let q' : r' ≡ claim_row now r = q ∙ rw k' refl in
      let (i, f) = selected_picked u r m k' in
      (r, m, i, f, e ∙ ap to_claimed q', subst (λ s. In s after_claim) q' n')

  -- Under the table's key, every job handed out is a claimable row that no other transaction
  -- holds, read after the claim, which the table then shows.
  claim_batch-claimable :
      (j : ClaimedJob)
      → Unique rows
      → In j claimed
      → (r : Row) × In r rows
        × (claimable now r ≡ true)
        × (locked r.id ≡ false)
        × (j ≡ to_claimed (claim_row now r))
        × In (claim_row now r) after_claim
  claim_batch-claimable j u h =
      let (r, m, _, f, e, a) = claim_source j u h in
      let (c, l) = free_parts r f in (r, m, c, l, e, a)

  claimed_of_selected :
      (r : Row) → In r rows → has_id r.id ids ≡ true → In (to_claimed (claim_row now r)) claimed
  unfolding claim_batch
  claimed_of_selected r m k =
      In-map to_claimed (claim_row now r) (filter (λ s. has_id s.id ids) (claim_rows now ids rows))
        (In-filter (λ s. has_id s.id ids) (claim_row now r) (claim_rows now ids rows)
          (subst (λ s. In s (claim_rows now ids rows)) (rw k refl)
            (In-map (λ (s : Row). if has_id s.id ids then claim_row now s else s) r rows m))
          k)

  -- Priority, then age: in a table of distinct ids, a claimable row that no other transaction
  -- holds is in the batch, or else comes no earlier in the order than the row of any job that is.
  pub claim_batch-priority :
      (j : ClaimedJob) (r : Row)
      → Unique rows
      → In j claimed
      → In r rows
      → claimable now r ≡ true
      → locked r.id ≡ false
      → In (to_claimed (claim_row now r)) claimed
        ⊎ ((s : Row) × In s rows × (j ≡ to_claimed (claim_row now s)) × (key_le s r ≡ true))
  claim_batch-priority j r u h m c l =
      let (s, n, i, f, e, _) = claim_source j u h in
      let free_r : free r ≡ true = rw (c, l) refl in
      let in_order = In-sort key_le r (filter free rows) (In-filter free r rows m free_r) in
      let sorted = sort-IsSorted key_le key_total key_trans (filter free rows) in
      elim (take_first key_le key_total key_trans limit _ sorted s r i in_order) [
        | inl k ↦ inl (claimed_of_selected r m (unfold selected in In→has_id r picked k))
        | inr le ↦ inr (s, n, e, le)
      ]

  -- A selected row has an attempt left.
  pub selected_room :
      (r : Row) → Unique rows → In r rows → has_id r.id ids ≡ true → r.attempts < r.max_attempts
  unfolding claimable
  selected_room r u m k = let (_, f) = selected_picked u r m k in ground arith

  pub after_claim-Unique : Unique rows → Unique after_claim
  unfolding claim_batch
  after_claim-Unique u =
      map-Unique (λ r. if has_id r.id ids then claim_row now r else r)
        (λ r. if_id (has_id r.id ids) r (claim_row now r) refl) rows u

processing_not_claimable :
    (now : ℕ) (r : Row) → r.status ≡ Status.processing → claimable now r ≡ true → ⊥
unfolding claimable
processing_not_claimable now r e h = ground arith

-- Two workers claim from one table of distinct ids, one after the other, at any times and with any
-- row locks: no job reaches both.
pub claim_batch-disjoint :
    (rows : List Row) (now limit now' limit' : ℕ) (locked locked' : ℕ → Bool) (j k : ClaimedJob)
    → Unique rows
    → In j (claim_batch now limit locked rows).0
    → In k (claim_batch now' limit' locked' (claim_batch now limit locked rows).1).0
    → j.id ≢ k.id
unfolding to_claimed claim_row
claim_batch-disjoint rows now limit now' limit' locked locked' j k u h i e =
    let (r, m, _, _, p, a) = claim_batch-claimable now limit locked rows j u h in
    let v = after_claim-Unique now limit locked rows u in
    let (s, n, c, _, q, _) =
      claim_batch-claimable now' limit' locked' (after_claim now limit locked rows) k v i in
    let ids_meet : s.id ≡ r.id =
      ap (λ (x : ClaimedJob). x.id) (sym q) ∙ sym e ∙ ap (λ (x : ClaimedJob). x.id) p in
    let one = Unique-eq (after_claim now limit locked rows) s (claim_row now r) v n a ids_meet in
    processing_not_claimable now' s (ap (λ (x : Row). x.status) one) c
