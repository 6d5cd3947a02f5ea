-- ===== src/History/States.antt =====
-- What a commit's state means (backend/app/history.py).
use flakehound.Base.{◌≡◌, ◌↔◌, ◌+◌, true, false, List, [], ◌∷◌, any, length, filter, is_some, arith}
use flakehound.History.{
  Attempt, CommitHistory, state, flaked, passed, failing, passing, failures, opportunities,
}

-- A commit has flaked exactly if some run on it is implicated, and it passed exactly if a run on
-- it succeeded, none failed and none is implicated.
state_iff :
    (c : CommitHistory)
    → ((state c ≡ flaked) ↔ (any (λ a. a.implicated) c.attempts ≡ true))
      × ((state c ≡ passed) ↔ (
          (any passing c.attempts ≡ true)
          × (any failing c.attempts ≡ false)
          × (any (λ a. a.implicated) c.attempts ≡ false)))
unfolding state
state_iff c = ground arith

-- Every judged run of a commit is a failure or a success.
failures_lem :
    (c : CommitHistory) → failures c + length (filter passing c.attempts) ≡ opportunities c
unfolding failures opportunities
failures_lem c = count c.attempts
  where
    count :
        (attempts : List Attempt)
        → length (filter failing attempts) + length (filter passing attempts)
          ≡ length (filter (λ a. is_some a.outcome) attempts)
    count [] = omega arith
    count (a ∷ rest) = ground (arith, count rest)
