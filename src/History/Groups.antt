-- ===== src/History/Groups.antt =====
-- The grouping loop of `job_history` (backend/app/history.py): the rows and the commits that it
-- leaves.
use flakehound.Base.{
  ◌≡◌, ◌≢◌, refl, sym, ap, ◌∙◌, String, false, List, [], ◌∷◌, ◌++◌, same, Bool-cases, inl, inr,
  eq_iff, All,
}
use mathlib.Core.List.{append_assoc, append-nil}
use flakehound.History.{Attempt, CommitHistory, HistoryRow, add_row, add_rows, to_last}

abbrev of_commit : String → List Attempt → List HistoryRow
of_commit sha [] = []
of_commit sha (a ∷ xs) = record { head_sha = sha; attempt = a } ∷ of_commit sha xs

-- The rows that a history holds, in its order.
abbrev pub flatten : List CommitHistory → List HistoryRow
flatten [] = []
flatten (c ∷ cs) = of_commit c.head_sha c.attempts ++ flatten cs

of_commit-append :
    (sha : String) (xs ys : List Attempt)
    → of_commit sha (xs ++ ys) ≡ of_commit sha xs ++ of_commit sha ys
of_commit-append sha [] ys = refl
of_commit-append sha (a ∷ xs) ys =
    ap (λ t. record { head_sha = sha; attempt = a } ∷ t) (of_commit-append sha xs ys)

flatten-to_last :
    (c : CommitHistory) (row : HistoryRow)
    → flatten (to_last c row) ≡ of_commit c.head_sha c.attempts ++ (row ∷ [])
unfolding to_last
flatten-to_last c row = elim (Bool-cases (same c.head_sha row.head_sha)) [
  | inl e ↦
      let q = (eq_iff c.head_sha row.head_sha).0 e in
      rw (e) (
        append-nil _
        ∙ of_commit-append c.head_sha c.attempts (row.attempt ∷ [])
        ∙ ap
            (λ sha.
              of_commit c.head_sha c.attempts
              ++ (record { head_sha = sha; attempt = row.attempt } ∷ []))
            q)
  | inr e ↦ rw (e) refl
]

flatten-add_row :
    (history : List CommitHistory) (row : HistoryRow)
    → flatten (add_row history row) ≡ flatten history ++ (row ∷ [])
unfolding add_row
flatten-add_row [] row = refl
flatten-add_row (c ∷ []) row =
    flatten-to_last c row ∙ ap (λ t. t ++ (row ∷ [])) (sym (append-nil _))
flatten-add_row (c ∷ (d ∷ cs)) row =
    ap (λ t. of_commit c.head_sha c.attempts ++ t) (flatten-add_row (d ∷ cs) row)
    ∙ sym (append_assoc (of_commit c.head_sha c.attempts) (flatten (d ∷ cs)) (row ∷ []))

flatten-add_rows :
    (history : List CommitHistory) (rows : List HistoryRow)
    → flatten (add_rows history rows) ≡ flatten history ++ rows
unfolding add_rows
flatten-add_rows history [] = sym (append-nil _)
flatten-add_rows history (row ∷ rows) =
    flatten-add_rows (add_row history row) rows
    ∙ ap (λ t. t ++ rows) (flatten-add_row history row)
    ∙ append_assoc (flatten history) (row ∷ []) rows

-- Neighbouring commits of a history differ.
abbrev pub Separated : List CommitHistory → Type 0
Separated [] = Unit
Separated (c ∷ []) = Unit
Separated (c ∷ (d ∷ cs)) = (c.head_sha ≢ d.head_sha) × Separated (d ∷ cs)

differ : {a b : String} → same a b ≡ false → a ≢ b
differ {a} {b} e q = let k = (eq_iff a b).1 q in absurd (cc)

Separated-cons :
    (b c : CommitHistory) (cs : List CommitHistory) (row : HistoryRow)
    → b.head_sha ≢ c.head_sha
    → Separated (add_row (c ∷ cs) row)
    → Separated (b ∷ add_row (c ∷ cs) row)
unfolding add_row to_last
Separated-cons b c [] row n h = elim (Bool-cases (same c.head_sha row.head_sha)) [
  | inl e ↦ rw (e) (n, tt)
  | inr e ↦ rw (e) (n, (differ e, tt))
]
Separated-cons b c (d ∷ cs) row n h = (n, h)

Separated-add_row :
    (history : List CommitHistory) (row : HistoryRow)
    → Separated history
    → Separated (add_row history row)
unfolding add_row to_last
Separated-add_row [] row h = tt
Separated-add_row (c ∷ []) row h = elim (Bool-cases (same c.head_sha row.head_sha)) [
  | inl e ↦ rw (e) tt
  | inr e ↦ rw (e) (differ e, tt)
]
Separated-add_row (c ∷ (d ∷ cs)) row h =
    Separated-cons c d cs row h.0 (Separated-add_row (d ∷ cs) row h.1)

Separated-add_rows :
    (history : List CommitHistory) (rows : List HistoryRow)
    → Separated history
    → Separated (add_rows history rows)
unfolding add_rows
Separated-add_rows history [] h = h
Separated-add_rows history (row ∷ rows) h =
    Separated-add_rows (add_row history row) rows (Separated-add_row history row h)

abbrev pub HasAttempts : CommitHistory → Type 0
HasAttempts c = c.attempts ≢ []

no_nil : (xs : List Attempt) (a : Attempt) → xs ++ (a ∷ []) ≢ []
no_nil [] a e = cc
no_nil (x ∷ xs) a e = cc

HasAttempts-to_last :
    (c : CommitHistory) (row : HistoryRow) → HasAttempts c → All HasAttempts (to_last c row)
unfolding to_last
HasAttempts-to_last c row h = elim (Bool-cases (same c.head_sha row.head_sha)) [
  | inl e ↦ rw e (no_nil c.attempts row.attempt, tt)
  | inr e ↦ rw e (h, (no_nil [] row.attempt, tt))
]

HasAttempts-add_row :
    (history : List CommitHistory) (row : HistoryRow)
    → All HasAttempts history
    → All HasAttempts (add_row history row)
unfolding add_row
HasAttempts-add_row [] row h = (no_nil [] row.attempt, tt)
HasAttempts-add_row (c ∷ []) row h = HasAttempts-to_last c row h.0
HasAttempts-add_row (c ∷ (d ∷ cs)) row h = (h.0, HasAttempts-add_row (d ∷ cs) row h.1)

HasAttempts-add_rows :
    (history : List CommitHistory) (rows : List HistoryRow)
    → All HasAttempts history
    → All HasAttempts (add_rows history rows)
unfolding add_rows
HasAttempts-add_rows history [] h = h
HasAttempts-add_rows history (row ∷ rows) h =
    HasAttempts-add_rows (add_row history row) rows (HasAttempts-add_row history row h)

-- The loop groups the rows by runs of one commit: the groups that it leaves hold exactly the rows,
-- in their order, none of them is empty, and neighbouring groups are of different commits.
pub add_rows-IsGrouping :
    (rows : List HistoryRow)
    → (flatten (add_rows [] rows) ≡ rows)
      × All HasAttempts (add_rows [] rows)
      × Separated (add_rows [] rows)
add_rows-IsGrouping rows =
    (flatten-add_rows [] rows, HasAttempts-add_rows [] rows tt, Separated-add_rows [] rows tt)
