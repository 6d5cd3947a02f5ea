-- ===== src/Backfill/Observed/Once.antt =====
-- Which repositories `start_observed_backfills` of backend/app/backfill.py takes when it runs again.
use flakehound.Base.{
  ℕ, ◌≡◌, refl, ◌≤◌, Bool, true, false, ◌&&◌, Option, none, some, List, [], ◌∷◌, inl, inr, ◌==◌,
  filter, map, length, length-take, if◌then◌else◌, Bool-cases, arith, All, All-map, All-take,
}
use flakehound.Base.Result.{ok, ◌>>=◌, Returns, Returns-bind, Returns-map, Returns-both}
use flakehound.Base.Sort.{sort, All-sort}
use flakehound.Facts.{Repository, BackfillStatus}
use flakehound.Backfill.Window.{Window, first_window}
use flakehound.Backfill.Runs.{Settings, Store, save_cursor, enqueue, is_observed}
use flakehound.Backfill.Handler.{start_backfill, pending_runs_row, span_of}
use flakehound.Backfill.Wake.{Returns-or_raise}
use flakehound.Backfill.Observed.{
  Pool, is_waiting, id_le, waiting, view, put_back, written, add_started, start_each,
  start_observed_backfills,
}

-- No repository of this id waits for a backfill.
abbrev pub Rested : ℕ → List Repository → Type 0
Rested i repos = All (λ r. (r.id == i) && is_waiting r ≡ false) repos

-- The repository that a started backfill leaves does not wait.
abbrev Started : Option Repository → Type 0
Started none = ⊥
Started (some r) = is_waiting r ≡ false

abbrev LeavesStarted : Option ℕ × Store → Type 0
LeavesStarted (none, s) = Unit
LeavesStarted (some row, s) = Started s.repo

and_and_false : (a b : Bool) → a && b && false ≡ false
and_and_false true true = refl
and_and_false true false = refl
and_and_false false true = refl
and_and_false false false = refl

and_false : (b : Bool) → b && false ≡ false
and_false true = refl
and_false false = refl

running_rests :
    (now : ℕ) (w : Window) (r : Repository)
    → is_waiting (save_cursor now (some w) (some 1) BackfillStatus.running r) ≡ false
unfolding is_waiting save_cursor is_observed
running_rests now w r = and_and_false (is_observed r) r.active

start_backfill-LeavesStarted :
    (c : Settings) (now today : ℕ) (days : Option ℕ) (s : Store)
    → Returns LeavesStarted (start_backfill c now today days s)
unfolding start_backfill enqueue
start_backfill-LeavesStarted c now today days s = Returns-or_raise LeavesStarted _ s.repo _ λ r.
    elim (Bool-cases (pending_runs_row r.id s.rows)) [
      | inl e ↦ rw e tt
      | inr e ↦ rw e (
          Returns-or_raise LeavesStarted _
            (first_window today (span_of c days r) c.backfill_window_days) _
            λ w. running_rests now w r)
    ]

-- Whatever a repository is before, replaced by one that does not wait or not.
replaced_rests :
    (i repo_id : ℕ) (new r : Repository)
    → is_waiting new ≡ false
    → (r.id == repo_id ≡ false → (r.id == i) && is_waiting r ≡ false)
    → let q = if r.id == repo_id then new else r in (q.id == i) && is_waiting q ≡ false
replaced_rests i repo_id new r w h = elim (Bool-cases (r.id == repo_id)) [
  | inl e ↦ rw e (rw w (and_false (new.id == i)))
  | inr e ↦ rw e (h e)
]

Rested-kept :
    (i repo_id : ℕ) (new : Option Repository) (repos : List Repository)
    → Started new
    → Rested i repos
    → Rested i (put_back repo_id new repos)
Rested-kept i repo_id none repos w h = absurd w
Rested-kept i repo_id (some new) [] w h = tt
Rested-kept i repo_id (some new) (r ∷ repos) w h =
    (replaced_rests i repo_id new r w (λ e. h.0), Rested-kept i repo_id (some new) repos w h.1)

Rested-put :
    (repo_id : ℕ) (new : Option Repository) (repos : List Repository)
    → Started new
    → Rested repo_id (put_back repo_id new repos)
Rested-put repo_id none repos w = absurd w
Rested-put repo_id (some new) [] w = tt
Rested-put repo_id (some new) (r ∷ repos) w =
    (replaced_rests repo_id repo_id new r w (λ e. rw e refl), Rested-put repo_id (some new) repos w)

Rested-written :
    (i repo_id : ℕ) (r : Option ℕ × Store) (p : Pool)
    → LeavesStarted r
    → Rested i p.repos
    → Rested i (written repo_id r.0 r.1 p).repos
unfolding written
Rested-written i repo_id (none, s) p k h = h
Rested-written i repo_id (some row, s) p k h = Rested-kept i repo_id s.repo p.repos k h

start_each-Rested :
    (c : Settings) (now today : ℕ) (days : Option ℕ) (i : ℕ) (ids : List ℕ) (p : Pool)
    → Rested i p.repos
    → Returns (λ r. Rested i r.1.repos) (start_each c now today days ids p)
unfolding start_each
start_each-Rested c now today days i [] p h = h
start_each-Rested c now today days i (repo_id ∷ ids) p h =
    Returns-bind LeavesStarted (λ (r : List ℕ × Pool). Rested i r.1.repos) _ _
      (start_backfill-LeavesStarted c now today days (view repo_id p))
      λ r k.
        Returns-bind (λ (rest : List ℕ × Pool). Rested i rest.1.repos)
          (λ (r : List ℕ × Pool). Rested i r.1.repos) _ _
          (start_each-Rested c now today days i ids (written repo_id r.0 r.1 p)
            (Rested-written i repo_id r p k h))
          λ rest q. q

-- What a run leaves: as many as it was given at most, none of which still waits.
abbrev Leaves : List ℕ → List ℕ × Pool → Type 0
Leaves ids r = (length r.0 ≤ length ids) × All (λ i. Rested i r.1.repos) r.0

start_each-Leaves :
    (c : Settings) (now today : ℕ) (days : Option ℕ) (ids : List ℕ) (p : Pool)
    → Returns (Leaves ids) (start_each c now today days ids p)
unfolding start_each written
start_each-Leaves c now today days [] p = (omega arith, tt)
start_each-Leaves c now today days (repo_id ∷ ids) p =
    Returns-bind LeavesStarted (Leaves (repo_id ∷ ids)) _ _
      (start_backfill-LeavesStarted c now today days (view repo_id p))
      λ r k. later (λ p'. start_each-Leaves c now today days ids p') r k
  where
    later :
        ((p' : Pool) → Returns (Leaves ids) (start_each c now today days ids p'))
        → (r : Option ℕ × Store) → LeavesStarted r
        → Returns (Leaves (repo_id ∷ ids)) (
            start_each c now today days ids (written repo_id r.0 r.1 p) >>= λ rest.
            ok (add_started repo_id r.0 rest.0, rest.1))
    later ih (none, s) k =
        Returns-bind (Leaves ids) (Leaves (repo_id ∷ ids)) _ _ (ih p)
          λ rest q. (omega (arith, q.0), q.1)
    later ih (some row, s) k =
        let after = written repo_id (some row) s p in
        Returns-bind (λ rest. Leaves ids rest × Rested repo_id rest.1.repos)
          (Leaves (repo_id ∷ ids)) _ _
          (Returns-both (Leaves ids) (λ rest. Rested repo_id rest.1.repos) _ (ih after)
            (start_each-Rested c now today days repo_id ids after
              (Rested-put repo_id s.repo p.repos k)))
          λ rest q. (omega (arith, q.0.0), (q.1, q.0.1))

left_false : (b c : Bool) → c ≡ true → b && c ≡ false → b ≡ false
left_false false c e h = refl
left_false true c e h = cc

All-keep :
    (i : ℕ) (repos : List Repository)
    → Rested i repos
    → All (λ r. r.id == i ≡ false) (filter is_waiting repos)
All-keep i [] h = tt
All-keep i (r ∷ repos) h = elim (Bool-cases (is_waiting r)) [
  | inl e ↦ rw e (left_false (r.id == i) (is_waiting r) e h.0, All-keep i repos h.1)
  | inr e ↦ rw e (All-keep i repos h.1)
]

All-ids :
    (P : ℕ → Type 0) (repos : List Repository)
    → All (λ r. P r.id) repos
    → All P (map (λ r. r.id) repos)
All-ids P [] h = tt
All-ids P (r ∷ repos) h = (h.0, All-ids P repos h.1)

-- A repository that does not wait is none of those that the statement selects.
waiting-Rested :
    (limit i : ℕ) (repos : List Repository)
    → Rested i repos
    → All (λ j. j == i ≡ false) (waiting limit repos)
unfolding waiting
waiting-Rested limit i repos h =
    All-take (λ j. j == i ≡ false) limit _
      (All-ids (λ j. j == i ≡ false) _
        (All-sort id_le (λ r. r.id == i ≡ false) _ (All-keep i repos h)))

-- A run for observed repositories starts at most `limit` of them, and a further run, whatever its
-- limit, selects none that it has started.
pub start_observed_backfills-once :
    (c : Settings) (now today limit further : ℕ) (days : Option ℕ) (p : Pool)
    → Returns
        (λ r.
          (length r.0 ≤ limit)
          × All (λ i. All (λ j. j == i ≡ false) (waiting further r.1.repos)) r.0)
        (start_observed_backfills c now today limit days p)
unfolding start_observed_backfills waiting
start_observed_backfills-once c now today limit further days p =
    Returns-map (Leaves (waiting limit p.repos)) _ _
      (λ r q. (
        omega (
          arith,
          q.0,
          length-take limit (map (λ r. r.id) (sort id_le (filter is_waiting p.repos))),
        ),
        All-map (λ i h. waiting-Rested further i r.1.repos h) r.0 q.1,
      ))
      (start_each-Leaves c now today days (waiting limit p.repos) p)
