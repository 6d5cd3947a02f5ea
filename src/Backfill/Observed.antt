-- ===== src/Backfill/Observed.antt =====
-- `start_observed_backfills` of backend/app/backfill.py, over the table of repositories and the
-- queue.
mod Tests
pub mod Once
use flakehound.Base.{
  ℕ, Bool, true, false, ◌&&◌, Option, none, some, List, [], ◌∷◌, leb, ◌==◌, filter, map, take,
  if◌then◌else◌,
}
use flakehound.Base.Result.{Result, ok, err, ◌>>=◌}
use flakehound.Base.Sort.{sort}
use flakehound.Base.Upsert.{find}
use flakehound.Facts.{Repository, BackfillStatus}
use flakehound.Queue.{Row}
use flakehound.Backfill.Runs.{Settings, Error, Store, is_observed}
use flakehound.Backfill.Handler.{start_backfill}

-- The tables that the statement selects from and that `start_backfill` writes.
pub record Pool : Type 0 where
  pub repos : List Repository
  pub rows : List Row
  pub next_id : ℕ

abbrev pub is_pending : BackfillStatus → Bool
is_pending BackfillStatus.pending = true
is_pending _ = false

-- The WHERE of the SELECT.
unfoldable pub is_waiting : Repository → Bool
unfolding is_observed
is_waiting r = is_observed r && r.active && is_pending r.backfill_status

abbrev pub id_le : Repository → Repository → Bool
id_le a b = leb a.id b.id

unfoldable pub waiting : ℕ → List Repository → List ℕ
unfolding sort is_waiting
waiting limit repos = take limit (map (λ r. r.id) (sort id_le (filter is_waiting repos)))

-- What `start_backfill` sees for one repository.
unfoldable pub view : ℕ → Pool → Store
unfolding find
view repo_id p = record {
  repo = find (λ r. r.id == repo_id) p.repos;
  workflows = [];
  runs = [];
  rows = p.rows;
  next_id = p.next_id;
}

abbrev pub put_back : ℕ → Option Repository → List Repository → List Repository
put_back repo_id none repos = repos
put_back repo_id (some new) repos = map (λ r. if r.id == repo_id then new else r) repos

-- The tables after it: a backfill that was not started writes nothing.
unfoldable pub written : ℕ → Option ℕ → Store → Pool → Pool
written repo_id none s p = p
written repo_id (some row) s p = record {
  repos = put_back repo_id s.repo p.repos;
  rows = s.rows;
  next_id = s.next_id;
}

abbrev pub add_started : ℕ → Option ℕ → List ℕ → List ℕ
add_started repo_id none started = started
add_started repo_id (some row) started = repo_id ∷ started

-- for repo_id in repo_ids: …
unfoldable pub start_each :
    Settings → (now today : ℕ) → Option ℕ → List ℕ → Pool → Result Error (List ℕ × Pool)
unfolding start_backfill view written
start_each c now today days [] p = ok ([], p)
start_each c now today days (repo_id ∷ ids) p =
    start_backfill c now today days (view repo_id p) >>= λ r.
    start_each c now today days ids (written repo_id r.0 r.1 p) >>= λ rest.
    ok (add_started repo_id r.0 rest.0, rest.1)

unfoldable pub start_observed_backfills :
    Settings → (now today limit : ℕ) → Option ℕ → Pool → Result Error (List ℕ × Pool)
unfolding waiting start_each
start_observed_backfills c now today limit days p =
    start_each c now today days (waiting limit p.repos) p
