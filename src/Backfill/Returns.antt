-- ===== src/Backfill/Returns.antt =====
-- When a page of backend/app/backfill.py does not raise.
use flakehound.Base.{
  ℕ, ◌≤◌, ◌<◌, ◌≡◌, refl, String, true, inl, inr, Option, some, arith, Bool-cases, Option-cases,
}
use flakehound.Base.Result.{Result, ok}
use flakehound.Json.{Json, Items, nil, cons, get, as_num, as_str}
use flakehound.Facts.{Repository}
use flakehound.Backfill.Window.{Window, span_days}
use flakehound.Backfill.Crawl.{IsValid, halved_lem, next_lem}
use flakehound.Backfill.Runs.{Settings, Error, Store, or_raise, record_run, backfill_priority}
use flakehound.Backfill.Handler.{record_runs, handle_page, more_pages, or_zero, listed, narrow_now}

-- Every run of a listing names its commit, as GitHub documents.
abbrev pub NamesCommits : Items → Type 0
NamesCommits nil = Unit
NamesCommits (cons run rest) =
    ((sha : String) × (as_str (get "head_sha" run) ≡ some sha)) × NamesCommits rest

abbrev pub Succeeds : {A : Type 0} → Result Error A → Type 0
Succeeds {A} m = (a : A) × (m ≡ ok a)

record_run-Succeeds :
    (parse : String → Option ℕ) (now repo_id : ℕ) (run : Json) (priority : ℕ) (s : Store)
    → (sha : String) → as_str (get "head_sha" run) ≡ some sha
    → Succeeds (record_run parse now repo_id run priority s)
unfolding record_run or_raise
record_run-Succeeds parse now repo_id run priority s sha q =
    elim (Option-cases (as_num (get "id" run))) [
      | inl e ↦ rw (e, record_run) (_, refl)
      | inr (i, e) ↦ rw (e, record_run) (rw (q) (_, refl))
    ]

record_runs-Succeeds :
    (parse : String → Option ℕ) (now repo_id : ℕ) (runs : Items) (priority : ℕ) (s : Store)
    → NamesCommits runs
    → Succeeds (record_runs parse now repo_id runs priority s)
unfolding record_runs
record_runs-Succeeds parse now repo_id nil priority s h = (s, refl)
record_runs-Succeeds parse now repo_id (cons run rest) priority s h =
    let (r, e) = record_run-Succeeds parse now repo_id run priority s h.0.0 h.0.1 in
    let (t, f) = record_runs-Succeeds parse now repo_id rest priority r.1 h.1 in (t, rw (e) f)

-- From a valid window, above a floor that leaves room for a window before it, a page whose runs
-- all name their commit is handled without an error.
handle_page-Succeeds :
    (parse : String → Option ℕ) (c : Settings) (now floor : ℕ) (r : Repository) (w : Window)
    → (page : ℕ) (body : Json) (s : Store) → 1 < floor
    → c.backfill_window_days ≤ floor
    → IsValid floor c.backfill_window_days w
    → NamesCommits (listed (get "workflow_runs" body))
    → Succeeds (handle_page parse c now floor r w page body s)
unfolding handle_page or_raise
handle_page-Succeeds parse c now floor r w page body s p q v names =
    let total = or_zero (as_num (get "total_count" body)) in
    let runs = listed (get "workflow_runs" body) in
    elim (Bool-cases (narrow_now c page total w)) [
      | inl e ↦
          let (h, f, k, v', l) =
            halved_lem floor c.backfill_window_days w (omega arith) v (long e) in
          rw (e, handle_page) (rw (f) (_, refl))
      | inr e ↦
          let (t, g) = record_runs-Succeeds parse now r.id runs (backfill_priority r) s names in
          rw (e, handle_page)
            (rw (g) (elim (Bool-cases (more_pages c page total runs)) [
              | inl m ↦ rw (m) (_, refl)
              | inr m ↦ rw (m) (elim (next_lem floor c.backfill_window_days w p q v) [
                | inl (f, k) ↦ rw (f) (_, refl)
                | inr (n, f, k, v') ↦ rw (f) (_, refl)
              ])
            ]))
    ]
  where
    long : narrow_now c page (or_zero (as_num (get "total_count" body))) w ≡ true → 0 < span_days w
    long e = ground arith
