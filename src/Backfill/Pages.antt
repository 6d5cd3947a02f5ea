-- ===== src/Backfill/Pages.antt =====
-- What `handle_backfill_jobs` of backend/app/backfill.py has read and stored when it returns: the
-- jobs of every page that the listing's total spans.
mod Tests
use native.Mathlib.Nat.{mul-le-mul_right}
use flakehound.Base.{
  ℕ, zero, suc, ◌+◌, ◌*◌, ◌-◌, ◌≤◌, ◌<◌, ◌≡◌, refl, sym, ap, ◌∙◌, subst, String, Bool, true, false,
  Option, some, List, [], ◌∷◌, ◌==◌, ==_iff, leb, In, inl, inr, arith, Bool-cases,
}
use flakehound.Base.Result.{Result, ok, err, ◌>>=◌}
use flakehound.Base.Upsert.{find, upsert}
use flakehound.Json.{
  Json, Items, nil, cons, null, bool, str, arr, num, obj, Fields, get, number, as_num, as_str,
  list_of,
}
use flakehound.Json as Json
use flakehound.Facts.{Job, Repository}
use flakehound.Detection as Detection
use flakehound.Upserts.Jobs.{upsert_job, job_values, write_job, merge_job, steps_of}
use flakehound.Upserts.Runs.{run_workflow_id}
use flakehound.Handlers.{Store, put_stub, evaluate, evaluate_all}
use flakehound.Backfill.Runs.{
  Settings, Response, not_found, refused, success, or_raise, request_identity,
}
use flakehound.Backfill.Jobs.{
  Fetched, expired, fetched, set_field, record_job, record_jobs, fetch_pages, evaluate_fetched,
  handle_backfill_jobs, max_job_pages, jobs_of, total_of, sorted_names,
}
use flakehound.Backfill.Stored.{AreComplete, AreStored, AreStored-Grows, Grows, record_jobs-stores}

-- A page of a listing: these jobs, and the number of all of them.
abbrev pub IsListed : Items → ℕ → Response → Type 0
IsListed jobs total (success (obj fs)) =
    (Json.find "jobs" fs ≡ arr jobs) × (Json.find "total_count" fs ≡ num total)
IsListed jobs total _ = ⊥

listed_reads :
    (jobs : Items) (total : ℕ) (r : Response)
    → IsListed jobs total r
    → (body : Json) × (r ≡ success body)
      × (jobs_of body ≡ ok jobs)
      × (total_of (get "total_count" body) ≡ ok total)
unfolding jobs_of total_of get Json.find or_raise list_of
listed_reads jobs total (success (obj fs)) (p, q) = (obj fs, refl, rw p refl, rw q refl)
listed_reads jobs total (success null) h = absurd h
listed_reads jobs total (success (bool b)) h = absurd h
listed_reads jobs total (success (num n)) h = absurd h
listed_reads jobs total (success (str t)) h = absurd h
listed_reads jobs total (success (arr xs)) h = absurd h
listed_reads jobs total not_found h = absurd h
listed_reads jobs total (refused status) h = absurd h

-- What a page that is read comes to.
fetch_pages_step :
    (parse : String → Option ℕ) (now repo_id run_attempt page_size : ℕ) (listing : ℕ → Response)
    (pages page total : ℕ) (names : List String) (s : Store) (body : Json) (jobs : Items)
    (r : List String × Store)
    → listing page ≡ success body
    → jobs_of body ≡ ok jobs
    → record_jobs parse now repo_id run_attempt jobs names s ≡ ok r
    → total_of (get "total_count" body) ≡ ok total
    → fetch_pages parse now repo_id run_attempt page_size listing (suc pages) page names s
      ≡ elim (leb total (page * page_size)) [
        | true ↦ ok (fetched r.0 r.1)
        | false ↦
            fetch_pages parse now repo_id run_attempt page_size listing pages (page + 1) r.0 r.1
      ]
unfolding fetch_pages
fetch_pages_step parse now repo_id run_attempt page_size listing pages page total names s body jobs
      r p j e q =
    rw (p, fetch_pages) (rw j (rw e (rw q refl)))

module _ (page_size total : ℕ) (items : ℕ → Items) where
  -- Page `m` is read from page `page` on: no page between says that it is the last.
  abbrev IsSpanned : (page m : ℕ) → Type 0
  IsSpanned page m = (q : ℕ) → page ≤ q → q < m → q * page_size < total

  -- What the pages leave: no job run is lost, and every page that they span is stored.
  record Leaves (pages page : ℕ) (before after : List Job) : Type 0 where
    grows : Grows before after
    stores : (m : ℕ) → page ≤ m → m < page + pages → IsSpanned page m → AreStored (items m) after

  fetch_pages-Leaves :
      (parse : String → Option ℕ) (now repo_id run_attempt : ℕ) (listing : ℕ → Response)
      (pages page : ℕ) (names : List String) (s : Store)
      → ((p : ℕ) → IsListed (items p) total (listing p))
      → ((p : ℕ) → AreComplete (items p))
      → (r : List String × Store) × (fetch_pages parse now repo_id run_attempt page_size listing
            pages page names s
          ≡ ok (fetched r.0 r.1))
        × Leaves pages page s.jobs r.1.jobs
  unfolding fetch_pages
  fetch_pages-Leaves parse now repo_id run_attempt listing zero page names s l c = (
    (names, s),
    refl,
    record { grows = λ id k. k; stores = λ m a b _. absurd (omega (arith, a, b)) },
  )
  fetch_pages-Leaves parse now repo_id run_attempt listing (suc pages) page names s l c =
      let (body, p, j, q) = listed_reads (items page) total (listing page) (l page) in
      let (r, e, g, k) =
        record_jobs-stores parse now repo_id run_attempt (items page) names s (c page) in
      let (t, f, h) =
        fetch_pages-Leaves parse now repo_id run_attempt listing pages (page + 1) r.0 r.1 l c in
      let step =
        fetch_pages_step parse now repo_id run_attempt page_size listing pages page total names s
          body (items page) r p j e q in
      elim (Bool-cases (leb total (page * page_size))) [
        | inl b ↦ (
          r,
          step ∙ rw b refl,
          record {
            grows = g;
            stores = λ m x y z. elim (Bool-cases (m == page)) [
              | inl d ↦ subst (λ n. AreStored (items n) r.1.jobs) (sym ((==_iff m page).0 d)) k
              | inr d ↦ absurd (let w = z page (omega arith) (ground arith) in ground arith)
            ];
          },
        )
        | inr b ↦ (
          t,
          step ∙ rw b f,
          record {
            grows = λ id m. h.grows id (g id m);
            stores = λ m x y z. elim (Bool-cases (m == page)) [
              | inl d ↦
                  subst (λ n. AreStored (items n) t.1.jobs) (sym ((==_iff m page).0 d))
                    (AreStored-Grows (items page) r.1.jobs t.1.jobs h.grows k)
              | inr d ↦ h.stores m (ground arith) (omega arith) (λ v a. z v (omega arith))
            ];
          },
        )
      ]

evaluate_all-jobs :
    (d : Detection.Settings) (repo_id run_id : ℕ) (names : List String) (s : Store)
    → (evaluate_all d repo_id run_id names s).jobs ≡ s.jobs
unfolding evaluate_all evaluate
evaluate_all-jobs d repo_id run_id [] s = refl
evaluate_all-jobs d repo_id run_id (name ∷ names) s =
    evaluate_all-jobs d repo_id run_id names (evaluate d repo_id run_id name s)

-- `handle_backfill_jobs` reads as many pages as the total asks for: if the row names the repository,
-- the run and the attempt, the repository is known and has an identity to ask by, and GitHub answers
-- every page with complete jobs and one total, then it returns, and every job of page k + 1 has a row
-- of its id, for each k below the limit on pages for which k whole pages are fewer than the total.
pub handle_backfill_jobs-stores :
    (parse : String → Option ℕ) (c : Settings) (d : Detection.Settings)
    (listing : ℕ → String → ℕ → ℕ → ℕ → Response) (now : ℕ) (payload : Json) (s : Store)
    (repo_id run_id run_attempt identity : ℕ) (repo : Repository) (total k : ℕ) (items : ℕ → Items)
    → as_num (get "repo_id" payload) ≡ some repo_id
    → as_num (get "run_id" payload) ≡ some run_id
    → as_num (get "run_attempt" payload) ≡ some run_attempt
    → find (λ r. r.id == repo_id) s.repos ≡ some repo
    → request_identity c repo ≡ ok identity
    → ((p : ℕ) → IsListed (items p) total (listing identity repo.full_name run_id run_attempt p))
    → ((p : ℕ) → AreComplete (items p))
    → k * c.backfill_page_size < total
    → k < max_job_pages
    → (t : Store) × (handle_backfill_jobs parse c d listing now payload s ≡ ok t)
      × AreStored (items (k + 1)) t.jobs
unfolding handle_backfill_jobs or_raise evaluate_fetched
handle_backfill_jobs-stores parse c d listing now payload s repo_id run_id run_attempt identity repo
      total k items p q r f i l a more few =
    let (r', e, h) =
      fetch_pages-Leaves c.backfill_page_size total items parse now repo_id run_attempt
        (listing identity repo.full_name run_id run_attempt) max_job_pages 1 [] s l a in
    let spanned : (v : ℕ) → 1 ≤ v → v < k + 1 → v * c.backfill_page_size < total = λ v x y.
      let w = mul-le-mul_right c.backfill_page_size (below v y) in omega (arith, w, more) in
    let kept = h.stores (k + 1) (omega arith) (omega (arith, few)) spanned in
    rw p (
      rw q (
        rw r (
          rw f (
            rw i (
              rw e (
                _,
                refl,
                subst (AreStored (items (k + 1)))
                    (sym (evaluate_all-jobs d repo_id run_id (sorted_names r'.0) r'.1)) kept,
              ))))))
  where
    below : (v : ℕ) → v < k + 1 → v ≤ k
    below v y = omega (arith, y)
