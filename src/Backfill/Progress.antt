-- ===== src/Backfill/Progress.antt =====
-- How much work a page of backend/app/backfill.py leaves to the walk: a measure of the cursor that
-- `handle_backfill_runs` stores.
use flakehound.Base.{
  ℕ, ◌+◌, ◌-◌, ◌*◌, ◌≤◌, ◌<◌, ◌≡◌, refl, String, true, false, ◌⊎◌, inl, inr, Option, none, some,
  arith, Bool-cases,
}
use flakehound.Base.Result.{Result, ok, err, ◌>>=◌, Returns, Returns-bind}
use flakehound.Json.{Json, get, as_num}
use flakehound.Facts.{Repository, BackfillStatus}
use flakehound.Backfill.Window.{Window, span_days, halved, next_window}
use flakehound.Backfill.Crawl.{IsValid, work, halved_lem, next_lem, work_halved, work_next}
use flakehound.Backfill.Runs.{
  Settings, Error, Store, or_raise, save_cursor, enqueue, backfill_priority,
}
use flakehound.Backfill.Handler.{
  is_running, record_runs, handle_page, wake_at, rest_at, more_pages, or_zero, listed, narrow_now,
}

-- The windows left, each worth as many pages as the cap allows, and the pages of this one.
abbrev pub pages_left : Settings → ℕ → Window → ℕ → ℕ
pages_left c floor w page =
    work floor c.backfill_window_days w * (c.backfill_result_cap + 1)
    + (c.backfill_result_cap - page * c.backfill_page_size)

-- A step of `crawl`, or none.
abbrev pub Follows : ℕ → ℕ → Window → Window → Type 0
Follows floor window_days w n =
    (n ≡ w) ⊎ ((halved w ≡ some n) ⊎ (next_window w floor window_days ≡ some (some n)))

-- The walk rests where `crawl` ends, or its cursor stands where `crawl` goes on or still at the
-- window, with fewer pages left.
pub data Progress (c : Settings) (floor : ℕ) (w : Window) (page : ℕ) (t : Store) : Type 0 where
  rests :
      (r : Repository)
      → t.repo ≡ some r
      → is_running r.backfill_status ≡ false
      → next_window w floor c.backfill_window_days ≡ some none
      → Progress c floor w page t
  goes_on :
      (r : Repository) (n : Window) (p : ℕ)
      → t.repo ≡ some r
      → r.backfill_status ≡ BackfillStatus.running
      → r.backfill_window_start ≡ some n.start
      → r.backfill_window_end ≡ some n.end
      → r.backfill_page ≡ some p
      → Follows floor c.backfill_window_days w n
      → IsValid floor c.backfill_window_days n
      → pages_left c floor n p < pages_left c floor w page
      → Progress c floor w page t

raise_at :
    {A B : Type 0} (P : B → Type 0) (e : Error) (o : Option A) (a : A) (f : A → Result Error B)
    → o ≡ some a
    → Returns P (f a)
    → Returns P (or_raise e o >>= f)
unfolding or_raise
raise_at P e o a f q h = rw q h

always : {A : Type 0} (m : Result Error A) → Returns {0, 0} (λ _. Unit) m
always (ok a) = tt
always (err e) = tt

fewer_pages : (a b k x y : ℕ) → a < b → x < k → a * k + x < b * k + y
fewer_pages a b k x y h l = grind arith

next_page :
    (cap size page : ℕ) → 0 < size → page * size < cap → cap - (page + 1) * size < cap - page * size
next_page cap size page h l = grind arith

wake-Progress :
    (c : Settings) (now floor : ℕ) (r : Repository) (w n : Window) (page p : ℕ) (t : Store)
    → Follows floor c.backfill_window_days w n
    → IsValid floor c.backfill_window_days n
    → pages_left c floor n p < pages_left c floor w page
    → Progress c floor w page (wake_at now n p r t)
unfolding enqueue save_cursor
wake-Progress c now floor r w n page p t m v h =
    Progress.goes_on _ n p refl refl refl refl refl m v h

rest-Progress :
    (c : Settings) (now floor : ℕ) (r : Repository) (w : Window) (page : ℕ) (t : Store)
    → next_window w floor c.backfill_window_days ≡ some none
    → Progress c floor w page (rest_at now BackfillStatus.done r t)
unfolding save_cursor
rest-Progress c now floor r w page t m = Progress.rests _ refl refl m

-- With a page size, and a floor that leaves room for a window before it: from a valid window, a
-- page that returns leaves the walk at rest, there being no older window, or at a valid window with
-- fewer pages left. That window is the same one, its newest half or the next older one.
pub handle_page-Progress :
    (parse : String → Option ℕ) (c : Settings) (now floor : ℕ) (r : Repository) (w : Window)
    → (page : ℕ) (body : Json) (s : Store) → 0 < c.backfill_page_size
    → 1 < floor
    → c.backfill_window_days ≤ floor
    → IsValid floor c.backfill_window_days w
    → Returns (Progress c floor w page) (handle_page parse c now floor r w page body s)
unfolding handle_page
handle_page-Progress parse c now floor r w page body s size p q v =
    let total = or_zero (as_num (get "total_count" body)) in
    let runs = listed (get "workflow_runs" body) in
    let P = Progress c floor w page in
    elim (Bool-cases (narrow_now c page total w)) [
      | inl e ↦
          let (h, f, k, v', l) =
            halved_lem floor c.backfill_window_days w (omega arith) v (long e) in
          rw (e, handle_page)
            (raise_at P _ (halved w) h _ f (
              wake-Progress c now floor r w h page 1 s (inr (inl f)) v' (
                fewer_pages _ _ _ _ _ (work_halved floor c.backfill_window_days w h k l)
                  (omega arith))))
      | inr e ↦
          rw (e, handle_page)
            (Returns-bind {0, 0, 0} (λ _. Unit) P _ _
              (always (record_runs parse now r.id runs (backfill_priority r) s))
              λ t _. elim (Bool-cases (more_pages c page total runs)) [
                | inl m ↦ rw (m) (
                    wake-Progress c now floor r w w page (page + 1) t (inl refl) v (
                      omega (
                        arith,
                        next_page c.backfill_result_cap c.backfill_page_size page size (below m),
                      )))
                | inr m ↦ rw (m) (elim (next_lem floor c.backfill_window_days w p q v) [
                  | inl (f, g) ↦ raise_at P _ _ none _ f (rest-Progress c now floor r w page t f)
                  | inr (n, f, g, v') ↦ raise_at P _ _ (some n) _ f (
                      wake-Progress c now floor r w n page 1 t (inr (inr f)) v' (
                        fewer_pages _ _ _ _ _ (work_next floor c.backfill_window_days w n g v v')
                          (omega arith)))
                ])
              ])
    ]
  where
    long : narrow_now c page (or_zero (as_num (get "total_count" body))) w ≡ true → 0 < span_days w
    long e = ground arith

    below :
        more_pages c page
            (or_zero (as_num (get "total_count" body)))
            (listed (get "workflow_runs" body))
          ≡ true
        → page * c.backfill_page_size < c.backfill_result_cap
    below m = ground arith
