-- ===== src/Backfill/Crawl.antt =====
-- The walk of backend/app/backfill.py over its windows, whichever of them GitHub's result cap
-- makes it halve, and the days that it visits.
use Prim.Native.Nat.{max}
use mathlib.Core.Path.{ap₂}
use mathlib.Core.List.{append-nil}
use flakehound.Base.{
  ℕ, zero, suc, ◌+◌, ◌-◌, ◌*◌, ◌/◌, ◌≤◌, ◌<◌, ◌≡◌, refl, ap, ◌∙◌, Bool, ◌&&◌, ◌⊎◌, inl, inr, Option,
  none, some, List, [], ◌∷◌, ◌++◌, arith, ltb, leb, if◌then◌else◌, ◌>>=◌, Bool-cases,
}
use flakehound.Backfill.Window.{Window, span_days, halved, first_window, next_window}

-- A window that the walk narrows: over the cap, and longer than a day.
abbrev narrows : (Window → Bool) → Window → Bool
narrows over w = over w && leb 1 (span_days w)

-- The walk goes on at `next`, if there is a window left.
abbrev go_on : Window → (Window → Option (List Window)) → Option Window → Option (List Window)
go_on w rest none = some (w ∷ [])
go_on w rest (some n) = do ws ← rest n; some (w ∷ ws)

-- The windows that are read to their end, in order; `over` says which overflow the cap.
unfoldable pub crawl : ℕ → (Window → Bool) → ℕ → ℕ → Window → Option (List Window)
unfolding halved next_window
crawl zero over floor window_days w = none
crawl (suc fuel) over floor window_days w =
    let narrowed = halved w >>= crawl fuel over floor window_days in
    let older = next_window w floor window_days >>= go_on w (crawl fuel over floor window_days) in
    if narrows over w then narrowed else older

-- `n` days, from `end` down.
abbrev pub days_down : ℕ → ℕ → List ℕ
days_down zero end = []
days_down (suc n) end = end ∷ days_down n (end - 1)

abbrev pub days_of : Window → List ℕ
days_of w = days_down (w.end + 1 - w.start) w.end

abbrev pub all_days : List Window → List ℕ
all_days [] = []
all_days (w ∷ ws) = days_of w ++ all_days ws

abbrev pub IsValid : ℕ → ℕ → Window → Type 0
IsValid floor window_days w =
    (floor ≤ w.start) × (w.start ≤ w.end) × (w.end + 1 ≤ w.start + window_days)

pub halved_lem :
    (floor window_days : ℕ) (w : Window)
    → 0 < floor
    → IsValid floor window_days w
    → 0 < span_days w
    → (h : Window) × (halved w ≡ some h)
      × (h.end ≡ w.end)
      × IsValid floor window_days h
      × (span_days h < span_days w)
unfolding halved span_days
halved_lem floor window_days w p v l = (
  record { start = w.end - (w.end - w.start) / 2; end = w.end },
  ground arith,
  refl,
  omega arith,
  omega arith,
)

pub next_lem :
    (floor window_days : ℕ) (w : Window)
    → 1 < floor
    → window_days ≤ floor
    → IsValid floor window_days w
    → ((next_window w floor window_days ≡ some none) × (w.start ≡ floor))
      ⊎ ((n : Window) × (next_window w floor window_days ≡ some (some n))
          × (n.end + 1 ≡ w.start)
          × IsValid floor window_days n)
unfolding next_window
next_lem floor window_days w p q v = elim (Bool-cases (ltb (w.start - 1) floor)) [
  | inl e ↦ inl (ground arith, ground arith)
  | inr e ↦ inr (
    record { start = max floor (w.start - 1 + 1 - window_days); end = w.start - 1 },
    ground arith,
    ground arith,
    ground arith,
  )
]

-- Work left: the days not reached, each worth a whole window of halvings, and this window's.
abbrev pub work : ℕ → ℕ → Window → ℕ
work floor window_days w = (w.end + 1 - floor) * window_days + span_days w

days_down_split :
    (m n end : ℕ) → m ≤ end → days_down m end ++ days_down n (end - m) ≡ days_down (m + n) end
days_down_split zero n end h = ap₂ days_down (omega arith) (omega arith)
days_down_split (suc m) n end h =
    let rest : end - suc m ≡ end - 1 - m = omega arith in
    let count : suc (m + n) ≡ suc m + n = omega arith in
    ap (λ t. end ∷ (days_down m (end - 1) ++ days_down n t)) rest
    ∙ ap (λ t. end ∷ t) (days_down_split m n (end - 1) (omega arith))
    ∙ ap (λ k. days_down k end) count

pub work_halved :
    (floor window_days : ℕ) (w n : Window)
    → n.end ≡ w.end
    → span_days n < span_days w
    → work floor window_days n < work floor window_days w
work_halved floor window_days w n e h =
    omega (arith, ap (λ (t : ℕ). (t + 1 - floor) * window_days) e)

pub work_next :
    (floor window_days : ℕ) (w n : Window)
    → n.end + 1 ≡ w.start
    → IsValid floor window_days w
    → IsValid floor window_days n
    → work floor window_days n < work floor window_days w
unfolding span_days
work_next floor window_days w n e v u = grind (arith, fewer)
  where
    fewer : (n.end + 1 - floor) * window_days + window_days ≤ (w.end + 1 - floor) * window_days
    fewer = grind arith

days_with_older :
    (floor window_days : ℕ) (w n : Window)
    → 0 < floor
    → n.end + 1 ≡ w.start
    → IsValid floor window_days w
    → IsValid floor window_days n
    → days_of w ++ days_down (n.end + 1 - floor) n.end ≡ days_down (w.end + 1 - floor) w.end
days_with_older floor window_days w n p e v u =
    ap (λ t. days_of w ++ days_down (n.end + 1 - floor) t) (omega arith)
    ∙ days_down_split (w.end + 1 - w.start) (n.end + 1 - floor) w.end (omega arith)
    ∙ ap (λ k. days_down k w.end) (omega arith)

module _ (over : Window → Bool) (floor window_days : ℕ) (p : 1 < floor)
    (q : window_days ≤ floor) where
  -- From any valid window, above a floor that is at least a window and a day into the calendar,
  -- with fuel for the work left: the walk ends, and the windows that it reads to their end hold
  -- every day from the window's end down to the floor, once, in order.
  crawl-all_days :
      (fuel : ℕ) (w : Window)
      → IsValid floor window_days w
      → work floor window_days w < fuel
      → (ws : List Window) × (crawl fuel over floor window_days w ≡ some ws)
        × (all_days ws ≡ days_down (w.end + 1 - floor) w.end)
  unfolding crawl
  crawl-all_days zero w v h = absurd (omega arith)
  crawl-all_days (suc fuel) w v h = elim (Bool-cases (narrows over w)) [
    | inl e ↦
        let (n, f, r, v', s) = halved_lem floor window_days w (omega arith) v (ground arith) in
        let (ws, g, d) =
          crawl-all_days fuel n v' (omega (arith, work_halved floor window_days w n r s)) in
        (ws, rw (e, f) g, d ∙ ap (λ t. days_down (t + 1 - floor) t) r)
    | inr e ↦ elim (next_lem floor window_days w p q v) [
      | inl (f, r) ↦ (
        w ∷ [],
        rw (e, f) refl,
        append-nil (days_of w) ∙ ap (λ t. days_down (w.end + 1 - t) w.end) r,
      )
      | inr (n, f, r, v') ↦
          let (ws, g, d) =
            crawl-all_days fuel n v' (omega (arith, work_next floor window_days w n r v v')) in
          (
            w ∷ ws,
            rw (e, f) (rw g refl),
            ap (◌++◌ (days_of w)) d ∙ days_with_older floor window_days w n (omega arith) r v v',
          )
    ]
  ]

first_work :
    (today days window_days : ℕ) (w : Window)
    → today + 1 - (today + 1 - days) ≡ days
    → w.end ≡ today
    → IsValid (today + 1 - days) window_days w
    → work (today + 1 - days) window_days w < days * window_days + window_days
unfolding span_days
first_work today days window_days w count e v =
    let all : (w.end + 1 - (today + 1 - days)) * window_days ≡ days * window_days =
      ap (λ t. (t + 1 - (today + 1 - days)) * window_days) e ∙ ap (λ t. t * window_days) count in
    omega arith

first_lem :
    (today days window_days : ℕ)
    → 0 < days
    → 0 < window_days
    → days ≤ today
    → window_days ≤ today
    → (w : Window) × (first_window today days window_days ≡ some w)
      × (w.end ≡ today)
      × IsValid (today + 1 - days) window_days w
unfolding first_window
first_lem today days window_days a b c d = (
  record { start = max (today + 1 - days) (today + 1 - window_days); end = today },
  ground arith,
  refl,
  omega arith,
)

-- A backfill of `days` days, from `start_backfill`'s first window to the floor of
-- `handle_backfill_runs`, with at least one day in it and in a window and all of its windows on
-- the calendar, and that floor being the one of the same days and of one day throughout: whichever
-- windows overflow the cap, the walk ends, and reads exactly the `days`
-- days up to today, each once, newest first.
pub backfill_covers :
    (over : Window → Bool) (today days window_days : ℕ)
    → 0 < days
    → 0 < window_days
    → days < today
    → window_days + days ≤ today + 1
    → (w : Window) × (first_window today days window_days ≡ some w)
      × (ws : List Window) × (crawl
            (days * window_days + window_days)
            over
            (today + 1 - days)
            window_days
            w
          ≡ some ws)
      × (all_days ws ≡ days_down days today)
backfill_covers over today days window_days a b c d =
    let (w, f, e, v) = first_lem today days window_days a b (omega arith) (omega arith) in
    let count : today + 1 - (today + 1 - days) ≡ days = omega arith in
    let fuel : work (today + 1 - days) window_days w < days * window_days + window_days =
      first_work today days window_days w count e v in
    let (ws, g, h) =
      crawl-all_days over (today + 1 - days) window_days (omega arith) (omega arith) _ w v fuel in
    (
      w,
      f,
      ws,
      g,
      h ∙ ap (λ t. days_down (t + 1 - (today + 1 - days)) t) e ∙ ap (λ k. days_down k today) count,
    )
