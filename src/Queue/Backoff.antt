-- ===== src/Queue/Backoff.antt =====
-- The exponential backoff of `retry_delay_seconds` (backend/app/queue.py).
use native.Mathlib.Nat.{pow-suc}
use flakehound.Base.{ℕ, zero, suc, ◌-◌, ◌*◌, ◌^◌, ◌≤◌, ◌<◌, ◌≡◌, ap, arith, ltb, if◌then◌else◌}
use flakehound.Queue.{Settings, retry_delay_seconds}

abbrev capped : ℕ → ℕ → ℕ
capped top d = if ltb top d then top else d

capped_double : (top d e : ℕ) → e ≡ d * 2 → capped top e ≡ capped top (2 * capped top d)
capped_double top d e h = ground arith

delay_at :
    (s : Settings) (n : ℕ)
    → retry_delay_seconds s (suc n) ≡ capped s.retry_backoff_max (s.retry_backoff * 2 ^ n)
unfolding retry_delay_seconds
delay_at s n = ap (λ k. capped s.retry_backoff_max (s.retry_backoff * 2 ^ k)) (omega arith)

-- From the first attempt on, each further attempt doubles the delay of the one before, up to the
-- cap.
retry_delay-double :
    (s : Settings) (n : ℕ)
    → let doubled = 2 * retry_delay_seconds s (suc n) in
      retry_delay_seconds s (suc (suc n))
      ≡ (if ltb s.retry_backoff_max doubled then s.retry_backoff_max else doubled)
retry_delay-double s n =
    rw (delay_at s (suc n), delay_at s n)
      (capped_double s.retry_backoff_max (s.retry_backoff * 2 ^ n) (s.retry_backoff * 2 ^ suc n)
        (rw (pow-suc 2 n) (omega arith)))

pow_pos : (n : ℕ) → 0 < 2 ^ n
pow_pos zero = omega arith
pow_pos (suc n) = rw (pow-suc 2 n) (omega (arith, pow_pos n))

-- Every delay lies between the base and the cap, if the base does not exceed the cap.
retry_delay_bounds :
    (s : Settings) (attempts : ℕ)
    → s.retry_backoff ≤ s.retry_backoff_max
    → (s.retry_backoff ≤ retry_delay_seconds s attempts)
      × (retry_delay_seconds s attempts ≤ s.retry_backoff_max)
unfolding retry_delay_seconds
retry_delay_bounds s attempts h = grind (arith, pow_pos (attempts - 1))
