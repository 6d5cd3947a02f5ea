-- ===== src/RateLimit/Waits.antt =====
-- The waits of `acquire`: a wait is as long as the budget needs, and the loop ends.
use native.Mathlib.Nat.{lt-mul-div-succ, mul-le-mul_right}
use flakehound.Base.{
  ℕ, ◌+◌, ◌-◌, ◌*◌, ◌≤◌, ◌<◌, ◌≡◌, refl, ◌⊎◌, inl, inr, subst, ltb, arith, Bool-cases, All,
}
use flakehound.RateLimit.{
  Bucket, window_turned, restored, refilled, advance, refill_time, wait_of, RateLimiter, min, max,
}

-- A bucket that can hold a request's cost and refills.
abbrev pub IsWell : ℕ → Bucket → Type 0
IsWell window b = (window ≤ b.capacity) × (0 < b.refill)

abbrev pub IsWellLimiter : RateLimiter → Type 0
IsWellLimiter l = (0 < l.default_limit) × All (λ entry. IsWell l.window entry.1) l.buckets

refill_time_enough :
    (missing refill : ℕ) → 0 < refill → missing ≤ refill_time missing refill * refill
unfolding refill_time
refill_time_enough missing refill p =
    let q = lt-mul-div-succ (missing + (refill - 1)) p in grind (arith, q)

-- advancing keeps what is not the budget
pub advance_keeps :
    (now : ℕ) (b : Bucket)
    → ((advance now b).capacity ≡ b.capacity)
      × (((advance now b).refill ≡ b.refill)
          × (((advance now b).blocked_until ≡ b.blocked_until)
              × ((advance now b).updated_at ≡ now)))
unfolding advance restored refilled
advance_keeps now b = elim (Bool-cases (window_turned now b)) [
  | inl e ↦ rw e (refl, (refl, (refl, refl)))
  | inr e ↦ rw e (refl, (refl, (refl, refl)))
]

pub advance-IsWell : (window now : ℕ) (b : Bucket) → IsWell window b → IsWell window (advance now b)
advance-IsWell window now b h = let (c, (r, _)) = advance_keeps now b in rw (c, r) h

-- the tokens of an advanced bucket
pub advance_tokens :
    (now : ℕ) (b : Bucket)
    → ((advance now b).tokens ≡ b.capacity)
      ⊎ ((advance now b).tokens ≡ min b.capacity (b.tokens + (now - b.updated_at) * b.refill))
unfolding advance restored refilled
advance_tokens now b = elim (Bool-cases (window_turned now b)) [
  | inl e ↦ rw e (inl (ground arith))
  | inr e ↦ rw e (inr refl)
]

enough_after :
    (window tokens refill w d : ℕ)
    → window - tokens ≤ w * refill
    → w ≤ d
    → window ≤ tokens + d * refill
enough_after window tokens refill w d h k = let q = mul-le-mul_right refill k in omega (arith, q, h)

tokens_after :
    (window now d : ℕ) (b : Bucket)
    → IsWell window b
    → b.updated_at ≡ now
    → window - b.tokens ≤ d * b.refill
    → window ≤ (advance (now + d) b).tokens
tokens_after window now d b w e h = elim (advance_tokens (now + d) b) [
  | inl q ↦ rw q w.0
  | inr q ↦ rw q (enough (now + d - b.updated_at) (omega (arith, e)) w.0)
]
  where
    enough :
        (x : ℕ) → x ≡ d → window ≤ b.capacity → window ≤ min b.capacity (b.tokens + x * b.refill)
    enough x q c = rw q (ground (arith, h, c))

wait_of_zero :
    (window now : ℕ) (b : Bucket)
    → window ≤ b.tokens
    → b.blocked_until ≤ now
    → wait_of window now b ≡ 0
unfolding wait_of
wait_of_zero window now b h k = ground arith

pub of_wait_of :
    (window now d : ℕ) (b : Bucket)
    → 0 < b.refill
    → wait_of window now b ≤ d
    → (b.blocked_until ≤ now + d) × (window - b.tokens ≤ d * b.refill)
unfolding wait_of
of_wait_of window now d b p h = elim (Bool-cases (ltb b.tokens window)) [
  | inl e ↦ both (refill_time (window - b.tokens) b.refill) (refill_time_enough _ _ p) (rw e at h)
  | inr e ↦ let q = rw e at h in (omega (arith, q), ground arith)
]
  where
    both :
        (t : ℕ)
        → window - b.tokens ≤ t * b.refill
        → max (b.blocked_until - now) t ≤ d
        → (b.blocked_until ≤ now + d) × (window - b.tokens ≤ d * b.refill)
    both t q k =
        let (x, y) = max_le (b.blocked_until - now) t k in
        let z = mul-le-mul_right b.refill y in (omega (arith, x), omega (arith, q, z))
      where
        max_le : (a c : ℕ) → max a c ≤ d → (a ≤ d) × (c ≤ d)
        max_le a c m = ground arith

-- The wait that was asked for is enough: a bucket read again after it has no wait.
pub wait_of_after :
    (window now d : ℕ) (b : Bucket)
    → IsWell window b
    → wait_of window now (advance now b) ≤ d
    → wait_of window (now + d) (advance (now + d) (advance now b)) ≡ 0
wait_of_after window now d b w h =
    let w' = advance-IsWell window now b w in
    let (block, missing) = of_wait_of window now d (advance now b) w'.1 h in
    let (_, (_, (same_block, _))) = advance_keeps (now + d) (advance now b) in
    let (_, (_, (_, at_now))) = advance_keeps now b in
    wait_of_zero window (now + d) _ (tokens_after window now d (advance now b) w' at_now missing)
      (rw same_block block)

pub wait_of_at :
    (window now t : ℕ) (b : Bucket)
    → IsWell window b
    → now + wait_of window now (advance now b) ≤ t
    → wait_of window t (advance t (advance now b)) ≡ 0
wait_of_at window now t b w h =
    subst (λ x. wait_of window x (advance x (advance now b)) ≡ 0) (now_to_t)
      (wait_of_after window now (t - now) b w (omega (arith, h)))
  where
    now_to_t : now + (t - now) ≡ t
    now_to_t = omega (arith, h)

pub wait_of-block : (window t : ℕ) (b : Bucket) → b.blocked_until ≤ t + wait_of window t b
unfolding wait_of
wait_of-block window t b = ground arith
