-- ===== src/RateLimit/Blocks.antt =====
-- What an answer of GitHub's blocks: retry-after, and an allowance that is spent.
use flakehound.Base.{
  ℕ, ◌+◌, ◌-◌, ◌*◌, ◌≤◌, ◌≡◌, refl, ◌==◌, Option, none, some, if◌then◌else◌, arith, Bool-cases, inl,
  inr,
}
use flakehound.RateLimit.{
  Bucket, advance, wait_of, wait_for_token, Headers, take_limit, take_reset, take_remaining,
  take_retry_after, block_until, corrected, RateLimiter, bucket, put, observe, retry_after, min,
}
use flakehound.RateLimit.Waits.{advance_keeps, wait_of-block}
use flakehound.RateLimit.Buckets.{bucket-put}

retry_after-observe :
    (now wall t id : ℕ) (h : Headers) (l : RateLimiter)
    → (retry_after t id (observe now wall id h l)).1
      ≡ wait_of l.window t (advance t (corrected l.window now wall h (bucket now id l)))
unfolding retry_after wait_for_token observe put
retry_after-observe now wall t id h l =
    rw (bucket-put t id (corrected l.window now wall h (bucket now id l)) l) refl

blocks_later :
    (window t until : ℕ) (b : Bucket)
    → until ≤ b.blocked_until
    → until ≤ t + wait_of window t (advance t b)
blocks_later window t until b h =
    let (_, (_, (e, _))) = advance_keeps t b in
    let q = wait_of-block window t (advance t b) in omega (arith, h, e, q)

blocks_through :
    (now until : ℕ) (o : Option ℕ) (b : Bucket)
    → until ≤ (take_retry_after now o (block_until until b)).blocked_until
unfolding take_retry_after block_until
blocks_through now until none b = ground arith
blocks_through now until (some s) b = ground arith

-- The instants that an answer names.
abbrev pub paused_until : ℕ → Option ℕ → ℕ
paused_until now none = 0
paused_until now (some seconds) = now + seconds

abbrev pub spent_until : (now wall : ℕ) → (remaining reset : Option ℕ) → ℕ
spent_until now wall (some n) (some r) = if n == 0 then now + (r - wall) else 0
spent_until now wall _ _ = 0

paused_blocks :
    (now : ℕ) (o : Option ℕ) (b : Bucket)
    → paused_until now o ≤ (take_retry_after now o b).blocked_until
unfolding take_retry_after block_until
paused_blocks now none b = omega arith
paused_blocks now (some s) b = ground arith

spent_blocks :
    (window now wall : ℕ) (after remaining reset : Option ℕ) (b : Bucket)
    → spent_until now wall remaining reset
      ≤ (take_retry_after now after
          (take_remaining window remaining (take_reset now wall reset b))).blocked_until
unfolding take_remaining take_reset
spent_blocks window now wall after none reset b = omega arith
spent_blocks window now wall after (some n) none b = omega arith
spent_blocks window now wall after (some n) (some r) b = elim (Bool-cases (n == 0)) [
  | inl e ↦ rw e (
      blocks_through now (now + (r - wall)) after
        (record b { tokens = min b.tokens (n * window); resets_at = some (now + (r - wall)) }))
  | inr e ↦ rw e (omega arith)
]

-- An answer with retry-after, or with a spent allowance and the instant at which it is restored,
-- keeps a request of the installation waiting until then, whenever it asks.
pub observe-blocks :
    (now wall t id : ℕ) (h : Headers) (l : RateLimiter)
    → (paused_until now h.retry_after ≤ t + (retry_after t id (observe now wall id h l)).1)
      × (spent_until now wall h.remaining h.reset
          ≤ t + (retry_after t id (observe now wall id h l)).1)
unfolding corrected
observe-blocks now wall t id h l =
    let after = corrected l.window now wall h (bucket now id l) in
    let limited = take_limit l.window h.limit (advance now (bucket now id l)) in
    rw (retry_after-observe now wall t id h l) (
      blocks_later l.window t _ after (
          paused_blocks now h.retry_after
            (take_remaining l.window h.remaining (take_reset now wall h.reset limited))),
      blocks_later l.window t _ after
          (spent_blocks l.window now wall h.retry_after h.remaining h.reset limited),
    )
