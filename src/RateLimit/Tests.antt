-- ===== src/RateLimit/Tests.antt =====
-- The rate limiter on concrete buckets: a request costs 4 units, and a budget of 2 requests comes
-- back in 4 microseconds.
use flakehound.Base.{◌+◌, ◌-◌, ◌*◌, ◌≤◌, ◌≡◌, refl, none, some, [], ◌∷◌, arith}
use flakehound.RateLimit.{
  Bucket, advance, wait_of, spend, RateLimiter, bucket, put, acquire, Acquired, granted, exceeded,
  Headers, observe, retry_after, headrooms, window_turned, restored, refilled, refill_time, or_new,
  corrected, take_limit, take_reset, take_remaining, take_retry_after, block_until, wait_for_token,
  acquire_from, headroom, headrooms_of,
}
use flakehound.Base.Upsert.{upsert, find}
use flakehound.RateLimit.Budget.{Run, start, leave, granted_within_budget}
use flakehound.RateLimit.Acquire.{acquire-Run, IsRun}
use flakehound.RateLimit.Blocks.{observe-blocks}

abbrev one_left : Bucket
one_left = record {
  capacity = 8;
  refill = 2;
  tokens = 4;
  updated_at = 0;
  resets_at = none;
  blocked_until = 0;
}

abbrev limiter : RateLimiter
limiter = record { max_wait = 10; default_limit = 2; window = 4; buckets = (7, one_left) ∷ [] }

abbrev none_left : Bucket
none_left = record one_left { tokens = 0 }

abbrev drained : RateLimiter
drained = record limiter { buckets = (7, none_left) ∷ [] }

abbrev spent_answer : Headers
spent_answer = record { limit = some 2; reset = some 130; remaining = some 0; retry_after = some 5 }

-- The wait for one token is 2 microseconds, and the sleep returns one late.
acquire_sleeps :
    acquire (λ n. 1) 0 7 drained
    ≡ some (
        granted
          (record limiter { buckets = (7, record one_left { tokens = 2; updated_at = 3 }) ∷ [] })
          3)
unfolding acquire acquire_from wait_for_token wait_of refill_time advance restored refilled
    window_turned spend bucket or_new put upsert find
acquire_sleeps = refl

acquire_refuses :
    acquire (λ n. 1) 100 7 (observe 100 100 7 spent_answer limiter)
    ≡ some (
        exceeded
          (record limiter {
            buckets =
                (
                  7,
                  record one_left {
                    tokens = 0;
                    updated_at = 100;
                    resets_at = some 130;
                    blocked_until = 130;
                  },
                )
                ∷ [];
          })
          100
          30)
unfolding acquire acquire_from wait_for_token wait_of refill_time advance restored refilled
    window_turned spend bucket or_new put upsert find observe corrected take_limit take_reset
    take_remaining take_retry_after block_until
acquire_refuses = refl

headrooms_read : headrooms 1 limiter ≡ (
  record limiter { buckets = (7, record one_left { tokens = 6; updated_at = 1 }) ∷ [] },
  (7, 6) ∷ [],
)
unfolding headrooms headrooms_of headroom advance restored refilled window_turned bucket or_new put
    upsert find
headrooms_read = refl

abbrev two_leave : Run 4 one_left 2 0 (spend 4 (advance 2 (spend 4 (advance 0 one_left))))
unfolding wait_of refill_time advance restored refilled window_turned spend
two_leave = leave 2 (leave 0 start (omega arith) refl) (omega arith) refl

granted_within_budget_example : 2 * 4 ≤ 4 + (2 - 0) * 2 + 0 * 8
unfolding advance restored refilled window_turned spend
granted_within_budget_example =
    granted_within_budget 4 one_left (spend 4 (advance 2 (spend 4 (advance 0 one_left)))) 2 0
      (omega arith) two_leave

acquire-Run_example :
    (e : Acquired) × ((acquire (λ n. 1) 0 7 drained ≡ some e) × IsRun 4 (bucket 0 7 drained) 7 e)
unfolding bucket or_new find
acquire-Run_example =
    acquire-Run (λ n. 1) 0 7 drained (omega arith, ((omega arith, omega arith), tt)) (omega arith)

observe-blocks_example :
    (105 ≤ 110 + (retry_after 110 7 (observe 100 100 7 spent_answer limiter)).1)
    × (130 ≤ 110 + (retry_after 110 7 (observe 100 100 7 spent_answer limiter)).1)
observe-blocks_example = observe-blocks 100 100 110 7 spent_answer limiter
