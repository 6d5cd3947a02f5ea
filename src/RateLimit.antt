-- ===== src/RateLimit.antt =====
-- backend/app/ratelimit.py: a token bucket per installation, corrected by response headers.
-- Instants and durations are whole microseconds, and the arithmetic is exact where the source uses
-- floats: an amount of tokens is counted in units of which a request costs `window`, so a budget of
-- `limit` requests refills by `limit` units a microsecond, and a wait is rounded up to the clock's
-- unit. A header is the number that `_as_int` or `_as_float` reads from it, `none` where it reads
-- none; a header below 0 is not modelled. A limiter's default limit is positive, as DEFAULT_LIMIT is.
mod Tests
pub mod Waits
pub mod Acquire
pub mod Budget
pub mod Buckets
pub mod Blocks
use flakehound.Base.{
  ℕ, zero, suc, ◌+◌, ◌-◌, ◌*◌, ◌/◌, Bool, true, false, Option, none, some, List, [], ◌∷◌, ltb, leb,
  ◌==◌, if◌then◌else◌,
}
use flakehound.Base.Upsert.{upsert, find}

abbrev pub min : ℕ → ℕ → ℕ
min a b = if leb a b then a else b

abbrev pub max : ℕ → ℕ → ℕ
max a b = if leb a b then b else a

pub record Bucket : Type 0 where
  pub capacity : ℕ
  pub refill : ℕ
  pub tokens : ℕ
  pub updated_at : ℕ
  pub resets_at : Option ℕ
  pub blocked_until : ℕ

-- self.resets_at is not None and now >= self.resets_at
unfoldable pub window_turned : ℕ → Bucket → Bool
window_turned now b = elim b.resets_at [ none ↦ false | some t ↦ leb t now ]

unfoldable pub restored : ℕ → Bucket → Bucket
unfolding window_turned
restored now b =
    if window_turned now b then record b { tokens = b.capacity; resets_at = none } else b

unfoldable pub refilled : ℕ → Bucket → Bucket
refilled now b = record b {
  tokens = min b.capacity (b.tokens + (now - b.updated_at) * b.refill);
  updated_at = now;
}

unfoldable pub advance : ℕ → Bucket → Bucket
unfolding restored refilled
advance now b = refilled now (restored now b)

-- The microseconds until `missing` units have come in, rounded up; the source divides floats, and
-- its wait can fall short by a rounding error.
unfoldable pub refill_time : (missing refill : ℕ) → ℕ
refill_time missing refill = (missing + (refill - 1)) / refill

-- The wait of a bucket that has been advanced to `now`.
unfoldable pub wait_of : (window now : ℕ) → Bucket → ℕ
unfolding refill_time
wait_of window now b =
    if ltb b.tokens window
    then max (b.blocked_until - now) (refill_time (window - b.tokens) b.refill)
    else b.blocked_until - now

unfoldable pub wait_for_token : (window now : ℕ) → Bucket → Bucket × ℕ
unfolding advance wait_of
wait_for_token window now b = (advance now b, wait_of window now (advance now b))

-- `take` is for a bucket whose wait is over, which holds a whole token.
unfoldable pub spend : ℕ → Bucket → Bucket
spend window b = record b { tokens = b.tokens - window }

pub record RateLimiter : Type 0 where
  pub max_wait : ℕ
  pub default_limit : ℕ
  pub window : ℕ
  pub buckets : List (ℕ × Bucket)

abbrev pub is_key : ℕ → ℕ × Bucket → Bool
is_key installation_id entry = entry.0 == installation_id

unfoldable pub new_bucket : ℕ → RateLimiter → Bucket
new_bucket now l = record {
  capacity = l.default_limit * l.window;
  refill = l.default_limit;
  tokens = l.default_limit * l.window;
  updated_at = now;
  resets_at = none;
  blocked_until = 0;
}

-- if bucket is None: the new one
unfoldable pub or_new : ℕ → RateLimiter → Option (ℕ × Bucket) → Bucket
unfolding new_bucket
or_new now l none = new_bucket now l
or_new now l (some entry) = entry.1

-- The bucket, made on first use; `put` then files it, as it files every change of it.
unfoldable pub bucket : (now installation_id : ℕ) → RateLimiter → Bucket
unfolding or_new find
bucket now installation_id l = or_new now l (find (is_key installation_id) l.buckets)

unfoldable pub put : ℕ → Bucket → RateLimiter → RateLimiter
unfolding upsert
put installation_id b l = record l {
  buckets =
      upsert (is_key installation_id) (λ entry. (installation_id, b)) (installation_id, b)
        l.buckets;
}

-- How `acquire` ends, with the limiter and the clock that it leaves: it returns, or it raises
-- RateLimitExceeded with the wait.
pub data Acquired : Type 0 where
  granted : RateLimiter → ℕ → Acquired
  exceeded : RateLimiter → ℕ → (retry_after : ℕ) → Acquired

-- The `while True` of `acquire`, on fuel; `late n` is by how much the n-th sleep overshoots. The
-- lock keeps other requests of the installation out.
unfoldable pub acquire_from :
    (fuel round : ℕ) → (late : ℕ → ℕ) → (now installation_id : ℕ) → RateLimiter → Option Acquired
unfolding wait_for_token bucket put spend
acquire_from zero round late now installation_id l = none
acquire_from (suc fuel) round late now installation_id l =
    let (b, wait) = wait_for_token l.window now (bucket now installation_id l) in
    let again =
      acquire_from fuel (suc round) late (now + wait + late round) installation_id
        (put installation_id b l) in
    if wait == 0
    then some (granted (put installation_id (spend l.window b) l) now)
    else if ltb l.max_wait wait
    then some (exceeded (put installation_id b l) now wait)
    else again

-- Two rounds, which are enough where no wait falls short; the source's loop goes on for as many as
-- its rounding asks for.
unfoldable pub acquire : (late : ℕ → ℕ) → (now installation_id : ℕ) → RateLimiter → Option Acquired
unfolding acquire_from
acquire late now installation_id l = acquire_from 2 0 late now installation_id l

pub record Headers : Type 0 where
  pub limit : Option ℕ
  pub reset : Option ℕ
  pub remaining : Option ℕ
  pub retry_after : Option ℕ

-- if limit is not None and limit > 0
unfoldable pub take_limit : ℕ → Option ℕ → Bucket → Bucket
take_limit window none b = b
take_limit window (some limit) b =
    if limit == 0 then b else record b { capacity = limit * window; refill = limit }

-- `wall` is the wall clock, and the header is the instant on it.
unfoldable pub take_reset : (now wall : ℕ) → Option ℕ → Bucket → Bucket
take_reset now wall none b = b
take_reset now wall (some reset) b = record b { resets_at = some (now + (reset - wall)) }

unfoldable pub block_until : ℕ → Bucket → Bucket
block_until t b = record b { blocked_until = max b.blocked_until t }

unfoldable pub take_remaining : ℕ → Option ℕ → Bucket → Bucket
unfolding block_until
take_remaining window none b = b
take_remaining window (some remaining) b =
    let clamped = record b { tokens = min b.tokens (remaining * window) } in
    if remaining == 0
    then elim b.resets_at [ none ↦ clamped | some t ↦ block_until t clamped ]
    else clamped

unfoldable pub take_retry_after : ℕ → Option ℕ → Bucket → Bucket
unfolding block_until
take_retry_after now none b = b
take_retry_after now (some seconds) b = block_until (now + seconds) b

-- `observe`, on the installation's bucket.
unfoldable pub corrected : (window now wall : ℕ) → Headers → Bucket → Bucket
unfolding advance take_limit take_reset take_remaining take_retry_after
corrected window now wall h b = take_retry_after now h.retry_after (
    take_remaining window h.remaining
      (take_reset now wall h.reset (take_limit window h.limit (advance now b))))

unfoldable pub observe : (now wall installation_id : ℕ) → Headers → RateLimiter → RateLimiter
unfolding bucket put corrected
observe now wall installation_id h l =
    put installation_id (corrected l.window now wall h (bucket now installation_id l)) l

-- In units, of which `window` make a request.
unfoldable pub headroom : (now installation_id : ℕ) → RateLimiter → RateLimiter × ℕ
unfolding bucket put advance
headroom now installation_id l =
    let b = advance now (bucket now installation_id l) in (put installation_id b l, b.tokens)

-- The installations of `list(self._buckets)`, one after the other.
unfoldable pub headrooms_of : ℕ → List (ℕ × Bucket) → RateLimiter → RateLimiter × List (ℕ × ℕ)
unfolding headroom
headrooms_of now [] l = (l, [])
headrooms_of now (entry ∷ entries) l =
    let (l', tokens) = headroom now entry.0 l in
    let (l'', rest) = headrooms_of now entries l' in (l'', (entry.0, tokens) ∷ rest)

unfoldable pub headrooms : ℕ → RateLimiter → RateLimiter × List (ℕ × ℕ)
unfolding headrooms_of
headrooms now l = headrooms_of now l.buckets l

unfoldable pub retry_after : (now installation_id : ℕ) → RateLimiter → RateLimiter × ℕ
unfolding bucket put wait_for_token
retry_after now installation_id l =
    let (b, wait) = wait_for_token l.window now (bucket now installation_id l) in
    (put installation_id b l, wait)
