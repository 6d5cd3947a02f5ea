-- ===== src/RateLimit/Budget.antt =====
-- What a bucket lets through: the requests that leave, the responses that correct it, and the reads
-- of its headroom, as a run of one installation's bucket.
use native.Mathlib.Nat.{add-mul}
use flakehound.Base.{
  ℕ, suc, ◌+◌, ◌-◌, ◌*◌, ◌≤◌, ◌<◌, ◌≡◌, refl, ◌∙◌, sym, subst, inl, inr, Option, none, some, ◌==◌,
  if◌then◌else◌, arith, Bool-cases,
}
use flakehound.RateLimit.{
  Bucket, window_turned, restored, refilled, advance, wait_of, spend, Headers, take_limit,
  take_reset, take_remaining, take_retry_after, corrected, block_until, min,
}
use flakehound.RateLimit.Waits.{advance_keeps, of_wait_of}

-- The limit that a response states is the one that the bucket has, or it states none.
abbrev pub IsSameLimit : ℕ → Option ℕ → Bucket → Type 0
IsSameLimit window none b = Unit
IsSameLimit window (some limit) b = (limit * window ≡ b.capacity) × (limit ≡ b.refill)

abbrev pub turns : ℕ → Bucket → ℕ
turns now b = if window_turned now b then 1 else 0

-- From one bucket to another with so many requests granted and windows turned over, on a clock that
-- does not go back.
pub data Run (window : ℕ) (b : Bucket) : (granted turned : ℕ) → Bucket → Type 0 where
  start : Run window b 0 0 b
  leave :
      {n k : ℕ} {c : Bucket} (now : ℕ)
      → Run window b n k c
      → c.updated_at ≤ now
      → wait_of window now (advance now c) ≡ 0
      → Run window b (suc n) (k + turns now c) (spend window (advance now c))
  look :
      {n k : ℕ} {c : Bucket} (now : ℕ)
      → Run window b n k c
      → c.updated_at ≤ now
      → Run window b n (k + turns now c) (advance now c)
  answer :
      {n k : ℕ} {c : Bucket} (now wall : ℕ) (h : Headers)
      → Run window b n k c
      → c.updated_at ≤ now
      → IsSameLimit window h.limit c
      → Run window b n (k + turns now c) (corrected window now wall h c)

abbrev IsWithin : (window : ℕ) → Bucket → (granted turned : ℕ) → Bucket → Type 0
IsWithin window b n k c =
    (c.capacity ≡ b.capacity)
    × ((c.refill ≡ b.refill)
        × ((b.updated_at ≤ c.updated_at)
            × (n * window + c.tokens
                ≤ b.tokens + (c.updated_at - b.updated_at) * b.refill + k * b.capacity)))

advance_gains :
    (now : ℕ) (c : Bucket)
    → (advance now c).tokens ≤ c.tokens + (now - c.updated_at) * c.refill + turns now c * c.capacity
unfolding advance restored refilled
advance_gains now c = ground arith

-- A request that leaves has a whole token to spend.
granted_has_token :
    (window now : ℕ) (b : Bucket) → 0 < b.refill → wait_of window now b ≡ 0 → window ≤ b.tokens
granted_has_token window now b p e =
    let (_, q) = of_wait_of window now 0 b p (omega (arith, e)) in omega (arith, q)

-- The same budget, with no more tokens in it.
abbrev Lowers : Bucket → Bucket → Type 0
Lowers b c =
    (c.capacity ≡ b.capacity)
    × ((c.refill ≡ b.refill) × ((c.updated_at ≡ b.updated_at) × (c.tokens ≤ b.tokens)))

Lowers-trans : (a b c : Bucket) → Lowers a b → Lowers b c → Lowers a c
Lowers-trans a b c (p, (q, (r, s))) (p', (q', (r', s'))) =
    (p' ∙ p, (q' ∙ q, (r' ∙ r, omega (arith, s, s'))))

take_limit-Lowers :
    (window : ℕ) (o : Option ℕ) (b : Bucket)
    → IsSameLimit window o b
    → Lowers b (take_limit window o b)
unfolding take_limit
take_limit-Lowers window none b s = (refl, (refl, (refl, omega arith)))
take_limit-Lowers window (some n) b s = elim (Bool-cases (n == 0)) [
  | inl e ↦ rw e (refl, (refl, (refl, omega arith)))
  | inr e ↦ rw e (s.0, (s.1, (refl, omega arith)))
]

take_reset-Lowers : (now wall : ℕ) (o : Option ℕ) (b : Bucket) → Lowers b (take_reset now wall o b)
unfolding take_reset
take_reset-Lowers now wall none b = (refl, (refl, (refl, omega arith)))
take_reset-Lowers now wall (some n) b = (refl, (refl, (refl, omega arith)))

take_remaining-Lowers :
    (window : ℕ) (o : Option ℕ) (b : Bucket) → Lowers b (take_remaining window o b)
unfolding take_remaining block_until
take_remaining-Lowers window none b = (refl, (refl, (refl, omega arith)))
take_remaining-Lowers window (some n) b = elim (Bool-cases (n == 0)) [
  | inl e ↦ rw e (blocked b.resets_at)
  | inr e ↦ rw e (refl, (refl, (refl, ground arith)))
]
  where
    clamped : Bucket
    clamped = record b { tokens = min b.tokens (n * window) }

    blocked : (o : Option ℕ) → Lowers b (elim o [ none ↦ clamped | some t ↦ block_until t clamped ])
    blocked none = (refl, (refl, (refl, ground arith)))
    blocked (some t) = (refl, (refl, (refl, ground arith)))

take_retry_after-Lowers :
    (now : ℕ) (o : Option ℕ) (b : Bucket) → Lowers b (take_retry_after now o b)
unfolding take_retry_after block_until
take_retry_after-Lowers now none b = (refl, (refl, (refl, omega arith)))
take_retry_after-Lowers now (some n) b = (refl, (refl, (refl, omega arith)))

corrected-Lowers :
    (window now wall : ℕ) (h : Headers) (c : Bucket)
    → IsSameLimit window h.limit c
    → Lowers (advance now c) (corrected window now wall h c)
unfolding corrected
corrected-Lowers window now wall h c s =
    Lowers-trans a b3 (take_retry_after now h.retry_after b3)
      (Lowers-trans a b2 b3
        (Lowers-trans a b1 b2 (take_limit-Lowers window h.limit a (same h.limit s))
          (take_reset-Lowers now wall h.reset b1))
        (take_remaining-Lowers window h.remaining b2))
      (take_retry_after-Lowers now h.retry_after b3)
  where
    a : Bucket
    a = advance now c

    b1 : Bucket
    b1 = take_limit window h.limit a

    b2 : Bucket
    b2 = take_reset now wall h.reset b1

    b3 : Bucket
    b3 = take_remaining window h.remaining b2

    same : (o : Option ℕ) → IsSameLimit window o c → IsSameLimit window o a
    same none k = tt
    same (some n) k = let (p, (q, _)) = advance_keeps now c in (k.0 ∙ sym p, k.1 ∙ sym q)

-- One step's gain joins what the run has gained.
gains_join :
    (spent tokens tokens' b0 t0 t1 now refill k turned capacity : ℕ)
    → t0 ≤ t1
    → t1 ≤ now
    → spent + tokens ≤ b0 + (t1 - t0) * refill + k * capacity
    → tokens' ≤ tokens + (now - t1) * refill + turned * capacity
    → spent + tokens' ≤ b0 + (now - t0) * refill + (k + turned) * capacity
gains_join spent tokens tokens' b0 t0 t1 now refill k turned capacity h h' p q =
    let e = span (t1 - t0) (now - t1) (now - t0) (omega (arith, h, h')) in
    let f = add-mul k turned capacity in omega (arith, e, f, p, q)
  where
    span : (x y z : ℕ) → x + y ≡ z → x * refill + y * refill ≡ z * refill
    span x y z w = rw (← w) (sym (add-mul x y refill))

looked :
    (window now : ℕ) (b c : Bucket) (n k : ℕ)
    → c.updated_at ≤ now
    → IsWithin window b n k c
    → IsWithin window b n (k + turns now c) (advance now c)
looked window now b c n k le (p, (q, (r, s))) =
    let (p', (q', (_, u))) = advance_keeps now c in
    let g =
      subst
        (λ x. (advance now c).tokens ≤ c.tokens + (now - c.updated_at) * b.refill + turns now c * x)
        p
        (subst
          (λ x.
            (advance now c).tokens ≤ c.tokens + (now - c.updated_at) * x + turns now c * c.capacity)
          q (advance_gains now c)) in
    (
      p' ∙ p,
      (
        q' ∙ q,
        (
          rw u (omega (arith, r, le)),
          rw u (
              gains_join (n * window) c.tokens _ b.tokens b.updated_at c.updated_at now b.refill k _
                b.capacity r le s g),
        ),
      ),
    )

lowered :
    (window : ℕ) (b c d : Bucket) (n k : ℕ)
    → Lowers c d
    → IsWithin window b n k c
    → IsWithin window b n k d
lowered window b c d n k (p', (q', (u, t))) (p, (q, (r, s))) =
    (p' ∙ p, (q' ∙ q, (rw u r, rw u (omega (arith, s, t)))))

run-IsWithin :
    (window : ℕ) (b c : Bucket) (n k : ℕ)
    → 0 < b.refill
    → Run window b n k c
    → IsWithin window b n k c
unfolding spend
run-IsWithin window b c n k pos start = (refl, (refl, (omega arith, omega arith)))
run-IsWithin window b _ _ _ pos (leave {n} {k} {c} now r le e) =
    let within = run-IsWithin window b c n k pos r in
    let (p, (q, (u, s))) = looked window now b c n k le within in
    let w = granted_has_token window now (advance now c) (rw q pos) e in
    (p, (q, (u, omega (arith, s, w))))
run-IsWithin window b _ _ _ pos (look {n} {k} {c} now r le) =
    looked window now b c n k le (run-IsWithin window b c n k pos r)
run-IsWithin window b _ _ _ pos (answer {n} {k} {c} now wall h r le s) =
    lowered window b (advance now c) (corrected window now wall h c) n (k + turns now c)
      (corrected-Lowers window now wall h c s)
      (looked window now b c n k le (run-IsWithin window b c n k pos r))

-- The requests granted in a run cost at most the tokens that the bucket had, the refill of the time
-- that has passed and one capacity for each window that has turned over, whatever responses
-- corrected the bucket in between, if each states the limit that the bucket has or none.
pub granted_within_budget :
    (window : ℕ) (b c : Bucket) (n k : ℕ)
    → 0 < b.refill
    → Run window b n k c
    → n * window ≤ b.tokens + (c.updated_at - b.updated_at) * b.refill + k * b.capacity
granted_within_budget window b c n k pos r =
    let (_, (_, (_, s))) = run-IsWithin window b c n k pos r in omega (arith, s)
