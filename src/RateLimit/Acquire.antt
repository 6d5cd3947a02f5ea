-- ===== src/RateLimit/Acquire.antt =====
-- `acquire` of backend/app/ratelimit.py: how it ends, and that its loop does end.
use native.Mathlib.Nat.{mul-le-mul_right}
use flakehound.Base.{
  ℕ, suc, ◌+◌, ◌≤◌, ◌≡◌, refl, ◌∙◌, subst, ap, sym, inl, inr, some, List, [], ◌∷◌, ltb, ◌==◌,
  if◌then◌else◌, arith, Bool-cases, All,
}
use flakehound.Base.Upsert.{find}
use flakehound.RateLimit.{
  Bucket, advance, wait_of, wait_for_token, spend, RateLimiter, is_key, or_new, bucket, put,
  Acquired, granted, exceeded, acquire_from, acquire,
}
use flakehound.RateLimit.Waits.{advance_keeps, IsWell, IsWellLimiter, wait_of_at}
use flakehound.RateLimit.Budget.{Run, start, leave, look, turns}
use flakehound.RateLimit.Buckets.{bucket-put, put-put}

pub bucket-IsWell :
    (now id : ℕ) (l : RateLimiter) → IsWellLimiter l → IsWell l.window (bucket now id l)
unfolding bucket find
bucket-IsWell now id l h = entries l.buckets h.1
  where
    entries :
        (rows : List (ℕ × Bucket))
        → All (λ entry. IsWell l.window entry.1) rows
        → IsWell l.window (or_new now l (find (is_key id) rows))
    entries [] k = let q = mul-le-mul_right l.window h.0 in (omega (arith, q), h.0)
    entries (r ∷ rows) k = elim (Bool-cases (is_key id r)) [
      | inl e ↦ rw e k.0
      | inr e ↦ rw e (entries rows k.1)
    ]

-- How one round ends that has no wait.
round_free :
    (fuel round : ℕ) (late : ℕ → ℕ) (now id : ℕ) (l : RateLimiter)
    → wait_of l.window now (advance now (bucket now id l)) ≡ 0
    → acquire_from (suc fuel) round late now id l
      ≡ some (granted (put id (spend l.window (advance now (bucket now id l))) l) now)
unfolding acquire_from wait_for_token
round_free fuel round late now id l e = rw e refl

-- The round after a sleep is the last.
round_after :
    (fuel round : ℕ) (late : ℕ → ℕ) (now t id : ℕ) (l : RateLimiter) (b : Bucket)
    → IsWell l.window b
    → now + wait_of l.window now (advance now b) ≤ t
    → acquire_from (suc fuel) round late t id (put id (advance now b) l)
      ≡ some (granted (put id (spend l.window (advance t (advance now b))) l) t)
unfolding put
round_after fuel round late now t id l b w h =
    let l' = put id (advance now b) l in
    let same = bucket-put t id (advance now b) l in
    round_free fuel round late t id l' (rw same (wait_of_at l.window now t b w h))
    ∙ rw same (ap (λ x. some (granted x t)) (put-put id (advance now b) _ l))

abbrev pub settled : (late : ℕ → ℕ) → (now id : ℕ) → RateLimiter → Acquired
settled late now id l =
    let b = advance now (bucket now id l) in
    let wait = wait_of l.window now b in
    let later = now + wait + late 0 in
    if wait == 0
    then granted (put id (spend l.window b) l) now
    else if ltb l.max_wait wait
    then exceeded (put id b l) now wait
    else granted (put id (spend l.window (advance later b)) l) later

-- The loop of `acquire` ends: with a bucket for every installation that holds a request and refills,
-- two rounds are enough, however late the sleep returns. A request leaves at once where there is no
-- wait, is refused with the wait where that is over the limit, and its token is then not spent, and
-- otherwise leaves when the one sleep is over.
acquire_lem :
    (late : ℕ → ℕ) (now id : ℕ) (l : RateLimiter)
    → IsWellLimiter l
    → acquire late now id l ≡ some (settled late now id l)
unfolding acquire acquire_from wait_for_token
acquire_lem late now id l h = elim (Bool-cases (wait == 0)) [
  | inl e ↦ rw e refl
  | inr e ↦ elim (Bool-cases (ltb l.max_wait wait)) [
    | inl f ↦ rw (e, f) refl
    | inr f ↦
        rw (e, f)
          (round_after 0 1 late now _ id l (bucket now id l) (bucket-IsWell now id l h)
            (omega arith))
  ]
]
  where
    wait : ℕ
    wait = wait_of l.window now (advance now (bucket now id l))

-- What `acquire` does to the installation's bucket: the requests that it lets through, and the bucket
-- that it leaves.
abbrev pub IsRun : (window : ℕ) → Bucket → ℕ → Acquired → Type 0
IsRun window b id (granted l t) = (k : ℕ) × Run window b 1 k (bucket t id l)
IsRun window b id (exceeded l t wait) = (k : ℕ) × Run window b 0 k (bucket t id l)

-- `acquire` is a run of the installation's bucket: of one request where it returns and of none where
-- it raises, if every bucket holds a request and refills and the clock has not gone back.
pub acquire-Run :
    (late : ℕ → ℕ) (now id : ℕ) (l : RateLimiter)
    → IsWellLimiter l
    → (bucket now id l).updated_at ≤ now
    → (e : Acquired) × ((acquire late now id l ≡ some e) × IsRun l.window (bucket now id l) id e)
acquire-Run late now id l h le = (settled late now id l, (acquire_lem late now id l h, runs))
  where
    b : Bucket
    b = bucket now id l

    wait : ℕ
    wait = wait_of l.window now (advance now b)

    later : ℕ
    later = now + wait + late 0

    slept :
        Run l.window b 1
          (0 + turns now b + turns later (advance now b))
          (spend l.window (advance later (advance now b)))
    slept =
        let (_, (_, (_, u))) = advance_keeps now b in
        leave later (look now start le) (rw u (omega arith))
          (wait_of_at l.window now later b (bucket-IsWell now id l h) (omega arith))

    runs : IsRun l.window b id (settled late now id l)
    runs = elim (Bool-cases (wait == 0)) [
      | inl e ↦ rw e (
        _,
        subst (Run l.window b 1 _) (sym (bucket-put now id _ l))
            (leave now start le (ground (arith, e))),
      )
      | inr e ↦ elim (Bool-cases (ltb l.max_wait wait)) [
        | inl f ↦
            rw (e, f)
              (_, subst (Run l.window b 0 _) (sym (bucket-put now id _ l)) (look now start le))
        | inr f ↦ rw (e, f) (_, subst (Run l.window b 1 _) (sym (bucket-put later id _ l)) slept)
      ]
    ]
