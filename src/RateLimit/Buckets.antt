-- ===== src/RateLimit/Buckets.antt =====
-- The limiter's buckets: what is filed under an installation is read back, and the others stay.
use flakehound.Base.{
  ℕ, ◌≡◌, refl, ◌≢◌, inl, inr, ap, Bool, true, Option, none, some, List, [], ◌∷◌, arith, Bool-cases,
}
use flakehound.Base.Upsert.{upsert, find, merged, find-upsert, find-upsert_other}
use flakehound.RateLimit.{Bucket, RateLimiter, is_key, new_bucket, or_new, bucket, put}

pub bucket-put : (now id : ℕ) (b : Bucket) (l : RateLimiter) → bucket now id (put id b l) ≡ b
unfolding bucket put or_new
bucket-put now id b l =
    rw
      (find-upsert (is_key id) (λ entry. (id, b)) (id, b) l.buckets (ground arith)
        (λ r e. ground arith))
      (filed (find (is_key id) l.buckets))
  where
    filed :
        (o : Option (ℕ × Bucket))
        → or_new now (put id b l) (some (merged (λ entry. (id, b)) (id, b) o)) ≡ b
    filed none = refl
    filed (some e) = refl

or_new-put :
    (now id : ℕ) (b : Bucket) (l : RateLimiter) (o : Option (ℕ × Bucket))
    → or_new now (put id b l) o ≡ or_new now l o
unfolding or_new put new_bucket
or_new-put now id b l none = refl
or_new-put now id b l (some e) = refl

-- An installation's requests and responses leave every other installation's bucket as it is.
pub bucket-put_other :
    (now id other : ℕ) (b : Bucket) (l : RateLimiter)
    → other ≢ id
    → bucket now other (put id b l) ≡ bucket now other l
unfolding bucket put
bucket-put_other now id other b l h =
    rw
      (find-upsert_other (is_key id) (is_key other) (λ entry. (id, b)) (id, b) l.buckets
        (ground (arith, h)) (λ r e. (ground (arith, h), ground (arith, h))))
      (or_new-put now id b l (find (is_key other) l.buckets))

upsert-upsert :
    {A : Type 0} (same : A → Bool) (new new2 : A) (rows : List A)
    → same new ≡ true
    → upsert same (λ r. new2) new2 (upsert same (λ r. new) new rows)
      ≡ upsert same (λ r. new2) new2 rows
unfolding upsert
upsert-upsert same new new2 [] h = rw h refl
upsert-upsert same new new2 (r ∷ rs) h = elim (Bool-cases (same r)) [
  | inl e ↦ rw e (rw h refl)
  | inr e ↦ rw e (rw e (ap (λ t. r ∷ t) (upsert-upsert same new new2 rs h)))
]

pub put-put : (id : ℕ) (b c : Bucket) (l : RateLimiter) → put id c (put id b l) ≡ put id c l
unfolding put
put-put id b c l =
    ap (λ t. record l { buckets = t })
      (upsert-upsert (is_key id) (id, b) (id, c) l.buckets (ground arith))
