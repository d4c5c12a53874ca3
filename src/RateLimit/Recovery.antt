-- ===== src/RateLimit/Recovery.antt =====
-- The rate limiter of launcher/xlpod-server/src/rate_limit.rs admits again once its window is over.
use xlpod.Common.{
  ℕ, ◌+◌, ◌-◌, ◌%◌, ◌^◌, ◌<◌, ◌≡◌, refl, inl, inr, String, [], ◌∷◌, All, All-append, arith, length,
  lookup, text_eq, ◌==◌, leb, Bool-cases,
}
use xlpod.Auth.{ok}
use xlpod.RateLimit.{
  Bucket, RateLimiter, window, rate_limit_per_sec, pop_old, admit, bucket_of, check,
}
use xlpod.RateLimit.Window.{History, bucket_of-insert}

-- The limiter after a history of requests.
unfoldable pub checks : RateLimiter → History → RateLimiter
checks limiter [] = limiter
checks limiter ((k, t) ∷ rs) = checks (check k t limiter).1 rs

pop_old-All : (P : ℕ → Type 0) (cutoff : ℕ) (ts : Bucket) → All P ts → All P (pop_old cutoff ts)
unfolding pop_old
pop_old-All P cutoff [] h = tt
pop_old-All P cutoff (t ∷ ts) h = ground (arith, pop_old-All P cutoff ts h.1)

-- The loop empties a bucket whose instants are all before the cutoff.
pop_old_empty : (cutoff : ℕ) (ts : Bucket) → All (λ t. t < cutoff) ts → pop_old cutoff ts ≡ []
unfolding pop_old
pop_old_empty cutoff [] h = refl
pop_old_empty cutoff (t ∷ ts) h = ground (arith, pop_old_empty cutoff ts h.1)

-- All instants in the limiter are before a bound.
abbrev pub Before : ℕ → RateLimiter → Type 0
Before b limiter = (k : String) → All (λ t. t < b) (bucket_of k limiter)

admit-Before :
    (b now : ℕ) (ts : Bucket) → now < b → All (λ t. t < b) ts → All (λ t. t < b) (admit now ts).1
unfolding admit
admit-Before b now ts h k = elim (Bool-cases (leb rate_limit_per_sec (length ts % 2 ^ 32))) [
  | inl e ↦ rw e k
  | inr e ↦ rw e (All-append (λ t. t < b) ts (now ∷ []) k (h, tt))
]

check-Before :
    (b now : ℕ) (key : String) (limiter : RateLimiter)
    → now < b
    → Before b limiter
    → Before b (check key now limiter).1
unfolding check
check-Before b now key limiter h before k =
    rw (bucket_of-insert key k _ limiter) (elim (Bool-cases (key == k)) [
      | inl e ↦
          rw e (admit-Before b now _ h (pop_old-All (λ t. t < b) (now - window) _ (before key)))
      | inr e ↦ rw e (before k)
    ])

checks-Before :
    (b : ℕ) (rs : History) (limiter : RateLimiter)
    → All (λ r. r.1 < b) rs
    → Before b limiter
    → Before b (checks limiter rs)
unfolding checks
checks-Before b [] limiter h before = before
checks-Before b ((k, t) ∷ rs) limiter h before =
    checks-Before b rs _ h.1 (check-Before b t k limiter h.0 before)

-- However many requests a key has made, and whatever they were answered, a request more than a second
-- after all of them is admitted.
pub check_recovers :
    (key : String) (now : ℕ) (rs : History)
    → All (λ r. r.1 + window < now) rs
    → (check key now (checks [] rs)).0 ≡ ok tt
unfolding check admit bucket_of lookup
check_recovers key now rs h =
    rw
      (pop_old_empty (now - window) (bucket_of key (checks [] rs))
        (checks-Before (now - window) rs [] (earlier rs h) none_yet key))
      refl
  where
    earlier : (l : History) → All (λ r. r.1 + window < now) l → All (λ r. r.1 < now - window) l
    earlier [] k = tt
    earlier (r ∷ l) k = (omega (arith, k.0), earlier l k.1)

    none_yet : Before (now - window) []
    none_yet k = tt
