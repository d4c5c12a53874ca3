-- ===== src/RateLimit.antt =====
-- launcher/xlpod-server/src/rate_limit.rs: the sliding-window rate limiter. An `Instant` is a number
-- of nanoseconds from an origin at least a second before the first request, so that
-- `now - WINDOW` is an instant too; the instant of each check is an argument.
pub mod Bucket
pub mod Window
pub mod Bound
pub mod Recovery
use xlpod.Common.{
  ℕ, ◌+◌, ◌-◌, ◌%◌, ◌^◌, Bool, String, List, [], ◌∷◌, ◌++◌, Option, none, some, lookup, insert,
  if◌then◌else◌, ltb, leb, length, text_eq,
}
use xlpod.Error.{ApiError, rate_limited}
use xlpod.Auth.{Result, ok, err, second}

-- `config::RATE_LIMIT_PER_SEC`.
abbrev pub rate_limit_per_sec : ℕ
rate_limit_per_sec = 100

-- `WINDOW`.
abbrev pub window : ℕ
window = second

-- `VecDeque<Instant>`, the front first.
abbrev pub Bucket : Type 0
Bucket = List ℕ

-- `struct RateLimiter`.
abbrev pub RateLimiter : Type 0
RateLimiter = List (String × Bucket)

-- The `while let Some(front)` loop of `check`.
unfoldable pub pop_old : ℕ → Bucket → Bucket
pop_old cutoff [] = []
pop_old cutoff (front ∷ rest) = if ltb front cutoff then pop_old cutoff rest else front ∷ rest

-- The part of `check` below the loop: the length is cast to `u32` before the comparison.
unfoldable pub admit : ℕ → Bucket → Result (Unit {0}) × Bucket
admit now bucket =
    if leb rate_limit_per_sec (length bucket % 2 ^ 32)
    then (err rate_limited, bucket)
    else (ok tt, bucket ++ now ∷ [])

-- `entry(key).or_default()`.
unfoldable pub bucket_of : String → RateLimiter → Bucket
bucket_of key limiter = elim (lookup key limiter) [ none ↦ [] | some bucket ↦ bucket ]

-- `RateLimiter::check`, at the instant `now`.
unfoldable pub check : String → ℕ → RateLimiter → Result (Unit {0}) × RateLimiter
check key now limiter =
    let (answer, bucket) = admit now (pop_old (now - window) (bucket_of key limiter)) in
    (answer, insert key bucket limiter)
