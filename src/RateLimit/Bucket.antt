-- ===== src/RateLimit/Bucket.antt =====
-- One bucket of launcher/xlpod-server/src/rate_limit.rs: its instants stay ordered, within the
-- window, and at most a hundred.
use xlpod.Common.{ℕ, ◌≤◌, ◌≡◌, refl, [], ◌∷◌, ◌++◌, arith, All, All-append, filter, leb}
use xlpod.RateLimit.{Bucket, pop_old}

-- The instants in the bucket are in order, and none is later than `now`.
abbrev pub Ordered : ℕ → Bucket → Type 0
Ordered now [] = Unit
Ordered now (t ∷ ts) = (t ≤ now) × All (λ u. t ≤ u) ts × Ordered now ts

pub Ordered-mono : (now later : ℕ) (ts : Bucket) → now ≤ later → Ordered now ts → Ordered later ts
Ordered-mono now later [] le h = tt
Ordered-mono now later (t ∷ ts) le (h, k, o) = (omega arith, k, Ordered-mono now later ts le o)

All-bound : (now : ℕ) (ts : Bucket) → Ordered now ts → All (λ t. t ≤ now) ts
All-bound now [] o = tt
All-bound now (t ∷ ts) (h, k, o) = (h, All-bound now ts o)

pub Ordered-concat : (now : ℕ) (ts : Bucket) → Ordered now ts → Ordered now (ts ++ now ∷ [])
Ordered-concat now [] o = (omega arith, tt, tt)
Ordered-concat now (t ∷ ts) (h, k, o) =
    (h, All-append (λ u. t ≤ u) ts (now ∷ []) k (h, tt), Ordered-concat now ts o)

-- The instants of a history that a bucket still holds after a cutoff.
abbrev pub since : ℕ → Bucket → Bucket
since cutoff ts = filter (λ t. leb cutoff t) ts

since_whole : (cutoff : ℕ) (ts : Bucket) → All (λ t. cutoff ≤ t) ts → since cutoff ts ≡ ts
since_whole cutoff [] h = refl
since_whole cutoff (t ∷ ts) (h, k) = ground (arith, since_whole cutoff ts k)

All-mono : (a b : ℕ) (ts : Bucket) → a ≤ b → All (λ t. b ≤ t) ts → All (λ t. a ≤ t) ts
All-mono a b [] le h = tt
All-mono a b (t ∷ ts) le (h, k) = (omega arith, All-mono a b ts le k)

-- On an ordered bucket, popping from the front drops exactly the instants before the cutoff.
pub pop_old-eq-since :
    (cutoff now : ℕ) (ts : Bucket) → Ordered now ts → pop_old cutoff ts ≡ since cutoff ts
unfolding pop_old
pop_old-eq-since cutoff now [] o = refl
pop_old-eq-since cutoff now (t ∷ ts) (h, k, o) =
    ground (arith, pop_old-eq-since cutoff now ts o, since_whole cutoff ts, All-mono cutoff t ts)

since-All : (P : ℕ → Type 0) (cutoff : ℕ) (ts : Bucket) → All P ts → All P (since cutoff ts)
since-All P cutoff [] h = tt
since-All P cutoff (t ∷ ts) (h, k) = ground (arith, since-All P cutoff ts k)

pub since-Ordered : (cutoff now : ℕ) (ts : Bucket) → Ordered now ts → Ordered now (since cutoff ts)
since-Ordered cutoff now [] o = tt
since-Ordered cutoff now (t ∷ ts) (h, k, o) =
    ground (arith, since-Ordered cutoff now ts o, since-All (λ u. t ≤ u) cutoff ts k)
