-- ===== src/RateLimit/Window.antt =====
-- The promise of launcher/xlpod-server/src/rate_limit.rs over a whole history of requests, against
-- a specification that keeps every instant at which a key was admitted and counts.
use mathlib.Core.List.{append-nil, append_assoc}
use xlpod.Common.{
  ℕ, ◌-◌, ◌≤◌, ◌<◌, ◌≡◌, refl, sym, ◌∙◌, ap, Bool, true, false, ◌&&◌, String, List, [], ◌∷◌, ◌++◌,
  arith, ltb, length, length-append, if◌then◌else◌, Bool-cases, inl, inr, lookup, insert,
  lookup-insert, ◌==◌, text_eq, beq_self,
}
use xlpod.Error.{rate_limited}
use xlpod.Auth.{Result, ok, err}
use xlpod.RateLimit.{
  Bucket, RateLimiter, window, rate_limit_per_sec, pop_old, admit, bucket_of, check,
}
use xlpod.RateLimit.Bucket.{
  Ordered, Ordered-mono, Ordered-concat, since, since-Ordered, pop_old-eq-since,
}

-- Requests with their keys and instants, in the order in which they reach the limiter.
abbrev pub History : Type 0
History = List (String × ℕ)

-- The clock does not run backwards between the requests.
abbrev pub Monotone : ℕ → History → Type 0
Monotone last [] = Unit
Monotone last ((k, t) ∷ rs) = (last ≤ t) × Monotone t rs

abbrev is_ok : Result (Unit {0}) → Bool
is_ok (ok u) = true
is_ok (err e) = false

-- The instants at which the limiter admits requests of a key.
unfoldable pub accepted : String → RateLimiter → History → List ℕ
accepted key limiter [] = []
accepted key limiter ((k, t) ∷ rs) =
    let later = accepted key (check k t limiter).1 rs in
    if k == key && is_ok (check k t limiter).0 then t ∷ later else later

abbrev pub extended : String → String → ℕ → List ℕ → List ℕ
extended key k t past =
    if k == key && ltb (length (since (t - window) past)) rate_limit_per_sec
    then past ++ t ∷ []
    else past

-- The specification: admit while fewer than a hundred admissions lie in the last second.
unfoldable pub admissions : String → List ℕ → History → List ℕ
admissions key past [] = past
admissions key past ((k, t) ∷ rs) = admissions key (extended key k t past) rs

since-since : (c d : ℕ) (ts : Bucket) → c ≤ d → since d (since c ts) ≡ since d ts
since-since c d [] h = refl
since-since c d (t ∷ ts) h = ground (arith, since-since c d ts h)

pub length-since-le : (c d : ℕ) (ts : Bucket) → c ≤ d → length (since d ts) ≤ length (since c ts)
length-since-le c d [] h = omega arith
length-since-le c d (t ∷ ts) h = ground (arith, length-since-le c d ts h)

since-concat : (c t : ℕ) (ts : Bucket) → c ≤ t → since c (ts ++ t ∷ []) ≡ since c ts ++ t ∷ []
since-concat c t [] h = ground arith
since-concat c t (u ∷ ts) h = ground (arith, since-concat c t ts h)

-- What the limiter's bucket has to do with the admissions so far.
record Tracks (key : String) (limiter : RateLimiter) (past : List ℕ) (last : ℕ) : Type 0 where
  cut : ℕ
  cut_le : cut ≤ last - window
  same : bucket_of key limiter ≡ since cut past
  small : length (since cut past) ≤ rate_limit_per_sec
  ordered : Ordered last past

module _ (key : String) (limiter : RateLimiter) (past : List ℕ) (last now : ℕ)
    (t : Tracks key limiter past last) (later : last ≤ now) where
  popped : pop_old (now - window) (bucket_of key limiter) ≡ since (now - window) past
  popped = rw t.same (
      pop_old-eq-since (now - window) last (since t.cut past)
        (since-Ordered t.cut last past t.ordered)
      ∙ since-since t.cut (now - window) past (omega (arith, t.cut_le)))

  still_small : length (since (now - window) past) ≤ rate_limit_per_sec
  still_small = omega (
    arith,
    t.small,
    t.cut_le,
    length-since-le t.cut (now - window) past (omega (arith, t.cut_le)),
  )

  check_full :
      rate_limit_per_sec ≤ length (since (now - window) past)
      → check key now limiter ≡ (err rate_limited, insert key (since (now - window) past) limiter)
  unfolding check admit
  check_full full = rw popped (ground (arith, still_small))

  check_free :
      length (since (now - window) past) < rate_limit_per_sec
      → check key now limiter ≡ (ok tt, insert key (since (now - window) past ++ now ∷ []) limiter)
  unfolding check admit
  check_free free = rw popped (ground arith)

pub bucket_of-insert :
    (k key : String) (b : Bucket) (limiter : RateLimiter)
    → bucket_of key (insert k b limiter) ≡ (if k == key then b else bucket_of key limiter)
unfolding bucket_of
bucket_of-insert k key b limiter = ground (arith, lookup-insert k key b limiter)

module _ (key : String) (limiter : RateLimiter) (past : List ℕ) (last now : ℕ)
    (t : Tracks key limiter past last) (later : last ≤ now) where
  Tracks-full :
      rate_limit_per_sec ≤ length (since (now - window) past)
      → Tracks key (check key now limiter).1 past now
  Tracks-full full = record {
    cut = now - window;
    cut_le = omega arith;
    same =
        rw (check_full key limiter past last now t later full)
          (bucket_of-insert key key _ limiter ∙ if_self _ _);
    small = still_small key limiter past last now t later;
    ordered = Ordered-mono last now past later t.ordered;
  }
    where
      if_self : (a b : Bucket) → (if key == key then a else b) ≡ a
      if_self a b = rw (beq_self key)

  Tracks-free :
      length (since (now - window) past) < rate_limit_per_sec
      → Tracks key (check key now limiter).1 (past ++ now ∷ []) now
  Tracks-free free = record {
    cut = now - window;
    cut_le = omega arith;
    same = rw (check_free key limiter past last now t later free) (
        bucket_of-insert key key _ limiter
        ∙ if_self _ _
        ∙ sym (since-concat (now - window) now past (omega arith)));
    small =
        rw (since-concat (now - window) now past (omega arith))
          (omega (arith, length-append (since (now - window) past) (now ∷ [])));
    ordered = Ordered-concat now past (Ordered-mono last now past later t.ordered);
  }
    where
      if_self : (a b : Bucket) → (if key == key then a else b) ≡ a
      if_self a b = rw (beq_self key)

  Tracks-other : (k : String) → (k == key) ≡ false → Tracks key (check k now limiter).1 past now
  unfolding check
  Tracks-other k e = record {
    cut = t.cut;
    cut_le = omega (arith, t.cut_le);
    same = bucket_of-insert k key _ limiter ∙ (rw e t.same);
    small = t.small;
    ordered = Ordered-mono last now past later t.ordered;
  }

accepted-admissions :
    (key : String) (limiter : RateLimiter) (past : List ℕ) (last : ℕ) (rs : History)
    → Tracks key limiter past last
    → Monotone last rs
    → past ++ accepted key limiter rs ≡ admissions key past rs
unfolding accepted admissions
accepted-admissions key limiter past last [] t m = append-nil past
accepted-admissions key limiter past last ((k, now) ∷ rs) t (le, m) = elim (Bool-cases (k == key)) [
  | inl e ↦
      let q : k ≡ key = (text_eq.eq_iff k key).0 e in
      elim (Bool-cases (ltb (length (since (now - window) past)) rate_limit_per_sec)) [
        | inl free ↦
            let lt : length (since (now - window) past) < rate_limit_per_sec = ground arith in
            rw (q, beq_self key, free, ap (λ r. r.0) (check_free key limiter past last now t le lt))
              (sym (append_assoc past (now ∷ []) _)
                ∙ accepted-admissions key (check key now limiter).1 (past ++ now ∷ []) now rs
                    (Tracks-free key limiter past last now t le lt) m)
        | inr full ↦
            let ge : rate_limit_per_sec ≤ length (since (now - window) past) = ground arith in
            rw (q, beq_self key, full, ap (λ r. r.0) (check_full key limiter past last now t le ge))
              (accepted-admissions key (check key now limiter).1 past now rs
                (Tracks-full key limiter past last now t le ge) m)
      ]
  | inr e ↦ rw e (
      accepted-admissions key (check k now limiter).1 past now rs
        (Tracks-other key limiter past last now t le k e) m)
]

-- The limiter admits exactly the requests that the specification admits: those that find fewer than
-- a hundred admissions of their key in the second before them, whatever other keys do, provided
-- that the requests reach it in the order of their instants.
pub accepted-eq-admissions :
    (key : String) (rs : History) → Monotone 0 rs → accepted key [] rs ≡ admissions key [] rs
unfolding bucket_of lookup
accepted-eq-admissions key rs m =
    accepted-admissions key [] [] 0 rs
      (record { cut = 0; cut_le = omega arith; same = refl; small = omega arith; ordered = tt }) m
