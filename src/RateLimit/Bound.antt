-- ===== src/RateLimit/Bound.antt =====
-- The bound that launcher/xlpod-server/src/rate_limit.rs promises: a hundred requests of a key in a
-- second.
use xlpod.Common.{
  ℕ, ◌+◌, ◌-◌, ◌≤◌, ◌<◌, ◌≡◌, ◌&&◌, String, List, [], ◌∷◌, ◌++◌, arith, filter, ltb, leb, length,
  Bool-cases, inl, inr, text_eq,
}
use xlpod.RateLimit.{window, rate_limit_per_sec}
use xlpod.RateLimit.Bucket.{since}
use xlpod.RateLimit.Window.{
  History, Monotone, accepted, extended, admissions, accepted-eq-admissions,
}

-- The instants of a list in the closed window of one second that starts at `start`.
abbrev pub in_window : ℕ → List ℕ → List ℕ
in_window start ts = filter (λ t. leb start t && leb t (start + window)) ts

in_window-concat :
    (start t : ℕ) (ts : List ℕ)
    → length (in_window start (ts ++ t ∷ [])) ≤ length (in_window start ts) + 1
in_window-concat start t [] = ground arith
in_window-concat start t (u ∷ ts) = ground (arith, in_window-concat start t ts)

in_window_late :
    (start t : ℕ) (ts : List ℕ)
    → start + window < t
    → in_window start (ts ++ t ∷ []) ≡ in_window start ts
in_window_late start t [] h = ground arith
in_window_late start t (u ∷ ts) h = ground (arith, in_window_late start t ts h)

in_window-le-since :
    (start c : ℕ) (ts : List ℕ) → c ≤ start → length (in_window start ts) ≤ length (since c ts)
in_window-le-since start c [] h = omega arith
in_window-le-since start c (u ∷ ts) h = ground (arith, in_window-le-since start c ts h)

extend_bound :
    (start now : ℕ) (past : List ℕ)
    → length (in_window start past) ≤ rate_limit_per_sec
    → length (since (now - window) past) < rate_limit_per_sec
    → length (in_window start (past ++ now ∷ [])) ≤ rate_limit_per_sec
extend_bound start now past bound free = elim (Bool-cases (ltb (start + window) now)) [
  | inl late ↦ rw (in_window_late start now past (ground arith)) bound
  | inr soon ↦
      let le : now - window ≤ start = ground arith in
      omega
        (arith, in_window-concat start now past, in_window-le-since start (now - window) past le)
]

admissions_bound :
    (start : ℕ) (key : String) (past : List ℕ) (rs : History)
    → length (in_window start past) ≤ rate_limit_per_sec
    → length (in_window start (admissions key past rs)) ≤ rate_limit_per_sec
unfolding admissions
admissions_bound start key past [] h = h
admissions_bound start key past ((k, now) ∷ rs) h =
    admissions_bound start key (extended key k now past) rs
      (ground (arith, extend_bound start now past h))

-- In no closed window of one second does the limiter admit more than a hundred requests of a key,
-- provided that the requests reach it in the order of their instants.
pub accepted_bound :
    (start : ℕ) (key : String) (rs : History)
    → Monotone 0 rs
    → length (in_window start (accepted key [] rs)) ≤ 100
accepted_bound start key rs m =
    rw (accepted-eq-admissions key rs m) (admissions_bound start key [] rs (omega arith))
