-- ===== src/Ai/Chat/Calls.antt =====
-- Counting the calls of the AI provider that a step of the chat loop in
-- launcher/xlpod-server/src/routes.rs makes.
use xlpod.Common.{
  ℕ, suc, ◌+◌, ◌≤◌, ◌≡◌, sym, Bool, true, false, List, [], ◌∷◌, ◌++◌, if◌then◌else◌, text_eq, arith,
}
use xlpod.System.{
  World, Event, called_provider, Outcome, M, done, failed, then_with, ◌>>=◌, ◌>>◌, after,
}
use mathlib.Core.List.{append_assoc}

-- The number of calls of the provider among the events.
abbrev pub calls : List Event → ℕ
calls [] = 0
calls (called_provider p h ∷ es) = suc (calls es)
calls (e ∷ es) = calls es

pub calls-append : (es fs : List Event) → calls (es ++ fs) ≡ calls es + calls fs
calls-append [] fs = omega arith
calls-append (e ∷ es) fs = one e (calls-append es fs)
  where
    one :
        (e : Event)
        → calls (es ++ fs) ≡ calls es + calls fs
        → calls ((e ∷ es) ++ fs) ≡ calls (e ∷ es) + calls fs
    one (called_provider p h) rest = omega (arith, rest)
    one _ rest = rest

-- From `w` to `w'` the provider has been called at most `n` times.
pub record Calls (n : ℕ) (w w' : World) : Type 0 where
  pub events : List Event
  pub trace : w'.trace ≡ events ++ w.trace
  pub few : calls events ≤ n

pub no_call : {n : ℕ} {w w' : World} → w'.trace ≡ w.trace → Calls n w w'
no_call e = record { events = []; trace = e; few = omega arith }

pub Calls-trans : {n m : ℕ} {u v w : World} → Calls n u v → Calls m v w → Calls (n + m) u w
Calls-trans a b = record {
  events = b.events ++ a.events;
  trace = rw (b.trace, a.trace) (sym (append_assoc b.events a.events _));
  few = omega (arith, a.few, b.few, calls-append b.events a.events);
}

pub Calls-mono : {n m : ℕ} {u v : World} → n ≤ m → Calls n u v → Calls m u v
Calls-mono le a = record { events = a.events; trace = a.trace; few = omega (arith, a.few) }

-- A step calls the provider at most `n` times.
pub record Makes (n : ℕ) {A : Type 0} (m : M A) : Type 0 where
  pub run : (w : World) → Calls n w (after (m w))

module _ {A B : Type 0} where
  then_Calls :
      (n k : ℕ) (w : World) (o : Outcome A) (f : A → M B)
      → Calls n w (after o)
      → ((a : A) → Makes k (f a))
      → Calls (n + k) w (after (then_with f o))
  then_Calls n k w (done a v) f h g = Calls-trans h ((g a).run v)
  then_Calls n k w (failed e v) f h g = Calls-mono (omega arith) h

  pub Makes-bind :
      (n k : ℕ) {total : ℕ} {m : M A} {f : A → M B}
      → n + k ≤ total
      → Makes n m
      → ((a : A) → Makes k (f a))
      → Makes total (m >>= f)
  Makes-bind n k {m} {f} le h g = record {
    run = λ w. Calls-mono le (then_Calls n k w (m w) f (h.run w) g);
  }

pub Makes-then :
    {k : ℕ} {A : Type 0} {m : M (Unit {0})} {n : M A} → Makes 0 m → Makes k n → Makes k (m >> n)
Makes-then {k} {m} {n} h l = record {
  run = λ w. Calls-mono (omega arith) (then_Calls 0 k w (m w) (λ _. n) (h.run w) (λ _. l));
}

pub Makes-mono : {n k : ℕ} {A : Type 0} {m : M A} → n ≤ k → Makes n m → Makes k m
Makes-mono le h = record { run = λ w. Calls-mono le (h.run w) }

pub Makes-if :
    {n : ℕ} {A : Type 0} (b : Bool) {m k : M A}
    → Makes n m
    → Makes n k
    → Makes n (if b then m else k)
Makes-if true h l = h
Makes-if false h l = l
