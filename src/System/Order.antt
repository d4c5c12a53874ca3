-- ===== src/System/Order.antt =====
-- Reasoning about steps by a relation between the states of the launcher
-- (launcher/xlpod-server/src/state.rs) before and after them.
use xlpod.Common.{ℕ, suc, Bool, true, false, ◌∷◌, Option, none, some, if◌then◌else◌}
use xlpod.Error.{ApiError}
use xlpod.Auth.{Result, ok, err}
use xlpod.System.Types.{World, Event}
use xlpod.System.Monad.{
  Outcome, M, done, failed, then_with, ◌>>=◌, ◌>>◌, pure, throw, guard, or_throw, lift, draw, emit,
  reads, after,
}

-- What a step that is looked at in parts may do: the relation composes, and is blind to the count of
-- external calls.
pub record Order (R : World → World → Type 0) : Type 0 where
  pub trans : (u v w : World) → R u v → R v w → R u w
  pub unseen : (w : World) (n : ℕ) → R w (record w { ticks = n })

-- The relation is blind to events, too.
pub record Blind (R : World → World → Type 0) : Type 0 where
  pub event : (w : World) (e : Event) → R w (record w { trace = e ∷ w.trace })

-- Wherever it starts, the step leads to a related world.
pub record Follows (R : World → World → Type 0) {A : Type 0} (m : M A) : Type 0 where
  pub run : (w : World) → R w (after (m w))

module _ (R : World → World → Type 0) ⦃o : Order R⦄ where
  pub same : (w : World) → R w w
  same w = o.unseen w w.ticks

pub Follows-emit : {R : World → World → Type 0} ⦃b : Blind R⦄ (e : Event) → Follows R (emit e)
Follows-emit ⦃b⦄ e = record { run = λ w. b.event w e }

module _ {R : World → World → Type 0} ⦃o : Order R⦄ where
  pub Follows-guard : (b : Bool) (e : ApiError) → Follows R (guard b e)
  Follows-guard true e = record { run = λ w. same R w }
  Follows-guard false e = record { run = λ w. same R w }

  module _ {A : Type 0} where
    then_R :
        {B : Type 0} (w : World) (c : Outcome B) (f : B → M A)
        → R w (after c)
        → ((b : B) → Follows R (f b))
        → R w (after (then_with f c))
    then_R w (done b v) f h g = o.trans _ _ _ h ((g b).run v)
    then_R w (failed e v) f h g = h

    pub Follows-bind :
        {B : Type 0} {m : M B} {f : B → M A}
        → Follows R m
        → ((b : B) → Follows R (f b))
        → Follows R (m >>= f)
    Follows-bind {m} {f} h g = record { run = λ w. then_R w (m w) f (h.run w) g }

    pub Follows-then : {m : M (Unit {0})} {k : M A} → Follows R m → Follows R k → Follows R (m >> k)
    Follows-then {m} {k} h l = record { run = λ w. then_R w (m w) (λ _. k) (h.run w) (λ _. l) }

    pub Follows-if :
        (b : Bool) {m k : M A} → Follows R m → Follows R k → Follows R (if b then m else k)
    Follows-if true h l = h
    Follows-if false h l = l

    pub Follows-pure : (a : A) → Follows R (pure a)
    Follows-pure a = record { run = λ w. same R w }

    pub Follows-throw : (e : ApiError) → Follows R (throw {A = A} e)
    Follows-throw e = record { run = λ w. same R w }

    pub Follows-or_throw : (a : Option A) (e : ApiError) → Follows R (or_throw a e)
    Follows-or_throw none e = record { run = λ w. same R w }
    Follows-or_throw (some a) e = record { run = λ w. same R w }

    pub Follows-lift : (r : Result A) → Follows R (lift r)
    Follows-lift (ok a) = record { run = λ w. same R w }
    Follows-lift (err e) = record { run = λ w. same R w }

    pub Follows-draw : (oracle : ℕ → A) → Follows R (draw oracle)
    Follows-draw oracle = record { run = λ w. o.unseen w (suc w.ticks) }

    pub Follows-reads : (f : World → A) → Follows R (reads f)
    Follows-reads f = record { run = λ w. same R w }

-- The rules by which `search` follows a step that is written as a `do` block.
pub ruleset follows = (
  Follows-bind, Follows-then, Follows-if, Follows-pure, Follows-throw, Follows-or_throw,
  Follows-lift, Follows-draw, Follows-reads, Follows-guard, Follows-emit,
)
