-- ===== src/System/Logic.antt =====
-- Reasoning about steps: what a step may emit while it leaves every store of the launcher
-- (launcher/xlpod-server/src/state.rs) as it is.
use xlpod.Common.{
  ℕ, ◌≡◌, refl, sym, ◌∙◌, Bool, true, false, Option, none, some, List, [], ◌∷◌, ◌++◌, All,
  All-append, if◌then◌else◌,
}
use xlpod.Error.{ApiError}
use xlpod.System.Types.{World, Event}
use xlpod.System.Monad.{
  Outcome, M, done, failed, then_with, ◌>>=◌, ◌>>◌, pure, throw, guard, or_throw, draw, emit, reads,
  after,
}
use mathlib.Core.List.{append_assoc}

-- From `w` to `w'` only events with the property have happened, and the stores have not changed.
pub record Within (P : Event → Type 0) (w w' : World) : Type 0 where
  pub events : List Event
  pub trace : w'.trace ≡ events ++ w.trace
  pub allowed : All P events
  pub tokens : w'.tokens ≡ w.tokens
  pub limiter : w'.limiter ≡ w.limiter
  pub audit : w'.audit ≡ w.audit
  pub sessions : w'.sessions ≡ w.sessions
  pub windows : w'.windows ≡ w.windows
  pub cost : w'.cost ≡ w.cost

module _ {P : Event → Type 0} where
  pub Within-refl : (w : World) → Within P w w
  Within-refl w = record {
    events = [];
    trace = refl;
    allowed = tt;
    tokens = refl;
    limiter = refl;
    audit = refl;
    sessions = refl;
    windows = refl;
    cost = refl;
  }

  pub Within-trans : {u v w : World} → Within P u v → Within P v w → Within P u w
  Within-trans a b = record {
    events = b.events ++ a.events;
    trace = rw (b.trace, a.trace) (sym (append_assoc b.events a.events _));
    allowed = All-append P b.events a.events b.allowed a.allowed;
    tokens = b.tokens ∙ a.tokens;
    limiter = b.limiter ∙ a.limiter;
    audit = b.audit ∙ a.audit;
    sessions = b.sessions ∙ a.sessions;
    windows = b.windows ∙ a.windows;
    cost = b.cost ∙ a.cost;
  }

-- Wherever it starts, the step emits only such events and keeps the stores. A record, so that the
-- rules below find the step's own shape.
pub record Stays (P : Event → Type 0) {A : Type 0} (m : M A) : Type 0 where
  pub run : (w : World) → Within P w (after (m w))

module _ {P : Event → Type 0} {A : Type 0} where
  -- A step that changes neither the trace nor a store.
  pub Stays-same :
      (m : M A)
      → ((w : World)
          → ((after (m w)).trace ≡ w.trace)
            × ((after (m w)).tokens ≡ w.tokens)
            × ((after (m w)).limiter ≡ w.limiter)
            × ((after (m w)).audit ≡ w.audit)
            × ((after (m w)).sessions ≡ w.sessions)
            × ((after (m w)).windows ≡ w.windows)
            × ((after (m w)).cost ≡ w.cost))
      → Stays P m
  Stays-same m h = record {
    run = λ w. record {
      events = [];
      trace = (h w).0;
      allowed = tt;
      tokens = (h w).1;
      limiter = (h w).2;
      audit = (h w).3;
      sessions = (h w).4;
      windows = (h w).5;
      cost = (h w).6;
    };
  }

  then_Within :
      {B : Type 0} (w : World) (o : Outcome B) (f : B → M A)
      → Within P w (after o)
      → ((b : B) → Stays P (f b))
      → Within P w (after (then_with f o))
  then_Within w (done b v) f h k = Within-trans h ((k b).run v)
  then_Within w (failed e v) f h k = h

  pub Stays-bind :
      {B : Type 0} {m : M B} {f : B → M A}
      → Stays P m
      → ((b : B) → Stays P (f b))
      → Stays P (m >>= f)
  Stays-bind {m} {f} h k = record { run = λ w. then_Within w (m w) f (h.run w) k }

  pub Stays-then : {m : M (Unit {0})} {k : M A} → Stays P m → Stays P k → Stays P (m >> k)
  Stays-then {m} {k} h l = record { run = λ w. then_Within w (m w) (λ _. k) (h.run w) (λ _. l) }

  pub Stays-if : (b : Bool) {m k : M A} → Stays P m → Stays P k → Stays P (if b then m else k)
  Stays-if true h l = h
  Stays-if false h l = l

  pub Stays-or_throw : (o : Option A) (e : ApiError) → Stays P (or_throw o e)
  Stays-or_throw none e = Stays-same _ (λ w. (refl, refl, refl, refl, refl, refl, refl))
  Stays-or_throw (some a) e = Stays-same _ (λ w. (refl, refl, refl, refl, refl, refl, refl))

  -- A value that is there is known in what follows.
  pub Stays-known :
      {B : Type 0} (o : Option B) (e : ApiError) {f : B → M A}
      → ((b : B) → o ≡ some b → Stays P (f b))
      → Stays P (or_throw o e >>= f)
  Stays-known none e h = Stays-same _ (λ w. (refl, refl, refl, refl, refl, refl, refl))
  Stays-known (some b) e {f} h = record { run = λ w. (h b refl).run w }

  pub Stays-draw : (oracle : ℕ → A) → Stays P (draw oracle)
  Stays-draw oracle = Stays-same _ (λ w. (refl, refl, refl, refl, refl, refl, refl))

  pub Stays-reads : (f : World → A) → Stays P (reads f)
  Stays-reads f = Stays-same _ (λ w. (refl, refl, refl, refl, refl, refl, refl))

  pub Stays-pure : (a : A) → Stays P (pure a)
  Stays-pure a = Stays-same _ (λ w. (refl, refl, refl, refl, refl, refl, refl))

  pub Stays-throw : (e : ApiError) → Stays P (throw {A = A} e)
  Stays-throw e = Stays-same _ (λ w. (refl, refl, refl, refl, refl, refl, refl))

module _ {P : Event → Type 0} where
  pub Stays-guard : (b : Bool) (e : ApiError) → Stays P (guard b e)
  Stays-guard true e = Stays-same _ (λ w. (refl, refl, refl, refl, refl, refl, refl))
  Stays-guard false e = Stays-same _ (λ w. (refl, refl, refl, refl, refl, refl, refl))

  pub Stays-emit : (e : Event) → P e → Stays P (emit e)
  Stays-emit e p = record {
    run = λ w. record {
      events = e ∷ [];
      trace = refl;
      allowed = (p, tt);
      tokens = refl;
      limiter = refl;
      audit = refl;
      sessions = refl;
      windows = refl;
      cost = refl;
    };
  }

-- The rules by which `search` follows a step that is written as a `do` block.
pub ruleset stays = (
  Stays-bind, Stays-then, Stays-if, Stays-or_throw, Stays-draw, Stays-reads, Stays-pure,
  Stays-throw, Stays-guard, Stays-emit,
)

-- Fewer events are allowed by a stronger property.
pub All-mono :
    {P Q : Event → Type 0} (es : List Event) → ((e : Event) → P e → Q e) → All P es → All Q es
All-mono [] f h = tt
All-mono (e ∷ es) f h = (f e h.0, All-mono es f h.1)

pub Within-mono :
    {P Q : Event → Type 0} {w w' : World}
    → ((e : Event) → P e → Q e)
    → Within P w w'
    → Within Q w w'
Within-mono f h = record {
  events = h.events;
  trace = h.trace;
  allowed = All-mono h.events f h.allowed;
  tokens = h.tokens;
  limiter = h.limiter;
  audit = h.audit;
  sessions = h.sessions;
  windows = h.windows;
  cost = h.cost;
}

pub Stays-mono :
    {P Q : Event → Type 0} {A : Type 0} {m : M A}
    → ((e : Event) → P e → Q e)
    → Stays P m
    → Stays Q m
Stays-mono f h = record { run = λ w. Within-mono f (h.run w) }
