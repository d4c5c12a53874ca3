-- ===== src/System/Monad.antt =====
-- Steps of a handler: they change the world and return a value or fail with an API error.
use xlpod.Common.{ℕ, suc, Bool, true, false, ◌∷◌, Option, none, some}
use xlpod.Error.{ApiError}
use xlpod.Auth.{Result, ok, err}
use xlpod.Consent.{ConsentRequest}
use xlpod.System.Types.{Env, World, Event, asked, ai_asked}

pub data Outcome (A : Type 0) : Type 0 where
  done : A → World → Outcome A
  failed : ApiError → World → Outcome A

abbrev pub M : Type 0 → Type 0
M A = World → Outcome A

abbrev pub then_with : {A B : Type 0} → (A → M B) → Outcome A → Outcome B
then_with f (done a w) = f a w
then_with f (failed e w) = failed e w

infixl 5 ◌>>=◌ ◌>>◌
abbrev pub ◌>>=◌ : {A B : Type 0} → M A → (A → M B) → M B
◌>>=◌ m f w = then_with f (m w)

abbrev pub ◌>>◌ : {B : Type 0} → M (Unit {0}) → M B → M B
◌>>◌ m k w = then_with (λ _. k) (m w)

abbrev pub pure : {A : Type 0} → A → M A
pure a w = done a w

abbrev pub throw : {A : Type 0} → ApiError → M A
throw e w = failed e w

-- `if !b { return Err(e); }`.
abbrev pub guard : Bool → ApiError → M (Unit {0})
guard true e w = done tt w
guard false e w = failed e w

-- `o.ok_or(e)?`.
abbrev pub or_throw : {A : Type 0} → Option A → ApiError → M A
or_throw none e w = failed e w
or_throw (some a) e w = done a w

-- `r?`.
abbrev pub lift : {A : Type 0} → Result A → M A
lift (ok a) w = done a w
lift (err e) w = failed e w

-- One answer of the environment.
abbrev pub draw : {A : Type 0} → (ℕ → A) → M A
draw oracle w = done (oracle w.ticks) (record w { ticks = suc w.ticks })

abbrev pub emit : Event → M (Unit {0})
emit e w = done tt (record w { trace = e ∷ w.trace })

-- `state.consent.request(req).await` and `state.ai.consent.request(req).await`.
abbrev pub ask : Env → ConsentRequest → M Bool
ask env req = do approved ← draw (λ n. env.consent n req); emit (asked req approved); pure approved

abbrev pub ask_ai : Env → ConsentRequest → M Bool
ask_ai env req = do
  approved ← draw (λ n. env.ai_consent n req)
  emit (ai_asked req approved)
  pure approved

-- The world that a step leaves behind.
abbrev pub after : {A : Type 0} → Outcome A → World
after (done a w) = w
after (failed e w) = w

-- A reading of the state.
abbrev pub reads : {A : Type 0} → (World → A) → M A
reads f w = done (f w) w
