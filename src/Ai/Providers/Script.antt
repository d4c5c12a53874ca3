-- ===== src/Ai/Providers/Script.antt =====
-- The order of the scripted turns of launcher/xlpod-server/src/ai/provider.rs.
use xlpod.Common.{ℕ, zero, suc, ◌≡◌, refl, ap, List, [], ◌∷◌, ◌++◌, some, text_eq}
use xlpod.System.{ProviderTurn, TurnResult, turn, turn_failed, upstream}
use xlpod.Ai.Providers.{pop_back, reversed, fake_provider, fake_chat}

-- The results of so many calls.
unfoldable pub calls_of : ℕ → List ProviderTurn → List TurnResult
calls_of zero queue = []
calls_of (suc n) queue = (fake_chat queue).0 ∷ calls_of n (fake_chat queue).1

-- The first results of a script, and the error behind its end.
abbrev pub scripted : ℕ → List ProviderTurn → List TurnResult
scripted zero turns = []
scripted (suc n) [] = turn_failed (upstream "FakeProvider queue exhausted") ∷ scripted n []
scripted (suc n) (t ∷ turns) = turn t ∷ scripted n turns

pop_back-append :
    (xs : List ProviderTurn) (x : ProviderTurn) → pop_back (xs ++ x ∷ []) ≡ (some x, xs)
pop_back-append [] x = refl
pop_back-append (y ∷ []) x = refl
pop_back-append (y ∷ z ∷ xs) x = rw (pop_back-append (z ∷ xs) x) refl

-- However often it is called, the scripted provider gives the turns of its script in their order, and
-- from then on an upstream error.
pub calls_of-fake_provider :
    (n : ℕ) (turns : List ProviderTurn) → calls_of n (fake_provider turns) ≡ scripted n turns
unfolding calls_of fake_chat fake_provider
calls_of-fake_provider zero turns = refl
calls_of-fake_provider (suc n) [] =
    ap (λ l. turn_failed (upstream "FakeProvider queue exhausted") ∷ l)
      (calls_of-fake_provider n [])
calls_of-fake_provider (suc n) (t ∷ turns) =
    rw (pop_back-append (reversed turns) t) (ap (λ l. turn t ∷ l) (calls_of-fake_provider n turns))
