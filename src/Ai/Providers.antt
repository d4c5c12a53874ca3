-- ===== src/Ai/Providers.antt =====
-- launcher/xlpod-server/src/ai/provider.rs: the registry of providers, and the scripted provider of
-- the integration tests.
pub mod Script
use xlpod.Common.{ℕ, String, List, [], ◌∷◌, ◌++◌, Option, none, some, lookup, insert, text_eq}
use xlpod.System.{
  ProviderError, upstream, unconfigured, decode, ProviderTurn, TurnResult, turn, turn_failed,
}
use Prim.Native.String

-- `Display for ProviderError`.
unfoldable pub display_provider_error : ProviderError → String
display_provider_error unconfigured = "no API key for provider"
display_provider_error (upstream s) = String.◌++◌ "upstream provider error: " s
display_provider_error (decode s) = String.◌++◌ "could not decode provider response: " s

-- `struct ProviderRegistry`, over whatever a provider is.
abbrev pub ProviderRegistry : Type 0 → Type 0
ProviderRegistry P = List (String × P)

-- `ProviderRegistry::register`, with the provider's `id()`, and `ProviderRegistry::get`.
unfoldable pub register : {P : Type 0} → String → P → ProviderRegistry P → ProviderRegistry P
register id provider registry = insert id provider registry

unfoldable pub get_provider : {P : Type 0} → String → ProviderRegistry P → Option P
get_provider id registry = lookup id registry

-- `Vec::pop`: the last element, and what is left.
abbrev pub pop_back {ℓ} : {A : Type ℓ} → List A → Option A × List A
pop_back [] = (none, [])
pop_back (x ∷ []) = (some x, [])
pop_back (x ∷ y ∷ more) = let (last, rest) = pop_back (y ∷ more) in (last, x ∷ rest)

abbrev pub reversed {ℓ} : {A : Type ℓ} → List A → List A
reversed [] = []
reversed (x ∷ xs) = reversed xs ++ x ∷ []

-- `FakeProvider::new`: the turns in reverse.
unfoldable pub fake_provider : List ProviderTurn → List ProviderTurn
fake_provider turns = reversed turns

abbrev turn_or_exhausted : Option ProviderTurn → TurnResult
turn_or_exhausted none = turn_failed (upstream "FakeProvider queue exhausted")
turn_or_exhausted (some t) = turn t

-- `FakeProvider::chat`.
unfoldable pub fake_chat : List ProviderTurn → TurnResult × List ProviderTurn
fake_chat queue = let (last, rest) = pop_back queue in (turn_or_exhausted last, rest)
