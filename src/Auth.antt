-- ===== src/Auth.antt =====
-- launcher/xlpod-server/src/auth.rs: scopes, token records and the token store.
-- An `Instant` is a number of nanoseconds; the instant of each call is an argument. The random
-- bytes of a new token enter as its hexadecimal text, which the caller draws.
pub mod Store
use xlpod.Common.{
  ℕ, ◌+◌, ◌*◌, ◌≡◌, refl, ◌↔◌, Bool, true, false, String, List, Option, none, some, arith,
  PartialEq, ◌==◌, nat_beq, nat_beq_iff, lookup, insert, if◌then◌else◌, leb, take_chars, text_eq,
  ap, ◌∙◌, sym,
}
use xlpod.Error.{ApiError, unauthorized}

-- `enum Scope`.
pub data Scope : Type 0 where
  fs_read fs_write run_python excel_com ai_provider_call ai_codegen_write : Scope
  ai_exec_python bundle_read bundle_write : Scope

-- The discriminant, by which the derived `PartialEq` compares.
abbrev pub discriminant : Scope → ℕ
discriminant fs_read = 0
discriminant fs_write = 1
discriminant run_python = 2
discriminant excel_com = 3
discriminant ai_provider_call = 4
discriminant ai_codegen_write = 5
discriminant ai_exec_python = 6
discriminant bundle_read = 7
discriminant bundle_write = 8

pub scope_beq_iff : (a b : Scope) → (nat_beq (discriminant a) (discriminant b) ≡ true) ↔ (a ≡ b)
scope_beq_iff a b = ground arith

instance abbrev pub scope_eq : PartialEq Scope
scope_eq = record { eq = λ a b. nat_beq (discriminant a) (discriminant b); eq_iff = scope_beq_iff }

-- `Scope::is_reserved`.
unfoldable pub is_reserved : Scope → Bool
is_reserved s = false

-- The canonical form of a path: its components, the root first.
abbrev pub FilePath : Type 0
FilePath = List String

-- `struct TokenRecord`.
pub record TokenRecord : Type 0 where
  pub scopes : List Scope
  pub fs_roots : List FilePath
  pub created : ℕ
  pub expires : ℕ

-- `struct TokenStore`.
abbrev pub TokenStore : Type 0
TokenStore = List (String × TokenRecord)

-- `config::TOKEN_TTL_SECS`, and a second in nanoseconds.
abbrev pub token_ttl_secs : ℕ
token_ttl_secs = 3600

abbrev pub second : ℕ
second = 1_000_000_000

-- What a fallible operation of the library returns.
pub data Result {ℓ} (A : Type ℓ) : Type ℓ where
  ok : A → Result A
  err : ApiError → Result A

-- `TokenStore::issue`, at the instant `now`, for the token that the generator has drawn.
unfoldable pub issue :
    String → ℕ → List Scope → List FilePath → TokenStore → TokenRecord × TokenStore
issue token now scopes fs_roots store = (rec, insert token rec store)
  where
    rec : TokenRecord
    rec = record {
      scopes = scopes;
      fs_roots = fs_roots;
      created = now;
      expires = now + token_ttl_secs * second;
    }

-- `TokenStore::lookup`, at the instant `now`.
unfoldable pub lookup_token : String → ℕ → TokenStore → Result TokenRecord
lookup_token token now store = elim (lookup token store) [
  | none ↦ err unauthorized
  | some rec ↦ if leb rec.expires now then err unauthorized else ok rec
]

-- `TokenStore::id_of`.
unfoldable pub id_of : String → String
id_of token = take_chars 8 token
