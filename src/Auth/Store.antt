-- ===== src/Auth/Store.antt =====
-- The token store of launcher/xlpod-server/src/auth.rs as a map with expiry.
use xlpod.Common.{
  ℕ, ◌+◌, ◌*◌, ltb, ◌≤◌, ◌<◌, ◌≡◌, refl, ◌↔◌, String, List, some, arith, ◌==◌, lookup,
  lookup-insert, if◌then◌else◌, char_count, char_count-take_chars, text_eq,
}
use xlpod.Error.{unauthorized}
use xlpod.Auth.{
  Scope, FilePath, TokenRecord, TokenStore, token_ttl_secs, second, ok, err, issue, lookup_token,
  id_of,
}

-- A lookup succeeds exactly for a stored token before its expiry, and gives its record.
pub lookup_token-ok_iff :
    (token : String) (now : ℕ) (store : TokenStore) (rec : TokenRecord)
    → (lookup_token token now store ≡ ok rec)
      ↔ ((lookup token store ≡ some rec) × (now < rec.expires))
unfolding lookup_token
lookup_token-ok_iff token now store rec = (λ h. (ground arith, ground arith), λ h. ground arith)

-- After a token is issued, a lookup of it at any later time gives the granted scopes and roots until
-- an hour has passed, and is refused from then on; every other token is looked up as before.
pub lookup_token-issue :
    (token other : String) (now later : ℕ) (scopes : List Scope) (roots : List FilePath)
    (store : TokenStore)
    → let (rec, store') = issue token now scopes roots store in
      (rec.scopes ≡ scopes)
      × (rec.fs_roots ≡ roots)
      × (lookup_token other later store' ≡ (
          if token == other
          then (if ltb later (now + token_ttl_secs * second) then ok rec else err unauthorized)
          else lookup_token other later store))
unfolding lookup_token issue
lookup_token-issue token other now later scopes roots store = (
  refl,
  refl,
  ground (arith, lookup-insert token other (issue token now scopes roots store).0 store),
)

-- The identifier in the audit log shows at most eight characters of a token.
pub char_count-id_of : (token : String) → char_count (id_of token) ≤ 8
unfolding id_of
char_count-id_of token = char_count-take_chars 8 token
