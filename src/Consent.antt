-- ===== src/Consent.antt =====
-- launcher/xlpod-server/src/consent.rs: what the user is asked to approve, and the two fixed
-- backends. A backend that asks a human is an oracle of the system's environment.
use xlpod.Common.{Bool, true, false, String, List}
use xlpod.Auth.{Scope, FilePath}

-- `struct ConsentRequest`.
pub record ConsentRequest : Type 0 where
  pub origin : String
  pub scopes : List Scope
  pub fs_roots : List FilePath

-- `trait ConsentBackend`: the answer to a request.
abbrev pub ConsentBackend : Type 0
ConsentBackend = ConsentRequest → Bool

-- `AutoApproveConsent` and `DenyAllConsent`.
abbrev pub auto_approve_consent : ConsentBackend
auto_approve_consent req = true

abbrev pub deny_all_consent : ConsentBackend
deny_all_consent req = false
