-- ===== src/Ca/Certificate.antt =====
-- The parameters of certificates in launcher/xlpod-server/src/ca.rs.
use xlpod.Common.{ℕ, ◌*◌, String, List, [], ◌∷◌, Option, none, some}

-- A time as the code writes it: so many seconds before or after the clock's time.
pub data Time : Type 0 where
  before later_than : (now secs : ℕ) → Time

-- `enum SanType`, as far as it is used.
pub data SanType : Type 0 where
  ip_v4 : (a b c d : ℕ) → SanType
  ip_v6 : List ℕ → SanType
  dns_name : String → SanType

-- `enum KeyUsagePurpose`, as far as it is used.
pub data KeyUsagePurpose : Type 0 where
  key_cert_sign crl_sign : KeyUsagePurpose

-- `enum IsCa`: no authority, or one with so many authorities below it.
pub data IsCa : Type 0 where
  no_ca : IsCa
  constrained : ℕ → IsCa

-- `struct CertificateParams`, as far as it is set.
pub record CertificateParams : Type 0 where
  pub is_ca : IsCa
  pub key_usages : List KeyUsagePurpose
  pub common_name : String
  pub organization : Option String
  pub subject_alt_names : List SanType
  pub not_before : Time
  pub not_after : Time

-- The parameters that `generate_root_ca` and `parse_ca_params` set.
unfoldable pub ca_params : ℕ → CertificateParams
ca_params now = record {
  is_ca = constrained 0;
  key_usages = key_cert_sign ∷ crl_sign ∷ [];
  common_name = "xlpod local CA";
  organization = some "xlpod";
  subject_alt_names = [];
  not_before = before now 60;
  not_after = later_than now (365 * 5 * 86_400);
}

-- The names of the loopback.
abbrev pub loopback_names : List SanType
loopback_names =
    ip_v4 127 0 0 1 ∷ ip_v6 (0 ∷ 0 ∷ 0 ∷ 0 ∷ 0 ∷ 0 ∷ 0 ∷ 1 ∷ []) ∷ dns_name "localhost" ∷ []

-- The parameters that `issue_server_cert` sets.
unfoldable pub server_params : ℕ → CertificateParams
server_params now = record {
  is_ca = no_ca;
  key_usages = [];
  common_name = "xlpod loopback";
  organization = none;
  subject_alt_names = loopback_names;
  not_before = before now 60;
  not_after = later_than now (90 * 86_400);
}
