-- ===== src/Ca/Authority.antt =====
-- launcher/xlpod-server/src/ca.rs, `CaPaths` and `ensure`: the authority is made once, and issues a
-- certificate at every start. The packages rcgen and sha1, the files and the cryptography of
-- Windows are fields of `CaHost`.
pub mod Issuance
use xlpod.Common.{
  ℕ, Bool, true, false, ◌&&◌, String, List, [], ◌∷◌, ◌++◌, Option, none, some, if◌then◌else◌,
}
use xlpod.Common.Unicode.{as_bytes}
use xlpod.Server.Start.{PathBuf, Host, or_default}
use xlpod.Ca.Pem.{pem_to_der, sha1_hex}
use xlpod.Ca.Certificate.{CertificateParams, ca_params, server_params}
use xlpod.Ca.TrustStore.{Crypt, install_user_root}
use xlpod.Ca.Step.{
  attempt, CaError, io, rcgen, certutil_failed, made_dir, wrote, signed_itself, signed, installed,
  CaStep, then_with, done, failed, ◌>>=◌, ◌>>◌, pure, Answer, value, error, draw, note, need,
  no_error,
}

-- `struct CaPaths`.
pub record CaPaths : Type 0 where
  pub root_dir : PathBuf
  pub ca_cert : PathBuf
  pub ca_key : PathBuf
  pub server_cert : PathBuf
  pub server_key : PathBuf
  pub thumbprint_file : PathBuf

-- `CaPaths::default_in_localappdata`.
unfoldable pub default_in_localappdata : Host → CaPaths
default_in_localappdata host = record {
  root_dir = root_dir;
  ca_cert = host.join root_dir "rootCA.pem";
  ca_key = host.join root_dir "rootCA-key.pem";
  server_cert = host.join root_dir "server.pem";
  server_key = host.join root_dir "server-key.pem";
  thumbprint_file = host.join root_dir "rootCA.thumbprint";
}
  where
    root_dir : PathBuf
    root_dir =
        host.join (host.join (or_default (host.var_os "LOCALAPPDATA") host.temp_dir) "xlpod") "ca"

-- What `ensure` asks, with `K` for `KeyPair` and `C` for `Certificate`.
pub record CaHost (K C : Type 0) : Type 0 where
  pub now : ℕ → ℕ
  pub create_dir_all : PathBuf → ℕ → Option String
  pub exists : PathBuf → ℕ → Bool
  pub read_to_string : PathBuf → ℕ → Answer String
  pub write : PathBuf → List ℕ → ℕ → Option String
  -- `CertificateParams::new` without names, and the conversion of "localhost".
  pub new_params : ℕ → Option String
  pub ia5_name : ℕ → Option String
  pub generate : ℕ → Answer K
  pub from_pem : String → ℕ → Answer K
  pub self_signed : CertificateParams → K → ℕ → Answer C
  pub signed_by : CertificateParams → (subject : K) → C → (issuer : K) → ℕ → Answer C
  pub cert_pem : C → String
  pub key_pem : K → String
  pub digest : List ℕ → List ℕ
  -- The cryptography of Windows, in a build for it.
  pub crypt : Option Crypt

-- The error of `pem_to_der`.
abbrev pub der_or_error : Option (List ℕ) → Answer (List ℕ)
der_or_error none = error "invalid base64 char"
der_or_error (some der) = value der

module _ {K C : Type 0} (host : CaHost K C) where
  -- `fs::write(path, contents)?`.
  abbrev pub write_file : PathBuf → List ℕ → CaStep (Unit {0})
  write_file path contents = do
    answer ← draw (host.write path contents)
    no_error io answer
    note (wrote path contents)

  -- `params.self_signed(kp)?` on the parameters of the authority.
  unfoldable pub sign_itself : K → CaStep C
  sign_itself kp = do
    params ← draw host.new_params
    no_error rcgen params
    now ← draw host.now
    answer ← draw (host.self_signed (ca_params now) kp)
    cert ← need rcgen answer
    note (signed_itself (ca_params now))
    pure cert

  -- `generate_root_ca`: the certificate's text, and the key.
  unfoldable pub generate_root_ca : CaStep (String × K)
  generate_root_ca = do
    params ← draw host.new_params
    no_error rcgen params
    now ← draw host.now
    generated ← draw host.generate
    kp ← need rcgen generated
    answer ← draw (host.self_signed (ca_params now) kp)
    cert ← need rcgen answer
    note (signed_itself (ca_params now))
    pure (host.cert_pem cert, kp)

  -- `issue_server_cert`: the texts of the certificate and of its key.
  unfoldable pub issue_server_cert : C → K → CaStep (String × String)
  issue_server_cert ca ca_kp = do
    params ← draw host.new_params
    no_error rcgen params
    name ← draw host.ia5_name
    no_error rcgen name
    now ← draw host.now
    generated ← draw host.generate
    server_kp ← need rcgen generated
    answer ← draw (host.signed_by (server_params now) server_kp ca ca_kp)
    cert ← need rcgen answer
    note (signed (server_params now))
    pure (host.cert_pem cert, host.key_pem server_kp)

  -- The authority that is stored: its key, and its certificate in DER.
  unfoldable pub load_authority : CaPaths → CaStep (K × List ℕ)
  load_authority paths = do
    read_cert ← draw (host.read_to_string paths.ca_cert)
    cert_pem ← need io read_cert
    read_key ← draw (host.read_to_string paths.ca_key)
    key_pem ← need io read_key
    parsed ← draw (host.from_pem key_pem)
    kp ← need rcgen parsed
    der ← need io (der_or_error (pem_to_der cert_pem))
    pure (kp, der)

  -- A new authority: generated, written, and given to the trust store.
  unfoldable pub make_authority : CaPaths → CaStep (K × List ℕ)
  make_authority paths = do
    (cert_pem, kp) ← generate_root_ca
    write_file paths.ca_cert (as_bytes cert_pem)
    write_file paths.ca_key (as_bytes (host.key_pem kp))
    der ← need io (der_or_error (pem_to_der cert_pem))
    write_file paths.thumbprint_file (sha1_hex host.digest der)
    install_user_root host.crypt der
    pure (kp, der)

  -- `paths.ca_cert.exists() && paths.ca_key.exists()`.
  unfoldable pub both_exist : CaPaths → CaStep Bool
  both_exist paths = do
    cert ← draw (host.exists paths.ca_cert)
    if cert then draw (host.exists paths.ca_key) else pure false

  -- The check at every start, whose error is only a warning.
  unfoldable pub reinstall : List ℕ → CaStep (Unit {0})
  reinstall der = attempt (install_user_root host.crypt der)

  -- `ensure`.
  unfoldable pub ensure : CaPaths → CaStep (PathBuf × PathBuf)
  ensure paths = do
    made ← draw (host.create_dir_all paths.root_dir)
    no_error io made
    note (made_dir paths.root_dir)
    stored ← both_exist paths
    (ca_kp, der) ← if stored then load_authority paths else make_authority paths
    reinstall der
    ca_self ← sign_itself ca_kp
    (server_cert_pem, server_key_pem) ← issue_server_cert ca_self ca_kp
    write_file paths.server_cert (as_bytes server_cert_pem)
    write_file paths.server_key (as_bytes server_key_pem)
    pure (paths.server_cert, paths.server_key)
