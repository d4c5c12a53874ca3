-- ===== src/Ca/TrustStore.antt =====
-- launcher/xlpod-server/src/ca.rs, `install_user_root`: the authority's certificate is put into the
-- user's own store of trusted roots. The calls of Windows and its constants are fields of `Crypt`.
use xlpod.Common.{
  ℕ, ◌%◌, ◌*◌, ◌^◌, ◌≡◌, refl, Bool, List, [], ◌∷◌, ◌++◌, Option, none, some, length, if◌then◌else◌,
}
use xlpod.Common.Unicode.{encode_utf16}
use xlpod.Ca.Step.{
  CaEvent, opened_store, closed_store, installed, certutil_failed, CaStep, ◌>>=◌, ◌>>◌, pure, draw,
  note, refuse, Does, Does-bind, Does-pure, Does-draw, Does-refuse, does,
}

-- The functions of Cryptography.h and the constants that the launcher passes to them. A handle is a
-- number, and null is `none`.
pub record Crypt : Type 0 where
  pub cert_store_prov_system_w : ℕ
  pub current_user_id : ℕ
  pub location_shift : ℕ
  -- `X509_ASN_ENCODING | PKCS_7_ASN_ENCODING`.
  pub encodings : ℕ
  pub add_replace_existing : ℕ
  pub open_store : (provider encoding crypt_prov flags : ℕ) (name : List ℕ) → ℕ → Option ℕ
  pub add_to_store : (store encoding : ℕ) (der : List ℕ) (size disposition : ℕ) → ℕ → Bool
  pub close_store : (store flags : ℕ) → ℕ → Bool

-- `store_name`: a text that ends with a NUL.
abbrev pub store_name : List ℕ
store_name = encode_utf16 "Root" ++ 0 ∷ []

-- `store_flags`.
abbrev pub store_flags : Crypt → ℕ
store_flags crypt = crypt.current_user_id * 2 ^ crypt.location_shift % 2 ^ 32

module _ (crypt : Crypt) where
  -- What is done with a store that is open.
  abbrev pub add_and_close : ℕ → List ℕ → CaStep (Unit {0})
  add_and_close store der = do
    added ← draw (
        crypt.add_to_store store crypt.encodings der (length der % 2 ^ 32)
          crypt.add_replace_existing)
    if added then note (installed der) else pure tt
    closed ← draw (crypt.close_store store 0)
    note closed_store
    if added then pure tt else refuse (certutil_failed "CertAddEncodedCertificateToStore failed")

  abbrev pub with_store : Option ℕ → List ℕ → CaStep (Unit {0})
  with_store none der = refuse (certutil_failed "CertOpenStore returned null")
  with_store (some store) der = do
    note (opened_store (store_flags crypt) store_name)
    add_and_close store der

-- `install_user_root`, in a build for Windows; in others there is no `Crypt`, and it does nothing.
unfoldable pub install_user_root : Option Crypt → List ℕ → CaStep (Unit {0})
install_user_root none der = pure tt
install_user_root (some crypt) der = do
  store ← draw (crypt.open_store crypt.cert_store_prov_system_w 0 0 (store_flags crypt) store_name)
  with_store crypt store der

-- It opens the user's store of roots, adds the certificate there, and closes the store.
pub Does-install_user_root :
    {P : CaEvent → Type 0} (os : Option Crypt) (der : List ℕ)
    → ((crypt : Crypt) → os ≡ some crypt → P (opened_store (store_flags crypt) store_name))
    → P (installed der)
    → P closed_store
    → Does P (install_user_root os der)
unfolding install_user_root
Does-install_user_root none der o i c = Does-pure tt
Does-install_user_root {P} (some crypt) der o i c = Does-bind (Does-draw _) go
  where
    go : (s : Option ℕ) → Does P (with_store crypt s der)
    go none = Does-refuse _
    go (some store) = search (does, o crypt refl, i, c) depth 16
