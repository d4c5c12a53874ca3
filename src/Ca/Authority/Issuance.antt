-- ===== src/Ca/Authority/Issuance.antt =====
-- What `ensure` of launcher/xlpod-server/src/ca.rs writes and signs.
use xlpod.Common.{◌++◌, ℕ, suc, ◌≡◌, ◌⊎◌, Bool, true, not, ◌&&◌, List, [], ◌∷◌, Option, some}
use xlpod.Common.Unicode.{as_bytes, encode_utf16}
use xlpod.Server.Start.{PathBuf}
use xlpod.Ca.Certificate.{constrained, no_ca, loopback_names}
use xlpod.Ca.TrustStore.{Crypt, store_flags}
use xlpod.Ca.Step.{
  opened_store, closed_store, CaEvent, made_dir, wrote, signed_itself, signed, installed, Progress,
  CaStep, Ended, done, failed, after, ◌>>=◌, ◌>>◌, pure, Only, Does, does,
}
use xlpod.Ca.Authority.{
  CaPaths, CaHost, write_file, sign_itself, issue_server_cert, both_exist, reinstall,
}

-- What a start may do; `fresh` says whether it may make an authority.
abbrev pub MayDo : (fresh : Bool) → CaPaths → Option Crypt → CaEvent → Type 0
MayDo fresh paths os (made_dir p) = p ≡ paths.root_dir
MayDo fresh paths os (wrote p bytes) =
    ((p ≡ paths.server_cert) ⊎ (p ≡ paths.server_key))
    ⊎ ((fresh ≡ true) × ((p ≡ paths.ca_cert) ⊎ ((p ≡ paths.ca_key) ⊎ (p ≡ paths.thumbprint_file))))
MayDo fresh paths os (signed_itself params) =
    (params.is_ca ≡ constrained 0) × (params.subject_alt_names ≡ [])
MayDo fresh paths os (signed params) =
    (params.is_ca ≡ no_ca) × (params.subject_alt_names ≡ loopback_names)
MayDo fresh paths os (opened_store flags name) =
    (crypt : Crypt) × (os ≡ some crypt)
    × (flags ≡ store_flags crypt)
    × (name ≡ encode_utf16 "Root" ++ 0 ∷ [])
MayDo fresh paths os (installed der) = Unit
MayDo fresh paths os closed_store = Unit

module _ {K C : Type 0} (host : CaHost K C) (paths : CaPaths) (fresh : Bool) where
  Does-both_exist : Does (MayDo fresh paths host.crypt) (both_exist host paths)
  unfolding both_exist
  Does-both_exist = search does depth 9

-- The rest of a start, once there is an authority.
module _ {K C : Type 0} (host : CaHost K C) (paths : CaPaths) where
  abbrev issue : K × List ℕ → CaStep (PathBuf × PathBuf)
  issue (ca_kp, der) = do
    reinstall host der
    ca_self ← sign_itself host ca_kp
    (server_cert_pem, server_key_pem) ← issue_server_cert host ca_self ca_kp
    write_file host paths.server_cert (as_bytes server_cert_pem)
    write_file host paths.server_key (as_bytes server_key_pem)
    pure (paths.server_cert, paths.server_key)

  -- The end of a start that succeeds: the paths of the server's certificate and key, which have just
  -- been written.
  abbrev pub Returned : Ended (PathBuf × PathBuf) → Type 0
  Returned (failed e t) = Unit
  Returned (done (cert, key) t) =
      (cert ≡ paths.server_cert)
      × (key ≡ paths.server_key)
      × ((cert_pem key_pem : List ℕ) × (more : List CaEvent) × (t.events
            ≡ wrote paths.server_key key_pem ∷ wrote paths.server_cert cert_pem ∷ more))

  -- A start: what it has found, what it has done, and how it ends.
  pub record Started (s : Progress) (o : Ended (PathBuf × PathBuf)) : Type 0 where
    pub stored : Bool
    pub found_stored :
        stored
        ≡ (host.exists paths.ca_cert (suc s.ticks) && host.exists paths.ca_key (suc (suc s.ticks)))
    pub only : Only (MayDo (not stored) paths host.crypt) s (after o)
    pub returned : Returned o
