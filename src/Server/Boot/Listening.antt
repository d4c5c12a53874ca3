-- ===== src/Server/Boot/Listening.antt =====
-- The order of the start of launcher/xlpod-server/src/lib.rs: what has been done before the server
-- listens.
use xlpod.Common.{◌≡◌, refl, true, List, [], ◌∷◌, ◌⊎◌, inl, inr, In, Option-cases, Bool-cases}
use xlpod.Server.Start.{PathBuf, IoError, v4, addr_v4, ServeOptions, Host, fresh}
use xlpod.Server.Boot.{
  ServeError, audit, bind, HostEvent, loaded, made_dir, opened, listen_at, Boot, going, stopped,
  broken, ◌then◌, attempt, load, open_log, listen, serve, events_of, IsSilent,
}

-- The errors of a start before the server listens.
abbrev pub IsEarly : ServeError → Type 0
IsEarly (bind e) = ⊥
IsEarly _ = Unit

-- A start that fails before it listens.
pub record Failed (o : Boot) : Type 0 where
  pub error : ServeError
  pub early : IsEarly error
  pub ended : o ≡ broken error (events_of o)
  pub silent : IsSilent (events_of o)

-- A start that comes to listen, and what has been done before.
pub record Listening (host : Host) (opts : ServeOptions) (o : Boot) : Type 0 where
  pub before : List HostEvent
  pub events : events_of o ≡ listen_at (v4 127 0 0 1 7421) (fresh opts.daily_budget_micros) ∷ before
  pub cert_exists : host.exists opts.tls.cert ≡ true
  pub key_exists : host.exists opts.tls.key ≡ true
  pub certificate : In (loaded opts.tls) before
  pub audit_log : In (opened opts.audit_path) before
  pub cost_ledger : In (opened opts.cost_path) before
  pub silent : IsSilent before
  pub ended : (o ≡ stopped (events_of o)) ⊎ ((e : IoError) × (o ≡ broken (bind e) (events_of o)))

-- The outcome of a step of the start that opens a file.
abbrev Opens : PathBuf → List HostEvent → Boot → Type 0
Opens path es (going fs) = In (opened path) fs × ((e : HostEvent) → In e es → In e fs) × IsSilent fs
Opens path es (stopped fs) = ⊥
Opens path es (broken e fs) = IsEarly e × IsSilent fs

open_log-Opens :
    (host : Host) (path : PathBuf) (es : List HostEvent)
    → IsSilent es
    → Opens path es (open_log host path es)
unfolding open_log
open_log-Opens host path es h = elim (Option-cases (host.parent path)) [
  | inl e ↦ rw e (at_end es h (λ x m. m))
  | inr (p, e) ↦ elim (Option-cases (host.create_dir_all p)) [
    | inl k ↦ rw (e, k) (at_end (made_dir p ∷ es) h (λ x m. inr m))
    | inr (x, k) ↦ rw (e, k) (tt, h)
  ]
]
  where
    at_end :
        (fs : List HostEvent)
        → IsSilent fs
        → ((x : HostEvent) → In x es → In x fs)
        → Opens path es (attempt (host.open_append path) audit (opened path) fs)
    at_end fs s k = elim (Option-cases (host.open_append path)) [
      | inl e ↦ rw e (inl refl, (λ x m. inr (k x m)), s)
      | inr (x, e) ↦ rw e (tt, s)
    ]

module _ (host : Host) (opts : ServeOptions) where
  Outcome : Boot → Type 0
  Outcome o = Failed o ⊎ Listening host opts o

  failing : (e : ServeError) (es : List HostEvent) → IsEarly e → IsSilent es → Outcome (broken e es)
  unfolding Outcome
  failing e es i s = inl (record { error = e; early = i; ended = refl; silent = s })

  listening :
      (es : List HostEvent)
      → host.exists opts.tls.cert ≡ true
      → host.exists opts.tls.key ≡ true
      → In (loaded opts.tls) es
      → In (opened opts.audit_path) es
      → In (opened opts.cost_path) es
      → IsSilent es
      → Outcome (listen host opts es)
  unfolding Outcome listen addr_v4
  listening es c k l a b s = elim (Option-cases (host.bind_rustls addr_v4)) [
    | inl e ↦ rw (listen, e) (ends (stopped _) refl (inl refl))
    | inr (x, e) ↦ rw (listen, e) (ends (broken (bind x) _) refl (inr (x, refl)))
  ]
    where
      ends :
          (o : Boot)
          → events_of o ≡ listen_at (v4 127 0 0 1 7421) (fresh opts.daily_budget_micros) ∷ es
          → (o ≡ stopped (events_of o)) ⊎ ((e : IoError) × (o ≡ broken (bind e) (events_of o)))
          → Outcome o
      ends o e end = inr (record {
        before = es;
        events = e;
        cert_exists = c;
        key_exists = k;
        certificate = l;
        audit_log = a;
        cost_ledger = b;
        silent = s;
        ended = end;
      })

  with_ledger :
      (es : List HostEvent) (o : Boot)
      → host.exists opts.tls.cert ≡ true
      → host.exists opts.tls.key ≡ true
      → In (loaded opts.tls) es
      → In (opened opts.audit_path) es
      → Opens opts.cost_path es o
      → Outcome (o then listen host opts)
  with_ledger es (going fs) c k l a (b, keep, s) = listening fs c k (keep _ l) (keep _ a) b s
  with_ledger es (stopped fs) c k l a h = absurd h
  with_ledger es (broken e fs) c k l a (i, s) = failing e fs i s

  with_audit :
      (es : List HostEvent) (o : Boot)
      → host.exists opts.tls.cert ≡ true
      → host.exists opts.tls.key ≡ true
      → In (loaded opts.tls) es
      → Opens opts.audit_path es o
      → Outcome (o then open_log host opts.cost_path then listen host opts)
  with_audit es (going fs) c k l (a, keep, s) =
      with_ledger fs _ c k (keep _ l) a (open_log-Opens host opts.cost_path fs s)
  with_audit es (stopped fs) c k l h = absurd h
  with_audit es (broken e fs) c k l (i, s) = failing e fs i s

  -- A start fails before it asks the host to listen, with an error of the certificate or of a log;
  -- or it asks exactly once, and at the loopback address 127.0.0.1 alone, after the certificate and
  -- the key were found and loaded and both logs were opened, and with empty stores. Then it ends
  -- without an error or with the listener's.
  pub serve-Listening : Failed (serve host opts) ⊎ Listening host opts (serve host opts)
  unfolding serve load Outcome
  serve-Listening = elim (Bool-cases (host.exists opts.tls.cert)) [
    | inr c ↦ rw c (failing _ [] tt tt)
    | inl c ↦ elim (Bool-cases (host.exists opts.tls.key)) [
      | inr k ↦ rw (c, k) (failing _ [] tt tt)
      | inl k ↦ elim (Option-cases (host.from_pem_file opts.tls.cert opts.tls.key)) [
        | inr (x, e) ↦ rw (c, k, e) (failing _ [] tt tt)
        | inl e ↦
            rw (c, k, e)
              (with_audit (loaded opts.tls ∷ []) _ c k (inl refl)
                (open_log-Opens host opts.audit_path (loaded opts.tls ∷ []) tt))
      ]
    ]
  ]
