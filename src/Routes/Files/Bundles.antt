-- ===== src/Routes/Files/Bundles.antt =====
-- What `/bundle/read` and `/bundle/write` of launcher/xlpod-server/src/routes.rs hand to the worker.
use xlpod.Common.{
  ℕ, suc, ◌≡◌, refl, ◌⊎◌, inl, inr, Bool, true, false, String, [], ◌∷◌, any_witness, In, Bool-cases,
}
use xlpod.Error.{ApiError, forbidden_path, path_not_found, consent_denied}
use xlpod.Json.{Value}
use xlpod.Auth.{FilePath, TokenRecord}
use xlpod.System.{
  Event, Env, World, ask, guard, asked, Canonical, found, not_found, other_error, Outcome, M, done,
  failed, then_with, ◌>>=◌, ◌>>◌, after,
}
use xlpod.System.Logic.{Within, Stays, stays}
use xlpod.FsRead.{under_roots, path_starts_with}
use xlpod.FsRead.Safety.{Under, path_starts_with_iff}
use xlpod.Worker.Lifecycle.{IsCall, Stays-call}
use xlpod.Http.{Body}
use xlpod.Routes.Files.{
  ensure_path_under_roots, bundle_answer, bundle_read_route, bundle_request, bundle_write_route,
}

-- The path of a bundle: the canonical form of the requested path, under one of the token's roots.
pub record Allowed (env : Env) (token : TokenRecord) (path : String) (n : ℕ) (p : FilePath)
    : Type 0 where
  pub canonical : env.canonicalize n path ≡ found p
  pub root : FilePath
  pub listed : In root token.fs_roots
  pub under : Under p root

under_roots-Allowed :
    (env : Env) (token : TokenRecord) (path : String) (n : ℕ) (p : FilePath)
    → env.canonicalize n path ≡ found p
    → under_roots p token.fs_roots ≡ true
    → Allowed env token path n p
unfolding under_roots
under_roots-Allowed env token path n p c h =
    let (root, m, t) = any_witness (path_starts_with p) token.fs_roots h in
    record { canonical = c; root = root; listed = m; under = (path_starts_with_iff p root).0 t }

data Checked (env : Env) (token : TokenRecord) (path : String) (w : World)
    : Outcome FilePath → Type 0 where
  refused : (e : ApiError) → Checked env token path w (failed e (record w { ticks = suc w.ticks }))
  passed :
      (p : FilePath)
      → Allowed env token path w.ticks p
      → Checked env token path w (done p (record w { ticks = suc w.ticks }))

ensure_path-Checked :
    (env : Env) (token : TokenRecord) (path : String) (w : World)
    → Checked env token path w (ensure_path_under_roots env path token w)
unfolding ensure_path_under_roots
ensure_path-Checked env token path w = go (env.canonicalize w.ticks path) refl
  where
    go :
        (c : Canonical)
        → env.canonicalize w.ticks path ≡ c
        → Checked env token path w (ensure_path_under_roots env path token w)
    go not_found e = rw (e, ensure_path_under_roots) (refused path_not_found)
    go other_error e = rw (e, ensure_path_under_roots) (refused path_not_found)
    go (found p) e = elim (Bool-cases (under_roots p token.fs_roots)) [
      | inl h ↦
          rw (e, h, ensure_path_under_roots)
            (passed p (under_roots-Allowed env token path w.ticks p e h))
      | inr h ↦ rw (e, h, ensure_path_under_roots) (refused forbidden_path)
    ]

Stays-bundle_answer : {P : Event → Type 0} (env : Env) (v : Value) → Stays P (bundle_answer env v)
unfolding bundle_answer
Stays-bundle_answer env v = search stays depth 9

-- The worker's request to read the bundle at a canonical path, and the one to write it.
abbrev pub IsRead : Env → FilePath → Event → Type 0
IsRead env p =
    IsCall env "bundle_read" (env.json.object (("path", env.json.string (env.display p)) ∷ []))

abbrev pub IsWrite : Env → FilePath → Value → Event → Type 0
IsWrite env p payload =
    IsCall env "bundle_write"
      (env.json.object (("path", env.json.string (env.display p)) ∷ ("payload", payload) ∷ []))

-- A bundle request that reached the worker, from `start` on: the path was under a root of the
-- token, and from there on it only asked the worker to read that path.
pub record Handed (env : Env) (token : TokenRecord) (path : String) (w start last : World)
    : Type 0 where
  pub canonical : FilePath
  pub allowed : Allowed env token path w.ticks canonical
  pub acted : Within (IsRead env canonical) start last

-- What a step that continues with a checked path does.
after_check :
    {A : Type 0} (env : Env) (token : TokenRecord) (path : String) (w : World)
    (rest : FilePath → M A)
    → ((p : FilePath) → Stays (IsRead env p) (rest p))
    → {o : Outcome FilePath} → Checked env token path w o
    → ((e : ApiError) × (then_with rest o ≡ failed e (record w { ticks = suc w.ticks })))
      ⊎ Handed env token path w (record w { ticks = suc w.ticks }) (after (then_with rest o))
after_check env token path w rest h (refused e) = inl (e, refl)
after_check env token path w rest h (passed p a) =
    inr (record { canonical = p; allowed = a; acted = (h p).run _ })

-- A bundle is read only where the canonical path lies under a root of the token: otherwise the
-- request fails before it does anything, and with a path under a root all it does is to ask the
-- worker to read the bundle at that canonical path.
pub bundle_read-guarded :
    (env : Env) (token : TokenRecord) (path : String) (w : World)
    → ((e : ApiError) × (bundle_read_route env token path w
          ≡ failed e (record w { ticks = suc w.ticks })))
      ⊎ Handed env token path w
          (record w { ticks = suc w.ticks })
          (after (bundle_read_route env token path w))
unfolding bundle_read_route
bundle_read-guarded env token path w =
    after_check env token path w _ (λ p. search (stays, Stays-call, Stays-bundle_answer) depth 9)
      (ensure_path-Checked env token path w)

-- The worlds of a write right after the user's answer.
abbrev pub answered : Env → FilePath → Bool → World → World
answered env p approved w = record w {
  ticks = suc (suc w.ticks);
  trace = asked (bundle_request env p) approved ∷ w.trace;
}

-- How a request to write a bundle ends: it fails before it does anything; or the user was asked
-- for a path under a root and said no, and nothing else happened; or said yes, and from there on
-- the request only asked the worker to write the content at that path.
pub data WriteOutcome (env : Env) (token : TokenRecord) (path : String) (payload : Value)
    (w : World) : Outcome Body → Type 0 where
  never_asked :
      (e : ApiError)
      → WriteOutcome env token path payload w (failed e (record w { ticks = suc w.ticks }))
  declined :
      (p : FilePath)
      → Allowed env token path w.ticks p
      → WriteOutcome env token path payload w (failed consent_denied (answered env p false w))
  approved_by_user :
      (p : FilePath) (o : Outcome Body)
      → Allowed env token path w.ticks p
      → env.consent (suc w.ticks) (bundle_request env p) ≡ true
      → Within (IsWrite env p payload) (answered env p true w) (after o)
      → WriteOutcome env token path payload w o

after_consent :
    (env : Env) (token : TokenRecord) (path : String) (payload : Value) (w : World)
    (write : FilePath → M Body)
    → ((p : FilePath) → Stays (IsWrite env p payload) (write p))
    → {o : Outcome FilePath} → Checked env token path w o
    → WriteOutcome env token path payload w (
        then_with
          (λ p.
            ask env (bundle_request env p) >>= λ approved. guard approved consent_denied >> write p)
          o)
after_consent env token path payload w write h (refused e) = never_asked e
after_consent env token path payload w write h (passed p a) =
    elim (Bool-cases (env.consent (suc w.ticks) (bundle_request env p))) [
      | inl said ↦ rw said (approved_by_user p _ a said ((h p).run _))
      | inr not_said ↦ rw not_said (declined p a)
    ]

-- A bundle is written only under a root of the token and with the user's consent: every request
-- to write one fails before it does anything, or is declined by the user for its canonical path,
-- or was approved for that path, and all that follows is the worker's request to write the given
-- content at that same canonical path.
pub bundle_write-WriteOutcome :
    (env : Env) (token : TokenRecord) (path : String) (payload : Value) (w : World)
    → WriteOutcome env token path payload w (bundle_write_route env token path payload w)
unfolding bundle_write_route
bundle_write-WriteOutcome env token path payload w =
    after_consent env token path payload w _
      (λ p. search (stays, Stays-call, Stays-bundle_answer) depth 9)
      (ensure_path-Checked env token path w)
