-- ===== src/FsRead/Safety.antt =====
-- Path safety of launcher/xlpod-server/src/fs_read.rs: what a read that succeeds has passed, and
-- that a refused one touches nothing.
use xlpod.Common.{
  ℕ, suc, ◌*◌, ◌≤◌, ◌≡◌, ◌↔◌, ◌⊎◌, inl, inr, refl, true, text_eq, String, some, List, [], ◌∷◌, ◌++◌,
  In, any_witness, arith, Option-cases,
}
use xlpod.Error.{ApiError, forbidden_path, path_not_found, not_a_file, path_too_large}
use xlpod.Auth.{FilePath}
use xlpod.System.{Env, World, found, Event, read_file, done, failed, Outcome, after}
use xlpod.System.Logic.{Within, Stays}
use xlpod.FsRead.{ReadOk, path_starts_with, under_roots, read_under_roots}

-- A path lies under a root when it is the root followed by further components.
abbrev pub Under : FilePath → FilePath → Type 0
Under path root = (rest : FilePath) × (path ≡ root ++ rest)

path_starts_with-Under :
    (path root : FilePath) → path_starts_with path root ≡ true → Under path root
unfolding path_starts_with
path_starts_with-Under path [] h = (path, refl)
path_starts_with-Under [] (b ∷ root) h = cc
path_starts_with-Under (p ∷ path) (b ∷ root) h =
    let (rest, e) = path_starts_with-Under path root (ground arith) in
    let same : p ≡ b = (text_eq.eq_iff p b).0 (ground arith) in (rest, cc)

path_starts_with-append : (root rest : FilePath) → path_starts_with (root ++ rest) root ≡ true
unfolding path_starts_with
path_starts_with-append [] rest = refl
path_starts_with-append (b ∷ root) rest =
    ground (arith, text_eq.eq_iff b b, path_starts_with-append root rest)

-- The test for containment passes exactly for the paths that are the root followed by further
-- whole components, so that a root is not left through a sibling with a longer name.
pub path_starts_with_iff :
    (path root : FilePath) → (path_starts_with path root ≡ true) ↔ Under path root
path_starts_with_iff path root =
    (path_starts_with-Under path root, λ (rest, e). rw e (path_starts_with-append root rest))

pub under_roots-Under :
    (path : FilePath) (roots : List FilePath)
    → under_roots path roots ≡ true
    → (root : FilePath) × In root roots × Under path root
unfolding under_roots
under_roots-Under path roots h =
    let (root, m, t) = any_witness (λ r. path_starts_with path r) roots h in
    (root, m, path_starts_with-Under path root t)

-- What a successful read has passed, in the order of the checks.
pub record ReadSafe (env : Env) (requested : String) (roots : List FilePath) (w : World)
    (r : ReadOk) (w' : World) : Type 0 where
  pub root : FilePath
  pub granted : In root roots
  pub under : Under r.canonical root
  pub canonical : env.canonicalize w.ticks requested ≡ found r.canonical
  pub size : ℕ
  pub regular :
      env.metadata (suc w.ticks) r.canonical ≡ some (record { is_file = true; len = size })
  pub small : size ≤ 10 * 1024 * 1024
  pub content : env.read (suc (suc w.ticks)) r.canonical ≡ some r.bytes
  pub effect : w' ≡ record w {
    ticks = suc (suc (suc w.ticks));
    trace = read_file r.canonical r.bytes ∷ w.trace;
  }

-- A read that succeeds returns the canonical form of the requested path, which lies under a granted
-- root and named a regular file of at most 10 MiB when it was examined; its one effect is the read
-- of that file.
pub read_under_roots-ReadSafe :
    (env : Env) (requested : String) (roots : List FilePath) (w w' : World) (r : ReadOk)
    → read_under_roots env requested roots w ≡ done r w'
    → ReadSafe env requested roots w r w'
unfolding read_under_roots
read_under_roots-ReadSafe env requested roots w w' r h =
    let resolved : env.canonicalize w.ticks requested ≡ found r.canonical = ground arith in
    let inside : under_roots r.canonical roots ≡ true = ground arith in
    let (root, granted, under) = under_roots-Under r.canonical roots inside in
    elim (Option-cases (env.metadata (suc w.ticks) r.canonical)) [
      | inl missing ↦ absurd (ground arith)
      | inr (m, e) ↦ record {
        root = root;
        granted = granted;
        under = under;
        canonical = resolved;
        size = m.len;
        regular = ground arith;
        small = ground arith;
        content = ground arith;
        effect = ground arith;
      }
    ]

-- A read that fails has read no file and changed nothing (but for the count of external calls), and
-- answers with one of four errors.
pub read_under_roots_failed :
    (env : Env) (requested : String) (roots : List FilePath) (w w' : World) (e : ApiError)
    → read_under_roots env requested roots w ≡ failed e w'
    → (w' ≡ record w { ticks = w'.ticks })
      × ((e ≡ forbidden_path) ⊎ (e ≡ path_not_found) ⊎ (e ≡ not_a_file) ⊎ (e ≡ path_too_large))
unfolding read_under_roots
read_under_roots_failed env requested roots w w' e h = ground arith

-- The one event of a read: a file under one of the roots.
abbrev pub IsReadUnder : List FilePath → Event → Type 0
IsReadUnder roots (read_file p b) = (root : FilePath) × In root roots × Under p root
IsReadUnder roots _ = ⊥

pub Stays-read_under_roots :
    (env : Env) (requested : String) (roots : List FilePath)
    → Stays (IsReadUnder roots) (read_under_roots env requested roots)
Stays-read_under_roots env requested roots = record {
  run = λ w. go w (read_under_roots env requested roots w) refl;
}
  where
    go :
        (w : World) (o : Outcome ReadOk)
        → read_under_roots env requested roots w ≡ o
        → Within (IsReadUnder roots) w (after o)
    go w (done r w') h =
        let s = read_under_roots-ReadSafe env requested roots w w' r h in
        rw s.effect (record {
          events = read_file r.canonical r.bytes ∷ [];
          trace = refl;
          allowed = ((s.root, s.granted, s.under), tt);
          tokens = refl;
          limiter = refl;
          audit = refl;
          sessions = refl;
          windows = refl;
          cost = refl;
        })
    go w (failed e w') h =
        let s = read_under_roots_failed env requested roots w w' e h in
        rw s.0 (record {
          events = [];
          trace = refl;
          allowed = tt;
          tokens = refl;
          limiter = refl;
          audit = refl;
          sessions = refl;
          windows = refl;
          cost = refl;
        })
