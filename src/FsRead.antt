-- ===== src/FsRead.antt =====
-- launcher/xlpod-server/src/fs_read.rs: reading a file under the roots of a token.
pub mod Safety
pub mod Roots
use xlpod.Common.{
  ℕ, ◌*◌, Bool, true, false, ◌&&◌, ◌==◌, text_eq, String, List, [], ◌∷◌, Option, any, is_empty, leb,
  if◌then◌else◌,
}
use xlpod.Error.{ApiError, forbidden_path, path_not_found, not_a_file, path_too_large}
use xlpod.Auth.{FilePath}
use xlpod.System.{
  Env, World, Canonical, found, not_found, other_error, Metadata, read_file, Outcome, M, ◌>>=◌,
  ◌>>◌, pure, throw, guard, or_throw, draw, emit, then_with, failed, done,
}

-- `config::FS_READ_MAX_BYTES`.
abbrev pub fs_read_max_bytes : ℕ
fs_read_max_bytes = 10 * 1024 * 1024

-- `struct ReadOk`.
pub record ReadOk : Type 0 where
  pub canonical : FilePath
  pub bytes : List ℕ

-- `Path::starts_with`, by whole components.
unfoldable pub path_starts_with : FilePath → FilePath → Bool
path_starts_with path [] = true
path_starts_with [] (b ∷ base) = false
path_starts_with (p ∷ path) (b ∷ base) = p == b && path_starts_with path base

-- `roots.iter().any(|root| canonical.starts_with(root))`.
unfoldable pub under_roots : FilePath → List FilePath → Bool
under_roots canonical roots = any (λ root. path_starts_with canonical root) roots

-- The `match` on the answer of `fs::canonicalize`.
resolve : Canonical → M FilePath
resolve (found p) = pure p
resolve not_found = throw path_not_found
resolve other_error = throw path_not_found

-- `read_under_roots`.
unfoldable pub read_under_roots : Env → String → List FilePath → M ReadOk
unfolding resolve
read_under_roots env requested roots = if is_empty roots then throw forbidden_path else (do
  canonical ← draw (λ n. env.canonicalize n requested) >>= resolve
  guard (under_roots canonical roots) forbidden_path
  metadata ← draw (λ n. env.metadata n canonical) >>= λ m. or_throw m path_not_found
  guard metadata.is_file not_a_file
  guard (leb metadata.len fs_read_max_bytes) path_too_large
  bytes ← draw (λ n. env.read n canonical) >>= λ b. or_throw b path_not_found
  emit (read_file canonical bytes)
  pure (record { canonical = canonical; bytes = bytes }))

keep_dir : FilePath → Bool → List FilePath → List FilePath
keep_dir p dir rest = if dir then p ∷ rest else rest

-- `canonicalize_roots`.
unfoldable pub canonicalize_roots : Env → List String → M (List FilePath)
unfolding keep_dir
canonicalize_roots env [] = pure []
canonicalize_roots env (raw ∷ input) =
    let rest = canonicalize_roots env input in
    draw (λ n. env.canonicalize n raw) >>= elim [
      | found p ↦ do dir ← draw (λ n. env.is_dir n p); roots ← rest; pure (keep_dir p dir roots)
      | not_found ↦ rest
      | other_error ↦ rest
    ]
