-- ===== src/FsRead/Roots.antt =====
-- The roots of a handshake in launcher/xlpod-server/src/fs_read.rs, `canonicalize_roots`.
use xlpod.Common.{
  ℕ, suc, ◌≡◌, refl, ◌⊎◌, inl, inr, true, false, String, List, [], ◌∷◌, In, All, arith, Bool-cases,
}
use xlpod.Auth.{FilePath}
use xlpod.System.{Env, World, Canonical, found, not_found, other_error, done}
use xlpod.FsRead.{canonicalize_roots}

-- A root is the canonical form of one of the given paths, and was a directory when it was examined.
abbrev pub IsRoot : Env → List String → FilePath → Type 0
IsRoot env input p =
    (raw : String) × (n : ℕ) × In raw input
    × (env.canonicalize n raw ≡ found p)
    × (env.is_dir (suc n) p ≡ true)

weaken :
    (env : Env) (raw : String) (input : List String) (ps : List FilePath)
    → All (IsRoot env input) ps
    → All (IsRoot env (raw ∷ input)) ps
weaken env raw input [] h = tt
weaken env raw input (p ∷ ps) ((r, n, m, c, d), h) =
    ((r, n, inr m, c, d), weaken env raw input ps h)

-- The outcome of canonicalising the given paths.
pub record KeptRoots (env : Env) (input : List String) (w : World) : Type 0 where
  pub roots : List FilePath
  pub ticks : ℕ
  pub result : canonicalize_roots env input w ≡ done roots (record w { ticks = ticks })
  pub genuine : All (IsRoot env input) roots

module _ (env : Env) (raw : String) (input : List String) (w : World) where
  skipped :
      (c : Canonical)
      → env.canonicalize w.ticks raw ≡ c
      → (c ≡ not_found) ⊎ (c ≡ other_error)
      → KeptRoots env input (record w { ticks = suc w.ticks })
      → KeptRoots env (raw ∷ input) w
  unfolding canonicalize_roots
  skipped c e bad r = record {
    roots = r.roots;
    ticks = r.ticks;
    result = ground (arith, r.result);
    genuine = weaken env raw input r.roots r.genuine;
  }

  dropped :
      (p : FilePath)
      → env.canonicalize w.ticks raw ≡ found p
      → env.is_dir (suc w.ticks) p ≡ false
      → KeptRoots env input (record w { ticks = suc (suc w.ticks) })
      → KeptRoots env (raw ∷ input) w
  unfolding canonicalize_roots
  dropped p e no_dir r = record {
    roots = r.roots;
    ticks = r.ticks;
    result = ground (arith, r.result);
    genuine = weaken env raw input r.roots r.genuine;
  }

  kept :
      (p : FilePath)
      → env.canonicalize w.ticks raw ≡ found p
      → env.is_dir (suc w.ticks) p ≡ true
      → KeptRoots env input (record w { ticks = suc (suc w.ticks) })
      → KeptRoots env (raw ∷ input) w
  unfolding canonicalize_roots
  kept p e dir r = record {
    roots = p ∷ r.roots;
    ticks = r.ticks;
    result = ground (arith, r.result);
    genuine = ((raw, w.ticks, inl refl, e, dir), weaken env raw input r.roots r.genuine);
  }

  one_more :
      (c : Canonical)
      → env.canonicalize w.ticks raw ≡ c
      → KeptRoots env input (record w { ticks = suc w.ticks })
      → KeptRoots env input (record w { ticks = suc (suc w.ticks) })
      → KeptRoots env (raw ∷ input) w
  one_more not_found e r s = skipped not_found e (inl refl) r
  one_more other_error e r s = skipped other_error e (inr refl) r
  one_more (found p) e r s = elim (Bool-cases (env.is_dir (suc w.ticks) p)) [
    | inl dir ↦ kept p e dir s
    | inr no_dir ↦ dropped p e no_dir s
  ]

-- Canonicalising the roots of a handshake never fails and changes nothing but the count of external
-- calls, and whatever it returns are directories in canonical form that stand for given paths.
pub canonicalize_roots-KeptRoots :
    (env : Env) (input : List String) (w : World) → KeptRoots env input w
unfolding canonicalize_roots
canonicalize_roots-KeptRoots env [] w = record {
  roots = [];
  ticks = w.ticks;
  result = refl;
  genuine = tt;
}
canonicalize_roots-KeptRoots env (raw ∷ input) w =
    one_more env raw input w (env.canonicalize w.ticks raw) refl
      (canonicalize_roots-KeptRoots env input (record w { ticks = suc w.ticks }))
      (canonicalize_roots-KeptRoots env input (record w { ticks = suc (suc w.ticks) }))
