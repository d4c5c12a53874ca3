-- ===== src/Ai/Keychain/Laws.antt =====
-- What a key store of launcher/xlpod-server/src/ai/keychain.rs promises, and that both stores keep it.
use Prim.Native.String.{[] as empty, ◌∷◌ as chr}
use xlpod.Common.{
  ℕ, ◌≡◌, refl, true, false, String, List, none, some, lookup-insert, lookup-remove, text_eq,
  is_empty, is_empty_text, arith,
}
use xlpod.Common.Unicode.{as_bytes, utf8}
use xlpod.Ai.Keychain.{
  Keychain, in_memory, memory_read, memory_write, memory_delete, CredManager, cred_blob,
  cred_failed, target_for, windows, windows_read, windows_write, windows_delete,
}

-- A write that succeeds is read back, unless the key is empty; a delete that succeeds leaves nothing.
pub record KeepsKeys {S : Type 0} (k : Keychain S) : Type 0 where
  pub read-write :
      (name value : String) (s : S)
      → is_empty_text value ≡ false
      → (k.write name value s).0 ≡ true
      → k.read name (k.write name value s).1 ≡ some (some value)
  pub read-delete :
      (name : String) (s : S)
      → (k.delete name s).0 ≡ true
      → k.read name (k.delete name s).1 ≡ some none

-- The store in memory keeps its keys.
pub in_memory-KeepsKeys : KeepsKeys in_memory
unfolding memory_read memory_write memory_delete
in_memory-KeepsKeys = record {
  read-write = λ name value s full h.
      ground (arith, lookup-insert name name value s.entries, text_eq.eq_iff name name);
  read-delete =
      λ name s h. ground (arith, lookup-remove name name s.entries, text_eq.eq_iff name name);
}

-- The documented behaviour of the credential manager and of `from_utf8_lossy`: what is written under
-- a target is read there, nothing is read after a delete, and a text survives UTF-8.
pub record Faithful {S : Type 0} (m : CredManager S) : Type 0 where
  pub written :
      (target blob : List ℕ) (s : S)
      → (m.cred_write target blob s).0 ≡ true
      → m.cred_read target (m.cred_write target blob s).1 ≡ cred_blob blob
  pub deleted :
      (target : List ℕ) (s : S) → m.cred_read target (m.cred_delete target s).1 ≡ cred_failed
  pub lossless : (text : String) → m.from_utf8_lossy (as_bytes text) ≡ text

as_bytes_full : (s : String) → is_empty_text s ≡ false → is_empty (as_bytes s) ≡ false
unfolding as_bytes utf8
as_bytes_full empty h = cc
as_bytes_full (chr c s) h = ground arith

-- The store of Windows keeps its keys over a faithful credential manager.
pub windows-KeepsKeys : {S : Type 0} (m : CredManager S) → Faithful m → KeepsKeys (windows m)
unfolding windows_read windows_write windows_delete
windows-KeepsKeys m f = record {
  read-write = λ name value s full h.
      rw
        (
          f.written (target_for name) (as_bytes value) s h,
          as_bytes_full value full,
          f.lossless value,
        )
        refl;
  read-delete = λ name s h. rw (f.deleted (target_for name) s) refl;
}
