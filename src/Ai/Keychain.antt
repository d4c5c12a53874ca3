-- ===== src/Ai/Keychain.antt =====
-- launcher/xlpod-server/src/ai/keychain.rs: the interface of a key store, the store in memory, and
-- the one of Windows over its credential manager, which is a parameter.
pub mod Laws
pub mod Rotation
use xlpod.Common.{
  ℕ, ◌+◌, ◌-◌, ◌/◌, ◌%◌, ◌^◌, ltb, nat_beq, Bool, true, false, not, ◌||◌, String, List, [], ◌∷◌,
  ◌++◌, Option, none, some, lookup, insert, remove, if◌then◌else◌, length, is_empty, text_eq,
}
use xlpod.Common.Unicode.{as_bytes, encode_utf16}

-- `trait Keychain`, on a state `S`: a `none` of `read` and a `false` are its error.
pub record Keychain (S : Type 0) : Type 0 where
  pub read : String → S → Option (Option String)
  pub write : (name value : String) → S → Bool × S
  pub delete : String → S → Bool × S

-- `struct InMemoryKeychain`: the map, and whether its lock is poisoned.
pub record InMemory : Type 0 where
  pub entries : List (String × String)
  pub poisoned : Bool

-- `impl Keychain for InMemoryKeychain`.
unfoldable pub memory_read : String → InMemory → Option (Option String)
memory_read name s = if s.poisoned then none else some (lookup name s.entries)

unfoldable pub memory_write : (name value : String) → InMemory → Bool × InMemory
memory_write name value s =
    if s.poisoned then (false, s) else (true, record s { entries = insert name value s.entries })

unfoldable pub memory_delete : String → InMemory → Bool × InMemory
memory_delete name s =
    if s.poisoned then (false, s) else (true, record s { entries = remove name s.entries })

abbrev pub in_memory : Keychain InMemory
in_memory = record { read = memory_read; write = memory_write; delete = memory_delete }

-- `target_for`: the prefix, the name and a NUL.
unfoldable pub target_for : String → List ℕ
target_for name = encode_utf16 "xlpod/" ++ encode_utf16 name ++ (0 ∷ [])

-- The answer of `CredReadW`.
pub data CredAnswer : Type 0 where
  cred_failed cred_null : CredAnswer
  cred_blob : List ℕ → CredAnswer

-- The credential manager, on its state, and `String::from_utf8_lossy`.
pub record CredManager (S : Type 0) : Type 0 where
  pub cred_read : List ℕ → S → CredAnswer
  pub cred_write : (target blob : List ℕ) → S → Bool × S
  pub cred_delete : List ℕ → S → Bool × S
  pub from_utf8_lossy : List ℕ → String

-- `impl Keychain for WindowsCredentialKeychain`; the size of a key is cast to 32 bits.
module _ {S : Type 0} (m : CredManager S) where
  abbrev value_of_blob : CredAnswer → Option String
  value_of_blob cred_failed = none
  value_of_blob cred_null = none
  value_of_blob (cred_blob bytes) = if is_empty bytes then none else some (m.from_utf8_lossy bytes)

  unfoldable pub windows_read : String → S → Option (Option String)
  windows_read name s = some (value_of_blob (m.cred_read (target_for name) s))

  unfoldable pub windows_write : (name value : String) → S → Bool × S
  windows_write name value s = m.cred_write (target_for name) (as_bytes value) s

  unfoldable pub windows_delete : String → S → Bool × S
  windows_delete name s = (true, (m.cred_delete (target_for name) s).1)

  abbrev pub windows : Keychain S
  windows = record { read = windows_read; write = windows_write; delete = windows_delete }
