-- ===== src/AuditLog.antt =====
-- launcher/xlpod-server/src/audit.rs: `AuditEntry` as JSON, and `AuditLog::write`, which appends a
-- line to the log file. The encoder and the file are parameters.
pub mod Lines
use xlpod.Common.{ℕ, zero, suc, String, List, [], ◌∷◌, ◌++◌, Option, none, some}
use xlpod.Json.{Value, Json}
use xlpod.System.{AuditEntry}

-- The first elements, all of them if there are fewer.
abbrev pub take : {A : Type 0} → ℕ → List A → List A
take zero xs = []
take (suc n) [] = []
take (suc n) (x ∷ xs) = x ∷ take n xs

-- `serde_json::to_vec`, with `none` for its error, and the file: how many bytes of a line are in it
-- after `write_all` and `flush`, whose errors nobody sees, at each call.
pub record LogHost : Type 0 where
  pub null : Value
  pub to_vec : Value → Option (List ℕ)
  pub write_all : List ℕ → ℕ → ℕ

-- The file, and how often it has been written to.
pub record LogFile : Type 0 where
  pub bytes : List ℕ
  pub writes : ℕ

module _ (json : Json) (host : LogHost) where
  abbrev or_null : Option String → Value
  or_null none = host.null
  or_null (some s) = json.string s

  -- `#[serde(skip_serializing_if = "Option::is_none")]`.
  abbrev token_field : Option String → List (String × Value)
  token_field none = []
  token_field (some id) = ("token_id", json.string id) ∷ []

  -- `#[derive(Serialize)]` on `AuditEntry`.
  unfoldable pub audit_value : AuditEntry → Value
  audit_value entry = json.object (
      ("ts_ms", json.number entry.ts_ms)
        ∷ ("actor", json.string entry.actor)
        ∷ token_field entry.token_id
      ++ ("method", json.string entry.method)
        ∷ ("path", json.string entry.path)
        ∷ ("status", json.number entry.status)
        ∷ ("origin", or_null entry.origin)
        ∷ ("host", or_null entry.host)
        ∷ ("latency_ms", json.number entry.latency_ms)
        ∷ [])

  -- `guard.write_all(&line)`.
  abbrev pub write_line : List ℕ → LogFile → LogFile
  write_line line file = record {
    bytes = file.bytes ++ take (host.write_all line file.writes) line;
    writes = suc file.writes;
  }

  -- `AuditLog::write`.
  unfoldable pub write_entry : AuditEntry → LogFile → LogFile
  write_entry entry file = elim (host.to_vec (audit_value entry)) [
    | none ↦ file
    | some line ↦ write_line (line ++ 10 ∷ []) file
  ]

  -- The entries of a log, one after another.
  unfoldable pub write_entries : List AuditEntry → LogFile → LogFile
  write_entries [] file = file
  write_entries (entry ∷ more) file = write_entries more (write_entry entry file)
