-- ===== src/Tests/Logs.antt =====
-- The log file of launcher/xlpod-server/src/audit.rs on concrete entries.
use xlpod.Common.{
  ℕ, ◌%◌, ◌≡◌, refl, inl, inr, String, List, [], ◌∷◌, none, some, nat_beq, Bool-cases, length,
  if◌then◌else◌,
}
use xlpod.Common.Unicode.{as_bytes, in_front}
use xlpod.Json.{Value, Json}
use xlpod.System.{AuditEntry}
use xlpod.AuditLog.{LogHost, LogFile, write_entries}
use xlpod.AuditLog.Lines.{Unbroken, Compact, Extended, write_entries-Extended}
use xlpod.Tests.Fixtures.{json}

-- An encoder that writes fields one after another, with no line feed.
abbrev fields_text : List (String × Value) → Value
fields_text [] = ""
fields_text ((name, value) ∷ more) = in_front name (in_front value (fields_text more))

abbrev flat : List ℕ → List ℕ
flat [] = []
flat (b ∷ bs) = (if nat_beq b 10 then 32 else b) ∷ flat bs

flat-Unbroken : (bs : List ℕ) → Unbroken (flat bs)
flat-Unbroken [] = tt
flat-Unbroken (b ∷ bs) = elim (Bool-cases (nat_beq b 10)) [
  | inl e ↦ rw e (refl, flat-Unbroken bs)
  | inr e ↦ rw e (e, flat-Unbroken bs)
]

abbrev encoder : Json
encoder = record json { object = fields_text }

-- Every third write stops after six bytes.
abbrev log_host : LogHost
log_host = record {
  null = "null";
  to_vec = λ v. some (flat (as_bytes v));
  write_all = λ line n. if nat_beq (n % 3) 2 then 6 else length line;
}

log_host-Compact : Compact encoder log_host
unfolding Compact
log_host-Compact v line e =
    let same : flat (as_bytes v) ≡ line = cc in rw (← same) (flat-Unbroken (as_bytes v))

abbrev entry : String → AuditEntry
entry path = record {
  ts_ms = 1;
  actor = "user";
  token_id = none;
  method = "GET";
  path = path;
  status = 200;
  origin = none;
  host = some "127.0.0.1:7421";
  latency_ms = 3;
}

-- One line is in the file, and the last of three more is torn.
abbrev log_file : LogFile
log_file = record { bytes = 123 ∷ 125 ∷ 10 ∷ []; writes = 0 }

abbrev entries : List AuditEntry
entries = entry "/health" ∷ entry "/fs/read" ∷ entry "/ws" ∷ []

write_entries-Extended_example :
    Extended encoder log_host log_file entries (write_entries encoder log_host entries log_file)
write_entries-Extended_example =
    write_entries-Extended encoder log_host log_host-Compact entries log_file
