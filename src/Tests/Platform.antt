-- ===== src/Tests/Platform.antt =====
-- Certificates, the provider's wire, keys and the consent dialog of launcher/ on concrete inputs.
use Prim.Native.Char.{nul}
use Prim.Native.String.{◌∷◌ as chr}
use xlpod.Ai.Types.{ChatMessage, user, text}
use xlpod.Common.{List, ℕ, ◌≡◌, refl, ◌⊎◌, true, false, String, [], ◌∷◌, none, some, arith, text_eq}
use xlpod.Common.Unicode.{in_front, encode_utf16}
use xlpod.Auth.{fs_read, run_python, FilePath}
use xlpod.Consent.{ConsentRequest}
use xlpod.Ca.Base64.{decode_b64, encode_b64, letter}
use xlpod.Ca.Base64.Input.{Outcome, decode_b64-Outcome}
use xlpod.Ca.Pem.{pem_to_der}
use xlpod.Ca.Pem.RoundTrip.{lf, crlf, pem_text, pem_to_der-pem_text}
use xlpod.Ca.Step.{value}
use xlpod.Ca.TrustStore.{Crypt}
use xlpod.Ca.Authority.{CaPaths, CaHost}
use xlpod.Ai.Anthropic.{
  resp_text, resp_tool_use, WireResponse, truncate_for_log, decoded, answered, Upstream,
  provider_chat,
}
use xlpod.Ai.Anthropic.Log.{Logged, truncate_for_log-Logged}
use xlpod.Ai.Anthropic.Call.{Keyless, Sent, provider_chat-Sent}
use xlpod.Ai.Keychain.{InMemory}
use xlpod.Tray.Dialog.Shown.{seen, ShownWhole, seen_whole, seen_cut, opening_text}
use xlpod.Tests.Fixtures.{work}

-- "Man", encoded as "TWFu", over two rows.
pem_to_der-pem_text_example :
    pem_to_der (pem_text lf ((crlf, "TW") ∷ (lf, "Fu") ∷ []) lf) ≡ some (77 ∷ 97 ∷ 110 ∷ [])
unfolding encode_b64 letter
pem_to_der-pem_text_example =
    pem_to_der-pem_text (77 ∷ 97 ∷ 110 ∷ []) lf lf ((crlf, "TW") ∷ (lf, "Fu") ∷ [])
      (omega arith, (omega arith, (omega arith, tt))) (ground arith) refl

decode_b64-Outcome_example : Outcome 0 (84 ∷ 87 ∷ 63 ∷ []) (decode_b64 (84 ∷ 87 ∷ 63 ∷ []))
decode_b64-Outcome_example = decode_b64-Outcome (84 ∷ 87 ∷ 63 ∷ [])

abbrev paths : CaPaths
paths = record {
  root_dir = "ca";
  ca_cert = "rootCA.pem";
  ca_key = "rootCA-key.pem";
  server_cert = "server.pem";
  server_key = "server-key.pem";
  thumbprint_file = "rootCA.thumbprint";
}

abbrev crypt : Crypt
crypt = record {
  cert_store_prov_system_w = 10;
  current_user_id = 1;
  location_shift = 16;
  encodings = 65_537;
  add_replace_existing = 3;
  open_store = λ provider encoding crypt_prov flags name n. some n;
  add_to_store = λ store encoding der size disposition n. true;
  close_store = λ store flags n. true;
}

abbrev ca_host : CaHost ℕ ℕ
ca_host = record {
  now = λ n. 1_700_000_000;
  create_dir_all = λ p n. none;
  exists = λ p n. false;
  read_to_string = λ p n. value "TWFu";
  write = λ p bytes n. none;
  new_params = λ n. none;
  ia5_name = λ n. none;
  generate = λ n. value n;
  from_pem = λ text n. value n;
  self_signed = λ params kp n. value n;
  signed_by = λ params subject ca issuer n. value n;
  cert_pem = λ cert. "TWFu";
  key_pem = λ kp. "TWFu";
  digest = λ bytes. bytes;
  crypt = some crypt;
}

abbrev answer : WireResponse
answer = record {
  content = resp_text "Let me see." ∷ resp_tool_use "t1" "run_python" "2+2" ∷ [];
  stop_reason = some "tool_use";
  usage = none;
}

-- The question of a chat.
abbrev asked_first : List ChatMessage
asked_first = record { role = user; ts_ms = none; content = text "2+2?" ∷ [] } ∷ []

truncate_for_log-Logged_example : Logged "overloaded" (truncate_for_log "overloaded")
truncate_for_log-Logged_example = truncate_for_log-Logged "overloaded"

abbrev up : Upstream
up = record {
  read_key = λ name. some (some "key");
  post = λ req. answered 200 "200 OK" (some "") (decoded answer);
  to_string = λ v. v;
  model = "claude-opus-4-6";
  api_url = "https://api.anthropic.com/v1/messages";
}

provider_chat-Sent_example :
    Keyless up [] [] none (provider_chat up [] [] none)
    ⊎ Sent up [] [] none (provider_chat up [] [] none)
provider_chat-Sent_example = provider_chat-Sent up [] [] none

abbrev keys : InMemory
keys = record { entries = ("anthropic_api_key", "old") ∷ []; poisoned = false }

abbrev display : FilePath → String
display p = "/work"

abbrev asked_for : ConsentRequest
asked_for = record {
  origin = "https://addin.xlwings.org";
  scopes = fs_read ∷ run_python ∷ [];
  fs_roots = work ∷ [];
}

seen_whole_example : ShownWhole display asked_for
seen_whole_example = seen_whole display asked_for refl (refl, tt)

-- A trust window for a tool whose name hides a second one.
abbrev hiding : ConsentRequest
hiding = record {
  origin = in_front "ai-trust://fs_read" (chr nul ",run_python?3600s");
  scopes = [];
  fs_roots = [];
}

seen_cut_example : seen display hiding ≡ encode_utf16 (in_front opening_text "ai-trust://fs_read")
seen_cut_example = seen_cut display hiding "ai-trust://fs_read" ",run_python?3600s" refl refl
