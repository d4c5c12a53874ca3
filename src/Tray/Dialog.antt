-- ===== src/Tray/Dialog.antt =====
-- launcher/xlpod-launcher/src/consent_messagebox.rs: the text of the consent dialog, and the answer.
-- `MessageBoxW` and the task that waits for it are oracles.
pub mod Shown
use xlpod.Common.{
  ℕ, ◌≡◌, Bool, true, false, nat_beq, String, List, [], ◌∷◌, ◌++◌, Option, none, some, map,
  is_empty, if◌then◌else◌,
}
use xlpod.Common.Unicode.{in_front, encode_utf16}
use xlpod.Auth.{
  Scope, FilePath, fs_read, fs_write, run_python, excel_com, ai_provider_call, ai_codegen_write,
  ai_exec_python, bundle_read, bundle_write,
}
use xlpod.Consent.{ConsentRequest}

-- `scope_label`.
unfoldable pub scope_label : Scope → String
scope_label fs_read = "fs:read"
scope_label fs_write = "fs:write"
scope_label run_python = "run:python"
scope_label excel_com = "excel:com"
scope_label ai_provider_call = "ai:provider:call"
scope_label ai_codegen_write = "ai:codegen:write"
scope_label ai_exec_python = "ai:exec:python"
scope_label bundle_read = "bundle:read"
scope_label bundle_write = "bundle:write"

-- `join(separator)`.
unfoldable pub join : String → List String → String
join separator [] = ""
join separator (s ∷ []) = s
join separator (s ∷ t ∷ more) = in_front s (in_front separator (join separator (t ∷ more)))

-- The text of the roots; `display` is `Path::display`, as in `format_root`.
unfoldable pub roots_text : (FilePath → String) → List FilePath → String
roots_text display roots = if is_empty roots then "(none)" else join "\n  " (map display roots)

-- The `format!` of `show_dialog`.
unfoldable pub body_text : (FilePath → String) → ConsentRequest → String
body_text display req =
    in_front "Allow this website to talk to xlpod on your machine?\n\nOrigin:\n  " (
      in_front req.origin (
        in_front "\n\nScopes:\n  " (
          in_front (join ", " (map scope_label req.scopes)) (
            in_front "\n\nFilesystem roots:\n  " (
              in_front (roots_text display req.fs_roots)
                "\n\nClick Yes only if you initiated this action.")))))

-- `body_w`.
unfoldable pub body_w : (FilePath → String) → ConsentRequest → List ℕ
body_w display req = encode_utf16 (body_text display req) ++ (0 ∷ [])

-- What a function of Windows reads at a pointer to a text: up to the first NUL.
abbrev pub wide_text : List ℕ → List ℕ
wide_text [] = []
wide_text (u ∷ us) = let rest = wide_text us in if nat_beq u 0 then [] else u ∷ rest

-- `IDYES`.
abbrev pub idyes : ℕ
idyes = 6

-- `MessageBoxConsent::request`: `message_box` is the answer for the text that is shown, `none` where
-- the task that waits for it is lost.
unfoldable pub message_box_consent :
    (FilePath → String) → (List ℕ → Option ℕ) → ConsentRequest → Bool
message_box_consent display message_box req = elim (message_box (wide_text (body_w display req))) [
  | none ↦ false
  | some id ↦ nat_beq id idyes
]
