-- ===== src/Routes/Files.antt =====
-- launcher/xlpod-server/src/routes.rs, `/fs/read`, `/run/python`, `/excel/*` and `/bundle/*`.
pub mod Bundles
use Prim.Native.String
use xlpod.Common.{
  ℕ, Bool, true, false, not, ◌==◌, text_eq, String, List, [], ◌∷◌, Option, none, some, length,
  if◌then◌else◌,
}
use xlpod.Error.{
  ApiError, forbidden_path, path_not_found, bundle_not_found, bundle_too_large, bundle_corrupt,
  bundle_schema_mismatch, internal, consent_denied,
}
use xlpod.Json.{Value}
use xlpod.Auth.{FilePath, TokenRecord, bundle_write}
use xlpod.Consent.{ConsentRequest}
use xlpod.System.{
  Env, World, Canonical, found, not_found, other_error, ExecResult, Outcome, M, ◌>>=◌, ◌>>◌, pure,
  throw, guard, draw, ask, asked, emit, then_with, done, failed,
}
use xlpod.FsRead.{ReadOk, under_roots, read_under_roots}
use xlpod.Worker.{call, exec, excel_call, get_bool, get_str, unwrap_or}
use xlpod.Ai.Dispatch.{get_or_else}
use xlpod.Http.{Body, file_body, exec_body, json_body}

-- `fs_read`.
unfoldable pub fs_read_route : Env → TokenRecord → String → M Body
fs_read_route env token path = do
  result ← read_under_roots env path token.fs_roots
  pure (
      file_body (env.display result.canonical) (length result.bytes) "base64"
        (env.base64 result.bytes))

-- `run_python`.
unfoldable pub run_python_route : Env → String → M Body
run_python_route env code = do result ← exec env code; pure (exec_body result)

-- `excel_workbooks`.
unfoldable pub excel_workbooks_route : Env → M Body
excel_workbooks_route env = do
  resp ← excel_call env "excel_workbooks" (env.json.object [])
  pure (
      json_body (
        env.json.object (("workbooks", get_or_else env resp "workbooks" (env.json.array [])) ∷ [])))

-- `excel_range_read`.
unfoldable pub excel_range_read_route : Env → (workbook sheet range : String) → M Body
excel_range_read_route env workbook sheet range = do
  resp ← excel_call env "excel_range_read" (
      env.json.object (
        ("workbook", env.json.string workbook)
        ∷ ("sheet", env.json.string sheet)
        ∷ ("range", env.json.string range)
        ∷ []))
  pure (
      json_body (
        env.json.object (
          ("address", get_or_else env resp "address" (env.json.string ""))
          ∷ ("values", get_or_else env resp "values" (env.json.array []))
          ∷ [])))

-- `map_err(|_| ApiError::PathNotFound)` on the answer of `fs::canonicalize`.
unfoldable pub canonical_or_missing : Canonical → M FilePath
canonical_or_missing (found p) = pure p
canonical_or_missing not_found = throw path_not_found
canonical_or_missing other_error = throw path_not_found

-- `ensure_path_under_roots`.
unfoldable pub ensure_path_under_roots : Env → String → TokenRecord → M FilePath
unfolding canonical_or_missing
ensure_path_under_roots env requested token = do
  canon ← draw (λ n. env.canonicalize n requested) >>= canonical_or_missing
  guard (under_roots canon token.fs_roots) forbidden_path
  pure canon

-- `map_worker_bundle_error`.
unfoldable pub map_worker_bundle_error : String → ApiError
map_worker_bundle_error code =
    if code == "bundle_not_found"
    then bundle_not_found
    else if code == "bundle_too_large"
    then bundle_too_large
    else if code == "bundle_corrupt"
    then bundle_corrupt
    else if code == "bundle_schema_mismatch"
    then bundle_schema_mismatch
    else if code == "path_not_found"
    then path_not_found
    else internal

-- The test of the worker's answer: unlike `excel_call`, an answer without `"ok": true` is an error.
unfoldable pub bundle_answer : Env → Value → M Value
bundle_answer env resp =
    if not (unwrap_or (get_bool env resp "ok") false)
    then throw (map_worker_bundle_error (unwrap_or (get_str env resp "error_code") ""))
    else pure resp

-- `bundle_read_route`.
unfoldable pub bundle_read_route : Env → TokenRecord → String → M Body
bundle_read_route env token path = do
  canonical ← ensure_path_under_roots env path token
  resp ←
      call env "bundle_read"
        (env.json.object (("path", env.json.string (env.display canonical)) ∷ []))
  answer ← bundle_answer env resp
  pure (json_body (get_or_else env answer "payload" (env.json.object [])))

-- The consent request of `bundle_write_route`.
abbrev pub bundle_request : Env → FilePath → ConsentRequest
bundle_request env canonical = record {
  origin = String.◌++◌ "bundle-write://" (env.display canonical);
  scopes = bundle_write ∷ [];
  fs_roots = [];
}

-- `bundle_write_route`.
unfoldable pub bundle_write_route : Env → TokenRecord → String → Value → M Body
bundle_write_route env token path payload = do
  canonical ← ensure_path_under_roots env path token
  approved ← ask env (bundle_request env canonical)
  guard approved consent_denied
  resp ← call env "bundle_write" (
      env.json.object
        (("path", env.json.string (env.display canonical)) ∷ ("payload", payload) ∷ []))
  answer ← bundle_answer env resp
  pure (json_body (env.json.object (("ok", env.json.flag true) ∷ [])))
