-- ===== src/Tests/Requests.antt =====
-- The requests of launcher/xlpod-server on concrete inputs: the table, files, handshakes and the
-- worker.
use xlpod.Common.{◌≡◌, refl, ◌⊎◌, [], ◌∷◌}
use xlpod.Error.{ApiError}
use xlpod.Auth.{is_reserved, fs_read, run_python}
use xlpod.System.{World, read_file, failed, after}
use xlpod.FsRead.{read_under_roots, under_roots, path_starts_with, canonicalize_roots}
use xlpod.FsRead.Safety.{ReadSafe, read_under_roots-ReadSafe}
use xlpod.Worker.{call}
use xlpod.Worker.Lifecycle.{SlotAfter, call-SlotAfter}
use xlpod.Http.{handshake_body, Next, into_response}
use xlpod.Routes.Handshake.{
  HandshakeRequest, handshake, grant_roots, approve_handshake, issue_token,
}
use xlpod.Routes.Handshake.Grant.{Granted, handshake-Granted}
use xlpod.Routes.Files.{bundle_read_route, bundle_write_route}
use xlpod.Routes.Files.Bundles.{
  Handed, WriteOutcome, bundle_read-guarded, bundle_write-WriteOutcome,
}
use xlpod.Routes.Table.{Call, layers, endpoint_of, handle, run_layers, router}
use xlpod.Routes.Table.Mediation.{Turned, Reached, Audited, router_guarded}
use xlpod.Tests.Fixtures.{env, notes, work, rec, world, request}

abbrev handler : Next
handler req w = into_response (handle env "0.1.0" (Call.fs_read "notes.txt") req w)

abbrev start : World
start = record world { ticks = 1 }

-- A read of a file with the stored token.
router_guarded_example :
    let o =
      run_layers env (layers (endpoint_of (Call.fs_read "notes.txt"))) handler request start in
    (Turned env fs_read request handler start o ⊎ Reached env fs_read request handler start o)
    × ((router env "0.1.0" (Call.fs_read "notes.txt") request world).0 ≡ o.0)
    × Audited request o (router env "0.1.0" (Call.fs_read "notes.txt") request world).1
unfolding layers endpoint_of
router_guarded_example =
    router_guarded env "0.1.0" (Call.fs_read "notes.txt") fs_read request world refl

abbrev after_read : World
after_read = record world { ticks = 3; trace = read_file notes (1 ∷ 2 ∷ 3 ∷ []) ∷ [] }

read_under_roots-ReadSafe_example :
    ReadSafe env "notes.txt"
      (work ∷ [])
      world
      (record { canonical = notes; bytes = 1 ∷ 2 ∷ 3 ∷ [] })
      after_read
unfolding read_under_roots under_roots path_starts_with
read_under_roots-ReadSafe_example =
    read_under_roots-ReadSafe env "notes.txt" (work ∷ []) world after_read
      (record { canonical = notes; bytes = 1 ∷ 2 ∷ 3 ∷ [] }) refl

call-SlotAfter_example : SlotAfter 4 (call env "exec" "{}" world)
call-SlotAfter_example = call-SlotAfter env 4 "exec" "{}" world refl

abbrev shake : HandshakeRequest
shake = record { requested_scopes = fs_read ∷ run_python ∷ []; fs_roots = "/work" ∷ [] }

abbrev shaken : World
shaken = after (handshake env request shake world)

handshake-Granted_example :
    Granted env request shake world
      (handshake_body "0123456789abcdef" (fs_read ∷ run_python ∷ []) ("/work/notes.txt" ∷ []) 3600)
      shaken
unfolding handshake is_reserved grant_roots canonicalize_roots approve_handshake issue_token
handshake-Granted_example =
    handshake-Granted env request shake world
      (handshake_body "0123456789abcdef" (fs_read ∷ run_python ∷ []) ("/work/notes.txt" ∷ []) 3600)
      shaken refl

bundle_read-guarded_example :
    ((e : ApiError) × (bundle_read_route env rec "notes.txt" world
        ≡ failed e (record world { ticks = 1 })))
    ⊎ Handed env rec "notes.txt" world
        (record world { ticks = 1 })
        (after (bundle_read_route env rec "notes.txt" world))
bundle_read-guarded_example = bundle_read-guarded env rec "notes.txt" world

bundle_write-WriteOutcome_example :
    WriteOutcome env rec "notes.txt" "{}" world (bundle_write_route env rec "notes.txt" "{}" world)
bundle_write-WriteOutcome_example = bundle_write-WriteOutcome env rec "notes.txt" "{}" world
