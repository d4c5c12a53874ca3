-- ===== src/Routes/Table/Served.antt =====
-- Who is served a file by `/fs/read` of launcher/xlpod-server/src/routes.rs, through all layers.
use xlpod.Common.{
  ◌+◌, ◌<◌, ◌≡◌, refl, ◌∙◌, ap, ◌⊎◌, inl, inr, String, some, List, ◌++◌, In, All, lookup, text_eq,
}
use xlpod.Auth.{fs_read, TokenRecord}
use xlpod.System.{Env, World, Event, Outcome, done, failed, after}
use xlpod.System.Logic.{Stays, stays}
use xlpod.FsRead.Safety.{IsReadUnder, Stays-read_under_roots}
use xlpod.Http.{Request, Response, into_response}
use xlpod.Middleware.{audit_wrap}
use xlpod.Middleware.Guards.{authorised}
use xlpod.Routes.Files.{fs_read_route}
use xlpod.Routes.Table.{Call, layers, endpoint_of, handle, router}
use xlpod.Routes.Table.Mediation.{router_guarded}

-- A request for a file that was served or looked at: its token, and the reads.
pub record Served (env : Env) (w last : World) : Type 0 where
  pub token : String
  pub rec : TokenRecord
  pub stored : lookup token w.tokens ≡ some rec
  pub fresh : env.instant (w.ticks + 1) < rec.expires
  pub granted : In fs_read rec.scopes
  pub events : List Event
  pub trace : last.trace ≡ events ++ w.trace
  pub reads : All (IsReadUnder rec.fs_roots) events

after-into_response : (o : Outcome Response) → (into_response o).1 ≡ after o
after-into_response (done r v) = refl
after-into_response (failed e v) = refl

Stays-handle :
    (env : Env) (launcher path token : String) (req : Request) (rec : TokenRecord)
    → Stays
        (IsReadUnder rec.fs_roots)
        (handle env launcher (Call.fs_read path) (authorised req token rec))
unfolding handle fs_read_route
Stays-handle env launcher path token req rec = search (stays, Stays-read_under_roots) depth 9

-- Whatever the request to `/fs/read`, it does nothing outside, or its bearer token is stored, has
-- not expired and carries the scope for reading files, and all it does outside is to read files
-- under the roots of this token.
pub fs_read-Served :
    (env : Env) (launcher path : String) (req : Request) (w : World)
    → let last = (router env launcher (Call.fs_read path) req w).1 in
      (last.trace ≡ w.trace) ⊎ Served env w last
unfolding router audit_wrap layers endpoint_of
fs_read-Served env launcher path req w =
    elim ((router_guarded env launcher (Call.fs_read path) fs_read req w refl).0) [
      | inl t ↦ inl (ap (λ u. u.trace) t.harmless)
      | inr r ↦
          let acted = (Stays-handle env launcher path r.token req r.rec).run r.start in
          let answer : Outcome Response =
            handle env launcher (Call.fs_read path) (authorised req r.token r.rec) r.start in
          inr (record {
            token = r.token;
            rec = r.rec;
            stored = r.authentic.stored;
            fresh = r.authentic.fresh;
            granted = r.granted;
            events = acted.events;
            trace =
                ap (λ u. u.trace) r.world
                ∙ (ap (λ u. u.trace) (after-into_response answer)
                    ∙ (acted.trace ∙ ap (λ u. acted.events ++ u.trace) r.authentic.effect));
            reads = acted.allowed;
          })
    ]
