-- ===== src/Ai/Chat/Tasks/Kept.antt =====
-- What chats of launcher/xlpod-server/src/routes.rs have seen, and the stored transcripts, while
-- they run at once.
use xlpod.Ai.Chat.Tasks.Histories.{
  Holds-Longer, All-Holds-Longer, Grows-resume, Holds-resume, Longer-begin_chat, Holds-begin_chat,
}
use xlpod.Common.{ℕ, ◌≡◌, List, [], ◌∷◌, ◌++◌, All, nat_eq, text_eq}
use xlpod.Ai.Chat.Growth.{Longer, Longer-same, Longer-trans, Grows-Order}
use xlpod.Ai.Chat.Tasks.{Task}
use xlpod.Ai.Chat.Tasks.Pool.{Executor, Step, arrive, proceed, other, Reach, start, later, Holds}
use xlpod.System.{Env, World}
use xlpod.Common.{String, ◌+◌}
use xlpod.Http.{Request, into_response}
use xlpod.Middleware.{audit_wrap}
use xlpod.Routes.Table.{Call, layers, endpoint_of, handle, router}
use xlpod.Server.Handlers.{IsOrdinary, Follows-handle}
use xlpod.Server.Stack.{answered, Serves-run_layers, Follows-check_limit}
use xlpod.Server.Steps.{Advances, Advances-Order}

module _ (env : Env) where
  -- The state of chats that run at once, seen from a first state.
  pub record Kept (s t : Executor) : Type 0 where
    pub transcripts : Longer s.world.sessions t.world.sessions
    pub histories : All (Holds t.world) t.tasks

  replaced :
      (front back : List Task) (t t' : Task) (w w' : World)
      → Longer w.sessions w'.sessions
      → Holds w' t'
      → All (Holds w) (front ++ t ∷ back)
      → All (Holds w') (front ++ t' ∷ back)
  replaced [] back t t' w w' f h (k, ks) = (h, All-Holds-Longer back w w' f ks)
  replaced (x ∷ front) back t t' w w' f h (k, ks) =
      (Holds-Longer x w w' f k, replaced front back t t' w w' f h ks)

  held :
      (front back : List Task) (t : Task) (w : World)
      → All (Holds w) (front ++ t ∷ back)
      → Holds w t
  held [] back t w (k, ks) = k
  held (x ∷ front) back t w (k, ks) = held front back t w ks

  Longer-router :
      (launcher : String) (call : Call) (req : Request) (w : World)
      → IsOrdinary call
      → Longer w.sessions (router env launcher call req w).1.sessions
  unfolding router audit_wrap
  Longer-router launcher call req w i =
      (Serves-run_layers env Follows-check_limit (layers (endpoint_of call))
        (λ r v. into_response (handle env launcher call r v))
        (λ r v.
          answered Advances (handle env launcher call r) (Follows-handle env launcher call r i) v)
        req (record w { ticks = w.ticks + 1 })).transcripts

  -- A step of a chat, or one in which a request of another kind is served as a whole: any but the
  -- handshake and the opening of a session.
  abbrev pub IsServed : {s t : Executor} {n : ℕ} → Step env s n t → Type 0
  IsServed (arrive body) = Unit
  IsServed (proceed front back t e) = Unit
  IsServed {s} (other w elsewhere) =
      (launcher : String) × (call : Call) × (req : Request) × IsOrdinary call
      × (w ≡ (router env launcher call req s.world).1)

  Kept-Step :
      {s t u : Executor} {n : ℕ} (step : Step env t n u) → IsServed step → Kept s t → Kept s u
  Kept-Step {s} {t} (arrive body) i k =
      let grown = Longer-begin_chat env body t.world in
      record {
        transcripts = Longer-trans s.world.sessions t.world.sessions _ k.transcripts grown;
        histories = (
          Holds-begin_chat env body t.world,
          All-Holds-Longer t.tasks t.world _ grown k.histories,
        );
      }
  Kept-Step {s} {t} (proceed front back task e) i k =
      let grown = (Grows-resume env task t.world).sessions in
      let all : All (Holds t.world) (front ++ task ∷ back) = rw (← e) k.histories in
      record {
        transcripts = Longer-trans s.world.sessions t.world.sessions _ k.transcripts grown;
        histories =
            replaced front back task _ t.world _ grown
              (Holds-resume env task t.world (held front back task t.world all)) all;
      }
  Kept-Step {s} {t} (other w elsewhere) (launcher, call, req, i, e) k =
      let grown : Longer t.world.sessions w.sessions =
        rw e (Longer-router launcher call req t.world i) in
      record {
        transcripts = Longer-trans s.world.sessions t.world.sessions _ k.transcripts grown;
        histories = All-Holds-Longer t.tasks t.world w grown k.histories;
      }

  -- Every step is such a one.
  abbrev pub AllServed : {s t : Executor} {n : ℕ} → Reach env s n t → Type 0
  AllServed start = Unit
  AllServed (later r step) = AllServed r × IsServed step

  -- However any number of chats are interleaved at their waits, among each other and with requests of
  -- other kinds that the router serves and that call no provider, but for handshakes and the opening
  -- of sessions, from a start without chats: no stored transcript ever changes but by messages that are added at its end, and
  -- all that a chat has seen and said, which is what it sends to the provider next, stands in its
  -- session's transcript, in the same order.
  pub Reach-Kept :
      {s : Executor}
      → s.tasks ≡ []
      → {n : ℕ} {t : Executor} (r : Reach env s n t) → AllServed r
      → Kept s t
  Reach-Kept {s} idle start o = record {
    transcripts = Longer-same s.world.sessions;
    histories = rw idle tt;
  }
  Reach-Kept idle (later r step) (o, i) = Kept-Step step i (Reach-Kept idle r o)
