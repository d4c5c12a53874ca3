-- ===== src/Ai/Chat/Tasks/Pool.antt =====
-- Chats of launcher/xlpod-server/src/routes.rs at once: the executor runs one stretch of a chat
-- after another, in any order, and other requests between them.
use xlpod.Common.{ℕ, ◌+◌, ◌≡◌, List, [], ◌∷◌, ◌++◌, if◌then◌else◌, nat_eq, text_eq}
use xlpod.Auth.{ok}
use xlpod.Ai.Types.{Uuid, ChatMessage, ChatRequest}
use xlpod.Ai.Session.{Session, get_session}
use xlpod.Ai.Cost.{over_budget}
use xlpod.Ai.Chat.Calls.{calls}
use xlpod.Ai.Chat.Growth.{Grows-Order}
use xlpod.Ai.Chat.Tasks.{Task, asking, charging, acting, ended, resume, begin_chat}
use xlpod.System.{Env, World}

-- The state of the launcher, and the chats that have arrived, the latest first.
pub record Executor : Type 0 where
  pub world : World
  pub tasks : List Task

-- What another request does: it calls no provider.
pub record Elsewhere (w w' : World) : Type 0 where
  pub silent : calls w'.trace ≡ calls w.trace

-- How many chats a request adds to those that may call the provider.
abbrev pub fresh : World → ℕ
fresh w = if over_budget w.cost then 0 else 1

-- A request to `/ai/chat` arrives, a chat goes on to its next wait, or another request runs. The
-- number counts the requests that find budget left.
pub data Step (env : Env) (s : Executor) : ℕ → Executor → Type 0 where
  arrive :
      (body : ChatRequest)
      → Step env s (fresh s.world) (record {
        world = (begin_chat env body s.world).0;
        tasks = (begin_chat env body s.world).1 ∷ s.tasks;
      })
  proceed :
      (front back : List Task) (t : Task)
      → s.tasks ≡ front ++ t ∷ back
      → Step env s 0 (record {
        world = (resume env t s.world).0;
        tasks = front ++ (resume env t s.world).1 ∷ back;
      })
  other : (w : World) → Elsewhere s.world w → Step env s 0 (record s { world = w })

pub data Reach (env : Env) (s : Executor) : ℕ → Executor → Type 0 where
  start : Reach env s 0 s
  later : {n k : ℕ} {t u : Executor} → Reach env s n t → Step env t k u → Reach env s (n + k) u

-- The first list is the second, but for messages that stand between its own.
pub data Part : List ChatMessage → List ChatMessage → Type 0 where
  none_left : (l : List ChatMessage) → Part [] l
  keep : (m : ChatMessage) {k l : List ChatMessage} → Part k l → Part (m ∷ k) (m ∷ l)
  skip : (m : ChatMessage) {k l : List ChatMessage} → Part k l → Part k (m ∷ l)

pub Part-refl : (l : List ChatMessage) → Part l l
Part-refl [] = none_left []
Part-refl (m ∷ l) = keep m (Part-refl l)

pub Part-longer : {k l : List ChatMessage} (more : List ChatMessage) → Part k l → Part k (l ++ more)
Part-longer more (none_left l) = none_left (l ++ more)
Part-longer more (keep m p) = keep m (Part-longer more p)
Part-longer more (skip m p) = skip m (Part-longer more p)

Part-prefix : (l new : List ChatMessage) → Part new (l ++ new)
Part-prefix [] new = Part-refl new
Part-prefix (m ∷ l) new = skip m (Part-prefix l new)

pub Part-append :
    {k l : List ChatMessage} (new : List ChatMessage) → Part k l → Part (k ++ new) (l ++ new)
Part-append new (none_left l) = Part-prefix l new
Part-append new (keep m p) = keep m (Part-append new p)
Part-append new (skip m p) = skip m (Part-append new p)

-- The messages are part of the stored transcript.
pub record Stored (id : Uuid) (messages : List ChatMessage) (w : World) : Type 0 where
  pub session : Session
  pub found : get_session id w.sessions ≡ ok session
  pub part : Part messages session.messages

-- What a chat has seen of its session is part of the stored transcript.
abbrev pub Holds : World → Task → Type 0
Holds w (asking v) = Stored v.session.id v.history w
Holds w (charging v t) = Stored v.session.id (v.history ++ t.message ∷ []) w
Holds w (acting v us results) = Stored v.session.id v.history w
Holds w (ended r) = Unit
