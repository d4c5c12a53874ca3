-- ===== src/Ai/TrustWindow.antt =====
-- launcher/xlpod-server/src/ai/trust_window.rs: windows of time in which tools run with no dialog.
-- The identifier of a new window and each reading of the clock, in milliseconds, are arguments.
pub mod Coverage
use xlpod.Common.{
  ℕ, suc, ◌+◌, ◌*◌, Bool, true, false, not, ◌&&◌, ◌||◌, String, List, [], ◌∷◌, contains, ◌==◌,
  nat_eq, text_eq, insert, remove, if◌then◌else◌, leb, min,
}
use xlpod.Ai.Types.{Uuid}

-- `struct TrustWindow`.
pub record TrustWindow : Type 0 where
  pub id : Uuid
  pub session_id : Uuid
  pub tools : List String
  pub expires_ms : ℕ

-- `TrustWindow::covers`.
unfoldable pub window_covers : ℕ → TrustWindow → String → Bool
window_covers now w tool = if leb w.expires_ms now then false else contains w.tools tool

-- `struct TrustWindowStore`.
abbrev pub TrustWindowStore : Type 0
TrustWindowStore = List (Uuid × TrustWindow)

-- `MAX_DURATION_SECS`.
abbrev pub max_duration_secs : ℕ
max_duration_secs = 3600

-- `TrustWindowStore::open`.
unfoldable pub open_window :
    Uuid → ℕ → Uuid → List String → ℕ → TrustWindowStore → TrustWindow × TrustWindowStore
open_window id now session_id tools duration_secs store = (win, insert id win store)
  where
    win : TrustWindow
    win = record {
      id = id;
      session_id = session_id;
      tools = tools;
      expires_ms = now + min duration_secs max_duration_secs * 1000;
    }

-- `TrustWindowStore::covers`. Each window that is examined reads the clock anew: `clock i` is what
-- the window at place `i` reads.
unfoldable pub covers : (ℕ → ℕ) → Uuid → String → TrustWindowStore → Bool
covers clock session_id tool [] = false
covers clock session_id tool ((id, w) ∷ ws) =
    (w.session_id == session_id && window_covers (clock 0) w tool)
    || covers (λ i. clock (suc i)) session_id tool ws

-- `TrustWindowStore::revoke_session`: `retain`.
unfoldable pub revoke_session : Uuid → TrustWindowStore → TrustWindowStore
revoke_session session_id [] = []
revoke_session session_id ((id, w) ∷ ws) =
    let rest = revoke_session session_id ws in
    if not (w.session_id == session_id) then (id, w) ∷ rest else rest

-- `TrustWindowStore::revoke`.
unfoldable pub revoke : Uuid → TrustWindowStore → TrustWindowStore
revoke id ws = remove id ws
