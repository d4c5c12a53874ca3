-- ===== src/Ai/TrustWindow/Coverage.antt =====
-- When a trust window of launcher/xlpod-server/src/ai/trust_window.rs covers a tool.
use xlpod.Common.{
  ℕ, suc, zero, ◌+◌, ◌*◌, ◌<◌, ◌≡◌, refl, ◌↔◌, inl, inr, true, not, ◌&&◌, ◌||◌, String, Option,
  none, some, List, [], ◌∷◌, In, contains, contains-In, contains_of_In, ◌==◌, nat_eq, text_eq,
  insert, lookup, ltb, min, arith, Bool-cases,
}
use xlpod.Ai.Types.{Uuid}
use xlpod.Ai.TrustWindow.{
  TrustWindow, TrustWindowStore, window_covers, open_window, covers, revoke_session,
}

-- The window at a place of the store.
abbrev pub window_at : ℕ → TrustWindowStore → Option TrustWindow
window_at i [] = none
window_at zero ((id, w) ∷ ws) = some w
window_at (suc i) ((id, w) ∷ ws) = window_at i ws

-- Some window of the session lists the tool, and has not expired when it is read.
abbrev pub Covered : (ℕ → ℕ) → Uuid → String → TrustWindowStore → Type 0
Covered clock session_id tool store =
    (i : ℕ) × (w : TrustWindow) × (window_at i store ≡ some w)
    × (w.session_id ≡ session_id)
    × In tool w.tools
    × (clock i < w.expires_ms)

window_covers_lem :
    (now : ℕ) (w : TrustWindow) (tool : String)
    → window_covers now w tool ≡ true
    → In tool w.tools × (now < w.expires_ms)
unfolding window_covers
window_covers_lem now w tool h = (contains-In w.tools tool (ground arith), ground arith)

window_covers_of :
    (now : ℕ) (w : TrustWindow) (tool : String)
    → In tool w.tools
    → now < w.expires_ms
    → window_covers now w tool ≡ true
unfolding window_covers
window_covers_of now w tool m h = ground (arith, contains_of_In w.tools tool m)

covers-Covered :
    (clock : ℕ → ℕ) (session_id : Uuid) (tool : String) (store : TrustWindowStore)
    → covers clock session_id tool store ≡ true
    → Covered clock session_id tool store
unfolding covers
covers-Covered clock s tool [] h = cc
covers-Covered clock s tool ((id, w) ∷ ws) h =
    elim (Bool-cases (w.session_id == s && window_covers (clock 0) w tool)) [
      | inl e ↦
          let (m, lt) = window_covers_lem (clock 0) w tool (ground arith) in
          (0, w, refl, ground arith, m, lt)
      | inr e ↦
          let (i, v, at, same, m, lt) = covers-Covered (λ j. clock (suc j)) s tool ws (rw e at h) in
          (suc i, v, at, same, m, lt)
    ]

covers_of_Covered :
    (clock : ℕ → ℕ) (session_id : Uuid) (tool : String) (store : TrustWindowStore) (i : ℕ)
    (w : TrustWindow)
    → window_at i store ≡ some w
    → w.session_id ≡ session_id
    → In tool w.tools
    → clock i < w.expires_ms
    → covers clock session_id tool store ≡ true
unfolding covers
covers_of_Covered clock s tool [] i w at same m lt = cc
covers_of_Covered clock s tool ((id, v) ∷ ws) zero w at same m lt =
    ground (arith, window_covers_of (clock 0) w tool m lt)
covers_of_Covered clock s tool ((id, v) ∷ ws) (suc i) w at same m lt =
    ground (arith, covers_of_Covered (λ j. clock (suc j)) s tool ws i w at same m lt)

-- The store covers a tool for a session exactly when some window of that session lists the tool
-- and has not expired when the clock is read for it.
pub covers_iff :
    (clock : ℕ → ℕ) (session_id : Uuid) (tool : String) (store : TrustWindowStore)
    → (covers clock session_id tool store ≡ true) ↔ Covered clock session_id tool store
covers_iff clock s tool store = (
  covers-Covered clock s tool store,
  λ (i, w, at, same, m, lt). covers_of_Covered clock s tool store i w at same m lt,
)

covers-insert :
    (now : ℕ) (session_id : Uuid) (tool : String) (id : Uuid) (w : TrustWindow)
    (store : TrustWindowStore)
    → lookup id store ≡ none
    → covers (λ _. now) session_id tool (insert id w store) ≡ (
        covers (λ _. now) session_id tool store
        || (w.session_id == session_id && window_covers now w tool))
unfolding covers insert lookup
covers-insert now s tool id w [] fresh = ground arith
covers-insert now s tool id w ((j, v) ∷ ws) fresh = ground (arith, covers-insert now s tool id w ws)

-- Opening a window under an unused identifier makes exactly this difference at a later time `now`:
-- the session of the window has its tools covered until the requested number of seconds, or one
-- hour if that is less, has passed since the opening; all else is covered as before.
pub covers-open_window :
    (id : Uuid) (opened now : ℕ) (session_id s : Uuid) (tools : List String) (tool : String)
    (duration_secs : ℕ) (store : TrustWindowStore)
    → lookup id store ≡ none
    → covers (λ _. now) s tool (open_window id opened session_id tools duration_secs store).1 ≡ (
        covers (λ _. now) s tool store
        || (session_id == s
            && ltb now (opened + min duration_secs 3600 * 1000)
            && contains tools tool))
unfolding open_window
covers-open_window id opened now session_id s tools tool duration_secs store fresh =
    rw
      (covers-insert now s tool id (open_window id opened session_id tools duration_secs store).0
        store fresh)
      (step)
  where
    step :
        (covers (λ _. now) s tool store
          || (session_id == s
              && window_covers now
                  (open_window id opened session_id tools duration_secs store).0
                  tool))
        ≡ (covers (λ _. now) s tool store
            || (session_id == s
                && ltb now (opened + min duration_secs 3600 * 1000)
                && contains tools tool))
    step = unfold window_covers in ground arith

-- After a session is revoked none of its tools is covered at any time, and the other sessions are
-- covered as before.
pub covers-revoke_session :
    (now : ℕ) (revoked s : Uuid) (tool : String) (store : TrustWindowStore)
    → covers (λ _. now) s tool (revoke_session revoked store)
      ≡ (not (s == revoked) && covers (λ _. now) s tool store)
unfolding covers revoke_session
covers-revoke_session now revoked s tool [] = ground arith
covers-revoke_session now revoked s tool ((j, v) ∷ ws) =
    ground (arith, covers-revoke_session now revoked s tool ws)
