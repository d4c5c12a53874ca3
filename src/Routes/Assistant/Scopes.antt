-- ===== src/Routes/Assistant/Scopes.antt =====
-- The scopes of an AI session and the writes of provider keys in
-- launcher/xlpod-server/src/routes.rs.
use Prim.Native.String
use xlpod.Common.{
  ◌≡◌, ◌⊎◌, inl, inr, ◌↔◌, true, false, String, List, [], ◌∷◌, In, contains, contains-In,
  contains_of_In, In-filter, In-of_filter, map, arith, Bool-cases, ◌==◌, text_eq,
}
use xlpod.Json.{Json}
use xlpod.Auth.{Scope, scope_eq}
use xlpod.Ai.Tools.{builtin_tools}
use xlpod.System.{Env, World, ai_asked, key_written, key_deleted, after}
use xlpod.Routes.Assistant.{
  insert_scope, sort_scopes, dedup_from, dedup, text_leb, debug_name, session_scopes, key_request,
  ai_set_provider_key, ai_delete_provider_key,
}

In-insert_scope : (x s : Scope) (ss : List Scope) → In x (insert_scope s ss) ↔ In x (s ∷ ss)
In-insert_scope x s [] = (λ h. h, λ h. h)
In-insert_scope x s (t ∷ ts) = elim (Bool-cases (text_leb (debug_name s) (debug_name t))) [
  | inl e ↦ rw e (λ h. h, λ h. h)
  | inr e ↦ rw e (ground (arith, In-insert_scope x s ts))
]

In-sort_scopes : (x : Scope) (ss : List Scope) → In x (sort_scopes ss) ↔ In x ss
In-sort_scopes x [] = (λ h. h, λ h. h)
In-sort_scopes x (s ∷ ss) =
    ground (arith, In-insert_scope x s (sort_scopes ss), In-sort_scopes x ss)

In-dedup_from : (x s : Scope) (ss : List Scope) → In x (dedup_from s ss) ↔ In x (s ∷ ss)
In-dedup_from x s [] = (λ h. h, λ h. h)
In-dedup_from x s (t ∷ ts) = elim (Bool-cases (s == t)) [
  | inl e ↦
      let same : s ≡ t = (scope_eq.eq_iff s t).0 e in
      rw (e, ← same) (ground (arith, In-dedup_from x s ts))
  | inr e ↦ rw e (ground (arith, In-dedup_from x t ts))
]

In-dedup : (x : Scope) (ss : List Scope) → In x (dedup ss) ↔ In x ss
In-dedup x [] = (λ h. h, λ h. h)
In-dedup x (s ∷ ss) = In-dedup_from x s ss

-- A new session is granted a scope exactly when the user's token holds it and some tool requires
-- it: opening a session never adds a right, and keeps every right that a tool can use.
pub session_scopes_iff :
    (json : Json) (held : List Scope) (s : Scope)
    → In s (session_scopes json held)
      ↔ (In s held × In s (map (λ t. t.required_scope) (builtin_tools json)))
unfolding session_scopes
session_scopes_iff json held s = (
  λ m.
      let (required, kept) =
        In-of_filter (contains held) s (map (λ t. t.required_scope) (builtin_tools json))
          ((In-sort_scopes s _).0 ((In-dedup s _).0 m)) in
      (contains-In held s kept, required),
  λ (h, required). (In-dedup s _).1 (
      (In-sort_scopes s _).1 (
        In-filter (contains held) s (map (λ t. t.required_scope) (builtin_tools json)) required
          (contains_of_In held s h))),
)

-- Whatever the answer, setting a provider's key touches the keychain at most once, for Anthropic's
-- entry and only after the user has approved exactly this request.
pub ai_set_provider_key-trace :
    (env : Env) (provider key : String) (w : World)
    → let request = key_request (String.◌++◌ "ai-key://" provider) in
      let last = (after (ai_set_provider_key env provider key w)).trace in
      (last ≡ w.trace)
      ⊎ (last ≡ ai_asked request false ∷ w.trace)
      ⊎ ((provider ≡ "anthropic")
          × (last
              ≡ key_written (String.◌++◌ provider "_api_key") key
                ∷ ai_asked request true
                ∷ w.trace))
unfolding ai_set_provider_key
ai_set_provider_key-trace env provider key w = elim (Bool-cases (provider == "anthropic")) [
  | inl e ↦
      let same : provider ≡ "anthropic" = (text_eq.eq_iff provider "anthropic").0 e in
      elim (Bool-cases (env.ai_consent w.ticks (key_request (String.◌++◌ "ai-key://" provider)))) [
        | inl said ↦ inr (inr (same, ground arith))
        | inr refused ↦ inr (inl (ground arith))
      ]
  | inr e ↦ inl (ground arith)
]

-- Deleting a provider's key touches the keychain at most once, and only after the user has approved
-- exactly this request.
pub ai_delete_provider_key-trace :
    (env : Env) (provider : String) (w : World)
    → let request = key_request (String.◌++◌ "ai-key-delete://" provider) in
      let last = (after (ai_delete_provider_key env provider w)).trace in
      (last ≡ ai_asked request false ∷ w.trace)
      ⊎ (last ≡ key_deleted (String.◌++◌ provider "_api_key") ∷ ai_asked request true ∷ w.trace)
unfolding ai_delete_provider_key
ai_delete_provider_key-trace env provider w = ground arith
