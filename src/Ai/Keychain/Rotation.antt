-- ===== src/Ai/Keychain/Rotation.antt =====
-- A change of the key of launcher/xlpod-server/src/ai/keychain.rs and the next call of the provider in
-- anthropic.rs.
use xlpod.Common.{
  ℕ, ◌≡◌, refl, inl, inr, true, false, String, List, [], ◌∷◌, Option, is_empty_text, text_eq,
}
use xlpod.Ai.Types.{ChatMessage, ToolSpec}
use xlpod.System.{unconfigured, turn_failed}
use xlpod.Ai.Anthropic.{HttpRequest, Upstream, returned, provider_chat}
use xlpod.Ai.Anthropic.Call.{provider_chat-Sent}
use xlpod.Ai.Keychain.{Keychain}
use xlpod.Ai.Keychain.Laws.{KeepsKeys}

-- The provider over a state of the key store.
abbrev pub over : {S : Type 0} → Keychain S → Upstream → S → Upstream
over k up s = record up { read_key = λ name. k.read name s }

module _ {S : Type 0} (k : Keychain S) (laws : KeepsKeys k) (up : Upstream)
    (messages : List ChatMessage) (tools : List ToolSpec) (limit : Option ℕ) where
  -- Once a new key is written, the very next call of the provider sends one request with this key;
  -- once the key is deleted, the next call sends nothing and ends as unconfigured.
  pub rotation :
      (key : String) (s : S)
      → is_empty_text key ≡ false
      → (k.write "anthropic_api_key" key s).0 ≡ true
      → (k.delete "anthropic_api_key" s).0 ≡ true
      → ((req : HttpRequest) × ((provider_chat
              (over k up (k.write "anthropic_api_key" key s).1)
              messages
              tools
              limit).0
            ≡ req ∷ [])
          × (req.api_key ≡ key))
        × (provider_chat (over k up (k.delete "anthropic_api_key" s).1) messages tools limit
            ≡ ([], returned (turn_failed unconfigured)))
  unfolding provider_chat
  rotation key s full w d =
      let written = laws.read-write "anthropic_api_key" key s full w in
      let gone = laws.read-delete "anthropic_api_key" s d in
      (
        elim (provider_chat-Sent (over k up (k.write "anthropic_api_key" key s).1) messages tools
            limit) [
              | inl none_sent ↦ absurd (none_sent.absent key written)
              | inr sent ↦ (sent.request, sent.one_sent, cc (sent.api_key, sent.present, written))
            ],
        rw gone refl,
      )
