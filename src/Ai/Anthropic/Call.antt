-- ===== src/Ai/Anthropic/Call.antt =====
-- A call of the provider in launcher/xlpod-server/src/ai/anthropic.rs: what it sends, and how it ends.
use xlpod.Common.{
  ℕ, ◌≤◌, ◌<◌, ◌≡◌, refl, ◌⊎◌, inl, inr, false, String, List, [], ◌∷◌, Option, none, some, arith,
  Bool-cases, Option-cases, map, text_eq,
}
use xlpod.Ai.Types.{ChatMessage, ToolSpec}
use xlpod.System.{unconfigured, upstream, decode, turn, turn_failed}
use xlpod.Ai.Anthropic.{
  WireResponse, into_internal, wire_message, truncate_for_log, Parsed, decoded, undecodable,
  HttpAnswer, send_failed, answered, HttpRequest, Upstream, ChatEnd, returned, panicked, is_success,
  of_answer, wire_request, request_of, provider_chat,
}
use xlpod.Ai.Anthropic.Log.{AtBoundary, truncate_for_log-Logged}
use xlpod.Ai.Anthropic.{len}
use xlpod.Common.Unicode.{as_bytes}

module _ (up : Upstream) (messages : List ChatMessage) (tools : List ToolSpec)
    (limit : Option ℕ) where
  -- No key can be read: the call ends at once.
  pub record Keyless (o : List HttpRequest × ChatEnd) : Type 0 where
    pub absent : (key : String) → up.read_key "anthropic_api_key" ≡ some (some key) → ⊥
    pub nothing_sent : o.0 ≡ []
    pub ended : o.1 ≡ returned (turn_failed unconfigured)

  -- What the end of a call says about the service's answer.
  abbrev pub Explains : HttpAnswer → ChatEnd → Type 0
  Explains a (returned (turn t)) =
      (status : ℕ) × (text : String) × (body : Option String) × (r : WireResponse) × (a
        ≡ answered status text body (decoded r))
      × (200 ≤ status)
      × (status < 300)
      × (t ≡ into_internal r)
  Explains a (returned (turn_failed unconfigured)) = ⊥
  Explains a (returned (turn_failed (decode e))) =
      (status : ℕ) × (text : String) × (body : Option String) × (a
        ≡ answered status text body (undecodable e))
      × (200 ≤ status)
      × (status < 300)
  Explains a (returned (turn_failed (upstream e))) =
      (a ≡ send_failed e)
      ⊎ ((status : ℕ) × (text : String) × (body : Option String) × (p : Parsed) × (a
            ≡ answered status text body p)
          × ((status < 200) ⊎ (300 ≤ status)))
  Explains a panicked =
      (status : ℕ) × (text : String) × (body : String) × (p : Parsed) × (a
        ≡ answered status text (some body) p)
      × ((status < 200) ⊎ (300 ≤ status))
      × (400 < len body)
      × (AtBoundary body → ⊥)

  -- One request, with the key in its header.
  pub record Sent (o : List HttpRequest × ChatEnd) : Type 0 where
    pub key : String
    pub present : up.read_key "anthropic_api_key" ≡ some (some key)
    pub request : HttpRequest
    pub one_sent : o.0 ≡ request ∷ []
    pub api_key : request.api_key ≡ key
    pub url : request.url ≡ up.api_url
    pub model : request.body.model ≡ up.model
    pub transcript : request.body.messages ≡ map (wire_message up.to_string) messages
    pub ended : Explains (up.post request) o.1

  empty_text : truncate_for_log "" ≡ some ""
  unfolding truncate_for_log as_bytes
  empty_text = refl

  refused :
      (status : ℕ) (text : String) (body : Option String) (p : Parsed)
      → is_success status ≡ false
      → Explains (answered status text body p) (of_answer (answered status text body p))
  unfolding of_answer
  refused status text none p h =
      rw (h, empty_text) (inr (status, text, none, p, refl, ground (arith, h)))
  refused status text (some b) p h = rw h (elim (Option-cases (truncate_for_log b)) [
    | inl e ↦
        let l = rw e at (truncate_for_log-Logged b) in
        rw e (status, text, b, p, refl, ground (arith, h), l.0, l.1)
    | inr (t, e) ↦ rw e (inr (status, text, some b, p, refl, ground (arith, h)))
  ])

  explained : (a : HttpAnswer) → Explains a (of_answer a)
  unfolding of_answer
  explained (send_failed e) = inl refl
  explained (answered status text body p) = elim (Bool-cases (is_success status)) [
    | inr h ↦ refused status text body p h
    | inl h ↦ rw h (fine p (ground (arith, h)) (ground (arith, h)))
  ]
    where
      fine :
          (p : Parsed)
          → 200 ≤ status
          → status < 300
          → Explains (answered status text body p) (elim p [
            | decoded r ↦ returned (turn (into_internal r))
            | undecodable e ↦ returned (turn_failed (decode e))
          ])
      fine (decoded r) l u = (status, text, body, r, refl, l, u, refl)
      fine (undecodable e) l u = (status, text, body, refl, l, u)

  -- A call without a readable key sends nothing and ends as unconfigured. Any other call sends
  -- exactly one request, to the provider's URL, with the key in its header, the provider's own model
  -- and the whole transcript; it gives a turn exactly from a success status with a decodable body,
  -- and it panics only on the text of a refusal that byte 400 cuts inside a character.
  pub provider_chat-Sent :
      Keyless (provider_chat up messages tools limit) ⊎ Sent (provider_chat up messages tools limit)
  unfolding provider_chat request_of wire_request
  provider_chat-Sent = go (up.read_key "anthropic_api_key") refl
    where
      go :
          (k : Option (Option String))
          → up.read_key "anthropic_api_key" ≡ k
          → Keyless (provider_chat up messages tools limit)
            ⊎ Sent (provider_chat up messages tools limit)
      go none e = inl (record {
        absent = λ key h. cc (e, h);
        nothing_sent = rw (provider_chat, e) refl;
        ended = rw (provider_chat, e) refl;
      })
      go (some none) e = inl (record {
        absent = λ key h. cc (e, h);
        nothing_sent = rw (provider_chat, e) refl;
        ended = rw (provider_chat, e) refl;
      })
      go (some (some key)) e = inr (record {
        key = key;
        present = e;
        request = request_of up key messages tools limit;
        one_sent = rw (provider_chat, e) refl;
        api_key = refl;
        url = refl;
        model = refl;
        transcript = refl;
        ended =
            rw (provider_chat, e) (explained (up.post (request_of up key messages tools limit)));
      })
