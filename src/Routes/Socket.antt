-- ===== src/Routes/Socket.antt =====
-- launcher/xlpod-server/src/routes.rs, `/ws`: the echo loop of `handle_ws`.
use xlpod.Common.{List, [], ◌∷◌, ◌++◌, ◌≡◌, refl, ap, String}

-- `ws::Message`; `broken` is an item of the stream that is an error.
pub data Message : Type 0 where
  ping pong text binary : String → Message
  close broken : Message

-- `handle_ws`: the messages sent for the messages received. A send that fails is ignored.
unfoldable pub handle_ws : List Message → List Message
handle_ws [] = []
handle_ws (ping p ∷ stream) = pong p ∷ handle_ws stream
handle_ws (text t ∷ stream) = text t ∷ handle_ws stream
handle_ws (binary b ∷ stream) = binary b ∷ handle_ws stream
handle_ws (close ∷ stream) = []
handle_ws (pong p ∷ stream) = handle_ws stream
handle_ws (broken ∷ stream) = []

-- The part of a stream before it is closed or breaks.
abbrev pub until_end : List Message → List Message
until_end [] = []
until_end (close ∷ stream) = []
until_end (broken ∷ stream) = []
until_end (m ∷ stream) = m ∷ until_end stream

-- The answer to one message.
abbrev pub echo : Message → List Message
echo (ping p) = pong p ∷ []
echo (text t) = text t ∷ []
echo (binary b) = binary b ∷ []
echo m = []

abbrev pub echoes : List Message → List Message
echoes [] = []
echoes (m ∷ ms) = echo m ++ echoes ms

-- The socket answers, message by message and in their order, exactly what comes before the stream
-- is closed or breaks: texts and binaries with themselves, a ping with a pong, a pong with nothing.
pub handle_ws-eq-echoes : (stream : List Message) → handle_ws stream ≡ echoes (until_end stream)
unfolding handle_ws
handle_ws-eq-echoes [] = refl
handle_ws-eq-echoes (ping p ∷ stream) = ap (λ l. pong p ∷ l) (handle_ws-eq-echoes stream)
handle_ws-eq-echoes (text t ∷ stream) = ap (λ l. text t ∷ l) (handle_ws-eq-echoes stream)
handle_ws-eq-echoes (binary b ∷ stream) = ap (λ l. binary b ∷ l) (handle_ws-eq-echoes stream)
handle_ws-eq-echoes (close ∷ stream) = refl
handle_ws-eq-echoes (pong p ∷ stream) = handle_ws-eq-echoes stream
handle_ws-eq-echoes (broken ∷ stream) = refl
