-- ===== src/Frames/Handshake.antt =====
-- `websocket` of scripts/codex/isolated_remote_control_fixture.py: the handshake, then the loop.
use samgita.Prelude.{
  ℕ, suc, ◌+◌, ◌≡◌, refl, ap, ◌∙◌, Bool, true, false, ◌&&◌, Option, none, some, String, str_eq,
  join, List, [], ◌∷◌, ◌++◌, map, if◌then◌else◌, ◌==◌, length, All, Text,
}
use samgita.Frames.{Signal}
use samgita.Frames.Chunks.{is_steady, arriving}
use samgita.Frames.Masked.{masked_frame}
use samgita.Frames.Serving.{
  Session, Effect, sent, closed, Ending, finished, crashed, serve, Message, IsMasked, IsControl,
  script, pongs, serve-script,
}

-- The library's calls: the lower case of a text, the base64 text of the host's name, the number of bytes
-- that a base64 text stands for (none if it is no such text), and the base64 SHA-1 of a key with RFC 6455's
-- suffix.
pub record Python : Type 0 where
  pub lower : String → String
  pub host_name : String
  pub decoded_size : String → Option ℕ
  pub accept : String → String

abbrev pub server_tokens : List String
server_tokens =
    "synthetic-owned-remote-control-server-v1" ∷ "synthetic-owned-remote-control-server-v2" ∷ []

abbrev pub server : String
server = "owned-server"

abbrev pub installation : String
installation = "11111111-2222-4333-8444-555555555555"

-- urlparse(fixture.endpoint).netloc
abbrev pub netloc : String
netloc = "127.0.0.1:32145"

-- headers.get(name)
abbrev pub Headers : Type 0
Headers = String → Option String

unfoldable pub is_text : Option String → String → Bool
is_text none expected = false
is_text (some value) expected = str_eq value expected

unfoldable pub is_absent : Option String → Bool
is_absent none = true
is_absent (some value) = false

unfoldable pub get_or_empty : Option String → String
get_or_empty none = ""
get_or_empty (some value) = value

unfoldable pub valid : Python → Headers → String → Bool
unfolding is_text is_absent get_or_empty join
valid py headers token =
    str_eq (py.lower (get_or_empty (headers "Upgrade"))) "websocket"
    && is_text (headers "Sec-WebSocket-Version") "13"
    && is_text (headers "Authorization") (join ("Bearer " ∷ token ∷ []))
    && is_text (headers "Host") netloc
    && is_text (headers "x-codex-server-id") server
    && is_text (headers "x-codex-installation-id") installation
    && is_text (headers "x-codex-name") py.host_name
    && is_text (headers "x-codex-protocol-version") "3"
    && is_absent (headers "x-codex-subscribe-cursor")
    && is_absent (headers "x-codex-host-device-kind")

unfoldable pub next_index : Option ℕ → Option ℕ
next_index none = none
next_index (some n) = some (suc n)

-- SERVER_TOKENS.index(token), none where it raises.
unfoldable pub index_in : List String → String → Option ℕ
unfolding next_index
index_in [] token = none
index_in (t ∷ tokens) token = if str_eq t token then some 0 else next_index (index_in tokens token)

-- What a connection records and sends: the journal's "http" entry with its status and slot, the reason of a
-- refusal, replies, the connection's entry with its number and slot, and what the loop does.
pub data Event : Type 0 where
  http : ℕ → ℕ → Event
  forbidden_headers : Event
  replied : ℕ → Event
  accepted : String → Event
  connected : ℕ → ℕ → Event
  within : Effect → Event

unfoldable pub looped : Session Effect → Session Event
looped (effects, ending, left) = (map within effects, ending, left)

unfoldable pub before : List Event → Session Event → Session Event
before events (later, ending, left) = (events ++ later, ending, left)

-- The size of the key is asserted.
unfoldable pub upgraded :
    Python → String → ℕ → ℕ → Option ℕ → List Signal → Session Effect → Session Event
unfolding looped before
upgraded py key slot identity none peer session = ([], crashed, peer)
upgraded py key slot identity (some size) peer session =
    if size == 16
    then before (accepted (py.accept key) ∷ connected identity slot ∷ []) (looped session)
    else ([], crashed, peer)

unfoldable pub opened :
    Python → Headers → Bool → ℕ → Option ℕ → List Signal → Session Effect → Session Event
unfolding get_or_empty upgraded before
opened py headers is_valid identity none peer session = ([], crashed, peer)
opened py headers is_valid identity (some index) peer session =
    let key = get_or_empty (headers "Sec-WebSocket-Key") in
    if is_valid
    then before (http 101 (index + 1) ∷ [])
        (upgraded py key (index + 1) identity (py.decoded_size key) peer session)
    else (http 403 (index + 1) ∷ forbidden_headers ∷ replied 403 ∷ [], finished, peer)

-- `peers` is the number of connections before, and `token` the active one.
unfoldable pub websocket : Python → Headers → String → ℕ → ℕ → List Signal → Session Event
unfolding valid index_in opened serve
websocket py headers token peers fuel peer =
    opened py headers (valid py headers token) (suc peers) (index_in server_tokens token) peer
      (serve fuel peer)

unfoldable pub key_of : Headers → String
unfolding get_or_empty
key_of headers = get_or_empty (headers "Sec-WebSocket-Key")

-- What a valid handshake comes to before the loop.
abbrev pub welcome : Python → Headers → (identity index : ℕ) → List Event
welcome py headers identity index =
    http 101 (index + 1)
    ∷ accepted (py.accept (key_of headers))
    ∷ connected identity (index + 1)
    ∷ []

abbrev pub rejection : ℕ → List Event
rejection index = http 403 (index + 1) ∷ forbidden_headers ∷ replied 403 ∷ []

-- The two ways to go on from the headers.
opened-some :
    (py : Python) (headers : Headers) (is_valid : Bool) (identity index : ℕ) (effects : List Effect)
    (ending : Ending) (peer left : List Signal)
    → py.decoded_size (key_of headers) ≡ some 16
    → opened py headers is_valid identity (some index) peer (effects, ending, left) ≡ (
        if is_valid
        then (welcome py headers identity index ++ map within effects, ending, left)
        else (rejection index, finished, peer))
unfolding opened upgraded before looped key_of
opened-some py headers true identity index effects ending peer left sixteen = rw sixteen
opened-some py headers false identity index effects ending peer left sixteen = refl

-- For an active token that the fixture has given and a key of 16 bytes: a connection whose headers are
-- those of the enrolled server is accepted with status 101, numbered one above the connections before,
-- and recorded with the token's slot; then, whatever the pieces in which a client's pings and pongs arrive
-- and the timeouts between them, each ping is answered by a pong with its payload, in order, and no pong is
-- answered; the payload of the closing frame is sent back, the close is recorded, and nothing raises.
-- What comes after that frame is left
-- unread. With any other headers the answer is 403, and all that comes is left unread. Masks have four
-- bytes and payloads at most 125.
pub websocket-script :
    (py : Python) (headers : Headers) (token : String) (peers index : ℕ) (messages : List Message)
    (mask payload rest : Text) (peer : List Signal)
    → index_in server_tokens token ≡ some index
    → py.decoded_size (key_of headers) ≡ some 16
    → All IsControl messages
    → IsMasked mask payload
    → is_steady peer ≡ true
    → arriving peer ≡ script messages (masked_frame 8 mask payload ++ rest)
    → (left : List Signal) × (websocket py headers token peers (suc (length messages)) peer ≡ (
        if valid py headers token
        then (
          welcome py headers (suc peers) index
              ++ map within (pongs messages ++ sent (136 ∷ length payload ∷ payload) ∷ closed ∷ []),
          finished,
          left,
        )
        else (rejection index, finished, peer)))
      × (arriving left ≡ rest)
unfolding websocket
websocket-script py headers token peers index messages mask payload rest peer found sixteen controls
      masked steady all_of =
    let fuel = suc (length messages) in
    let is_valid = valid py headers token in
    let session = serve-script messages mask payload rest peer controls masked steady all_of in
    (
      session.0,
      ap (λ i. opened py headers is_valid (suc peers) i peer (serve fuel peer)) found
          ∙ ap (opened py headers is_valid (suc peers) (some index) peer) session.1
          ∙ opened-some py headers is_valid (suc peers) index
              (pongs messages ++ sent (136 ∷ length payload ∷ payload) ∷ closed ∷ []) finished peer
              session.0 sixteen,
      session.2,
    )
