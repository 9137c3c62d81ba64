-- ===== src/Chat/Server/Update.antt =====
-- hw5/chat_server.c: `chat_server_update`.
pub mod Leaves
pub mod Null
use system_programming_hw.Base.{
  ℕ, zero, suc, ◌+◌, ◌*◌, Bool, true, false, Option, none, some, List, [], ◌∷◌, ◌++◌, Bytes, length,
  ltb, leb, ◌==◌, if◌then◌else◌, u32,
}
use system_programming_hw.Chat.{ChatErrcode, timeout, not_started, ChatMessage}
use system_programming_hw.Chat.Framing.{Parsed, parsed, out_of_fuel, parse_all}
use system_programming_hw.Chat.Server.{
  ChatPeer, Store, ChatServer, Overrun, pollfd_written, pollfd_read, input_written,
}

-- The answer of `poll`; a descriptor that is ready is one with POLLIN in its `revents`.
pub data Poll : Type 0 where
  failed timed_out : Poll
  ready : (ℕ → Bool) → Poll

-- The answers of the kernel to one call: `accept` gives a socket or none, and each peer's `read` gives
-- bytes, or none for an error. `stale` is what stands in the memory behind the polled descriptors.
pub record Answers : Type 0 where
  pub poll : Poll
  pub accept : Option ℕ
  pub read : ℕ → Option Bytes
  pub stale : ℕ → Bool

-- A part of the call gives a value, or writes through a null pointer, or runs out of fuel.
pub data Part {ℓ} (A : Type ℓ) : Type ℓ where
  part : A → List Overrun → Part A
  null_written unfinished : Part A

infixl 5 ◌>>=◌
abbrev pub ◌>>=◌ {ℓ κ} : {A : Type ℓ} {B : Type κ} → Part A → (A → Part B) → Part B
part a overruns >>= next = elim (next a) [
  | part b more ↦ part b (overruns ++ more)
  | null_written ↦ null_written
  | unfinished ↦ unfinished
]
null_written >>= next = null_written
unfinished >>= next = unfinished

-- `realloc` to no size gives no memory, and the write of the message goes through a null pointer.
put_message : Store → ChatMessage → Part Store
put_message store m =
    if ltb (length store.messages) store.allocated
    then part (record store { messages = store.messages ++ m ∷ [] }) []
    else null_written

unfoldable pub add_message : Store → ChatMessage → Part Store
unfolding put_message
add_message store m =
    if store.total_messages == length store.messages
    then put_message
        (record store {
          total_messages = u32 (store.total_messages * 2);
          allocated = u32 (store.total_messages * 2);
        })
        m
    else put_message store m

unfoldable pub add_messages : ℕ → Store → List Bytes → Part Store
unfolding add_message
add_messages i store [] = part store []
add_messages i store (m ∷ ms) = do
  store' ← add_message store (record { content = m; peer = some i })
  add_messages i store' ms

input_size : ChatPeer → ℕ → ℕ
input_size peer n =
    if ltb peer.input_size (u32 (length peer.input + n))
    then u32 (length peer.input + n)
    else peer.input_size

grown : ChatPeer → Bytes → ChatPeer
unfolding input_size
grown peer bytes = record peer {
  input = peer.input ++ bytes;
  input_size = input_size peer (length bytes);
}

-- The bytes are copied behind the input.
copied : ChatPeer → Bytes → Part ChatPeer
unfolding grown
copied peer bytes = part (grown peer bytes) (
    if leb (length peer.input + length bytes) (input_size peer (length bytes))
    then []
    else input_written (length peer.input) ∷ [])

stored : ℕ → Store → ChatPeer → Parsed → Part (Store × ChatPeer)
unfolding add_messages
stored i store peer out_of_fuel = unfinished
stored i store peer (parsed ms rest) = do
  store' ← add_messages i store ms
  part (store', record peer { input = rest }) []

-- The body of the loop for a peer that is ready, by what `read` returned.
unfoldable pub receive : ℕ → Store → ChatPeer → Option Bytes → Part (Store × ChatPeer)
unfolding copied stored
receive i store peer none = part (store, peer) []
receive i store peer (some bytes) = do
  peer' ← copied peer bytes
  stored i store peer' (parse_all peer'.input)

-- The test of a peer, with an access outside of the descriptors where it was not polled.
poll_of : ℕ → (ℕ → Bool) → Answers → ℕ → Part Bool
poll_of polled revents answers i =
    if ltb i polled then part (revents i) [] else part (answers.stale i) (pollfd_read i ∷ [])

unfoldable pub serve_peer :
    ℕ → (ℕ → Bool) → Answers → ℕ → Store → ChatPeer → Part (Store × ChatPeer)
unfolding poll_of receive
serve_peer polled revents answers i store peer = do
  is_ready ← poll_of polled revents answers i
  if is_ready then receive i store peer (answers.read i) else part (store, peer) []

-- The loop over the peers from an index on.
unfoldable pub serve_peers :
    ℕ → (ℕ → Bool) → Answers → ℕ → Store → List ChatPeer → Part (Store × List ChatPeer)
unfolding serve_peer
serve_peers polled revents answers i store [] = part (store, []) []
serve_peers polled revents answers i store (peer ∷ peers) = do
  (store', peer') ← serve_peer polled revents answers i store peer
  (store'', peers') ← serve_peers polled revents answers (i + 1) store' peers
  part (store'', peer' ∷ peers') []

new_peer : ℕ → ChatPeer
new_peer fd = record { socket = fd; input = []; input_size = 0 }

accepted : ChatServer → Option ℕ → ChatServer
unfolding new_peer
accepted server none = server
accepted server (some fd) = record server {
  peer_size =
      if length server.peers == server.peer_size
      then u32 (server.peer_size * 2)
      else server.peer_size;
  peers = server.peers ++ new_peer fd ∷ [];
}

-- The part of the call behind `poll`.
unfoldable pub handle : ChatServer → (ℕ → Bool) → Answers → Part (Option ChatErrcode × ChatServer)
unfolding accepted serve_peers
handle server revents answers = do
  let server' = if revents 0 then accepted server answers.accept else server
  (store, peers) ← serve_peers (length server.peers) revents answers 0 server'.store server'.peers
  part (none, record server' { store = store; peers = peers }) []

polled_as : ChatServer → Answers → Poll → Part (Option ChatErrcode × ChatServer)
unfolding handle
polled_as server answers failed = handle server (λ i. false) answers
polled_as server answers timed_out = part (some timeout, server) []
polled_as server answers (ready revents) = handle server revents answers

-- The descriptor of the server's own socket is written behind the array, which has one for each peer.
polled_with : ChatServer → Answers → Part (Option ChatErrcode × ChatServer)
unfolding polled_as
polled_with server answers = do
  done ← part (length server.peers) (pollfd_written (length server.peers) ∷ [])
  polled_as server answers answers.poll

unfoldable pub chat_server_update : ChatServer → Answers → Part (Option ChatErrcode × ChatServer)
unfolding polled_with
chat_server_update server answers =
    if server.is_started then polled_with server answers else part (some not_started, server) []
