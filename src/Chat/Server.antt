-- ===== src/Chat/Server.antt =====
-- hw5/chat_server.c: the server. The kernel's answers to the calls of one operation are arguments.
pub mod Update
use system_programming_hw.Base.{
  ℕ, zero, suc, ◌+◌, ◌*◌, Bool, true, false, Option, none, some, List, [], ◌∷◌, ◌++◌, Bytes, length,
  get_elem?, ltb, leb, ◌==◌, if◌then◌else◌, u32,
}
use system_programming_hw.Chat.{ChatErrcode, sys, not_implemented, ChatMessage}

-- `struct chat_peer`; `input_count` is the length of the input, and nothing uses the output.
pub record ChatPeer : Type 0 where
  pub socket : ℕ
  pub input : Bytes
  pub input_size : ℕ

-- The array of messages: `total_messages_count` is the length of the list.
pub record Store : Type 0 where
  pub messages : List ChatMessage
  pub total_messages : ℕ
  pub allocated : ℕ

-- `struct chat_server`; `peer_count` is the length of the list of peers.
pub record ChatServer : Type 0 where
  pub socket : Option ℕ
  pub peers : List ChatPeer
  pub peer_size : ℕ
  pub store : Store
  pub current_message_index : ℕ
  pub is_started : Bool

unfoldable pub chat_server_new : ChatServer
chat_server_new = record {
  socket = none;
  peers = [];
  peer_size = 10;
  store = record { messages = []; total_messages = 0; allocated = 10 };
  current_message_index = 0;
  is_started = false;
}

-- An access outside of its allocation, with the index.
pub data Overrun : Type 0 where
  peer_written pollfd_written pollfd_read input_written : ℕ → Overrun

-- The first peer of a server that listens is its own socket.
listening : ChatServer → ℕ → ChatServer
listening server fd = record server {
  socket = some fd;
  peers = server.peers ++ record { socket = fd; input = []; input_size = 1 } ∷ [];
  is_started = true;
}

-- There is no test that the array of peers has room for it.
without_test : ChatServer → List Overrun
without_test server =
    if ltb (length server.peers) server.peer_size
    then []
    else peer_written (length server.peers) ∷ []

bound : ChatServer → ℕ → Bool → Bool → Option ChatErrcode × ChatServer × List Overrun
unfolding listening without_test
bound server fd true true = (none, listening server fd, without_test server)
bound server fd _ _ = (some sys, record server { socket = some fd }, [])

-- `chat_server_listen`, by the socket, and by whether it could be bound and be listened to.
unfoldable pub chat_server_listen :
    ChatServer → Option ℕ → Bool → Bool → Option ChatErrcode × ChatServer × List Overrun
unfolding bound
chat_server_listen server none binds listens = (some sys, record server { socket = none }, [])
chat_server_listen server (some fd) binds listens = bound server fd binds listens

unfoldable pub chat_server_pop_next : ChatServer → Option ChatMessage × ChatServer
chat_server_pop_next server =
    if leb (length server.store.messages) server.current_message_index then (none, server) else (
      get_elem? server.store.messages server.current_message_index,
      record server { current_message_index = server.current_message_index + 1 },
    )

-- `chat_server_get_descriptor` and `chat_server_get_socket`
abbrev pub chat_server_get_socket : ChatServer → Option ℕ
chat_server_get_socket server = server.socket

abbrev pub chat_server_get_events : ChatServer → ℕ
chat_server_get_events server = length server.peers

abbrev pub chat_server_feed : ChatServer → Bytes → Option ChatErrcode
chat_server_feed server msg = some not_implemented
