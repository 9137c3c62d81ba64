-- ===== src/Chat/Client.antt =====
-- hw5/chat_client.c: the client. The kernel's answers to the calls of one operation are arguments.
pub mod Address
pub mod Lines
pub mod Feeds
use system_programming_hw.Base.{
  ℕ, zero, suc, ◌+◌, Bool, true, false, ◌&&◌, Option, none, some, List, [], ◌∷◌, Bytes, length,
  get_elem?, set, replicate, ltb, leb, if◌then◌else◌,
}
use system_programming_hw.Chat.{ChatErrcode, not_implemented, ChatMessage}
use system_programming_hw.Chat.Client.Address.{split_addr_port}

-- `struct chat_client`; a message that was not written is `none`, and the array's length is the number
-- of its places.
pub record ChatClient : Type 0 where
  pub socket : Option ℕ
  pub messages : List (Option ChatMessage)
  pub total_messages_count : ℕ
  pub current_message_index : ℕ
  pub cur_event : ℕ
  pub name : Bytes
  pub is_started : Bool

unfoldable pub chat_client_new : Bytes → ChatClient
chat_client_new name = record {
  socket = none;
  messages = replicate 10 none;
  total_messages_count = 10;
  current_message_index = 0;
  cur_event = 0;
  name = name;
  is_started = false;
}

-- The answer of `connect`.
pub data Connecting : Type 0 where
  connected in_progress refused : Connecting

-- What the kernel answers to the calls of `chat_client_connect`, and the calls that give back.
pub record Answers : Type 0 where
  pub resolves : Bytes → Bytes → Bool
  pub socket : Option ℕ
  pub get_flags : Bool
  pub set_flags : Bool
  pub connect : Connecting

pub data Release : Type 0 where
  address_freed : Release
  socket_closed : ℕ → Release

-- The call returns, or the program exits.
pub data Connected : Type 0 where
  returned : Option ChatErrcode → ChatClient → List Release → Connected
  exited : Connected

finish_connect : ChatClient → ℕ → Connecting → Connected
finish_connect client fd refused =
    returned (some not_implemented) client (socket_closed fd ∷ address_freed ∷ [])
finish_connect client fd _ =
    returned none (record client { socket = some fd; is_started = true }) (address_freed ∷ [])

with_socket : ChatClient → Answers → Option ℕ → Connected
unfolding finish_connect
with_socket client answers none = returned (some not_implemented) client (address_freed ∷ [])
with_socket client answers (some fd) =
    if answers.get_flags && answers.set_flags
    then finish_connect client fd answers.connect
    else returned (some not_implemented) client (socket_closed fd ∷ [])

with_address : ChatClient → Answers → Option (Bytes × Bytes) → Connected
unfolding with_socket
with_address client answers none = exited
with_address client answers (some (ip, port)) =
    if answers.resolves ip port
    then with_socket client answers answers.socket
    else returned (some not_implemented) client []

unfoldable pub chat_client_connect : ChatClient → Bytes → Answers → Connected
unfolding with_address
chat_client_connect client addr answers = with_address client answers (split_addr_port addr 16 6)

pop_at : ChatClient → Option (Option ChatMessage) × ChatClient
pop_at client = (
  get_elem? client.messages client.current_message_index,
  record client { current_message_index = client.current_message_index + 1 },
)

-- The inner `none` is a message that is all zeros.
unfoldable pub chat_client_pop_next : ChatClient → Option (Option ChatMessage) × ChatClient
unfolding pop_at
chat_client_pop_next client =
    if leb client.total_messages_count client.current_message_index
    then (none, client)
    else pop_at client

-- `chat_client_feed` returns -1, or it returns 0 and has written a message inside of the array or,
-- outside of it, at an index.
pub data Fed : Type 0 where
  refuses : Fed
  written : ChatClient → Fed
  overrun : ℕ → ChatClient → Fed

put_message : ChatClient → Bytes → Fed
put_message client msg =
    if ltb client.total_messages_count (length client.messages)
    then written (record client {
      messages =
          set client.messages client.total_messages_count
            (some (record { content = msg; peer = none }));
      current_message_index = client.current_message_index + 1;
    })
    else overrun client.total_messages_count
        (record client { current_message_index = client.current_message_index + 1 })

unfoldable pub chat_client_feed : ChatClient → Option Bytes → Fed
unfolding put_message
chat_client_feed client none = refuses
chat_client_feed client (some []) = refuses
chat_client_feed client (some (b ∷ msg)) =
    if leb client.total_messages_count client.current_message_index
    then refuses
    else put_message client (b ∷ msg)

abbrev pub chat_client_get_descriptor : ChatClient → Option ℕ
chat_client_get_descriptor client = client.socket

abbrev pub chat_client_get_events : ChatClient → ℕ
chat_client_get_events client = client.cur_event
