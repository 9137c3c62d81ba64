-- ===== src/Chat/Client/Feeds.antt =====
-- hw5/chat_client.c: the array of messages of a client under feeds and pops.
use system_programming_hw.Base.{
  ℕ, ◌+◌, Bool, true, false, Option, none, some, List, [], ◌∷◌, Bytes, length, length-replicate,
  leb, ◌≡◌, refl, arith, if◌then◌else◌,
}
use system_programming_hw.Chat.{ChatMessage}
use system_programming_hw.Chat.Client.{
  ChatClient, chat_client_new, chat_client_pop_next, pop_at, Fed, refuses, written, overrun,
  put_message, chat_client_feed,
}

-- The calls that use the array.
pub data Call : Type 0 where
  feeds : Option Bytes → Call
  pops : Call

abbrev pub left_by : ChatClient → Fed → ChatClient
left_by client refuses = client
left_by client (written client') = client'
left_by client (overrun i client') = client'

unfoldable pub call : Call → ChatClient → ChatClient
call (feeds msg) client = left_by client (chat_client_feed client msg)
call pops client = (chat_client_pop_next client).1

unfoldable pub calls : List Call → ChatClient → ChatClient
unfolding call
calls [] client = client
calls (c ∷ cs) client = calls cs (call c client)

-- The count stands at the number of places from the start.
record IsFull (client : ChatClient) : Type 0 where
  places : length client.messages ≡ 10
  counted : client.total_messages_count ≡ 10

feed-full :
    (client : ChatClient) (b : ℕ) (msg : Bytes)
    → IsFull client
    → chat_client_feed client (some (b ∷ msg)) ≡ (
        if leb 10 client.current_message_index
        then refuses
        else overrun 10
            (record client { current_message_index = client.current_message_index + 1 }))
unfolding chat_client_feed put_message
feed-full client b msg full = ground (arith, full.places, full.counted)

feed-IsFull :
    (client : ChatClient) (msg : Option Bytes)
    → IsFull client
    → IsFull (left_by client (chat_client_feed client msg))
unfolding chat_client_feed
feed-IsFull client none full = full
feed-IsFull client (some []) full = full
feed-IsFull client (some (b ∷ msg)) full =
    rw (feed-full client b msg full) (by_test (leb 10 client.current_message_index))
  where
    by_test :
        (t : Bool)
        → IsFull (
            left_by client (
              if t
              then refuses
              else overrun 10
                  (record client { current_message_index = client.current_message_index + 1 })))
    by_test true = full
    by_test false = record { places = full.places; counted = full.counted }

pop-IsFull : (client : ChatClient) → IsFull client → IsFull (chat_client_pop_next client).1
unfolding chat_client_pop_next pop_at
pop-IsFull client full = by_test (leb client.total_messages_count client.current_message_index)
  where
    by_test :
        (t : Bool)
        → IsFull
            (if◌then◌else◌ {A = Option (Option ChatMessage) × ChatClient} t
              (none, client)
              (pop_at client)).1
    by_test true = full
    by_test false = record { places = full.places; counted = full.counted }

calls-IsFull : (cs : List Call) (client : ChatClient) → IsFull client → IsFull (calls cs client)
unfolding calls call
calls-IsFull [] client full = full
calls-IsFull (feeds msg ∷ cs) client full =
    calls-IsFull cs (left_by client (chat_client_feed client msg)) (feed-IsFull client msg full)
calls-IsFull (pops ∷ cs) client full =
    calls-IsFull cs (chat_client_pop_next client).1 (pop-IsFull client full)

-- Whatever was fed to a new client and popped from it before, a feed of a message that is not empty is
-- refused, when ten calls have gone through, or it writes the message behind the ten places there are.
pub chat_client_feed_overrun :
    (name : Bytes) (cs : List Call) (b : ℕ) (msg : Bytes)
    → chat_client_feed (calls cs (chat_client_new name)) (some (b ∷ msg)) ≡ (
        if leb 10 (calls cs (chat_client_new name)).current_message_index
        then refuses
        else overrun 10 (record (calls cs (chat_client_new name)) {
          current_message_index = (calls cs (chat_client_new name)).current_message_index + 1;
        }))
unfolding chat_client_new
chat_client_feed_overrun name cs b msg = feed-full (calls cs (chat_client_new name)) b msg (
    calls-IsFull cs (chat_client_new name)
      (record { places = length-replicate 10 none; counted = refl }))
