-- ===== src/Chat/Tests.antt =====
-- hw5/chat_server.c and hw5/chat_client.c: the theorems at concrete inputs.
use system_programming_hw.Base.{
  ◌==◌, true, false, none, some, [], ◌∷◌, ◌++◌, Bytes, ◌≡◌, refl, arith, take, replicate,
}
use system_programming_hw.Chat.Framing.{
  parsed, parse, parse_all, next_message, header, frames, parse_all-cut,
}
use system_programming_hw.Chat.Server.{
  ChatServer, pollfd_written, pollfd_read, chat_server_new, chat_server_listen,
}
use system_programming_hw.Chat.Server.Update.{
  ready, Answers, null_written, chat_server_update, handle, serve_peers, serve_peer,
}
use system_programming_hw.Chat.Server.Update.Null.{
  Reachable, created, listens, updates, chat_server_update-null,
}
use system_programming_hw.Chat.Client.{
  chat_client_new, chat_client_feed, chat_client_pop_next, overrun,
}
use system_programming_hw.Chat.Client.Lines.{process_buffer, process_buffer-last_line}
use system_programming_hw.Chat.Client.Feeds.{feeds, pops, calls, chat_client_feed_overrun}

abbrev hi : Bytes
hi = b'h' ∷ b'i' ∷ []

parse_all-cut_example : parse_all (frames (hi ∷ []) ++ (header 5 ++ hi)) ≡ parsed (hi ∷ []) hi
parse_all-cut_example = parse_all-cut (hi ∷ []) 5 hi (omega arith, tt) (omega arith) (omega arith)

abbrev listening : ChatServer
listening = (chat_server_listen chat_server_new (some 3) true true).1

-- A client joins, with socket 4; its memory behind the descriptors is zero.
abbrev joins : Answers
joins = record { poll = ready (λ i. i == 0); accept = some 4; read = λ i. none; stale = λ i. false }

abbrev joined : ChatServer
joined = record {
  socket = some 3;
  peers =
      record { socket = 3; input = []; input_size = 1 }
      ∷ record { socket = 4; input = []; input_size = 0 }
      ∷ [];
  peer_size = 10;
  store = record { messages = []; total_messages = 0; allocated = 10 };
  current_message_index = 0;
  is_started = true;
}

joined-Reachable : Reachable joined
unfolding chat_server_new chat_server_listen chat_server_update handle serve_peers serve_peer
joined-Reachable =
    updates joins none (pollfd_written 1 ∷ pollfd_read 1 ∷ []) (listens (some 3) true true created)
      refl

abbrev sends : Answers
sends = record {
  poll = ready (λ i. i == 1);
  accept = none;
  read = λ i. some (header 2 ++ hi);
  stale = λ i. false;
}

chat_server_update-null_example : chat_server_update joined sends ≡ null_written
unfolding parse next_message
chat_server_update-null_example =
    chat_server_update-null (λ i. i == 1) sends 1
      (record { socket = 4; input = []; input_size = 0 }) (header 2 ++ hi) hi [] [] joined-Reachable
      refl refl refl refl refl refl

process_buffer-last_line_example :
    process_buffer (take 4095 hi) (b'!' ∷ 10 ∷ b'h' ∷ []) ≡ take 4095 (b'h' ∷ [])
process_buffer-last_line_example = process_buffer-last_line hi (b'!' ∷ 10 ∷ b'h' ∷ [])

chat_client_feed_overrun_example :
    chat_client_feed (calls (pops ∷ feeds (some hi) ∷ []) (chat_client_new hi)) (some hi)
    ≡ overrun 10 (record (chat_client_new hi) { current_message_index = 3 })
unfolding calls chat_client_new chat_client_feed chat_client_pop_next replicate
chat_client_feed_overrun_example =
    chat_client_feed_overrun hi (pops ∷ feeds (some hi) ∷ []) b'h' (b'i' ∷ [])
