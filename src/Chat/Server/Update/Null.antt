-- ===== src/Chat/Server/Update/Null.antt =====
-- hw5/chat_server.c: the array of messages, which has no room from the start.
use mathlib.Core.Path.{subst}
use system_programming_hw.Base.{
  ℕ, zero, suc, ◌+◌, ◌<◌, Bool, true, false, Option, none, some, List, [], ◌∷◌, ◌++◌, ◌≡◌, refl,
  sym, ap, ◌∙◌, arith, Bytes, length, get_elem?, leb, if◌then◌else◌,
}
use system_programming_hw.Chat.{ChatErrcode, not_started, ChatMessage}
use system_programming_hw.Chat.Framing.{parsed, parse_all}
use system_programming_hw.Chat.Server.{
  ChatPeer, Store, ChatServer, chat_server_new, chat_server_listen, bound, listening, Overrun,
  pollfd_written, chat_server_pop_next,
}
use system_programming_hw.Chat.Server.Update.{
  new_peer, Poll, failed, timed_out, ready, Answers, Part, part, null_written, unfinished, ◌>>=◌,
  serve_peers, accepted, handle, polled_as, polled_with, chat_server_update,
}
use system_programming_hw.Chat.Server.Update.Leaves.{
  IsEmpty, Leaves, serve_peers-Leaves, serve_peers-null, behind-null, zero_plus,
}

-- The calls and what they make of a server.
pub data Reachable : ChatServer → Type 0 where
  created : Reachable chat_server_new
  listens :
      {server : ChatServer} (fd : Option ℕ) (binds hears : Bool)
      → Reachable server
      → Reachable (chat_server_listen server fd binds hears).1
  pops : {server : ChatServer} → Reachable server → Reachable (chat_server_pop_next server).1
  updates :
      {server server' : ChatServer} (answers : Answers) (code : Option ChatErrcode)
      (overruns : List Overrun)
      → Reachable server
      → chat_server_update server answers ≡ part (code, server') overruns
      → Reachable server'

-- What an update leaves.
Keeps : Part (Option ChatErrcode × ChatServer) → Type 0
Keeps (part (code, server) overruns) = IsEmpty server.store
Keeps null_written = Unit
Keeps unfinished = ⊥

behind-Keeps :
    (n : ℕ) (overruns : List Overrun) (next : ℕ → Part (Option ChatErrcode × ChatServer))
    → Keeps (next n)
    → Keeps (part n overruns >>= next)
unfolding Keeps
behind-Keeps n overruns next h = by_end (next n) h
  where
    by_end :
        (r : Part (Option ChatErrcode × ChatServer))
        → Keeps r
        → Keeps (part n overruns >>= λ (k : ℕ). r)
    by_end (part b more) e = e
    by_end null_written e = tt
    by_end unfinished e = e

served-Keeps :
    (server : ChatServer) (p : Part (Store × List ChatPeer))
    → Leaves p
    → Keeps (
        p >>= λ (r : Store × List ChatPeer).
        part (none, record server { store = r.0; peers = r.1 }) [])
unfolding Leaves Keeps
served-Keeps server (part (store, peers) overruns) e = e
served-Keeps server null_written e = tt
served-Keeps server unfinished e = e

accepted-store :
    (server : ChatServer) (t : Bool) (fd : Option ℕ)
    → (if t then accepted server fd else server).store ≡ server.store
unfolding accepted
accepted-store server true none = refl
accepted-store server true (some fd) = refl
accepted-store server false fd = refl

handle-Keeps :
    (server : ChatServer) (revents : ℕ → Bool) (answers : Answers)
    → IsEmpty server.store
    → Keeps (handle server revents answers)
unfolding handle
handle-Keeps server revents answers empty =
    let server' : ChatServer = if revents 0 then accepted server answers.accept else server in
    served-Keeps server'
      (serve_peers (length server.peers) revents answers 0 server'.store server'.peers)
      (serve_peers-Leaves (length server.peers) revents answers 0 server'.store server'.peers
        (subst IsEmpty (sym (accepted-store server (revents 0) answers.accept)) empty))

polled_as-Keeps :
    (server : ChatServer) (answers : Answers) (poll : Poll)
    → IsEmpty server.store
    → Keeps (polled_as server answers poll)
unfolding polled_as Keeps
polled_as-Keeps server answers failed empty = handle-Keeps server (λ i. false) answers empty
polled_as-Keeps server answers timed_out empty = empty
polled_as-Keeps server answers (ready revents) empty = handle-Keeps server revents answers empty

chat_server_update-Keeps :
    (server : ChatServer) (answers : Answers)
    → IsEmpty server.store
    → Keeps (chat_server_update server answers)
unfolding chat_server_update polled_with Keeps
chat_server_update-Keeps server answers empty = by_start server.is_started
  where
    by_start :
        (t : Bool)
        → Keeps (if t then polled_with server answers else part (some not_started, server) [])
    by_start true =
        behind-Keeps (length server.peers) (pollfd_written (length server.peers) ∷ [])
          (λ (n : ℕ). polled_as server answers answers.poll)
          (polled_as-Keeps server answers answers.poll empty)
    by_start false = empty

chat_server_listen-store :
    (server : ChatServer) (fd : Option ℕ) (binds hears : Bool)
    → (chat_server_listen server fd binds hears).1.store ≡ server.store
unfolding chat_server_listen bound listening
chat_server_listen-store server none binds hears = refl
chat_server_listen-store server (some fd) true true = refl
chat_server_listen-store server (some fd) true false = refl
chat_server_listen-store server (some fd) false hears = refl

chat_server_pop_next-store :
    (server : ChatServer) → (chat_server_pop_next server).1.store ≡ server.store
unfolding chat_server_pop_next
chat_server_pop_next-store server =
    by_test (leb (length server.store.messages) server.current_message_index)
  where
    next : Option ChatMessage × ChatServer
    next = (
      get_elem? server.store.messages server.current_message_index,
      record server { current_message_index = server.current_message_index + 1 },
    )

    by_test :
        (t : Bool)
        → (if◌then◌else◌ {A = Option ChatMessage × ChatServer} t (none, server) next).1.store
          ≡ server.store
    by_test true = refl
    by_test false = refl

Reachable-IsEmpty : {server : ChatServer} → Reachable server → IsEmpty server.store
unfolding chat_server_new Keeps
Reachable-IsEmpty created = record { no_messages = refl; no_room = refl }
Reachable-IsEmpty (listens {server = s} fd binds hears r) =
    subst IsEmpty (sym (chat_server_listen-store s fd binds hears)) (Reachable-IsEmpty r)
Reachable-IsEmpty (pops {server = s} r) =
    subst IsEmpty (sym (chat_server_pop_next-store s)) (Reachable-IsEmpty r)
Reachable-IsEmpty (updates {server = s} answers code overruns r e) =
    subst Keeps e (chat_server_update-Keeps s answers (Reachable-IsEmpty r))

get_elem?-append :
    (xs : List ChatPeer) (y : ChatPeer) (k : ℕ) {x : ChatPeer}
    → get_elem? xs k ≡ some x
    → (get_elem? (xs ++ y ∷ []) k ≡ some x) × (k < length xs)
get_elem?-append [] y k e = absurd (cc e)
get_elem?-append (z ∷ xs) y zero e = (e, omega arith)
get_elem?-append (z ∷ xs) y (suc k) e =
    let (same, lt) = get_elem?-append xs y k e in (same, omega (arith, lt))

accepted-peer :
    (server : ChatServer) (t : Bool) (fd : Option ℕ) (k : ℕ) {peer : ChatPeer}
    → get_elem? server.peers k ≡ some peer
    → get_elem? (if t then accepted server fd else server).peers k ≡ some peer
unfolding accepted new_peer
accepted-peer server true none k e = e
accepted-peer server true (some fd) k e = (get_elem?-append server.peers _ k e).0
accepted-peer server false fd k e = e

handle-null :
    (server : ChatServer) (revents : ℕ → Bool) (answers : Answers) (k : ℕ) (peer : ChatPeer)
    (bytes m rest : Bytes) (ms : List Bytes)
    → IsEmpty server.store
    → get_elem? server.peers k ≡ some peer
    → revents k ≡ true
    → answers.read k ≡ some bytes
    → parse_all (peer.input ++ bytes) ≡ parsed (m ∷ ms) rest
    → handle server revents answers ≡ null_written
unfolding handle
handle-null server revents answers k peer bytes m rest ms empty at is_ready reads whole =
    let server' : ChatServer = if revents 0 then accepted server answers.accept else server in
    let empty' = subst IsEmpty (sym (accepted-store server (revents 0) answers.accept)) empty in
    let null : serve_peers (length server.peers) revents answers 0 server'.store server'.peers
        ≡ null_written =
      serve_peers-null (length server.peers) revents answers 0 k server'.store server'.peers peer
        bytes m rest ms empty' (accepted-peer server (revents 0) answers.accept k at)
        (omega (arith, (get_elem?-append server.peers peer k at).1))
        (ap revents (zero_plus k) ∙ is_ready) (ap answers.read (zero_plus k) ∙ reads) whole in
    rw null refl

-- Whatever was called before: where a peer that is ready has sent a complete message, the update writes
-- it through a null pointer, whatever the other peers sent.
pub chat_server_update-null :
    {server : ChatServer} (revents : ℕ → Bool) (answers : Answers) (k : ℕ) (peer : ChatPeer)
    (bytes m rest : Bytes) (ms : List Bytes)
    → Reachable server
    → server.is_started ≡ true
    → answers.poll ≡ ready revents
    → get_elem? server.peers k ≡ some peer
    → revents k ≡ true
    → answers.read k ≡ some bytes
    → parse_all (peer.input ++ bytes) ≡ parsed (m ∷ ms) rest
    → chat_server_update server answers ≡ null_written
unfolding chat_server_update polled_with polled_as
chat_server_update-null {server = server} revents answers k peer bytes m rest ms r started polls at
      is_ready reads whole =
    ap (λ (t : Bool). if t then polled_with server answers else part (some not_started, server) [])
      started
    ∙ behind-null (length server.peers) (pollfd_written (length server.peers) ∷ [])
        (λ (n : ℕ). polled_as server answers answers.poll)
        (ap (polled_as server answers) polls
          ∙ handle-null server revents answers k peer bytes m rest ms (Reachable-IsEmpty r) at
              is_ready reads whole)
