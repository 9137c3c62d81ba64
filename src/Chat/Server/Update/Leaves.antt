-- ===== src/Chat/Server/Update/Leaves.antt =====
-- hw5/chat_server.c: the parts of an update on a server without messages.
use system_programming_hw.Base.{
  ℕ, zero, suc, ◌+◌, ◌<◌, Bool, true, false, Option, none, some, List, [], ◌∷◌, ◌++◌, ◌≡◌, ◌≢◌,
  refl, sym, ap, ◌∙◌, arith, Bytes, get_elem?, ltb, if◌then◌else◌,
}
use system_programming_hw.Chat.{ChatMessage}
use system_programming_hw.Chat.Framing.{
  Parsed, parsed, out_of_fuel, parse_all, parse_all_terminates,
}
use system_programming_hw.Chat.Server.{ChatPeer, Store, Overrun, pollfd_read}
use system_programming_hw.Chat.Server.Update.{
  grown, Answers, Part, part, null_written, unfinished, ◌>>=◌, put_message, add_message,
  add_messages, copied, stored, receive, poll_of, serve_peer, serve_peers,
}

-- No message, and no room for one.
pub record IsEmpty (store : Store) : Type 0 where
  pub no_messages : store.messages ≡ []
  pub no_room : store.total_messages ≡ 0

add_message-null :
    (store : Store) (m : ChatMessage) → IsEmpty store → add_message store m ≡ null_written
unfolding add_message put_message
add_message-null store m empty = rw (empty.no_messages, empty.no_room) refl

-- A part of the call ends, and leaves no message and no room.
unfoldable pub Leaves {ℓ} : {A : Type ℓ} → Part (Store × A) → Type 0
Leaves (part (store, a) overruns) = IsEmpty store
Leaves null_written = Unit
Leaves unfinished = ⊥

stored-Leaves :
    (i : ℕ) (store : Store) (peer : ChatPeer) (p : Parsed)
    → IsEmpty store
    → p ≢ out_of_fuel
    → Leaves (stored i store peer p)
unfolding Leaves stored add_messages
stored-Leaves i store peer out_of_fuel empty ends = ends refl
stored-Leaves i store peer (parsed [] rest) empty ends = empty
stored-Leaves i store peer (parsed (m ∷ ms) rest) empty ends =
    rw (add_message-null store (record { content = m; peer = some i }) empty) tt

behind-Leaves {ℓ κ} :
    {A : Type ℓ} {B : Type κ} (a : A) (overruns : List Overrun) (next : A → Part (Store × B))
    → Leaves (next a)
    → Leaves (part a overruns >>= next)
unfolding Leaves
behind-Leaves {B = B} a overruns next h = by_end (next a) h
  where
    by_end : (r : Part (Store × B)) → Leaves r → Leaves (part a overruns >>= λ b. r)
    by_end (part b more) e = e
    by_end null_written e = tt
    by_end unfinished e = e

join-Leaves {ℓ κ} :
    {A : Type ℓ} {B : Type κ} (p : Part (Store × A)) (next : Store × A → Part (Store × B))
    → Leaves p
    → ((store : Store) (a : A) → IsEmpty store → Leaves (next (store, a)))
    → Leaves (p >>= next)
unfolding Leaves
join-Leaves (part (store, a) overruns) next e h =
    behind-Leaves (store, a) overruns next (h store a e)
join-Leaves null_written next e h = tt
join-Leaves unfinished next e h = e

receive-Leaves :
    (i : ℕ) (store : Store) (peer : ChatPeer) (bytes : Option Bytes)
    → IsEmpty store
    → Leaves (receive i store peer bytes)
unfolding Leaves receive copied grown
receive-Leaves i store peer none empty = empty
receive-Leaves i store peer (some bytes) empty =
    behind-Leaves (grown peer bytes) _ (λ (q : ChatPeer). stored i store q (parse_all q.input))
      (stored-Leaves i store (grown peer bytes) (parse_all (peer.input ++ bytes)) empty
        (parse_all_terminates (peer.input ++ bytes)))

serve_peer-Leaves :
    (polled : ℕ) (revents : ℕ → Bool) (answers : Answers) (i : ℕ) (store : Store) (peer : ChatPeer)
    → IsEmpty store
    → Leaves (serve_peer polled revents answers i store peer)
unfolding Leaves serve_peer poll_of
serve_peer-Leaves polled revents answers i store peer empty = by_place (ltb i polled)
  where
    taken : Bool → Part (Store × ChatPeer)
    taken t = if t then receive i store peer (answers.read i) else part (store, peer) []

    by_ready : (t : Bool) → Leaves (taken t)
    by_ready true = receive-Leaves i store peer (answers.read i) empty
    by_ready false = empty

    by_place :
        (t : Bool)
        → Leaves (
            (if t then part (revents i) [] else part (answers.stale i) (pollfd_read i ∷ []))
            >>= taken)
    by_place true = behind-Leaves (revents i) [] taken (by_ready (revents i))
    by_place false =
        behind-Leaves (answers.stale i) (pollfd_read i ∷ []) taken (by_ready (answers.stale i))

pub serve_peers-Leaves :
    (polled : ℕ) (revents : ℕ → Bool) (answers : Answers) (i : ℕ) (store : Store)
    (peers : List ChatPeer)
    → IsEmpty store
    → Leaves (serve_peers polled revents answers i store peers)
unfolding Leaves serve_peers
serve_peers-Leaves polled revents answers i store [] empty = empty
serve_peers-Leaves polled revents answers i store (peer ∷ peers) empty =
    join-Leaves (serve_peer polled revents answers i store peer) _
      (serve_peer-Leaves polled revents answers i store peer empty)
      λ store' peer' e.
        join-Leaves (serve_peers polled revents answers (i + 1) store' peers) _
          (serve_peers-Leaves polled revents answers (i + 1) store' peers e) λ store'' peers' e'. e'

pub behind-null {ℓ κ} :
    {A : Type ℓ} {B : Type κ} (a : A) (overruns : List Overrun) (next : A → Part B)
    → next a ≡ null_written
    → part a overruns >>= next ≡ null_written
behind-null {A = A} {B = B} a overruns next e =
    ap (λ (r : Part B). part a overruns >>= λ (b : A). r) e

stored-null :
    (i : ℕ) (store : Store) (peer : ChatPeer) (m rest : Bytes) (ms : List Bytes)
    → IsEmpty store
    → stored i store peer (parsed (m ∷ ms) rest) ≡ null_written
unfolding stored add_messages
stored-null i store peer m rest ms empty =
    rw (add_message-null store (record { content = m; peer = some i }) empty) refl

-- A peer that was polled and is ready, and whose input is then a complete message.
receive-null :
    (i : ℕ) (store : Store) (peer : ChatPeer) (bytes m rest : Bytes) (ms : List Bytes)
    → IsEmpty store
    → parse_all (peer.input ++ bytes) ≡ parsed (m ∷ ms) rest
    → receive i store peer (some bytes) ≡ null_written
unfolding receive copied grown
receive-null i store peer bytes m rest ms empty whole =
    behind-null (grown peer bytes) _ (λ (q : ChatPeer). stored i store q (parse_all q.input))
      (ap (stored i store (grown peer bytes)) whole
        ∙ stored-null i store (grown peer bytes) m rest ms empty)

serve_peer-null :
    (polled : ℕ) (revents : ℕ → Bool) (answers : Answers) (i : ℕ) (store : Store) (peer : ChatPeer)
    (bytes m rest : Bytes) (ms : List Bytes)
    → IsEmpty store
    → i < polled
    → revents i ≡ true
    → answers.read i ≡ some bytes
    → parse_all (peer.input ++ bytes) ≡ parsed (m ∷ ms) rest
    → serve_peer polled revents answers i store peer ≡ null_written
unfolding serve_peer poll_of
serve_peer-null polled revents answers i store peer bytes m rest ms empty lt is_ready reads whole =
    let inside : ltb i polled ≡ true = ground (arith, lt) in
    rw (inside, is_ready, reads, receive-null i store peer bytes m rest ms empty whole) refl

pub zero_plus : (k : ℕ) → 0 + k ≡ k
zero_plus k = omega arith

next_index : (i k : ℕ) → i + suc k ≡ i + 1 + k
next_index i k = omega arith

-- What comes behind a part that ends.
skip-null {ℓ κ} :
    {A : Type ℓ} {B : Type κ} (p : Part (Store × A)) (next : Store × A → Part B)
    → Leaves p
    → ((store : Store) (a : A) → IsEmpty store → next (store, a) ≡ null_written)
    → p >>= next ≡ null_written
unfolding Leaves
skip-null (part (store, a) overruns) next e h = behind-null (store, a) overruns next (h store a e)
skip-null null_written next e h = refl
skip-null unfinished next e h = absurd e

pub serve_peers-null :
    (polled : ℕ) (revents : ℕ → Bool) (answers : Answers) (i k : ℕ) (store : Store)
    (peers : List ChatPeer) (peer : ChatPeer) (bytes m rest : Bytes) (ms : List Bytes)
    → IsEmpty store
    → get_elem? peers k ≡ some peer
    → i + k < polled
    → revents (i + k) ≡ true
    → answers.read (i + k) ≡ some bytes
    → parse_all (peer.input ++ bytes) ≡ parsed (m ∷ ms) rest
    → serve_peers polled revents answers i store peers ≡ null_written
unfolding serve_peers
serve_peers-null polled revents answers i k store [] peer bytes m rest ms empty at lt is_ready reads
      whole =
    absurd (cc at)
serve_peers-null polled revents answers i zero store (q ∷ peers) peer bytes m rest ms empty at lt
      is_ready reads whole =
    let same : q ≡ peer = cc at in
    let here : i + 0 ≡ i = omega arith in
    let null : serve_peer polled revents answers i store q ≡ null_written =
      serve_peer-null polled revents answers i store q bytes m rest ms empty (omega (arith, lt))
        (ap revents (sym here) ∙ is_ready) (ap answers.read (sym here) ∙ reads)
        (ap (λ (p : ChatPeer). parse_all (p.input ++ bytes)) same ∙ whole) in
    rw null refl
serve_peers-null polled revents answers i (suc k) store (q ∷ peers) peer bytes m rest ms empty at lt
      is_ready reads whole =
    skip-null (serve_peer polled revents answers i store q) _
      (serve_peer-Leaves polled revents answers i store q empty)
      λ store' peer' e.
        rw
          (serve_peers-null polled revents answers (i + 1) k store' peers peer bytes m rest ms e at
            (omega (arith, lt)) (ap revents (sym (next_index i k)) ∙ is_ready)
            (ap answers.read (sym (next_index i k)) ∙ reads) whole)
          refl
