-- ===== src/Chat/Client/Lines.antt =====
-- hw5/chat_client.c: `_process_buffer`, which collects lines, and `chat_client_update`.
use system_programming_hw.Base.{
  ℕ, ◌-◌, Bool, true, false, Option, none, some, [], ◌∷◌, ◌++◌, Bytes, length, length-append,
  length-take, take, take_all, take-append_le, sym, ap, ◌∙◌, dec_lt, ltb, ◌==◌, ◌≡◌, refl, arith,
  if◌then◌else◌,
}
use system_programming_hw.Chat.{ChatErrcode, sys, not_started}
use system_programming_hw.Chat.Client.{ChatClient}

-- `BUFFER_SIZE`
abbrev pub buffer_size : ℕ
buffer_size = 4096

kept : Bytes → ℕ → Bytes
kept line c = if ltb (length line) (buffer_size - 1) then line ++ c ∷ [] else line

-- One round of the loop, on what the static buffer holds. The text of a complete line is trimmed in
-- place and then forgotten: nothing puts it into the queue of messages.
process_byte : Bytes → ℕ → Bytes
unfolding kept
process_byte line c = if c == 10 then [] else kept line c

unfoldable pub process_buffer : Bytes → Bytes → Bytes
unfolding process_byte
process_buffer line [] = line
process_buffer line (c ∷ bytes) = process_buffer (process_byte line c) bytes

-- The answers to one update: `poll` fails, or it times out, or it says whether the socket can be read
-- and be written; `read` fails, or it gives bytes.
pub data Poll : Type 0 where
  failed timed_out : Poll
  ready : Bool → Bool → Poll

pub data Code : Type 0 where
  done poll_error : Code
  fails : ChatErrcode → Code

received : Bytes → Option Bytes → Bytes
unfolding process_buffer
received line none = line
received line (some bytes) = process_buffer line bytes

-- The code, the static buffer, and whether bytes of the unset `write_buffer` were written.
polled : Bytes → Option Bytes → Poll → Code × Bytes × Bool
unfolding received
polled line bytes failed = (poll_error, line, false)
polled line bytes timed_out = (done, line, false)
polled line bytes (ready input output) = (done, if input then received line bytes else line, output)

connected_update : Option ℕ → Bytes → Option Bytes → Poll → Code × Bytes × Bool
unfolding polled
connected_update none line bytes poll = (fails sys, line, false)
connected_update (some fd) line bytes poll = polled line bytes poll

unfoldable pub chat_client_update : ChatClient → Bytes → Option Bytes → Poll → Code × Bytes × Bool
unfolding connected_update
chat_client_update client line bytes poll =
    if client.is_started
    then connected_update client.socket line bytes poll
    else (fails not_started, line, false)

-- What stands behind the last new line, in front of which other bytes stand.
abbrev pub last_line : Bytes → Bytes → Bytes
last_line line [] = line
last_line line (c ∷ bytes) = last_line (if c == 10 then [] else line ++ c ∷ []) bytes

take_more :
    (k : ℕ) (line : Bytes) (c : ℕ)
    → (if ltb (length (take k line)) k then take k line ++ c ∷ [] else take k line)
      ≡ take k (line ++ c ∷ [])
take_more k line c = elim (dec_lt (length line) k) [
  | yes lt ↦
      (let same : take k line ≡ line = take_all k line (omega arith) in
        let room : ltb (length line) k ≡ true = ground (arith, lt) in
        let all : take k (line ++ c ∷ []) ≡ line ++ c ∷ [] =
          take_all k (line ++ c ∷ []) (omega (arith, length-append line (c ∷ []))) in
        rw (same, room, all) refl)
  | no ge ↦
      (let size : length (take k line) ≡ k = omega (arith, length-take k line) in
        let none_left : ltb k k ≡ false = ground arith in
        rw (size, none_left) (sym (take-append_le k line (c ∷ []) (omega arith))))
]

kept_lem : (line : Bytes) (c : ℕ) → kept (take 4095 line) c ≡ take 4095 (line ++ c ∷ [])
unfolding kept
kept_lem line c = take_more 4095 line c

-- The static buffer holds the first bytes of the line that is not complete, as many as there is
-- room for, in whatever pieces the bytes came.
pub process_buffer-last_line :
    (line bytes : Bytes) → process_buffer (take 4095 line) bytes ≡ take 4095 (last_line line bytes)
unfolding process_buffer process_byte
process_buffer-last_line line [] = refl
process_buffer-last_line line (c ∷ bytes) =
    ap (λ (l : Bytes). process_buffer l bytes) (step (c == 10))
    ∙ process_buffer-last_line (if c == 10 then [] else line ++ c ∷ []) bytes
  where
    step :
        (t : Bool)
        → (if t then [] else kept (take 4095 line) c) ≡ take 4095 (if t then [] else line ++ c ∷ [])
    step true = refl
    step false = kept_lem line c
