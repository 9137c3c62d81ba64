-- ===== src/Chat.antt =====
-- hw5/chat.h and hw5/chat.c: what the server and the client of the chat share.
pub mod Framing
pub mod Server
pub mod Client
mod Tests
use system_programming_hw.Base.{ℕ, ◌+◌, Bool, true, false, not, ◌==◌, Option, Bytes, if◌then◌else◌}
use Prim.Native.Nat.{◌/◌, ◌%◌}

-- `enum chat_errcode`; a call returns `none` for 0.
pub data ChatErrcode : Type 0 where
  invalid_argument timeout port_busy no_addr already_started : ChatErrcode
  not_implemented not_started sys : ChatErrcode

-- `struct chat_message`; the peer is a place in the array of peers, and the length that of the bytes.
pub record ChatMessage : Type 0 where
  pub content : Bytes
  pub peer : Option ℕ

-- The bits of `enum chat_events` in a mask.
abbrev has_input : ℕ → Bool
has_input mask = not (mask % 2 == 0)

abbrev has_output : ℕ → Bool
has_output mask = not (mask / 2 % 2 == 0)

-- `chat_events_to_poll_events`, with the kernel's POLLIN and POLLOUT, of different bits.
unfoldable pub chat_events_to_poll_events : ℕ → ℕ → ℕ → ℕ
chat_events_to_poll_events pollin pollout mask =
    (if has_input mask then pollin else 0) + (if has_output mask then pollout else 0)
