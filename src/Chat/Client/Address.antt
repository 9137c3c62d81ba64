-- ===== src/Chat/Client/Address.antt =====
-- hw5/chat_client.c: the split of an address at its colon.
use system_programming_hw.Base.{
  ℕ, false, ◌&&◌, Option, none, some, [], ◌∷◌, ◌++◌, Bytes, length, ltb, ◌==◌, ◌≡◌, ◌≢◌, refl,
  arith, if◌then◌else◌,
}

with_first : ℕ → Option (Bytes × Bytes) → Option (Bytes × Bytes)
with_first c none = none
with_first c (some (a, p)) = some (c ∷ a, p)

-- `strchr` for a colon, with what stands before and behind it.
unfoldable pub at_colon : Bytes → Option (Bytes × Bytes)
unfolding with_first
at_colon [] = none
at_colon (c ∷ cs) = if c == 58 then some ([], cs) else with_first c (at_colon cs)

-- The copies, with room for the 0 at their ends; `none` is the exit of the program.
copies : ℕ → ℕ → Option (Bytes × Bytes) → Option (Bytes × Bytes)
copies addr_size port_size none = none
copies addr_size port_size (some (addr, port)) =
    if ltb (length addr) addr_size && ltb (length port) port_size then some (addr, port) else none

unfoldable pub split_addr_port : Bytes → ℕ → ℕ → Option (Bytes × Bytes)
unfolding copies at_colon
split_addr_port addr_port addr_size port_size = copies addr_size port_size (at_colon addr_port)

abbrev pub HasNoColon : Bytes → Type 0
HasNoColon [] = Unit
HasNoColon (c ∷ cs) = (c ≢ 58) × HasNoColon cs

at_colon-append : (a p : Bytes) → HasNoColon a → at_colon (a ++ 58 ∷ p) ≡ some (a, p)
unfolding at_colon with_first
at_colon-append [] p clean = refl
at_colon-append (c ∷ a) p (ne, clean) =
    let other : (c == 58) ≡ false = ground (arith, ne) in rw (other, at_colon-append a p clean) refl

-- An address of a host, a colon and a port comes apart into these, wherever the port has colons too, if
-- both fit with a 0 behind them; where one does not fit the program exits.
pub split_addr_port_lem :
    (a p : Bytes) (addr_size port_size : ℕ)
    → HasNoColon a
    → split_addr_port (a ++ 58 ∷ p) addr_size port_size
      ≡ (if ltb (length a) addr_size && ltb (length p) port_size then some (a, p) else none)
unfolding split_addr_port copies
split_addr_port_lem a p addr_size port_size clean = rw (at_colon-append a p clean) refl
