-- ===== src/Parser/Buffer.antt =====
-- hw2/parser.c, `struct parser`: the bytes that are fed and not yet consumed, and the capacity of
-- the allocation. The size is the length of the list; all arithmetic is that of `uint32_t`.
pub mod Feed
use system_programming_hw.Base.{
  ℕ, ◌+◌, ◌-◌, ◌*◌, [], ◌++◌, Bytes, length, drop, ltb, leb, ◌==◌, if◌then◌else◌, u32, u32_mod,
  Checked, ok, crash,
}

pub record Parser : Type 0 where
  pub buffer : Bytes
  pub capacity : ℕ

unfoldable pub parser_new : Parser
parser_new = record { buffer = []; capacity = 0 }

-- `a - b` on `uint32_t`
abbrev pub sub32 : ℕ → ℕ → ℕ
sub32 a b = u32 (a + u32_mod - b)

-- The capacity after room is made for `len` bytes more.
unfoldable pub feed_capacity : ℕ → ℕ → ℕ → ℕ
feed_capacity size capacity len =
    if ltb (sub32 capacity size) len
    then (if ltb (sub32 (u32 ((capacity + 1) * 2)) size) len
        then u32 (size + len)
        else u32 ((capacity + 1) * 2))
    else capacity

-- A copy past the capacity, and then the failed assertion, is an abort.
unfoldable pub parser_feed : Parser → Bytes → Checked Parser
unfolding feed_capacity
parser_feed p bytes =
    let capacity = feed_capacity (length p.buffer) p.capacity (length bytes) in
    if leb (length p.buffer + length bytes) capacity
    then ok (record { buffer = p.buffer ++ bytes; capacity = capacity })
    else crash

unfoldable pub parser_consume : Parser → ℕ → Checked Parser
parser_consume p size =
    if leb size (length p.buffer)
    then (if size == length p.buffer
        then ok (record p { buffer = [] })
        else ok (record p { buffer = drop size p.buffer }))
    else crash
