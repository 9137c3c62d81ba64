-- ===== src/Parser/Buffer/Feed.antt =====
-- hw2/parser.c, `parser_feed`: its room, also near 2^31 bytes.
use system_programming_hw.Base.{
  ℕ, ◌+◌, ◌*◌, ◌≤◌, ◌<◌, ◌≡◌, refl, arith, ◌++◌, Bytes, length, length-append, u32_mod, ok, crash,
}
use system_programming_hw.Parser.Buffer.{Parser, feed_capacity, parser_feed}

-- The bytes fit into the allocation.
abbrev pub IsRoomy : Parser → Type 0
IsRoomy p = length p.buffer ≤ p.capacity

pub parser_feed-eq-ok :
    (p : Parser) (xs : Bytes) {q : Parser} → parser_feed p xs ≡ ok q → q.buffer ≡ p.buffer ++ xs
unfolding parser_feed
parser_feed-eq-ok p xs h = ground arith

feed_capacity-le :
    (size capacity len : ℕ)
    → size ≤ capacity
    → (capacity + 1) * 2 < u32_mod
    → size + len < u32_mod
    → (size + len ≤ feed_capacity size capacity len) × (capacity ≤ feed_capacity size capacity len)
unfolding feed_capacity
feed_capacity-le size capacity len h k l = ground arith

-- As long as doubling the capacity does not overflow, feeding appends the bytes and keeps them
-- inside the allocation, which never shrinks.
pub parser_feed_lem :
    (p : Parser) (xs : Bytes)
    → IsRoomy p
    → (p.capacity + 1) * 2 < u32_mod
    → length p.buffer + length xs < u32_mod
    → (q : Parser) × (parser_feed p xs ≡ ok q)
      × (q.buffer ≡ p.buffer ++ xs)
      × IsRoomy q
      × (p.capacity ≤ q.capacity)
unfolding parser_feed
parser_feed_lem p xs h k l =
    let room = feed_capacity-le (length p.buffer) p.capacity (length xs) h k l in
    (
      record {
        buffer = p.buffer ++ xs;
        capacity = feed_capacity (length p.buffer) p.capacity (length xs);
      },
      ground (arith, room),
      refl,
      omega (arith, room, length-append p.buffer xs),
      room.1,
    )

-- Where doubling the capacity overflows to less than what is stored, the unsigned test for room
-- passes, and the bytes are copied past the end of the allocation.
pub parser_feed_overflow :
    (p : Parser) (xs : Bytes)
    → IsRoomy p
    → p.capacity < u32_mod
    → p.capacity < length p.buffer + length xs
    → length p.buffer + length xs < u32_mod
    → (p.capacity + 1) * 2 < u32_mod + length p.buffer
    → u32_mod ≤ (p.capacity + 1) * 2
    → parser_feed p xs ≡ crash
unfolding parser_feed feed_capacity
parser_feed_overflow p xs h a b c d e = ground arith
