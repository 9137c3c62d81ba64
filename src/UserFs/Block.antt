-- ===== src/UserFs/Block.antt =====
-- hw3/userfs.c, `struct block` and the loops of `ufs_write` and `ufs_read`. The chain of blocks is a
-- list. A pointer to a block is its index, and NULL is the index behind the last block.
pub mod Splice
pub mod Write
pub mod Read
pub mod Contents
pub mod Appends
use Prim.Native.Nat.{min, max}
use system_programming_hw.Base.{
  ℕ, zero, suc, ◌+◌, ◌-◌, ◌%◌, ◌||◌, Option, none, some, List, [], ◌∷◌, ◌++◌, length, take, drop,
  get_elem?, set, replicate, leb, ltb, ◌==◌, if◌then◌else◌,
}

-- `BLOCK_SIZE` and `MAX_FILE_SIZE`
abbrev pub block_size : ℕ
block_size = 512

abbrev pub max_file_size : ℕ
max_file_size = 104857600

-- A byte of memory; `none` is a byte that was never written since `malloc`.
abbrev pub Cells : Type 0
Cells = List (Option ℕ)

pub record Block : Type 0 where
  pub memory : Cells
  pub occupied : ℕ

-- The bytes with those from index `i` on overwritten: `memcpy` where they lie inside.
unfoldable pub paste : Cells → Cells → Cells
paste [] xs = xs
paste (c ∷ m) [] = c ∷ m
paste (c ∷ m) (x ∷ xs) = x ∷ paste m xs

unfoldable pub splice : Cells → ℕ → Cells → Cells
unfolding paste
splice m zero xs = paste m xs
splice [] (suc i) xs = xs
splice (c ∷ m) (suc i) xs = c ∷ splice m i xs

-- `malloc` of a block and of its memory
unfoldable pub new_block : Block
unfolding replicate
new_block = record { memory = replicate block_size none; occupied = 0 }

-- `memcpy` to `write_from`, and the update of the occupied size.
unfoldable pub write_into : Block → ℕ → Cells → Block
unfolding splice
write_into b write_from xs = record {
  memory = splice b.memory write_from xs;
  occupied = max b.occupied (write_from + length xs);
}

-- The block to write to: the one at hand, or a new one at the end of the file.
unfoldable pub open_block : List Block → Option Block → ℕ → List Block × ℕ × Block
unfolding new_block
open_block blocks none at = (blocks ++ new_block ∷ [], length blocks, new_block)
open_block blocks (some b) at =
    if b.occupied == block_size
    then (blocks ++ new_block ∷ [], length blocks, new_block)
    else (blocks, at, b)

-- The copy of one round into the block at hand, and the rounds after it.
write_chunk :
    (List Block → ℕ → ℕ → Cells → Option (List Block × ℕ))
    → ℕ
    → Cells
    → List Block × ℕ × Block
    → Option (List Block × ℕ)
write_chunk again offset xs (blocks, at, b) =
    let write_from = offset % block_size in
    let n = min (length xs) (block_size - write_from) in
    again (set blocks at (write_into b write_from (take n xs))) at (offset + n) (drop n xs)

-- The rounds of `ufs_write` with the blocks, the index of the block, the offset and the bytes not yet
-- written. On fuel, one unit for each byte; `none` means that it ran out.
unfoldable pub write_loop : ℕ → List Block → ℕ → ℕ → Cells → Option (List Block × ℕ)
unfolding write_chunk open_block write_into
write_loop fuel blocks at offset [] = some (blocks, offset)
write_loop zero blocks at offset (x ∷ xs) = none
write_loop (suc fuel) blocks at offset (x ∷ xs) =
    write_chunk (write_loop fuel) offset (x ∷ xs) (open_block blocks (get_elem? blocks at) at)

-- `(ssize_t)size` in the test of the loop of `ufs_read`: a size from 2 ^ 63 on is negative there, and
-- no round is made.
abbrev pub wanted : ℕ → ℕ
wanted size = if ltb size 9223372036854775808 then size else 0

-- The rounds of `ufs_read` over the blocks from the one at hand, with the bytes still wanted: the
-- bytes read and the offset behind them.
unfoldable pub read_loop : List Block → ℕ → ℕ → Cells × ℕ
read_loop [] offset want = ([], offset)
read_loop (b ∷ bs) offset want =
    let block_offset = offset % block_size in
    let n = min (b.occupied - block_offset) want in
    let (got, offset') = read_loop bs (offset + n) (want - n) in
    if want == 0 || leb b.occupied block_offset
    then ([], offset)
    else (take n (drop block_offset b.memory) ++ got, offset')
