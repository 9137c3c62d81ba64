-- ===== src/UserFs/Resize.antt =====
-- hw3/userfs.c, `ufs_resize`.
pub mod Shrinks
use system_programming_hw.Base.{
  ℕ, zero, suc, ◌+◌, ◌-◌, ◌/◌, ◌%◌, ◌&&◌, Option, none, some, List, [], ◌∷◌, ◌++◌, length, take,
  replicate, map, ltb, ◌==◌, if◌then◌else◌, ok, crash,
}
use system_programming_hw.UserFs.Block.{block_size, max_file_size, Block}
use system_programming_hw.UserFs.State.{
  no_file, no_mem, not_implemented, File, FileDesc, Fs, Call, refuse, deref, update, find_desc,
}

-- The number of blocks for a size, and how much of the last one is occupied.
abbrev pub block_count : ℕ → ℕ
block_count size = (size + block_size - 1) / block_size

abbrev pub last_occupied : ℕ → ℕ
last_occupied size = if size % block_size == 0 then block_size else size % block_size

-- The occupied size of the last block set.
unfoldable pub occupy_last : ℕ → List Block → List Block
occupy_last n [] = []
occupy_last n (b ∷ []) = record b { occupied = n } ∷ []
occupy_last n (b ∷ c ∷ bs) = b ∷ occupy_last n (c ∷ bs)

-- `calloc` of a block's memory; its occupied size is set next.
unfoldable pub zero_block : Block
unfolding replicate
zero_block = record { memory = replicate block_size (some 0); occupied = block_size }

-- Blocks added at the end: each fills up the one before it.
unfoldable pub add_blocks : ℕ → List Block → List Block
unfolding zero_block occupy_last
add_blocks zero blocks = blocks
add_blocks (suc n) blocks = add_blocks n (occupy_last block_size blocks ++ zero_block ∷ [])

-- Descriptors of the file that stand behind its new end.
unfoldable pub clamp : ℕ → ℕ → Option FileDesc → Option FileDesc
clamp address size none = none
clamp address size (some d) =
    if d.file == address && ltb size d.offset then some (record d { offset = size }) else some d

unfoldable pub shrink_blocks : Fs → File → ℕ → List Block → Call ℕ
shrink_blocks fs f new_size [] =
    if new_size == 0 && block_count new_size == 0
    then ok (
      some 0,
      record fs {
        files = update (record f { blocks = []; size = 0 }) fs.files;
        descriptors = map (clamp f.address new_size) fs.descriptors;
      },
    )
    else crash
shrink_blocks fs f new_size (b ∷ bs) = ok (
  some 0,
  record fs {
    files =
        update
          (record f { blocks = occupy_last (last_occupied new_size) (b ∷ bs); size = new_size })
          fs.files;
    descriptors = map (clamp f.address new_size) fs.descriptors;
  },
)

-- Blocks are freed from the end; one that is not there is a null pointer.
unfoldable pub shrink : Fs → File → ℕ → Call ℕ
unfolding shrink_blocks clamp occupy_last
shrink fs f new_size =
    let dropped = block_count f.size - block_count new_size in
    if ltb (length f.blocks) dropped
    then crash
    else shrink_blocks fs f new_size (take (length f.blocks - dropped) f.blocks)

unfoldable pub grow_blocks : Fs → File → ℕ → List Block → Call ℕ
grow_blocks fs f new_size [] = crash
grow_blocks fs f new_size (b ∷ bs) = ok (
  some 0,
  record fs {
    files =
        update
          (record f { blocks = occupy_last (last_occupied new_size) (b ∷ bs); size = new_size })
          fs.files;
  },
)

unfoldable pub enlarge : Fs → File → ℕ → Call ℕ
unfolding grow_blocks add_blocks
enlarge fs f new_size =
    if ltb max_file_size new_size
    then refuse fs no_mem
    else grow_blocks fs f new_size (add_blocks (block_count new_size - block_count f.size) f.blocks)

unfoldable pub resize_file : Fs → ℕ → Option File → Call ℕ
resize_file fs new_size none = crash
resize_file fs new_size (some f) =
    if new_size == f.size
    then ok (some 0, fs)
    else if ltb new_size f.size
    then shrink fs f new_size
    else if ltb f.size new_size
    then enlarge fs f new_size
    else refuse fs not_implemented

unfoldable pub resize_desc : Fs → ℕ → Option FileDesc → Call ℕ
resize_desc fs new_size none = refuse fs no_file
resize_desc fs new_size (some d) = resize_file fs new_size (deref d.file fs.files)

unfoldable pub ufs_resize : ℕ → ℕ → Fs → Call ℕ
unfolding find_desc resize_desc resize_file shrink enlarge deref update
ufs_resize fd new_size fs = resize_desc fs new_size (find_desc fs fd)
