-- ===== src/UserFs/Transfer.antt =====
-- hw3/userfs.c, `ufs_write` and `ufs_read`. A read returns the bytes that it puts into the buffer.
pub mod Writes
pub mod Reads
pub mod Shared
pub mod Appends
use system_programming_hw.Base.{
  ℕ, zero, suc, ◌+◌, ◌-◌, ◌/◌, Bool, not, ◌&&◌, Option, none, some, List, [], ◌∷◌, length, drop,
  set, ltb, leb, ◌==◌, if◌then◌else◌, Checked, ok, crash,
}
use system_programming_hw.UserFs.Block.{
  block_size, max_file_size, Cells, Block, write_loop, wanted, read_loop,
}
use system_programming_hw.UserFs.State.{
  no_file, no_mem, no_permission, read_only, write_only, read_write, has_flag, File, FileDesc, Fs,
  Call, refuse, deref, update, find_desc,
}

-- The file and the descriptor at `fd` written back.
unfoldable pub store : Fs → ℕ → File → FileDesc → Fs
store fs fd f d = record fs {
  files = update f fs.files;
  descriptors = set fs.descriptors (fd - 1) (some d);
}

-- The loops are done: `desc->offset`, the blocks, and the size if the file has grown.
unfoldable pub written : Fs → ℕ → File → FileDesc → ℕ → Option (List Block × ℕ) → Call ℕ
written fs fd f d count none = crash
written fs fd f d count (some (blocks, offset)) =
    let size' = if ltb f.size offset then offset else f.size in
    ok (
      some count,
      store fs fd (record f { blocks = blocks; size = size' }) (record d { offset = offset }),
    )

-- Behind the checks of the descriptor. The walk to the block goes through NULL past the last one.
unfoldable pub write_file : Fs → ℕ → Cells → FileDesc → Option File → Call ℕ
write_file fs fd buf d none = crash
write_file fs fd buf d (some f) =
    if ltb max_file_size (f.size + length buf)
    then refuse fs no_mem
    else if ltb (length f.blocks) (d.offset / block_size)
    then crash
    else written fs fd f d (length buf)
        (write_loop (length buf) f.blocks (d.offset / block_size) d.offset buf)

unfoldable pub write_desc : Fs → ℕ → Cells → Option FileDesc → Call ℕ
write_desc fs fd buf none = refuse fs no_file
write_desc fs fd buf (some d) =
    if not (has_flag d.open_flags write_only) && not (has_flag d.open_flags read_write)
    then refuse fs no_permission
    else if length buf == 0
    then ok (some 0, fs)
    else write_file fs fd buf d (deref d.file fs.files)

unfoldable pub ufs_write : ℕ → Cells → Fs → Call ℕ
unfolding find_desc write_desc write_file written write_loop deref store update
ufs_write fd buf fs = write_desc fs fd buf (find_desc fs fd)

unfoldable pub read_file : Fs → ℕ → ℕ → FileDesc → Option File → Call Cells
read_file fs fd size d none = crash
read_file fs fd size d (some f) =
    if ltb (length f.blocks) (d.offset / block_size)
    then ok (some [], fs)
    else if leb f.size d.offset
    then ok (some [], fs)
    else let (got, offset) =
        read_loop (drop (d.offset / block_size) f.blocks) d.offset (wanted size) in
      ok (
        some got,
        record fs {
          descriptors = set fs.descriptors (fd - 1) (some (record d { offset = offset }));
        },
      )

unfoldable pub read_desc : Fs → ℕ → ℕ → Option FileDesc → Call Cells
read_desc fs fd size none = refuse fs no_file
read_desc fs fd size (some d) =
    if not (has_flag d.open_flags read_only) && not (has_flag d.open_flags read_write)
    then refuse fs no_permission
    else read_file fs fd size d (deref d.file fs.files)

unfoldable pub ufs_read : ℕ → ℕ → Fs → Call Cells
unfolding find_desc read_desc read_file read_loop deref
ufs_read fd size fs = read_desc fs fd size (find_desc fs fd)
