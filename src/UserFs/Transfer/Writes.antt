-- ===== src/UserFs/Transfer/Writes.antt =====
-- hw3/userfs.c, `ufs_write` against the contents of a file without a gap.
use Prim.Native.Nat.{max}
use system_programming_hw.Base.{
  ℕ, ◌+◌, ◌*◌, ◌/◌, ◌≤◌, ◌<◌, ◌≡◌, refl, ap, ◌∙◌, arith, true, Option, some, List, [], ◌∷◌, length,
  length-append, length-take, take, ◌⊎◌, ok,
}
use system_programming_hw.UserFs.Block.{block_size, max_file_size, Cells, Block, splice, write_loop}
use system_programming_hw.UserFs.Block.Splice.{length-splice}
use system_programming_hw.UserFs.Block.Contents.{contents, IsPacked}
use system_programming_hw.UserFs.Block.Write.{IsTail, write_loop_lem}
use system_programming_hw.UserFs.State.{
  write_only, read_write, has_flag, File, FileDesc, Fs, Call, deref, find_desc,
}
use system_programming_hw.UserFs.Transfer.{store, written, write_file, write_desc, ufs_write}

-- A file without a gap, whose size is that of its contents.
pub record IsFile (f : File) : Type 0 where
  pub packed : IsPacked f.blocks
  pub sized : f.size ≡ length (contents f.blocks)

-- The flags permit a write.
abbrev pub MayWrite : FileDesc → Type 0
MayWrite d = (has_flag d.open_flags write_only ≡ true) ⊎ (has_flag d.open_flags read_write ≡ true)

-- The descriptor `fd` is `d`, and it points to the file `f`.
pub record Opens (fs : Fs) (fd : ℕ) (d : FileDesc) (f : File) : Type 0 where
  pub found : find_desc fs fd ≡ some d
  pub points : deref d.file fs.files ≡ some f

pub length-contents_le :
    (bs : List Block) → IsPacked bs → length (contents bs) ≤ block_size * length bs
length-contents_le [] h = omega arith
length-contents_le (b ∷ []) h =
    omega (
      arith,
      length-append (take b.occupied b.memory) [],
      length-take b.occupied b.memory,
      h.inside,
    )
length-contents_le (b ∷ c ∷ bs) (f, h) = omega (
  arith,
  length-append (take b.occupied b.memory) (contents (c ∷ bs)),
  length-take b.occupied b.memory,
  f.full,
  length-contents_le (c ∷ bs) h,
)

write_desc_go :
    (fs : Fs) (fd : ℕ) (buf : Cells) (d : FileDesc)
    → MayWrite d
    → 0 < length buf
    → write_desc fs fd buf (some d) ≡ write_file fs fd buf d (deref d.file fs.files)
unfolding write_desc
write_desc_go fs fd buf d may pos = ground arith

write_file_go :
    (fs : Fs) (fd : ℕ) (buf : Cells) (d : FileDesc) (f : File)
    → f.size + length buf ≤ max_file_size
    → d.offset / block_size ≤ length f.blocks
    → write_file fs fd buf d (some f)
      ≡ written fs fd f d
          (length buf)
          (write_loop (length buf) f.blocks (d.offset / block_size) d.offset buf)
unfolding write_file
write_file_go fs fd buf d f fits inside = ground arith

-- A write behind all its checks.
pub ufs_write_go :
    (fs : Fs) (fd : ℕ) (buf : Cells) (d : FileDesc) (f : File)
    → Opens fs fd d f
    → MayWrite d
    → 0 < length buf
    → f.size + length buf ≤ max_file_size
    → d.offset / block_size ≤ length f.blocks
    → ufs_write fd buf fs
      ≡ written fs fd f d
          (length buf)
          (write_loop (length buf) f.blocks (d.offset / block_size) d.offset buf)
unfolding ufs_write
ufs_write_go fs fd buf d f opens may pos fits inside =
    ap (write_desc fs fd buf) opens.found
    ∙ write_desc_go fs fd buf d may pos
    ∙ ap (write_file fs fd buf d) opens.points
    ∙ write_file_go fs fd buf d f fits inside

pub written_go :
    (fs : Fs) (fd : ℕ) (f : File) (d : FileDesc) (count offset size : ℕ) (blocks : List Block)
    → size ≡ max f.size offset
    → written fs fd f d count (some (blocks, offset))
      ≡ ok (
        some count,
        store fs fd (record f { blocks = blocks; size = size }) (record d { offset = offset }),
      )
unfolding written
written_go fs fd f d count offset size blocks e = ground arith

-- What a write leaves behind: the file with its new contents and no gap, the offset behind them.
pub record Stored (fs : Fs) (fd : ℕ) (d : FileDesc) (f : File) (buf : Cells) (r : Call ℕ)
    : Type 0 where
  pub after : File
  pub is_file : IsFile after
  pub text_is : contents after.blocks ≡ splice (contents f.blocks) d.offset buf
  pub same : after ≡ record f { blocks = after.blocks; size = after.size }
  pub returned :
      r ≡ ok (some (length buf), store fs fd after (record d { offset = d.offset + length buf }))

-- A write at the end of a file without a gap, with room for it: it overwrites the contents from the
-- offset on, and appends to them. The size and the offset follow, and there is no gap afterwards.
-- At the end means: from the last block, if that has room, and behind all bytes otherwise.
pub ufs_write_lem :
    (fs : Fs) (fd : ℕ) (d : FileDesc) (f : File) (x : Option ℕ) (xs : Cells)
    → Opens fs fd d f
    → MayWrite d
    → IsFile f
    → IsTail f.blocks d.offset
    → f.size + length (x ∷ xs) ≤ max_file_size
    → Stored fs fd d f (x ∷ xs) (ufs_write fd (x ∷ xs) fs)
ufs_write_lem fs fd d f x xs opens may h tail fits =
    let w = write_loop_lem f.blocks d.offset x xs h.packed tail in
    let size = length (contents w.blocks) in
    let size_is : size ≡ max f.size (d.offset + length (x ∷ xs)) = omega (
      arith,
      ap length w.text_is,
      length-splice (contents f.blocks) d.offset (x ∷ xs) tail.0,
      h.sized,
    ) in
    record {
      after = record f { blocks = w.blocks; size = size };
      is_file = record { packed = w.packed; sized = refl };
      text_is = w.text_is;
      same = refl;
      returned =
          ufs_write_go fs fd (x ∷ xs) d f opens may (omega arith) fits
            (omega (arith, tail.0, length-contents_le f.blocks h.packed))
          ∙ ap (written fs fd f d (length (x ∷ xs))) w.returned
          ∙ written_go fs fd f d (length (x ∷ xs)) (d.offset + length (x ∷ xs)) size w.blocks
              size_is;
    }
