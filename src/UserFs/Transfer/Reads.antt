-- ===== src/UserFs/Transfer/Reads.antt =====
-- hw3/userfs.c, `ufs_read` against the contents of a file without a gap.
use system_programming_hw.Base.{
  ℕ, zero, suc, ◌+◌, ◌-◌, ◌*◌, ◌/◌, ◌%◌, ◌≤◌, ◌<◌, ◌≡◌, sym, ap, ◌∙◌, arith, true, some, List, [],
  ◌∷◌, length, length-take, take, drop, drop-append_ge, set, ◌⊎◌, ok,
}
use system_programming_hw.UserFs.Block.{block_size, Cells, Block, wanted, read_loop}
use system_programming_hw.UserFs.Block.Contents.{contents, IsPacked}
use system_programming_hw.UserFs.Block.Read.{read_loop_lem}
use system_programming_hw.UserFs.State.{read_only, read_write, has_flag, File, FileDesc, Fs, deref}
use system_programming_hw.UserFs.Transfer.{read_file, read_desc, ufs_read}
use system_programming_hw.UserFs.Transfer.Writes.{IsFile, Opens, length-contents_le}

-- The flags permit a read.
abbrev pub MayRead : FileDesc → Type 0
MayRead d = (has_flag d.open_flags read_only ≡ true) ⊎ (has_flag d.open_flags read_write ≡ true)

-- A descriptor moved forward.
abbrev pub moved : Fs → ℕ → FileDesc → ℕ → Fs
moved fs fd d n = record fs {
  descriptors = set fs.descriptors (fd - 1) (some (record d { offset = d.offset + n }));
}

-- The blocks from the one at hand on: the contents from its first byte on.
drop-contents :
    (i j offset : ℕ) (bs : List Block)
    → IsPacked bs
    → offset ≡ block_size * i + j
    → i < length bs
    → IsPacked (drop i bs) × (drop j (contents (drop i bs)) ≡ drop offset (contents bs))
drop-contents zero j offset bs h e lt = (h, ap (λ k. drop k (contents bs)) (omega arith))
drop-contents (suc i) j offset [] h e lt = absurd (omega arith)
drop-contents (suc i) j offset (b ∷ []) h e lt = absurd (omega arith)
drop-contents (suc i) j offset (b ∷ c ∷ bs) (f, h) e lt =
    let (p, q) = drop-contents i j (offset - block_size) (c ∷ bs) h (omega arith) (omega arith) in
    (
      p,
      q
          ∙ sym (
              drop-append_ge offset (offset - block_size) (take b.occupied b.memory)
                (contents (c ∷ bs))
                (omega (arith, length-take b.occupied b.memory, f.allocated, f.full))),
    )

read_desc_go :
    (fs : Fs) (fd size : ℕ) (d : FileDesc)
    → MayRead d
    → read_desc fs fd size (some d) ≡ read_file fs fd size d (deref d.file fs.files)
unfolding read_desc
read_desc_go fs fd size d may = ground arith

read_file_go :
    (fs : Fs) (fd size : ℕ) (d : FileDesc) (f : File)
    → d.offset / block_size ≤ length f.blocks
    → d.offset < f.size
    → (got : Cells)
    → read_loop (drop (d.offset / block_size) f.blocks) d.offset (wanted size)
      ≡ (got, d.offset + length got)
    → read_file fs fd size d (some f) ≡ ok (some got, moved fs fd d (length got))
unfolding read_file
read_file_go fs fd size d f le lt got e = rw e (ground arith)

read_file_end :
    (fs : Fs) (fd size : ℕ) (d : FileDesc) (f : File)
    → f.size ≤ d.offset
    → read_file fs fd size d (some f) ≡ ok (some [], fs)
unfolding read_file
read_file_end fs fd size d f le = ground arith

ufs_read_go :
    (fs : Fs) (fd size : ℕ) (d : FileDesc) (f : File)
    → Opens fs fd d f
    → MayRead d
    → ufs_read fd size fs ≡ read_file fs fd size d (some f)
unfolding ufs_read
ufs_read_go fs fd size d f opens may =
    ap (read_desc fs fd size) opens.found
    ∙ read_desc_go fs fd size d may
    ∙ ap (read_file fs fd size d) opens.points

pair_is :
    (r : Cells × ℕ) (got : Cells) (offset : ℕ)
    → r.0 ≡ got
    → r.1 ≡ offset + length r.0
    → r ≡ (got, offset + length got)
pair_is (a, b) got offset e k = ap (λ m. (a, m)) k ∙ ap (λ (m : Cells). (m, offset + length m)) e

-- A permitted read inside a file without a gap gives the bytes of its contents from the offset on, as
-- many as are wanted and there, and moves the offset by their number. A size below 2 ^ 63 is what is
-- wanted; from there on nothing is wanted, nothing is read, and nothing moves.
pub ufs_read_lem :
    (fs : Fs) (fd size : ℕ) (d : FileDesc) (f : File)
    → Opens fs fd d f
    → MayRead d
    → IsFile f
    → d.offset < f.size
    → ufs_read fd size fs
      ≡ ok (
        some (take (wanted size) (drop d.offset (contents f.blocks))),
        moved fs fd d (length (take (wanted size) (drop d.offset (contents f.blocks)))),
      )
ufs_read_lem fs fd size d f opens may h lt =
    let (p, q) =
      drop-contents (d.offset / block_size) (d.offset % block_size) d.offset f.blocks h.packed
        (omega arith) (omega (arith, h.sized, length-contents_le f.blocks h.packed)) in
    let (got, offset) =
      read_loop_lem (drop (d.offset / block_size) f.blocks) d.offset (wanted size) p in
    ufs_read_go fs fd size d f opens may
    ∙ read_file_go fs fd size d f (omega (arith, h.sized, length-contents_le f.blocks h.packed)) lt
        (take (wanted size) (drop d.offset (contents f.blocks)))
        (pair_is (read_loop (drop (d.offset / block_size) f.blocks) d.offset (wanted size)) _
          d.offset (got ∙ ap (take (wanted size)) q) offset)

-- At the end of the file there is nothing to read, and nothing moves.
pub ufs_read_end :
    (fs : Fs) (fd size : ℕ) (d : FileDesc) (f : File)
    → Opens fs fd d f
    → MayRead d
    → f.size ≤ d.offset
    → ufs_read fd size fs ≡ ok (some [], fs)
ufs_read_end fs fd size d f opens may le =
    ufs_read_go fs fd size d f opens may ∙ read_file_end fs fd size d f le
