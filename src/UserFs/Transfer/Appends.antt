-- ===== src/UserFs/Transfer/Appends.antt =====
-- hw3/userfs.c: `ufs_write` at an offset in a full block.
use Prim.Native.Nat.{max}
use system_programming_hw.Base.{
  ℕ, ◌+◌, ◌/◌, ◌%◌, ◌≤◌, ◌<◌, ◌≡◌, refl, sym, ap, ◌∙◌, arith, Option, none, some, List, ◌∷◌, ◌++◌,
  length, get_elem?, ok, inr, dec_lt, get_elem?_end,
}
use system_programming_hw.UserFs.Block.{block_size, max_file_size, Cells, Block}
use system_programming_hw.UserFs.Block.Appends.{IsSpread, write_loop_appends}
use system_programming_hw.UserFs.State.{File, FileDesc, Fs, Call}
use system_programming_hw.UserFs.Transfer.{store, written, ufs_write}
use system_programming_hw.UserFs.Transfer.Writes.{MayWrite, Opens, ufs_write_go, written_go}

-- A write that has left every block as it was, and has put its bytes into new ones behind them.
pub record Misplaced (fs : Fs) (fd : ℕ) (d : FileDesc) (f : File) (buf : Cells) (r : Call ℕ)
    : Type 0 where
  pub more : List Block
  pub returned :
      r
      ≡ ok (
        some (length buf),
        store fs fd
            (record f { blocks = f.blocks ++ more; size = max f.size (d.offset + length buf) })
            (record d { offset = d.offset + length buf }),
      )
  pub spread : IsSpread (d.offset % block_size) buf more

get_elem?_inside :
    {A : Type 0} (xs : List A) (i : ℕ) (v : A) → get_elem? xs i ≡ some v → i < length xs
get_elem?_inside xs i v e = elim (dec_lt i (length xs)) [
  | yes lt ↦ lt
  | no ge ↦
      let missing : get_elem? xs i ≡ none = get_elem?_end xs i (omega arith) in
      let clash : none ≡ some v = sym missing ∙ e in absurd (cc clash)
]

-- A permitted write that begins in a full block, with room for it: it reports success, moves the offset, and
-- makes the size fit, but leaves every block as it was, and the bytes stand in new blocks at the end,
-- in the first of them from the place of the offset in its block on.
pub ufs_write_full_block :
    (fs : Fs) (fd : ℕ) (d : FileDesc) (f : File) (b : Block) (x : Option ℕ) (xs : Cells)
    → Opens fs fd d f
    → MayWrite d
    → get_elem? f.blocks (d.offset / block_size) ≡ some b
    → b.occupied ≡ block_size
    → f.size + length (x ∷ xs) ≤ max_file_size
    → Misplaced fs fd d f (x ∷ xs) (ufs_write fd (x ∷ xs) fs)
ufs_write_full_block fs fd d f b x xs opens may at full fits =
    let w =
      write_loop_appends (length (x ∷ xs)) f.blocks (d.offset / block_size) d.offset x xs
        (inr (b, at, full)) (omega arith) in
    record {
      more = w.more;
      returned =
          ufs_write_go fs fd (x ∷ xs) d f opens may (omega arith) fits
            (omega (arith, get_elem?_inside f.blocks (d.offset / block_size) b at))
          ∙ ap (written fs fd f d (length (x ∷ xs))) w.returned
          ∙ written_go fs fd f d (length (x ∷ xs)) (d.offset + length (x ∷ xs))
              (max f.size (d.offset + length (x ∷ xs))) (f.blocks ++ w.more) refl;
      spread = w.spread;
    }
