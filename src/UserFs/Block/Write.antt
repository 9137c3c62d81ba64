-- ===== src/UserFs/Block/Write.antt =====
-- hw3/userfs.c, the loop of `ufs_write` at the end of a chain without a gap.
pub mod Round
pub mod Rounds
use Prim.Native.Nat.{min, max}
use mathlib.Core.Path.{subst}
use system_programming_hw.Base.{
  Option, none, some, ℕ, zero, suc, ◌+◌, ◌-◌, ◌*◌, ◌/◌, ◌%◌, ◌≤◌, ◌<◌, ◌≡◌, ◌≢◌, refl, sym, ap, ◌∙◌,
  arith, List, [], ◌∷◌, ◌++◌, append_assoc, append-nil, length, length-append, length-take,
  length-drop, take, drop, take_all, drop_all, take-append-drop, get_elem?, set, get_elem?-last,
  get_elem?_end, set_last, length-replicate, replicate, ◌≡⟨◌⟩◌, ◌∎, ◌⊎◌, inl, inr, dec_lt,
}
use system_programming_hw.UserFs.Block.{
  block_size, Cells, Block, splice, new_block, write_into, open_block, write_chunk, write_loop,
}
use system_programming_hw.UserFs.Block.Splice.{
  length-splice, take-splice, splice_over, splice-append,
}
use system_programming_hw.UserFs.Block.Contents.{
  contents, IsBlock, IsFull, AllFull, IsPacked, Ended, IsPacked-Ended, AllFull-IsPacked,
  AllFull-append, contents-append, length-contents,
}
use system_programming_hw.UserFs.Block.Write.Round.{write_reopen, new_block-IsBlock}
use system_programming_hw.UserFs.Block.Write.Rounds.{Wrote, write_open, Wrote-path, write_rest}

-- The start: all blocks are full, and the offset is behind them.
write_behind :
    (bs : List Block) (offset : ℕ) (x : Option ℕ) (xs : Cells)
    → AllFull bs
    → offset ≡ block_size * length bs
    → Wrote
        (splice (contents bs) offset (x ∷ xs))
        (offset + length (x ∷ xs))
        (write_loop (length (x ∷ xs)) bs (offset / block_size) offset (x ∷ xs))
write_behind bs offset x xs f e =
    let end : length (contents bs) ≡ offset = omega (arith, length-contents bs f) in
    Wrote-path
      (ap (λ m. m ++ (x ∷ xs)) (sym (take_all offset (contents bs) (omega arith)))
        ∙ sym (splice_over (contents bs) offset (x ∷ xs) (omega arith) (omega arith)))
      refl
      (write_reopen (length (x ∷ xs)) bs (offset / block_size) offset x xs
        (inl (get_elem?_end bs (offset / block_size) (omega arith))))
      (write_rest (length (x ∷ xs)) bs offset x xs (x ∷ xs) refl (
        write_open (length (x ∷ xs)) bs new_block 0 offset x xs f new_block-IsBlock
          (unfold new_block in omega arith) (omega arith) (omega arith) (omega arith)))

-- The start: the offset is in the last block.
write_last :
    (fulls : List Block) (b : Block) (offset : ℕ) (x : Option ℕ) (xs : Cells)
    → AllFull fulls
    → IsBlock b
    → b.occupied < block_size
    → offset / block_size ≡ length fulls
    → offset % block_size ≤ b.occupied
    → Wrote
        (splice (contents (fulls ++ b ∷ [])) offset (x ∷ xs))
        (offset + length (x ∷ xs))
        (write_loop (length (x ∷ xs)) (fulls ++ b ∷ []) (offset / block_size) offset (x ∷ xs))
write_last fulls b offset x xs f h lt at le =
    Wrote-path
      (sym (
          splice-append (contents fulls) (take b.occupied b.memory) (offset % block_size) offset
            (x ∷ xs) (omega (arith, length-contents fulls f)))
        ∙ ap (λ m. splice m offset (x ∷ xs))
            (sym (
              contents-append fulls (b ∷ [])
              ∙ ap (λ m. contents fulls ++ m) (append-nil (take b.occupied b.memory)))))
      refl (ap (λ i. write_loop (length (x ∷ xs)) (fulls ++ b ∷ []) i offset (x ∷ xs)) at)
      (write_open (length (x ∷ xs)) fulls b (offset % block_size) offset x xs f h lt le refl
        (omega arith))

length-contents_last :
    (fulls : List Block) (b : Block)
    → AllFull fulls
    → IsBlock b
    → length (contents (fulls ++ b ∷ [])) ≡ block_size * length fulls + b.occupied
length-contents_last fulls b f h = omega (
  arith,
  ap length (contents-append fulls (b ∷ [])),
  length-append (contents fulls) (contents (b ∷ [])),
  length-append (take b.occupied b.memory) [],
  length-take b.occupied b.memory,
  length-contents fulls f,
  h.allocated,
  h.inside,
)

-- An offset from which a write goes to the end of the chain: not before the last block, if that
-- has room, and at the end otherwise.
abbrev pub IsTail : List Block → ℕ → Type 0
IsTail bs offset =
    (offset ≤ length (contents bs)) × (length (contents bs) / block_size * block_size ≤ offset)

write_from_end :
    (bs : List Block) (offset : ℕ) (x : Option ℕ) (xs : Cells)
    → Ended bs
    → IsTail bs offset
    → Wrote
        (splice (contents bs) offset (x ∷ xs))
        (offset + length (x ∷ xs))
        (write_loop (length (x ∷ xs)) bs (offset / block_size) offset (x ∷ xs))
write_from_end bs offset x xs (inl e) tail =
    write_behind bs offset x xs (subst AllFull (sym e) tt)
      (omega (arith, tail, ap length e, ap (λ (c : List Block). length (contents c)) e))
write_from_end bs offset x xs (inr (fulls, b, f, h, e)) tail = elim (dec_lt b.occupied block_size) [
  | yes lt ↦
      subst
        (λ c.
          Wrote (splice (contents c) offset (x ∷ xs)) (offset + length (x ∷ xs))
            (write_loop (length (x ∷ xs)) c (offset / block_size) offset (x ∷ xs)))
        (sym e)
        (write_last fulls b offset x xs f h lt (omega (arith, tail, size))
          (omega (arith, tail, size)))
  | no ge ↦
      write_behind bs offset x xs
        (subst AllFull (sym e) (
          AllFull-append fulls b f
            (record { allocated = h.allocated; full = omega (arith, h.inside) })))
        (omega (arith, tail, size, h.inside, ap length e, length-append fulls (b ∷ [])))
]
  where
    size : length (contents bs) ≡ block_size * length fulls + b.occupied
    size = ap (λ (c : List Block). length (contents c)) e ∙ length-contents_last fulls b f h

-- Over a chain without a gap, from an offset in the last block or at the end: the loop ends within
-- its fuel, overwrites the contents from the offset on, leaves no gap, and moves the offset.
pub write_loop_lem :
    (bs : List Block) (offset : ℕ) (x : Option ℕ) (xs : Cells)
    → IsPacked bs
    → IsTail bs offset
    → Wrote
        (splice (contents bs) offset (x ∷ xs))
        (offset + length (x ∷ xs))
        (write_loop (length (x ∷ xs)) bs (offset / block_size) offset (x ∷ xs))
write_loop_lem bs offset x xs h tail = write_from_end bs offset x xs (IsPacked-Ended bs h) tail
