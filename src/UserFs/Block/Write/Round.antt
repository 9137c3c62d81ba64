-- ===== src/UserFs/Block/Write/Round.antt =====
-- hw3/userfs.c, the loop of `ufs_write`: one round, at the last block of the chain.
use Prim.Native.Nat.{min, max}
use system_programming_hw.Base.{
  Option, none, some, ℕ, zero, suc, ◌+◌, ◌-◌, ◌%◌, ◌≤◌, ◌<◌, ◌≡◌, refl, sym, ap, ◌∙◌, arith, List,
  [], ◌∷◌, ◌++◌, append-nil, length, take, drop, get_elem?, get_elem?-last, set_last,
  length-replicate, ◌⊎◌, inl, inr,
}
use system_programming_hw.UserFs.Block.{
  block_size, Cells, Block, splice, new_block, write_into, open_block, write_chunk, write_loop,
}
use system_programming_hw.UserFs.Block.Splice.{length-splice, take-splice}
use system_programming_hw.UserFs.Block.Contents.{contents, IsBlock, IsFull}

-- The block at hand is NULL or full.
abbrev pub NeedsBlock : List Block → ℕ → Type 0
NeedsBlock blocks at =
    (get_elem? blocks at ≡ none)
    ⊎ ((b : Block) × (get_elem? blocks at ≡ some b) × (b.occupied ≡ block_size))

open_block_new :
    (blocks : List Block) (at : ℕ)
    → NeedsBlock blocks at
    → open_block blocks (get_elem? blocks at) at
      ≡ (blocks ++ new_block ∷ [], length blocks, new_block)
unfolding open_block
open_block_new blocks at (inl e) = rw (e, open_block)
open_block_new blocks at (inr (b, e, full)) = rw (e, open_block) (ground arith)

open_block_last :
    (fulls : List Block) (cur : Block)
    → cur.occupied < block_size
    → open_block (fulls ++ cur ∷ []) (get_elem? (fulls ++ cur ∷ []) (length fulls)) (length fulls)
      ≡ (fulls ++ cur ∷ [], length fulls, cur)
unfolding open_block
open_block_last fulls cur lt = rw (get_elem?-last fulls cur, open_block) (ground arith)

-- One round at the last block.
pub write_step :
    (fuel : ℕ) (fulls : List Block) (cur : Block) (offset from n : ℕ) (x : Option ℕ) (xs : Cells)
    → cur.occupied < block_size
    → offset % block_size ≡ from
    → min (length (x ∷ xs)) (block_size - from) ≡ n
    → write_loop (suc fuel) (fulls ++ cur ∷ []) (length fulls) offset (x ∷ xs)
      ≡ write_loop fuel
          (fulls ++ write_into cur from (take n (x ∷ xs)) ∷ [])
          (length fulls)
          (offset + n)
          (drop n (x ∷ xs))
unfolding write_loop
write_step fuel fulls cur offset from n x xs lt e e' =
    ap (write_chunk (write_loop fuel) offset (x ∷ xs)) (open_block_last fulls cur lt)
    ∙ rw (e, e')
        (ap (λ bs. write_loop fuel bs (length fulls) (offset + n) (drop n (x ∷ xs)))
          (set_last fulls cur (write_into cur from (take n (x ∷ xs)))))

-- A round that needs a block goes on as if it had been there.
pub write_reopen :
    (fuel : ℕ) (blocks : List Block) (at offset : ℕ) (x : Option ℕ) (xs : Cells)
    → NeedsBlock blocks at
    → write_loop fuel blocks at offset (x ∷ xs)
      ≡ write_loop fuel (blocks ++ new_block ∷ []) (length blocks) offset (x ∷ xs)
unfolding write_loop
write_reopen zero blocks at offset x xs needs = refl
write_reopen (suc fuel) blocks at offset x xs needs =
    ap (write_chunk (write_loop fuel) offset (x ∷ xs))
      (open_block_new blocks at needs ∙ sym (open_block_last blocks new_block empty))
  where
    empty : 0 < block_size
    empty = omega arith

pub new_block-IsBlock : IsBlock new_block
unfolding new_block
new_block-IsBlock = record {
  allocated = length-replicate {A = Option ℕ} block_size none;
  inside = omega arith;
}

-- A block after a copy that ends inside it.
module _ (cur : Block) (from : ℕ) (xs : Cells) (h : IsBlock cur) (le : from ≤ cur.occupied) where
  pub write_into-IsBlock : from + length xs ≤ block_size → IsBlock (write_into cur from xs)
  unfolding write_into
  write_into-IsBlock fits = record {
    allocated = omega (arith, length-splice cur.memory from xs, h.allocated, h.inside);
    inside = omega (arith, h.inside);
  }

  pub write_into-IsFull : from + length xs ≡ block_size → IsFull (write_into cur from xs)
  unfolding write_into
  write_into-IsFull fits = record {
    allocated = omega (arith, length-splice cur.memory from xs, h.allocated, h.inside);
    full = omega (arith, h.inside);
  }

  pub contents-write_into :
      from + length xs ≤ block_size
      → contents (write_into cur from xs ∷ []) ≡ splice (take cur.occupied cur.memory) from xs
  unfolding write_into
  contents-write_into fits =
      append-nil (take (max cur.occupied (from + length xs)) (splice cur.memory from xs))
      ∙ take-splice (max cur.occupied (from + length xs)) cur.occupied cur.memory from xs refl le
          (omega (arith, h.allocated, h.inside)) (omega (arith, h.allocated))
