-- ===== src/UserFs/Block/Write/Rounds.antt =====
-- hw3/userfs.c, the loop of `ufs_write`: all rounds, from a last block with room.
use system_programming_hw.Base.{
  Option, some, ℕ, zero, suc, ◌+◌, ◌-◌, ◌%◌, ◌≤◌, ◌<◌, ◌≡◌, refl, sym, ap, ◌∙◌, arith, List, [],
  ◌∷◌, ◌++◌, append_assoc, length, length-take, length-drop, take, drop, take_all, drop_all,
  take-append-drop, get_elem?-last, ◌≡⟨◌⟩◌, ◌∎, inr, dec_lt,
}
use system_programming_hw.UserFs.Block.{
  block_size, Cells, Block, splice, new_block, write_into, write_loop,
}
use system_programming_hw.UserFs.Block.Splice.{splice_over}
use system_programming_hw.UserFs.Block.Contents.{
  contents, IsBlock, IsFull, AllFull, IsPacked, AllFull-IsPacked, AllFull-append, contents-append,
}
use system_programming_hw.UserFs.Block.Write.Round.{
  write_step, write_reopen, new_block-IsBlock, write_into-IsBlock, write_into-IsFull,
  contents-write_into,
}

-- What the loop leaves behind: the new contents without a gap, and the offset behind the bytes.
pub record Wrote (text : Cells) (offset : ℕ) (r : Option (List Block × ℕ)) : Type 0 where
  pub blocks : List Block
  pub returned : r ≡ some (blocks, offset)
  pub packed : IsPacked blocks
  pub text_is : contents blocks ≡ text

write_loop_done :
    (fuel : ℕ) (blocks : List Block) (at offset : ℕ)
    → write_loop fuel blocks at offset [] ≡ some (blocks, offset)
unfolding write_loop
write_loop_done zero blocks at offset = refl
write_loop_done (suc fuel) blocks at offset = refl

-- All that is left fits into the last block.
write_within :
    (fuel : ℕ) (fulls : List Block) (cur : Block) (from offset : ℕ) (x : Option ℕ) (xs : Cells)
    → AllFull fulls
    → IsBlock cur
    → cur.occupied < block_size
    → from ≤ cur.occupied
    → offset % block_size ≡ from
    → from + length (x ∷ xs) ≤ block_size
    → Wrote
        (contents fulls ++ splice (take cur.occupied cur.memory) from (x ∷ xs))
        (offset + length (x ∷ xs))
        (write_loop (suc fuel) (fulls ++ cur ∷ []) (length fulls) offset (x ∷ xs))
write_within fuel fulls cur from offset x xs f h lt le e fits = record {
  blocks = fulls ++ written ∷ [];
  returned =
      write_step fuel fulls cur offset from (length (x ∷ xs)) x xs lt e (omega arith)
      ∙ rw
          (
            take_all (length (x ∷ xs)) (x ∷ xs) (omega arith),
            drop_all (length (x ∷ xs)) (x ∷ xs) (omega arith),
          )
          (write_loop_done fuel (fulls ++ written ∷ []) (length fulls) (offset + length (x ∷ xs)));
  packed = AllFull-IsPacked fulls written f (write_into-IsBlock cur from (x ∷ xs) h le fits);
  text_is =
      contents-append fulls (written ∷ [])
      ∙ ap (λ m. contents fulls ++ m) (contents-write_into cur from (x ∷ xs) h le fits);
}
  where
    written : Block
    written = write_into cur from (x ∷ xs)

pub Wrote-path :
    {text text' : Cells} {offset offset' : ℕ} {r r' : Option (List Block × ℕ)}
    → text ≡ text'
    → offset ≡ offset'
    → r' ≡ r
    → Wrote text offset r
    → Wrote text' offset' r'
Wrote-path e o q w = record {
  blocks = w.blocks;
  returned = q ∙ w.returned ∙ ap (λ k. some (w.blocks, k)) o;
  packed = w.packed;
  text_is = w.text_is ∙ e;
}

-- The contents after a block is filled, and what is left is appended.
contents-filled :
    (fulls : List Block) (cur : Block) (from n : ℕ) (xs ys : Cells)
    → IsBlock cur
    → from ≤ cur.occupied
    → from + n ≡ block_size
    → n < length xs
    → drop n xs ≡ ys
    → contents (fulls ++ write_into cur from (take n xs) ∷ []) ++ ys
      ≡ contents fulls ++ splice (take cur.occupied cur.memory) from xs
contents-filled fulls cur from n xs ys h le fills more rest =
    contents (fulls ++ write_into cur from (take n xs) ∷ []) ++ ys
    ≡⟨ ap (λ m. m ++ ys) (contents-append fulls (write_into cur from (take n xs) ∷ [])) ⟩
      (contents fulls ++ contents (write_into cur from (take n xs) ∷ [])) ++ ys
    ≡⟨ append_assoc (contents fulls) (contents (write_into cur from (take n xs) ∷ [])) ys ⟩
      contents fulls ++ (contents (write_into cur from (take n xs) ∷ []) ++ ys)
    ≡⟨ ap (λ m. contents fulls ++ (m ++ ys))
        (contents-write_into cur from (take n xs) h le (omega (arith, length-take n xs))) ⟩
      contents fulls ++ (splice (take cur.occupied cur.memory) from (take n xs) ++ ys)
    ≡⟨ ap (λ m. contents fulls ++ m) copied ⟩
      contents fulls ++ splice (take cur.occupied cur.memory) from xs ∎
  where
    text : Cells
    text = take cur.occupied cur.memory

    length_text : length text ≡ cur.occupied
    length_text = omega (arith, length-take cur.occupied cur.memory, h.allocated, h.inside)

    copied : splice text from (take n xs) ++ ys ≡ splice text from xs
    copied =
        ap (λ m. m ++ ys)
          (splice_over text from (take n xs) (omega (arith, length_text))
            (omega (arith, length_text, length-take n xs, h.inside)))
        ∙ append_assoc (take from text) (take n xs) ys
        ∙ ap (λ m. take from text ++ (take n xs ++ m)) (sym rest)
        ∙ ap (λ m. take from text ++ m) (take-append-drop n xs)
        ∙ sym (
            splice_over text from xs (omega (arith, length_text))
              (omega (arith, length_text, h.inside)))

-- The loop with a block that is full at hand.
write_filled :
    (fuel : ℕ) (fulls : List Block) (w : Block) (offset : ℕ) (text : Cells) (ys : Cells)
    → ((y : Option ℕ) (zs : Cells)
        → ys ≡ y ∷ zs
        → Wrote text (offset + length ys) (
            write_loop fuel
              ((fulls ++ w ∷ []) ++ new_block ∷ [])
              (length (fulls ++ w ∷ []))
              offset
              ys))
    → IsFull w
    → 0 < length ys
    → Wrote text (offset + length ys) (write_loop fuel (fulls ++ w ∷ []) (length fulls) offset ys)
write_filled fuel fulls w offset text [] later full pos = absurd (omega arith)
write_filled fuel fulls w offset text (y ∷ ys) later full pos =
    Wrote-path refl refl
      (write_reopen fuel (fulls ++ w ∷ []) (length fulls) offset y ys
        (inr (w, get_elem?-last fulls w, full.full)))
      (later y ys refl)

splice_new : (xs : Cells) → splice (take new_block.occupied new_block.memory) 0 xs ≡ xs
unfolding new_block splice
splice_new xs = refl

-- What is left, written to a new block.
pub write_rest :
    (fuel : ℕ) (fulls : List Block) (offset : ℕ) (y : Option ℕ) (zs ys : Cells)
    → ys ≡ y ∷ zs
    → Wrote
        (contents fulls ++ splice (take new_block.occupied new_block.memory) 0 (y ∷ zs))
        (offset + length (y ∷ zs))
        (write_loop fuel (fulls ++ new_block ∷ []) (length fulls) offset (y ∷ zs))
    → Wrote
        (contents fulls ++ ys)
        (offset + length ys)
        (write_loop fuel (fulls ++ new_block ∷ []) (length fulls) offset ys)
write_rest fuel fulls offset y zs ys e w =
    Wrote-path (ap (λ m. contents fulls ++ m) (splice_new (y ∷ zs) ∙ sym e))
      (ap (λ m. offset + length m) (sym e))
      (ap (write_loop fuel (fulls ++ new_block ∷ []) (length fulls) offset) e) w

-- The loop with the last block at hand, its offset inside the occupied part.
pub write_open :
    (fuel : ℕ) (fulls : List Block) (cur : Block) (from offset : ℕ) (x : Option ℕ) (xs : Cells)
    → AllFull fulls
    → IsBlock cur
    → cur.occupied < block_size
    → from ≤ cur.occupied
    → offset % block_size ≡ from
    → length (x ∷ xs) ≤ fuel
    → Wrote
        (contents fulls ++ splice (take cur.occupied cur.memory) from (x ∷ xs))
        (offset + length (x ∷ xs))
        (write_loop fuel (fulls ++ cur ∷ []) (length fulls) offset (x ∷ xs))
write_open zero fulls cur from offset x xs f h lt le e enough = absurd (omega arith)
write_open (suc fuel) fulls cur from offset x xs f h lt le e enough =
    elim (dec_lt (block_size - from) (length (x ∷ xs))) [
      | no fits ↦ write_within fuel fulls cur from offset x xs f h lt le e (omega (arith, h.inside))
      | yes more ↦
          let n = block_size - from in
          let ys = drop n (x ∷ xs) in
          let w = write_into cur from (take n (x ∷ xs)) in
          let full : IsFull w =
            write_into-IsFull cur from (take n (x ∷ xs)) h le
              (omega (arith, length-take n (x ∷ xs))) in
          let length_rest : n + length ys ≡ length (x ∷ xs) =
            omega (arith, length-drop n (x ∷ xs)) in
          Wrote-path (contents-filled fulls cur from n (x ∷ xs) ys h le (omega arith) more refl)
            (omega (arith, length_rest))
            (write_step fuel fulls cur offset from n x xs lt e (omega arith))
            (write_filled fuel fulls w (offset + n) (contents (fulls ++ w ∷ []) ++ ys) ys
              (λ y zs s. write_rest fuel (fulls ++ w ∷ []) (offset + n) y zs ys s (
                write_open fuel (fulls ++ w ∷ []) new_block 0 (offset + n) y zs
                  (AllFull-append fulls w f full) new_block-IsBlock
                  (unfold new_block in omega arith) (omega arith) (omega arith)
                  (omega (arith, length_rest, ap length s))))
              full (omega (arith, length_rest)))
    ]
