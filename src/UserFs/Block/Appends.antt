-- ===== src/UserFs/Block/Appends.antt =====
-- hw3/userfs.c, the loop of `ufs_write` at a block that is full.
use Prim.Native.Nat.{min}
use mathlib.Core.Path.{subst}
use system_programming_hw.Base.{
  ℕ, zero, suc, ◌+◌, ◌-◌, ◌%◌, ◌≤◌, ◌<◌, ◌≡◌, refl, sym, ap, ◌∙◌, arith, Option, some, List, [],
  ◌∷◌, ◌++◌, append_assoc, length, length-take, length-drop, take, drop, take_all, drop_all,
  get_elem?-last, dec_lt, inr,
}
use system_programming_hw.UserFs.Block.{block_size, Cells, Block, new_block, write_into, write_loop}
use system_programming_hw.UserFs.Block.Splice.{take-drop-splice}
use system_programming_hw.UserFs.Block.Write.Round.{
  NeedsBlock, write_reopen, write_step, new_block-IsBlock,
}

-- Blocks that hold the bytes: the first one from the given index on, as many as fit, and the next ones
-- the rest from their starts on. No block is there for nothing.
pub data IsSpread : ℕ → Cells → List Block → Type 0 where
  last :
      {from : ℕ} {xs : Cells} (b : Block)
      → from + length xs ≤ block_size
      → take (length xs) (drop from b.memory) ≡ xs
      → from + length xs ≤ b.occupied
      → IsSpread from xs (b ∷ [])
  next :
      {from : ℕ} {xs : Cells} {bs : List Block} (b : Block) (n : ℕ)
      → from + n ≡ block_size
      → n < length xs
      → take n (drop from b.memory) ≡ take n xs
      → b.occupied ≡ block_size
      → IsSpread 0 (drop n xs) bs
      → IsSpread from xs (b ∷ bs)

-- The loop has ended with new blocks behind the others, which hold the bytes, and the offset moved.
pub record EndedBehind (bs : List Block) (offset : ℕ) (xs : Cells) (r : Option (List Block × ℕ))
    : Type 0 where
  pub more : List Block
  pub returned : r ≡ some (bs ++ more, offset + length xs)
  pub spread : IsSpread (offset % block_size) xs more

-- A new block with bytes from an index on.
new_block-written :
    (from : ℕ) (xs : Cells)
    → from + length xs ≤ block_size
    → (take (length xs) (drop from (write_into new_block from xs).memory) ≡ xs)
      × ((write_into new_block from xs).occupied ≡ from + length xs)
unfolding write_into new_block
new_block-written from xs fits = (
  take-drop-splice new_block.memory from xs (omega (arith, new_block-IsBlock.allocated)),
  omega arith,
)

appends_round :
    (fuel : ℕ) (bs : List Block) (at offset from n : ℕ) (x : Option ℕ) (xs : Cells)
    → NeedsBlock bs at
    → offset % block_size ≡ from
    → min (length (x ∷ xs)) (block_size - from) ≡ n
    → write_loop (suc fuel) bs at offset (x ∷ xs)
      ≡ write_loop fuel
          (bs ++ write_into new_block from (take n (x ∷ xs)) ∷ [])
          (length bs)
          (offset + n)
          (drop n (x ∷ xs))
appends_round fuel bs at offset from n x xs needs e e' =
    write_reopen (suc fuel) bs at offset x xs needs
    ∙ write_step fuel bs new_block offset from n x xs (unfold new_block in omega arith) e e'

-- The rest of the bytes behind the first round.
Rest : ℕ → List Block → Block → ℕ → Cells → Type 0
Rest fuel bs b offset ys =
    EndedBehind (bs ++ b ∷ []) offset ys (write_loop fuel (bs ++ b ∷ []) (length bs) offset ys)

write_loop_end :
    (fuel : ℕ) (blocks : List Block) (at offset : ℕ)
    → write_loop fuel blocks at offset [] ≡ some (blocks, offset)
unfolding write_loop
write_loop_end zero blocks at offset = refl
write_loop_end (suc fuel) blocks at offset = refl

drop_cons :
    (n : ℕ) (xs : Cells) → n < length xs → (y : Option ℕ) × (ys : Cells) × (drop n xs ≡ y ∷ ys)
drop_cons n [] lt = absurd (omega arith)
drop_cons zero (x ∷ xs) lt = (x, xs, refl)
drop_cons (suc n) (x ∷ xs) lt = drop_cons n xs (omega arith)

appends_last :
    (fuel : ℕ) (bs : List Block) (at offset : ℕ) (x : Option ℕ) (xs : Cells)
    → NeedsBlock bs at
    → offset % block_size + length (x ∷ xs) ≤ block_size
    → EndedBehind bs offset (x ∷ xs) (write_loop (suc fuel) bs at offset (x ∷ xs))
appends_last fuel bs at offset x xs needs fits =
    let from = offset % block_size in
    let (holds, used) = new_block-written from (x ∷ xs) fits in
    let all : take (length (x ∷ xs)) (x ∷ xs) ≡ x ∷ xs =
      take_all (length (x ∷ xs)) (x ∷ xs) (omega arith) in
    let nothing : drop (length (x ∷ xs)) (x ∷ xs) ≡ [] =
      drop_all (length (x ∷ xs)) (x ∷ xs) (omega arith) in
    record {
      more = write_into new_block from (x ∷ xs) ∷ [];
      returned =
          appends_round fuel bs at offset from (length (x ∷ xs)) x xs needs refl
            (omega (arith, fits))
          ∙ ap
              (λ (ys : Cells).
                write_loop fuel (bs ++ write_into new_block from ys ∷ []) (length bs)
                  (offset + length (x ∷ xs)) (drop (length (x ∷ xs)) (x ∷ xs)))
              all
          ∙ ap
              (write_loop fuel (bs ++ write_into new_block from (x ∷ xs) ∷ []) (length bs)
                (offset + length (x ∷ xs)))
              nothing
          ∙ write_loop_end fuel _ (length bs) (offset + length (x ∷ xs));
      spread = last (write_into new_block from (x ∷ xs)) fits holds (omega (arith, used));
    }

appends_next :
    (fuel : ℕ) (bs : List Block) (at offset n : ℕ) (x : Option ℕ) (xs : Cells)
    → NeedsBlock bs at
    → offset % block_size + n ≡ block_size
    → n < length (x ∷ xs)
    → Rest fuel bs
        (write_into new_block (offset % block_size) (take n (x ∷ xs)))
        (offset + n)
        (drop n (x ∷ xs))
    → EndedBehind bs offset (x ∷ xs) (write_loop (suc fuel) bs at offset (x ∷ xs))
unfolding Rest
appends_next fuel bs at offset n x xs needs fits lt rest =
    let from = offset % block_size in
    let size : length (take n (x ∷ xs)) ≡ n = omega (arith, length-take n (x ∷ xs)) in
    let (holds, used) = new_block-written from (take n (x ∷ xs)) (omega (arith, size)) in
    record {
      more = write_into new_block from (take n (x ∷ xs)) ∷ rest.more;
      returned =
          appends_round fuel bs at offset from n x xs needs refl (omega (arith, fits))
          ∙ rest.returned
          ∙ ap (λ (m : List Block). some (m, offset + n + length (drop n (x ∷ xs))))
              (append_assoc bs (write_into new_block from (take n (x ∷ xs)) ∷ []) rest.more)
          ∙ ap (λ (o : ℕ). some (bs ++ write_into new_block from (take n (x ∷ xs)) ∷ rest.more, o))
              (omega (arith, length-drop n (x ∷ xs)));
      spread =
          next (write_into new_block from (take n (x ∷ xs))) n fits lt
            (ap (λ k. take k (drop from (write_into new_block from (take n (x ∷ xs))).memory))
                (sym size)
              ∙ holds)
            (omega (arith, used, size, fits))
            (subst (λ (k : ℕ). IsSpread k (drop n (x ∷ xs)) rest.more) (omega (arith, fits))
              rest.spread);
    }

-- A write that begins at a full block or behind the last one, wherever in it the offset is, ends within
-- its fuel, and leaves every block as it was: the bytes go to new blocks at the end.
pub write_loop_appends :
    (fuel : ℕ) (bs : List Block) (at offset : ℕ) (x : Option ℕ) (xs : Cells)
    → NeedsBlock bs at
    → length (x ∷ xs) ≤ fuel
    → EndedBehind bs offset (x ∷ xs) (write_loop fuel bs at offset (x ∷ xs))
unfolding Rest
write_loop_appends zero bs at offset x xs needs enough = absurd (omega arith)
write_loop_appends (suc fuel) bs at offset x xs needs enough =
    elim (dec_lt (block_size - offset % block_size) (length (x ∷ xs))) [
      | no ge ↦ appends_last fuel bs at offset x xs needs (omega (arith, ge))
      | yes lt ↦
          (let n = block_size - offset % block_size in
            let b = write_into new_block (offset % block_size) (take n (x ∷ xs)) in
            let size : length (take n (x ∷ xs)) ≡ n = omega (arith, length-take n (x ∷ xs), lt) in
            let used =
              (new_block-written (offset % block_size) (take n (x ∷ xs)) (omega (arith, size))).1 in
            let (y, ys, e) = drop_cons n (x ∷ xs) lt in
            appends_next fuel bs at offset n x xs needs (omega arith) lt (
              subst (λ (zs : Cells). Rest fuel bs b (offset + n) zs) (sym e)
                (write_loop_appends fuel (bs ++ b ∷ []) (length bs) (offset + n) y ys
                  (inr (b, get_elem?-last bs b, omega (arith, used, size)))
                  (omega (arith, ap length e, length-drop n (x ∷ xs), enough)))))
    ]
