-- ===== src/UserFs/Block/Read.antt =====
-- hw3/userfs.c, the loop of `ufs_read` over a chain without a gap.
use Prim.Native.Nat.{min}
use system_programming_hw.Base.{
  Option, ℕ, zero, suc, ◌+◌, ◌-◌, ◌%◌, ◌≤◌, ◌<◌, ◌≡◌, refl, sym, ap, ◌∙◌, arith, List, [], ◌∷◌,
  ◌++◌, append-nil, length, length-append, length-take, length-drop, take, drop, take_all, drop_all,
  drop-append, take-append_le, take-append_ge, inl, inr, dec_lt, ◌⊎◌,
}
use system_programming_hw.UserFs.Block.{block_size, Cells, Block, read_loop}
use system_programming_hw.UserFs.Block.Contents.{contents, IsBlock, IsFull, IsPacked}

pub take-take : (n k o : ℕ) (m : Cells) → n ≡ min o k → take k (take o m) ≡ take n m
take-take zero zero o m h = refl
take-take (suc n) zero o m h = absurd (omega arith)
take-take zero (suc k) zero m h = refl
take-take (suc n) (suc k) zero m h = absurd (omega arith)
take-take zero (suc k) (suc o) m h = absurd (omega arith)
take-take (suc n) (suc k) (suc o) [] h = refl
take-take (suc n) (suc k) (suc o) (c ∷ m) h = ap (◌∷◌ c) (take-take n k o m (omega arith))

-- The next bytes of a block, at most `k`: from the part that is occupied.
take-drop-take :
    (n k i o : ℕ) (m : Cells) → n ≡ min (o - i) k → take k (drop i (take o m)) ≡ take n (drop i m)
take-drop-take n k zero o m h = take-take n k o m (omega arith)
take-drop-take n k (suc i) zero m h =
    let e : n ≡ 0 = omega arith in rw e (take_all k [] (omega arith))
take-drop-take n k (suc i) (suc o) [] h =
    take_all k [] (omega arith) ∙ sym (take_all n [] (omega arith))
take-drop-take n k (suc i) (suc o) (c ∷ m) h = take-drop-take n k i o m (omega arith)

-- `bytes_to_copy` from offset `offset`, and the rest of the loop.
read_loop_go :
    (b : Block) (bs : List Block) (offset want n : ℕ)
    → 0 < want
    → offset % block_size < b.occupied
    → n ≡ min (b.occupied - offset % block_size) want
    → read_loop (b ∷ bs) offset want ≡ (
      take n (drop (offset % block_size) b.memory) ++ (read_loop bs (offset + n) (want - n)).0,
      (read_loop bs (offset + n) (want - n)).1,
    )
unfolding read_loop
read_loop_go b bs offset want n h k e = rw e (ground arith)

read_loop_stop :
    (b : Block) (bs : List Block) (offset want : ℕ)
    → ((want ≡ 0) ⊎ (b.occupied ≤ offset % block_size))
    → read_loop (b ∷ bs) offset want ≡ ([], offset)
unfolding read_loop
read_loop_stop b bs offset want h = ground arith

read_loop_zero : (bs : List Block) (offset : ℕ) → read_loop bs offset 0 ≡ ([], offset)
read_loop_zero [] offset = unfold read_loop in refl
read_loop_zero (b ∷ bs) offset = read_loop_stop b bs offset 0 (inl refl)

-- The outcome that the contents ask for.
abbrev Reads : List Block → ℕ → ℕ → Cells × ℕ → Type 0
Reads bs offset want r =
    (r.0 ≡ take want (drop (offset % block_size) (contents bs))) × (r.1 ≡ offset + length r.0)

drop_occupied :
    (i : ℕ) (b : Block) (rest : Cells)
    → IsBlock b
    → i ≤ b.occupied
    → drop i (take b.occupied b.memory ++ rest) ≡ drop i (take b.occupied b.memory) ++ rest
drop_occupied i b rest h k =
    drop-append i (take b.occupied b.memory) rest
      (omega (arith, length-take b.occupied b.memory, h.allocated, h.inside))

-- The bytes of one block, and none behind it.
read_within :
    (b : Block) (bs : List Block) (offset want n : ℕ)
    → IsBlock b
    → 0 < want
    → offset % block_size < b.occupied
    → n ≡ min (b.occupied - offset % block_size) want
    → read_loop bs (offset + n) (want - n) ≡ ([], offset + n)
    → take want (drop (offset % block_size) (contents (b ∷ bs)))
      ≡ take want (drop (offset % block_size) (take b.occupied b.memory))
    → Reads (b ∷ bs) offset want (read_loop (b ∷ bs) offset want)
read_within b bs offset want n h pos lt e stops within =
    rw (read_loop_go b bs offset want n pos lt e, stops)
      (
        append-nil (take n (drop (offset % block_size) b.memory))
            ∙ sym (take-drop-take n want (offset % block_size) b.occupied b.memory e)
            ∙ sym within,
        rw (append-nil (take n (drop (offset % block_size) b.memory))) (
            omega (
              arith,
              length-take n (drop (offset % block_size) b.memory),
              length-drop (offset % block_size) b.memory,
              h.allocated,
              h.inside,
            )),
      )

-- A block that holds all that is wanted.
read_enough :
    (b : Block) (bs : List Block) (offset want : ℕ)
    → IsBlock b
    → 0 < want
    → want ≤ b.occupied - offset % block_size
    → Reads (b ∷ bs) offset want (read_loop (b ∷ bs) offset want)
read_enough b bs offset want h pos le =
    let none_left : want - want ≡ 0 = omega arith in
    read_within b bs offset want want h pos (omega arith) (omega arith)
      (rw none_left (read_loop_zero bs (offset + want)))
      (ap (take want) (drop_occupied (offset % block_size) b (contents bs) h (omega arith))
        ∙ take-append_le want (drop (offset % block_size) (take b.occupied b.memory)) (contents bs)
            (omega (
              arith,
              length-drop (offset % block_size) (take b.occupied b.memory),
              length-take b.occupied b.memory,
              h.allocated,
              h.inside,
            )))

-- The last block.
read_last :
    (b : Block) (offset want : ℕ)
    → IsBlock b
    → 0 < want
    → offset % block_size < b.occupied
    → Reads (b ∷ []) offset want (read_loop (b ∷ []) offset want)
read_last b offset want h pos lt =
    read_within b [] offset want (min (b.occupied - offset % block_size) want) h pos lt refl
      (unfold read_loop in refl)
      (ap (λ m. take want (drop (offset % block_size) m)) (append-nil (take b.occupied b.memory)))

-- Nothing is left of the last block.
read_behind :
    (b : Block) (offset want : ℕ)
    → IsBlock b
    → b.occupied ≤ offset % block_size
    → Reads (b ∷ []) offset want (read_loop (b ∷ []) offset want)
read_behind b offset want h le =
    rw (read_loop_stop b [] offset want (inr le), append-nil (take b.occupied b.memory))
      (
        rw
            (drop_all (offset % block_size) (take b.occupied b.memory)
              (omega (arith, length-take b.occupied b.memory)))
            (sym (take_all want [] (omega arith))),
        omega arith,
      )

-- A full block that is read to its end: the next byte is the first one of the next block.
read_through :
    (b : Block) (bs : List Block) (offset want n : ℕ)
    → IsFull b
    → n ≡ block_size - offset % block_size
    → n < want
    → Reads bs (offset + n) (want - n) (read_loop bs (offset + n) (want - n))
    → Reads (b ∷ bs) offset want (read_loop (b ∷ bs) offset want)
read_through b bs offset want n f e lt (got, moved) =
    rw
      (read_loop_go b bs offset want n (omega arith) (omega (arith, f.full))
        (omega (arith, f.full)))
      (
        ap (λ m. m ++ (read_loop bs (offset + n) (want - n)).0) front
            ∙ ap (λ m. rest ++ m) (got ∙ ap (λ i. take (want - n) (drop i (contents bs))) aligned)
            ∙ sym (take-append_ge want (want - n) rest (contents bs) (omega (arith, length_rest)))
            ∙ sym (
                ap (take want) (
                  drop_occupied (offset % block_size) b (contents bs)
                    (record { allocated = f.allocated; inside = omega (arith, f.full) })
                    (omega (arith, f.full)))),
        omega (
          arith,
          moved,
          length_rest,
          ap length front,
          length-append (take n (drop (offset % block_size) b.memory))
              (read_loop bs (offset + n) (want - n)).0,
        ),
      )
  where
    rest : Cells
    rest = drop (offset % block_size) (take b.occupied b.memory)

    aligned : (offset + n) % block_size ≡ 0
    aligned = omega arith

    length_rest : length rest ≡ n
    length_rest = omega (
      arith,
      length-drop (offset % block_size) (take b.occupied b.memory),
      length-take b.occupied b.memory,
      f.allocated,
      f.full,
    )

    front : take n (drop (offset % block_size) b.memory) ≡ rest
    front =
        sym (take-drop-take n n (offset % block_size) b.occupied b.memory (omega (arith, f.full)))
        ∙ take_all n rest (omega (arith, length_rest))

pub IsFull-IsBlock : {b : Block} → IsFull b → IsBlock b
IsFull-IsBlock f = record { allocated = f.allocated; inside = omega (arith, f.full) }

-- A read from a chain without a gap gives the bytes of the contents from the offset on, as many as
-- are wanted and there, and moves the offset by their number.
pub read_loop_lem :
    (bs : List Block) (offset want : ℕ)
    → IsPacked bs
    → Reads bs offset want (read_loop bs offset want)
read_loop_lem [] offset want h =
    unfold read_loop in
    (
      rw (drop_all {A = Option ℕ} (offset % block_size) [] (omega arith))
          (sym (take_all want [] (omega arith))),
      omega arith,
    )
read_loop_lem (b ∷ bs) offset zero h =
    rw (read_loop_stop b bs offset 0 (inl refl)) (refl, omega arith)
read_loop_lem (b ∷ []) offset (suc w) h = elim (dec_lt (offset % block_size) b.occupied) [
  | yes lt ↦ read_last b offset (suc w) h (omega arith) lt
  | no ge ↦ read_behind b offset (suc w) h (omega arith)
]
read_loop_lem (b ∷ c ∷ bs) offset (suc w) (f, h) =
    elim (dec_lt (block_size - offset % block_size) (suc w)) [
      | yes lt ↦
          read_through b (c ∷ bs) offset (suc w) (block_size - offset % block_size) f refl lt
            (read_loop_lem (c ∷ bs) _ _ h)
      | no ge ↦
          read_enough b (c ∷ bs) offset (suc w) (IsFull-IsBlock f) (omega arith)
            (omega (arith, f.full))
    ]
