-- ===== src/UserFs/Block/Splice.antt =====
-- hw3/userfs.c: laws of the copy into a block's memory.
use Prim.Native.Nat.{max}
use system_programming_hw.Base.{
  ℕ, zero, suc, ◌+◌, ◌≤◌, ◌≡◌, refl, ap, arith, [], ◌∷◌, ◌++◌, length, take, drop, take_all,
}
use system_programming_hw.UserFs.Block.{Cells, paste, splice}

length-paste : (m xs : Cells) → length (paste m xs) ≡ max (length m) (length xs)
unfolding paste
length-paste [] xs = omega arith
length-paste (c ∷ m) [] = omega arith
length-paste (c ∷ m) (x ∷ xs) = omega (arith, length-paste m xs)

pub length-splice :
    (m : Cells) (i : ℕ) (xs : Cells)
    → i ≤ length m
    → length (splice m i xs) ≡ max (length m) (i + length xs)
unfolding splice
length-splice m zero xs h = omega (arith, length-paste m xs)
length-splice [] (suc i) xs h = absurd (omega arith)
length-splice (c ∷ m) (suc i) xs h = omega (arith, length-splice m i xs (omega arith))

paste-nil : (m : Cells) → paste m [] ≡ m
unfolding paste
paste-nil [] = refl
paste-nil (c ∷ m) = refl

take-paste :
    (o n : ℕ) (m xs : Cells)
    → o ≡ max n (length xs)
    → n ≤ length m
    → length xs ≤ length m
    → take o (paste m xs) ≡ paste (take n m) xs
unfolding paste
take-paste o n m [] e h k =
    let e' : o ≡ n = omega arith in rw (paste-nil m, paste-nil (take n m), e')
take-paste o n [] (x ∷ xs) e h k = absurd (omega arith)
take-paste zero n (c ∷ m) (x ∷ xs) e h k = absurd (omega arith)
take-paste (suc o) zero (c ∷ m) (x ∷ xs) e h k =
    ap (◌∷◌ x) (take-paste o zero m xs (omega arith) (omega arith) (omega arith))
take-paste (suc o) (suc n) (c ∷ m) (x ∷ xs) e h k =
    ap (◌∷◌ x) (take-paste o n m xs (omega arith) (omega arith) (omega arith))

-- The first bytes after a copy inside the memory: the copy into the first bytes.
pub take-splice :
    (o n : ℕ) (m : Cells) (i : ℕ) (xs : Cells)
    → o ≡ max n (i + length xs)
    → i ≤ n
    → n ≤ length m
    → i + length xs ≤ length m
    → take o (splice m i xs) ≡ splice (take n m) i xs
unfolding splice
take-splice o n m zero xs e h k l =
    let e' : o ≡ max n (length xs) = omega arith in take-paste o n m xs e' k (omega arith)
take-splice o n [] (suc i) xs e h k l = absurd (omega arith)
take-splice zero n (c ∷ m) (suc i) xs e h k l = absurd (omega arith)
take-splice (suc o) zero (c ∷ m) (suc i) xs e h k l = absurd (omega arith)
take-splice (suc o) (suc n) (c ∷ m) (suc i) xs e h k l =
    ap (◌∷◌ c) (take-splice o n m i xs (omega arith) (omega arith) (omega arith) (omega arith))

paste_over : (m xs : Cells) → length m ≤ length xs → paste m xs ≡ xs
unfolding paste
paste_over [] xs h = refl
paste_over (c ∷ m) [] h = absurd (omega arith)
paste_over (c ∷ m) (x ∷ xs) h = ap (◌∷◌ x) (paste_over m xs (omega arith))

-- A copy to the end, or past it, keeps only what stands in front of it.
pub splice_over :
    (m : Cells) (i : ℕ) (xs : Cells)
    → i ≤ length m
    → length m ≤ i + length xs
    → splice m i xs ≡ take i m ++ xs
unfolding splice
splice_over m zero xs h k = paste_over m xs (omega arith)
splice_over [] (suc i) xs h k = absurd (omega arith)
splice_over (c ∷ m) (suc i) xs h k = ap (◌∷◌ c) (splice_over m i xs (omega arith) (omega arith))

-- A copy behind the front part.
pub splice-append :
    (front m : Cells) (i j : ℕ) (xs : Cells)
    → j ≡ length front + i
    → splice (front ++ m) j xs ≡ front ++ splice m i xs
unfolding splice
splice-append [] m i j xs e = let e' : j ≡ i = omega arith in rw e'
splice-append (c ∷ front) m i zero xs e = absurd (omega arith)
splice-append (c ∷ front) m i (suc j) xs e = ap (◌∷◌ c) (splice-append front m i j xs (omega arith))

take-paste_new : (m xs : Cells) → take (length xs) (paste m xs) ≡ xs
unfolding paste
take-paste_new [] xs = take_all (length xs) xs (omega arith)
take-paste_new (c ∷ m) [] = refl
take-paste_new (c ∷ m) (x ∷ xs) = ap (◌∷◌ x) (take-paste_new m xs)

-- What is copied is there.
pub take-drop-splice :
    (m : Cells) (i : ℕ) (xs : Cells) → i ≤ length m → take (length xs) (drop i (splice m i xs)) ≡ xs
unfolding splice
take-drop-splice m zero xs h = take-paste_new m xs
take-drop-splice [] (suc i) xs h = absurd (omega arith)
take-drop-splice (c ∷ m) (suc i) xs h = take-drop-splice m i xs (omega arith)
