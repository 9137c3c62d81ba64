-- ===== src/UserFs/Resize/Shrinks.antt =====
-- hw3/userfs.c, `ufs_resize` to a smaller size against the contents of a file without a gap.
use mathlib.Core.Path.{subst}
use system_programming_hw.Base.{
  some, ℕ, zero, suc, ◌+◌, ◌-◌, ◌*◌, ◌%◌, ◌≤◌, ◌<◌, ◌≡◌, ◌≢◌, refl, sym, ap, ◌∙◌, arith, List, [],
  ◌∷◌, ◌++◌, append-nil, length, length-append, length-take, take, take-append_le, take-append_ge,
  map, ok, ℕ_discrete,
}
use system_programming_hw.UserFs.Block.{block_size, Block}
use system_programming_hw.UserFs.Block.Contents.{contents, IsBlock, IsFull, IsPacked}
use system_programming_hw.UserFs.Block.Read.{take-take, IsFull-IsBlock}
use system_programming_hw.UserFs.State.{File, FileDesc, Fs, Call, update}
use system_programming_hw.UserFs.Resize.{
  block_count, last_occupied, occupy_last, clamp, shrink_blocks, shrink, resize_file, resize_desc,
  ufs_resize,
}
use system_programming_hw.UserFs.Transfer.Writes.{IsFile, Opens}

cons-IsPacked : (b : Block) (bs : List Block) → IsFull b → IsPacked bs → IsPacked (b ∷ bs)
cons-IsPacked b [] f h = IsFull-IsBlock f
cons-IsPacked b (c ∷ bs) f h = (f, h)

-- The blocks cut off, without a gap and with the first bytes.
abbrev Trimmed : List Block → ℕ → List Block → Type 0
Trimmed bs n cut = IsPacked cut × (contents cut ≡ take n (contents bs))

trim_first :
    (b : Block) (bs : List Block) (m : ℕ)
    → IsBlock b
    → m ≤ b.occupied
    → Trimmed (b ∷ bs) m (record b { occupied = m } ∷ [])
trim_first b bs m h le = (
  record { allocated = h.allocated; inside = omega (arith, h.inside) },
  append-nil (take m b.memory)
      ∙ sym (take-take m m b.occupied b.memory (omega arith))
      ∙ sym (
          take-append_le m (take b.occupied b.memory) (contents bs)
            (omega (arith, length-take b.occupied b.memory, h.allocated, h.inside))),
)

trim_blocks :
    (k n m : ℕ) (bs : List Block)
    → IsPacked bs
    → n ≡ block_size * k + m
    → 0 < m
    → m ≤ block_size
    → n ≤ length (contents bs)
    → k < length bs
    → Trimmed bs n (occupy_last m (take (suc k) bs))
unfolding occupy_last
trim_blocks k n m [] h e pos le within lt = absurd (omega arith)
trim_blocks zero n m (b ∷ []) h e pos le within lt =
    let e' : m ≡ n = omega arith in
    subst (λ i. Trimmed (b ∷ []) i (record b { occupied = m } ∷ [])) e'
      (trim_first b [] m h (
        omega (
          arith,
          length-append (take b.occupied b.memory) [],
          length-take b.occupied b.memory,
          within,
        )))
trim_blocks zero n m (b ∷ c ∷ bs) (f, h) e pos le within lt =
    let e' : m ≡ n = omega arith in
    subst (λ i. Trimmed (b ∷ c ∷ bs) i (record b { occupied = m } ∷ [])) e'
      (trim_first b (c ∷ bs) m (IsFull-IsBlock f) (omega (arith, f.full)))
trim_blocks (suc k) n m (b ∷ []) h e pos le within lt = absurd (omega arith)
trim_blocks (suc k) n m (b ∷ c ∷ bs) (f, h) e pos le within lt =
    let size : length (take b.occupied b.memory) ≡ block_size =
      omega (arith, length-take b.occupied b.memory, f.allocated, f.full) in
    let (p, q) =
      trim_blocks k (n - block_size) m (c ∷ bs) h (omega arith) pos le
        (omega (arith, within, size, length-append (take b.occupied b.memory) (contents (c ∷ bs))))
        (omega arith) in
    (
      cons-IsPacked b (occupy_last m (take (suc k) (c ∷ bs))) f p,
      ap (λ m. take b.occupied b.memory ++ m) q
          ∙ sym (
              take-append_ge n (n - block_size) (take b.occupied b.memory) (contents (c ∷ bs))
                (omega (arith, size, e, pos))),
    )

-- What a file that is cut off looks like, with the descriptors behind its end moved to it.
pub record Cut (fs : Fs) (f : File) (new_size : ℕ) (r : Call ℕ) : Type 0 where
  pub after : File
  pub is_file : IsFile after
  pub text_is : contents after.blocks ≡ take new_size (contents f.blocks)
  pub same : after ≡ record f { blocks = after.blocks; size = after.size }
  pub returned :
      r
      ≡ ok (
        some 0,
        record fs {
          files = update after fs.files;
          descriptors = map (clamp f.address new_size) fs.descriptors;
        },
      )

last_occupied_full : (n : ℕ) → n % block_size ≡ 0 → last_occupied n ≡ block_size
last_occupied_full n e = ground arith

last_occupied_part : (n : ℕ) → n % block_size ≢ 0 → last_occupied n ≡ n % block_size
last_occupied_part n ne = ground arith

-- A size is full blocks, and the part of the last one.
last_occupied_lem :
    (n : ℕ)
    → 0 < n
    → (n ≡ block_size * (block_count n - 1) + last_occupied n)
      × (0 < last_occupied n)
      × (last_occupied n ≤ block_size)
last_occupied_lem n pos = elim (ℕ_discrete (n % block_size) 0) [
  | yes e ↦
      let l = last_occupied_full n e in
      (omega (arith, l, e, pos), omega (arith, l), omega (arith, l))
  | no ne ↦
      let l = last_occupied_part n ne in
      let some_left : 0 < n % block_size = omega (arith, ne) in
      (omega (arith, l, some_left), omega (arith, l, some_left), omega (arith, l))
]

resize_file_go :
    (fs : Fs) (new_size : ℕ) (f : File)
    → new_size < f.size
    → resize_file fs new_size (some f) ≡ shrink fs f new_size
unfolding resize_file
resize_file_go fs new_size f lt = ground arith

ufs_resize_go :
    (fs : Fs) (fd new_size : ℕ) (d : FileDesc) (f : File)
    → Opens fs fd d f
    → new_size < f.size
    → ufs_resize fd new_size fs ≡ shrink fs f new_size
unfolding ufs_resize resize_desc
ufs_resize_go fs fd new_size d f opens lt =
    ap (resize_desc fs new_size) opens.found
    ∙ ap (resize_file fs new_size) opens.points
    ∙ resize_file_go fs new_size f lt

shrink_go :
    (fs : Fs) (f : File) (new_size left : ℕ)
    → left + (block_count f.size - block_count new_size) ≡ length f.blocks
    → shrink fs f new_size ≡ shrink_blocks fs f new_size (take left f.blocks)
unfolding shrink
shrink_go fs f new_size left e =
    let e' : length f.blocks - (block_count f.size - block_count new_size) ≡ left =
      omega (arith, e) in
    rw e' (ground arith)

shrink_blocks_go :
    (fs : Fs) (f : File) (new_size : ℕ) (bs : List Block)
    → 0 < length bs
    → shrink_blocks fs f new_size bs
      ≡ ok (
        some 0,
        record fs {
          files =
              update
                (record f { blocks = occupy_last (last_occupied new_size) bs; size = new_size })
                fs.files;
          descriptors = map (clamp f.address new_size) fs.descriptors;
        },
      )
unfolding shrink_blocks
shrink_blocks_go fs f new_size [] pos = absurd (omega arith)
shrink_blocks_go fs f new_size (b ∷ bs) pos = refl

shrink_blocks_none :
    (fs : Fs) (f : File)
    → shrink_blocks fs f 0 []
      ≡ ok (
        some 0,
        record fs {
          files = update (record f { blocks = []; size = 0 }) fs.files;
          descriptors = map (clamp f.address 0) fs.descriptors;
        },
      )
unfolding shrink_blocks
shrink_blocks_none fs f = refl

-- A resize to a smaller size of a file without a gap or an empty block, whatever the descriptor was
-- opened for: the file keeps its first bytes, as many as the new size, and every descriptor of the
-- file that stands behind the new end moves to it.
pub ufs_resize-Cut :
    (fs : Fs) (fd new_size : ℕ) (d : FileDesc) (f : File)
    → Opens fs fd d f
    → IsFile f
    → length f.blocks ≡ block_count f.size
    → new_size < f.size
    → Cut fs f new_size (ufs_resize fd new_size fs)
ufs_resize-Cut fs fd zero d f opens h count lt = record {
  after = record f { blocks = []; size = 0 };
  is_file = record { packed = tt; sized = refl };
  text_is = refl;
  same = refl;
  returned =
      ufs_resize_go fs fd 0 d f opens lt
      ∙ shrink_go fs f 0 0 (omega (arith, count))
      ∙ shrink_blocks_none fs f;
}
ufs_resize-Cut fs fd (suc n) d f opens h count lt =
    let new_size = suc n in
    let k = block_count new_size - 1 in
    let (size_is, pos, le) = last_occupied_lem new_size (omega arith) in
    let (packed, text) =
      trim_blocks k new_size (last_occupied new_size) f.blocks h.packed size_is pos le
        (omega (arith, h.sized, lt)) (omega (arith, count, lt)) in
    record {
      after = record f {
        blocks = occupy_last (last_occupied new_size) (take (suc k) f.blocks);
        size = new_size;
      };
      is_file = record {
        packed = packed;
        sized =
            omega (arith, ap length text, length-take new_size (contents f.blocks), h.sized, lt);
      };
      text_is = text;
      same = refl;
      returned =
          ufs_resize_go fs fd new_size d f opens lt
          ∙ shrink_go fs f new_size (suc k) (omega (arith, count, lt))
          ∙ shrink_blocks_go fs f new_size (take (suc k) f.blocks)
              (omega (arith, length-take (suc k) f.blocks, count, lt));
    }
