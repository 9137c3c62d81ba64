-- ===== src/UserFs/Block/Contents.antt =====
-- hw3/userfs.c: the bytes that a chain of blocks holds, and the chains without a gap.
use system_programming_hw.Base.{
  ◌*◌, ◌≤◌, ◌≡◌, refl, ap, arith, List, [], ◌∷◌, ◌++◌, append_assoc, ◌⊎◌, inl, inr, length,
  length-append, length-take, take,
}
use system_programming_hw.UserFs.Block.{block_size, Cells, Block}

-- The bytes of a file, in order.
abbrev pub contents : List Block → Cells
contents [] = []
contents (b ∷ bs) = take b.occupied b.memory ++ contents bs

-- A block as the program allocates it.
pub record IsBlock (b : Block) : Type 0 where
  pub allocated : length b.memory ≡ block_size
  pub inside : b.occupied ≤ block_size

pub record IsFull (b : Block) : Type 0 where
  pub allocated : length b.memory ≡ block_size
  pub full : b.occupied ≡ block_size

abbrev pub AllFull : List Block → Type 0
AllFull [] = Unit
AllFull (b ∷ bs) = IsFull b × AllFull bs

-- Every block but the last is full.
abbrev pub IsPacked : List Block → Type 0
IsPacked [] = Unit
IsPacked (b ∷ []) = IsBlock b
IsPacked (b ∷ c ∷ bs) = IsFull b × IsPacked (c ∷ bs)

pub AllFull-IsPacked :
    (bs : List Block) (b : Block) → AllFull bs → IsBlock b → IsPacked (bs ++ b ∷ [])
AllFull-IsPacked [] b f h = h
AllFull-IsPacked (c ∷ []) b f h = (f.0, h)
AllFull-IsPacked (c ∷ d ∷ bs) b f h = (f.0, AllFull-IsPacked (d ∷ bs) b f.1 h)

pub AllFull-append : (bs : List Block) (b : Block) → AllFull bs → IsFull b → AllFull (bs ++ b ∷ [])
AllFull-append [] b f h = (h, tt)
AllFull-append (c ∷ bs) b f h = (f.0, AllFull-append bs b f.1 h)

pub contents-append : (bs cs : List Block) → contents (bs ++ cs) ≡ contents bs ++ contents cs
contents-append [] cs = refl
contents-append (b ∷ bs) cs = rw (contents-append bs cs, append_assoc)

pub length-contents : (bs : List Block) → AllFull bs → length (contents bs) ≡ block_size * length bs
length-contents [] f = refl
length-contents (b ∷ bs) f = omega (
  arith,
  length-append (take b.occupied b.memory) (contents bs),
  length-take b.occupied b.memory,
  length-contents bs f.1,
  f.0.allocated,
  f.0.full,
)

-- A chain without a gap is empty, or full blocks and one more.
abbrev pub Ended : List Block → Type 0
Ended bs =
    (bs ≡ [])
    ⊎ ((fulls : List Block) × (b : Block) × AllFull fulls × IsBlock b × (bs ≡ fulls ++ b ∷ []))

pub IsPacked-Ended : (bs : List Block) → IsPacked bs → Ended bs
IsPacked-Ended [] h = inl refl
IsPacked-Ended (b ∷ []) h = inr ([], b, tt, h, refl)
IsPacked-Ended (b ∷ c ∷ bs) (f, h) = elim (IsPacked-Ended (c ∷ bs) h) [
  | inl e ↦ absurd (cc e)
  | inr (fulls, d, fs, k, e) ↦ inr (b ∷ fulls, d, (f, fs), k, ap (◌∷◌ b) e)
]
