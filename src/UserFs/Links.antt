-- ===== src/UserFs/Links.antt =====
-- hw3/userfs.c: what it means that descriptors and files hang together: the counts of references,
-- the addresses, and the files that are deleted.
pub mod Counts
pub mod Files
pub mod Steps
pub mod Calls
pub mod Opening
pub mod Changes
pub mod Deleted
pub mod Reach
use system_programming_hw.Base.{
  ℕ, zero, suc, ◌+◌, ◌≤◌, ◌<◌, ◌≡◌, ◌≢◌, Bool, true, Option, none, some, List, [], ◌∷◌, ◌==◌,
  if◌then◌else◌, Checked, ok, crash,
}
use system_programming_hw.UserFs.State.{File, FileDesc, Fs, Call, deref}

-- The references of a file at an address.
abbrev pub refs_of : Option File → ℕ
refs_of none = 0
refs_of (some f) = f.refs

-- Whether a place of the table points to the file at `p`, and whether it is taken, as numbers.
abbrev pub points : ℕ → Option FileDesc → ℕ
points p none = 0
points p (some d) = if d.file == p then 1 else 0

abbrev pub taken : Option FileDesc → ℕ
taken none = 0
taken (some d) = 1

abbrev pub count_refs : ℕ → List (Option FileDesc) → ℕ
count_refs p [] = 0
count_refs p (s ∷ table) = points p s + count_refs p table

abbrev pub count_used : List (Option FileDesc) → ℕ
count_used [] = 0
count_used (s ∷ table) = taken s + count_used table

-- No two files have one address.
abbrev pub AllApart : List File → Type 0
AllApart [] = Unit
AllApart (f ∷ files) = (deref f.address files ≡ none) × AllApart files

-- The list of files, where `counts` tells how many descriptors point to an address.
pub record AreLinked (files : List File) (next : ℕ) (counts : ℕ → ℕ) : Type 0 where
  pub apart : AllApart files
  pub fresh : (p : ℕ) → next ≤ p → deref p files ≡ none
  pub ghosts : (p : ℕ) (f : File) → deref p files ≡ some f → f.is_ghost ≡ true → 0 < f.refs
  pub counted : (p : ℕ) → refs_of (deref p files) ≡ counts p

pub record IsLinked (fs : Fs) : Type 0 where
  pub files_linked : AreLinked fs.files fs.next_address (λ p. count_refs p fs.descriptors)
  pub used_is : fs.used ≡ count_used fs.descriptors

-- A call that does not go wrong, and leaves the state linked.
abbrev pub Keeps : {A : Type 0} → Call A → Type 0
Keeps (ok (r, fs)) = IsLinked fs
Keeps crash = ⊥

-- The same of a call that may go wrong.
abbrev pub KeepsIfOk : {A : Type 0} → Call A → Type 0
KeepsIfOk (ok (r, fs)) = IsLinked fs
KeepsIfOk crash = Unit
