-- ===== src/UserFs/State.antt =====
-- hw3/userfs.c and userfs.h: the global state. The list of files is a list, and a pointer to a file
-- is the number that its allocation was given; a number that no file of the list has is dangling.
pub mod Table
use system_programming_hw.Base.{
  ℕ, suc, ◌+◌, ◌-◌, ◌/◌, ◌%◌, Bool, true, false, not, ◌&&◌, ◌||◌, Option, none, some, List, [], ◌∷◌,
  ◌++◌, Bytes, length, get_elem?, ltb, leb, ◌==◌, if◌then◌else◌, Checked, ok, crash,
}
use system_programming_hw.UserFs.Block.{Block}

-- `enum ufs_error_code`
pub data ErrorCode : Type 0 where
  no_err no_file no_mem not_implemented no_permission : ErrorCode

-- `enum open_flags`: bits of a number
abbrev pub create_flag : ℕ
create_flag = 1

abbrev pub read_only : ℕ
read_only = 2

abbrev pub write_only : ℕ
write_only = 4

abbrev pub read_write : ℕ
read_write = 8

-- `flags & bit`, and `flags | bit`
abbrev pub has_flag : ℕ → ℕ → Bool
has_flag flags bit = flags / bit % 2 == 1

abbrev pub with_flag : ℕ → ℕ → ℕ
with_flag flags bit = if has_flag flags bit then flags else flags + bit

-- `struct file`; `address` is what a pointer to it holds.
pub record File : Type 0 where
  pub address : ℕ
  pub blocks : List Block
  pub refs : ℕ
  pub is_ghost : Bool
  pub size : ℕ
  pub name : Bytes

-- `struct filedesc`
pub record FileDesc : Type 0 where
  pub file : ℕ
  pub open_flags : ℕ
  pub offset : ℕ

-- The globals; the capacity of the descriptor array is its length. `next_address` is the next
-- result of `malloc` for a file.
pub record Fs : Type 0 where
  pub files : List File
  pub descriptors : List (Option FileDesc)
  pub used : ℕ
  pub error_code : ErrorCode
  pub next_address : ℕ

unfoldable pub initial : Fs
initial = record { files = []; descriptors = []; used = 0; error_code = no_err; next_address = 0 }

-- A call returns -1, here `none`, or a number, or it goes wrong.
abbrev pub Call : Type 0 → Type 0
Call A = Checked (Option A × Fs)

-- `ufs_error_code = e; return -1;`
abbrev pub refuse : {A : Type 0} → Fs → ErrorCode → Call A
refuse fs e = ok (none, record fs { error_code = e })

-- `strcmp(a, b) == 0`
unfoldable pub same_name : Bytes → Bytes → Bool
same_name [] [] = true
same_name (a ∷ as') (b ∷ bs) = a == b && same_name as' bs
same_name _ _ = false

-- The loop over `file_list` for a file of this name that is not deleted.
unfoldable pub find_name : Bytes → List File → Option File
unfolding same_name
find_name name [] = none
find_name name (f ∷ fs) =
    if not f.is_ghost && same_name f.name name then some f else find_name name fs

-- The file that a pointer points to.
unfoldable pub deref : ℕ → List File → Option File
deref p [] = none
deref p (f ∷ fs) = if f.address == p then some f else deref p fs

-- A write through a pointer.
unfoldable pub update : File → List File → List File
update g [] = []
update g (f ∷ fs) = if f.address == g.address then g ∷ fs else f ∷ update g fs

-- `_ufs_unlink_file`; the memory of the file is freed next.
unfoldable pub unlink : ℕ → List File → List File
unlink p [] = []
unlink p (f ∷ fs) = if f.address == p then fs else f ∷ unlink p fs

slot : Option (Option FileDesc) → Option FileDesc
slot none = none
slot (some d) = d

-- `file_descriptors[fd - 1]` behind its checks. A negative descriptor is refused like 0.
unfoldable pub find_desc : Fs → ℕ → Option FileDesc
unfolding slot
find_desc fs fd =
    if ltb fd 1 || leb (length fs.descriptors) (fd - 1)
    then none
    else slot (get_elem? fs.descriptors (fd - 1))
