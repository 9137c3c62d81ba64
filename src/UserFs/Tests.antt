-- ===== src/UserFs/Tests.antt =====
-- hw3/userfs.c: runs at small inputs, and the theorems at concrete ones.
use Prim.Native.Char.{code}
use Prim.Native.String.{String}
use system_programming_hw.Base.{ℕ, Option, some, [], ◌∷◌, Bytes, Checked, ok, ◌≡◌, refl, map, ◌>>=◌}
use system_programming_hw.UserFs.Block.{Cells}
use system_programming_hw.UserFs.State.{Fs, Call, initial}
use system_programming_hw.UserFs.Open.{ufs_open}
use system_programming_hw.UserFs.Transfer.{ufs_write, ufs_read}
use system_programming_hw.UserFs.Close.{ufs_delete}
use system_programming_hw.UserFs.Resize.{ufs_resize}
use system_programming_hw.Base.{
  List, take, drop, length, replicate, length-replicate, false, inr, arith,
}
use system_programming_hw.UserFs.Block.{Block}
use system_programming_hw.UserFs.Block.Contents.{contents}
use system_programming_hw.UserFs.State.{File, FileDesc, no_err, find_desc, deref}
use system_programming_hw.UserFs.Transfer.Writes.{IsFile, Opens, Stored, ufs_write_lem}
use system_programming_hw.UserFs.Transfer.Reads.{moved, ufs_read_lem}
use system_programming_hw.UserFs.Transfer.Shared.{write_then_read, ufs_write-ufs_read}
use system_programming_hw.UserFs.Transfer.Appends.{Misplaced, ufs_write_full_block}
use system_programming_hw.UserFs.Resize.Shrinks.{Cut, ufs_resize-Cut}
use system_programming_hw.UserFs.Links.{IsLinked}
use system_programming_hw.UserFs.Links.Deleted.{StillOpens, ufs_delete-StillOpens}
use system_programming_hw.UserFs.Links.Reach.{Reachable, start, after, opens, Reachable-IsLinked}
use system_programming_hw.Base.{none}

abbrev codes : String → Bytes
codes String.[] = []
codes (String.◌∷◌ c s) = code c ∷ codes s

abbrev cells : String → Cells
cells s = map some (codes s)

abbrev value : {A : Type 0} → Call A → Checked (Option A)
value c = do (a, fs) ← c; ok a

-- Two descriptors of one file: the second reads what the first has written.
shared : Call Cells
shared = do
  (a, fs₁) ← ufs_open (codes "f") 1 initial
  (b, fs₂) ← ufs_open (codes "f") 0 fs₁
  (n, fs₃) ← ufs_write 1 (cells "hello") fs₂
  (m, fs₄) ← ufs_delete (codes "f") fs₃
  ufs_read 2 4 fs₄

runs_shared : value shared ≡ ok (some (cells "hell"))
unfolding shared ufs_open ufs_write ufs_delete ufs_read initial
runs_shared = refl

-- The byte at the front of a full block is written, and the old one is read back.
overwritten : Call Cells
overwritten = do
  (a, fs₁) ← ufs_open (codes "f") 1 initial
  (b, fs₂) ← ufs_open (codes "f") 0 fs₁
  (n, fs₃) ← ufs_resize 1 512 fs₂
  (m, fs₄) ← ufs_write 1 (cells "x") fs₃
  ufs_read 2 1 fs₄

runs_overwritten : value overwritten ≡ ok (some (some 0 ∷ []))
unfolding overwritten ufs_open ufs_write ufs_resize ufs_read initial
runs_overwritten = refl

-- A file with two descriptors that stand at the same offset.
abbrev file_of : List Block → ℕ → File
file_of bs size = record {
  address = 0;
  blocks = bs;
  refs = 2;
  is_ghost = false;
  size = size;
  name = codes "f";
}

abbrev at_offset : ℕ → FileDesc
at_offset o = record { file = 0; open_flags = 9; offset = o }

abbrev opened_twice : File → ℕ → Fs
opened_twice f o = record {
  files = f ∷ [];
  descriptors = some (at_offset o) ∷ some (at_offset o) ∷ [];
  used = 2;
  error_code = no_err;
  next_address = 1;
}

abbrev sevens : ℕ → Block
sevens n = record { memory = replicate 512 (some 7); occupied = n }

abbrev empty_file : File
empty_file = file_of [] 0

abbrev short_file : File
short_file = file_of (sevens 3 ∷ []) 3

abbrev full_file : File
full_file = file_of (sevens 512 ∷ []) 512

first_Opens : (f : File) (o : ℕ) → f.address ≡ 0 → Opens (opened_twice f o) 1 (at_offset o) f
unfolding find_desc deref
first_Opens f o e = record { found = refl; points = rw e refl }

second_Opens : (f : File) (o : ℕ) → f.address ≡ 0 → Opens (opened_twice f o) 2 (at_offset o) f
unfolding find_desc deref
second_Opens f o e = record { found = refl; points = rw e refl }

empty_file-IsFile : IsFile empty_file
empty_file-IsFile = record { packed = tt; sized = refl }

short_file-IsFile : IsFile short_file
unfolding replicate
short_file-IsFile = record {
  packed = record {
    allocated = length-replicate {A = Option ℕ} 512 (some 7);
    inside = omega arith;
  };
  sized = refl;
}

ufs_write_lem_example :
    Stored
      (opened_twice empty_file 0)
      1
      (at_offset 0)
      empty_file
      (some 1 ∷ some 2 ∷ [])
      (ufs_write 1 (some 1 ∷ some 2 ∷ []) (opened_twice empty_file 0))
ufs_write_lem_example =
    ufs_write_lem (opened_twice empty_file 0) 1 (at_offset 0) empty_file (some 1) (some 2 ∷ [])
      (first_Opens empty_file 0 refl) (inr refl) empty_file-IsFile (omega arith, omega arith)
      (omega arith)

ufs_read_lem_example :
    ufs_read 2 5 (opened_twice short_file 1)
    ≡ ok (
      some (take 5 (drop 1 (contents short_file.blocks))),
      moved
          (opened_twice short_file 1)
          2
          (at_offset 1)
          (length (take 5 (drop 1 (contents short_file.blocks)))),
    )
ufs_read_lem_example =
    ufs_read_lem (opened_twice short_file 1) 2 5 (at_offset 1) short_file
      (second_Opens short_file 1 refl) (inr refl) short_file-IsFile (omega arith)

ufs_write-ufs_read_example :
    write_then_read 1 2 (some 1 ∷ some 2 ∷ []) (opened_twice empty_file 0)
    ≡ ok (some (some 1 ∷ some 2 ∷ []))
ufs_write-ufs_read_example =
    ufs_write-ufs_read (opened_twice empty_file 0) 1 2 (at_offset 0) (at_offset 0) empty_file
      (some 1) (some 2 ∷ []) (λ e. cc e) (first_Opens empty_file 0 refl)
      (second_Opens empty_file 0 refl) (inr refl) (inr refl) refl empty_file-IsFile
      (omega arith, omega arith) (omega arith)

ufs_write_full_block_example :
    Misplaced
      (opened_twice full_file 5)
      1
      (at_offset 5)
      full_file
      (some 1 ∷ [])
      (ufs_write 1 (some 1 ∷ []) (opened_twice full_file 5))
ufs_write_full_block_example =
    ufs_write_full_block (opened_twice full_file 5) 1 (at_offset 5) full_file (sevens 512) (some 1)
      [] (first_Opens full_file 5 refl) (inr refl) refl refl (omega arith)

-- The state after a file was made and opened.
abbrev made : Fs
made = record {
  files = record empty_file { refs = 1 } ∷ [];
  descriptors = some (at_offset 0) ∷ replicate 9 none;
  used = 1;
  error_code = no_err;
  next_address = 1;
}

made_returned : ufs_open (codes "f") 1 initial ≡ ok (some 1, made)
unfolding ufs_open initial replicate
made_returned = refl

made-Reachable : Reachable made
made-Reachable = after start (opens (codes "f") 1 (some 1) made_returned)

Reachable-IsLinked_example : IsLinked made
Reachable-IsLinked_example = Reachable-IsLinked made made-Reachable

made-IsLinked : IsLinked made
made-IsLinked = Reachable-IsLinked made made-Reachable

ufs_delete-StillOpens_example :
    StillOpens 1 (at_offset 0) (record empty_file { refs = 1 }) (ufs_delete (codes "f") made)
unfolding replicate
ufs_delete-StillOpens_example =
    ufs_delete-StillOpens made (codes "f") 1 (at_offset 0) (record empty_file { refs = 1 })
      made-IsLinked (unfold find_desc in refl) (unfold deref in refl)

ufs_resize-Cut_example :
    Cut (opened_twice short_file 3) short_file 2 (ufs_resize 1 2 (opened_twice short_file 3))
ufs_resize-Cut_example =
    ufs_resize-Cut (opened_twice short_file 3) 1 2 (at_offset 3) short_file
      (first_Opens short_file 3 refl) short_file-IsFile refl (omega arith)
