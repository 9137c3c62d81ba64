-- ===== src/UserFs/Open.antt =====
-- hw3/userfs.c, `ufs_open`.
use system_programming_hw.Base.{
  ℕ, ◌+◌, false, not, ◌&&◌, Option, none, some, List, [], ◌∷◌, ◌++◌, Bytes, length, set, replicate,
  ltb, leb, if◌then◌else◌, ok,
}
use system_programming_hw.UserFs.State.{
  no_file, not_implemented, create_flag, read_only, write_only, read_write, has_flag, with_flag,
  File, FileDesc, Fs, Call, refuse, find_name, update,
}

-- The flags with the default added.
unfoldable pub opened_flags : ℕ → ℕ
opened_flags flags =
    if not (has_flag flags read_only) && not (has_flag flags write_only)
    then with_flag flags read_write
    else flags

-- A new file in front of the list.
unfoldable pub create_file : Fs → Bytes → Fs × File
create_file fs name =
    let f : File = record {
      address = fs.next_address;
      blocks = [];
      refs = 0;
      is_ghost = false;
      size = 0;
      name = name;
    } in
    (record fs { files = f ∷ fs.files; next_address = fs.next_address + 1 }, f)

-- The first array of descriptors.
unfoldable pub init_descriptors : Fs → Fs
unfolding replicate
init_descriptors fs =
    if leb (length fs.descriptors) 0
    then record fs { descriptors = replicate 10 none; used = 0 }
    else fs

-- The first free place, from index `i` on.
unfoldable pub free_slot : ℕ → List (Option FileDesc) → Option ℕ
free_slot i [] = none
free_slot i (none ∷ ds) = some i
free_slot i (some d ∷ ds) = free_slot (i + 1) ds

-- The place for the descriptor, with the array doubled when it is full.
unfoldable pub find_slot : Fs → Option ℕ × Fs
unfolding free_slot replicate
find_slot fs = if ltb fs.used (length fs.descriptors) then (free_slot 0 fs.descriptors, fs) else (
  some fs.used,
  record fs { descriptors = fs.descriptors ++ replicate (length fs.descriptors) none },
)

-- The last part: fill the place, and count the reference.
unfoldable pub install : Fs → ℕ → File → ℕ → Call ℕ
install fs flags f idx =
    let d : FileDesc = record { file = f.address; open_flags = flags; offset = 0 } in
    ok (
      some (idx + 1),
      record fs {
        descriptors = set fs.descriptors idx (some d);
        used = fs.used + 1;
        files = update (record f { refs = f.refs + 1 }) fs.files;
      },
    )

unfoldable pub installed : ℕ → File → Option ℕ × Fs → Call ℕ
installed flags f (none, fs) = refuse fs not_implemented
installed flags f (some idx, fs) = install fs flags f idx

-- The part behind the search for the file.
unfoldable pub open_file : Fs → ℕ → File → Call ℕ
unfolding installed install find_slot init_descriptors
open_file fs flags f = installed flags f (find_slot (init_descriptors fs))

unfoldable pub open_found : Fs → Bytes → ℕ → Option File → Call ℕ
open_found fs name flags (some f) = open_file fs flags f
open_found fs name flags none =
    if not (has_flag flags create_flag)
    then refuse fs no_file
    else let (fs', f) = create_file fs name in open_file fs' flags f

unfoldable pub ufs_open : Bytes → ℕ → Fs → Call ℕ
unfolding open_found open_file create_file find_name opened_flags update
ufs_open name flags fs = open_found fs name (opened_flags flags) (find_name name fs.files)
