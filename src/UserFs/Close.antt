-- ===== src/UserFs/Close.antt =====
-- hw3/userfs.c, `ufs_close`, `ufs_delete` and `ufs_destroy`.
use system_programming_hw.Base.{
  ℕ, ◌-◌, ◌&&◌, true, Option, none, some, [], Bytes, set, leb, if◌then◌else◌, ok, crash,
}
use system_programming_hw.UserFs.State.{
  no_file, File, FileDesc, Fs, Call, refuse, find_name, deref, update, unlink, find_desc,
}

-- The reference is dropped; the count is positive wherever a descriptor exists.
unfoldable pub close_file : Fs → ℕ → Option File → Call ℕ
close_file fs fd none = crash
close_file fs fd (some f) =
    let f' = record f { refs = f.refs - 1 } in
    ok (
      some 0,
      record fs {
        files =
            if leb f'.refs 0 && f'.is_ghost then unlink f.address fs.files else update f' fs.files;
        descriptors = set fs.descriptors (fd - 1) none;
        used = fs.used - 1;
      },
    )

unfoldable pub close_desc : Fs → ℕ → Option FileDesc → Call ℕ
close_desc fs fd none = refuse fs no_file
close_desc fs fd (some d) = close_file fs fd (deref d.file fs.files)

unfoldable pub ufs_close : ℕ → Fs → Call ℕ
unfolding find_desc close_desc close_file deref update unlink
ufs_close fd fs = close_desc fs fd (find_desc fs fd)

unfoldable pub delete_file : Fs → Option File → Call ℕ
delete_file fs none = refuse fs no_file
delete_file fs (some f) = ok (
  some 0,
  record fs {
    files =
        if leb f.refs 0
        then unlink f.address fs.files
        else update (record f { is_ghost = true }) fs.files;
  },
)

unfoldable pub ufs_delete : Bytes → Fs → Call ℕ
unfolding delete_file find_name update unlink
ufs_delete name fs = delete_file fs (find_name name fs.files)

unfoldable pub ufs_destroy : Fs → Fs
ufs_destroy fs = record fs { files = []; descriptors = []; used = 0 }
