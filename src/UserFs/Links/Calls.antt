-- ===== src/UserFs/Links/Calls.antt =====
-- hw3/userfs.c: `ufs_close` and `ufs_read` in a linked state.
use mathlib.Core.Path.{subst}
use system_programming_hw.Base.{
  ℕ, ◌-◌, ◌<◌, ◌≡◌, ◌≢◌, refl, sym, ap, ◌∙◌, arith, Bool, true, false, ◌&&◌, Option, none, some,
  List, [], ◌/◌, length, drop, ltb, get_elem?, set, leb, if◌then◌else◌, ok, not,
}
use system_programming_hw.UserFs.Block.{block_size, Cells, wanted, read_loop}
use system_programming_hw.UserFs.State.{
  no_file, no_permission, read_only, read_write, has_flag, ErrorCode, File, FileDesc, Fs, Call,
  refuse, deref, find_desc,
}
use system_programming_hw.UserFs.State.Table.{find_desc-Placed, deref_address}
use system_programming_hw.UserFs.Transfer.{read_file, read_desc, ufs_read}
use system_programming_hw.UserFs.Close.{close_file, close_desc, ufs_close}
use system_programming_hw.UserFs.Links.{points, count_refs, refs_of, AreLinked, IsLinked, Keeps}
use system_programming_hw.UserFs.Links.Counts.{
  points_same, points_other, count_refs-set, count_used-set,
}
use system_programming_hw.UserFs.Links.Steps.{AreLinked-counts, AreLinked-update, AreLinked-unlink}

-- The error code does not matter.
pub refuse-Keeps :
    (A : Type 0) (fs : Fs) (e : ErrorCode) → IsLinked fs → Keeps {A = A} (refuse fs e)
refuse-Keeps A fs e h = record { files_linked = h.files_linked; used_is = h.used_is }

pub Keeps-if :
    {A : Type 0} (b : Bool) (c c' : Call A) → Keeps c → Keeps c' → Keeps (if b then c else c')
Keeps-if true c c' h h' = h
Keeps-if false c c' h h' = h'

pub AreLinked-if :
    (b : Bool) (fs fs' : List File) (next : ℕ) (c : ℕ → ℕ)
    → (b ≡ true → AreLinked fs next c)
    → (b ≡ false → AreLinked fs' next c)
    → AreLinked (if b then fs else fs') next c
AreLinked-if true fs fs' next c h h' = h refl
AreLinked-if false fs fs' next c h h' = h' refl

-- A descriptor points to a file of the list.
pub record Alive (fs : Fs) (d : FileDesc) : Type 0 where
  pub file : File
  pub points_to : deref d.file fs.files ≡ some file
  pub at : file.address ≡ d.file
  pub held : 0 < file.refs

deref-Alive :
    (fs : Fs) (d : FileDesc) (o : Option File)
    → deref d.file fs.files ≡ o
    → 0 < refs_of o
    → Alive fs d
deref-Alive fs d none e pos = absurd (omega (arith, pos))
deref-Alive fs d (some f) e pos = record {
  file = f;
  points_to = e;
  at = deref_address d.file fs.files f e;
  held = pos;
}

pub get_elem?-Alive :
    (fs : Fs) (i : ℕ) (d : FileDesc)
    → IsLinked fs
    → get_elem? fs.descriptors i ≡ some (some d)
    → Alive fs d
get_elem?-Alive fs i d h e = deref-Alive fs d (deref d.file fs.files) refl (
    omega (
      arith,
      count_refs-set d.file fs.descriptors i (some d) none e,
      points_same d,
      h.files_linked.counted d.file,
    ))

-- What a descriptor that is taken or freed adds to the counts of other files.
pub count_refs_others :
    (table : List (Option FileDesc)) (i : ℕ) (old new : Option FileDesc) (a p : ℕ)
    → get_elem? table i ≡ some old
    → points p old ≡ points p new
    → count_refs p (set table i new) ≡ count_refs p table
count_refs_others table i old new a p e same =
    omega (arith, count_refs-set p table i old new e, same)

close_file-Keeps :
    (fs : Fs) (fd : ℕ) (d : FileDesc) (a : Alive fs d)
    → IsLinked fs
    → get_elem? fs.descriptors (fd - 1) ≡ some (some d)
    → Keeps (close_file fs fd (some a.file))
unfolding close_file
close_file-Keeps fs fd d a h e = record {
  files_linked =
      AreLinked-if (leb (a.file.refs - 1) 0 && a.file.is_ghost) _ _ _ _
        (λ b.
          AreLinked-unlink fs.files fs.next_address (λ p. count_refs p fs.descriptors) _
            a.file.address h.files_linked (omega (arith, left, freed b)) others)
        (λ b.
          AreLinked-update fs.files fs.next_address (λ p. count_refs p fs.descriptors) _ a.file
            (record a.file { refs = a.file.refs - 1 }) h.files_linked
            (ap (λ q. deref q fs.files) a.at ∙ a.points_to) (kept b) left others);
  used_is = omega (arith, h.used_is, count_used-set fs.descriptors (fd - 1) (some d) none e);
}
  where
    left : count_refs a.file.address (set fs.descriptors (fd - 1) none) ≡ a.file.refs - 1
    left =
        ap (λ q. count_refs q (set fs.descriptors (fd - 1) none)) a.at
        ∙ omega (
          arith,
          count_refs-set d.file fs.descriptors (fd - 1) (some d) none e,
          points_same d,
          h.files_linked.counted d.file,
          ap refs_of a.points_to,
        )

    others :
        (p : ℕ)
        → p ≢ a.file.address
        → count_refs p (set fs.descriptors (fd - 1) none) ≡ count_refs p fs.descriptors
    others p ne =
        count_refs_others fs.descriptors (fd - 1) (some d) none d.file p e
          (points_other p d (λ s. ne (s ∙ sym a.at)))

    freed : (leb (a.file.refs - 1) 0 && a.file.is_ghost) ≡ true → a.file.refs - 1 ≡ 0
    freed b = ground arith

    kept :
        (leb (a.file.refs - 1) 0 && a.file.is_ghost) ≡ false
        → a.file.is_ghost ≡ true
        → 0 < a.file.refs - 1
    kept b g = ground arith

close_desc-Keeps :
    (fs : Fs) (fd : ℕ) (o : Option FileDesc)
    → find_desc fs fd ≡ o
    → IsLinked fs
    → Keeps (close_desc fs fd o)
unfolding close_desc
close_desc-Keeps fs fd none e h = refuse-Keeps ℕ fs no_file h
close_desc-Keeps fs fd (some d) e h =
    let p = find_desc-Placed fs fd d e in
    let a = get_elem?-Alive fs (fd - 1) d h p.stands in
    subst (λ o. Keeps (close_file fs fd o)) (sym a.points_to)
      (close_file-Keeps fs fd d a h p.stands)

-- Closing a descriptor, or failing to, follows no dangling pointer, and keeps the state linked: a
-- deleted file is freed with its last descriptor, and no file before.
pub ufs_close-Keeps : (fs : Fs) (fd : ℕ) → IsLinked fs → Keeps (ufs_close fd fs)
unfolding ufs_close
ufs_close-Keeps fs fd h = close_desc-Keeps fs fd (find_desc fs fd) refl h

read_file-Keeps :
    (fs : Fs) (fd size : ℕ) (d : FileDesc) (f : File)
    → IsLinked fs
    → get_elem? fs.descriptors (fd - 1) ≡ some (some d)
    → Keeps (read_file fs fd size d (some f))
unfolding read_file
read_file-Keeps fs fd size d f h e =
    let r = read_loop (drop (d.offset / block_size) f.blocks) d.offset (wanted size) in
    let fs' = record fs {
      descriptors = set fs.descriptors (fd - 1) (some (record d { offset = r.1 }));
    } in
    let h' : IsLinked fs' = record {
      files_linked =
          AreLinked-counts fs.files fs.next_address (λ p. count_refs p fs.descriptors) _
            h.files_linked
            (λ p. count_refs_others fs.descriptors (fd - 1) (some d) _ d.file p e refl);
      used_is = omega (
        arith,
        h.used_is,
        count_used-set fs.descriptors (fd - 1) (some d) (some (record d { offset = r.1 })) e,
      );
    } in
    let tail : Keeps (if leb f.size d.offset then ok (some [], fs) else ok (some r.0, fs')) =
      Keeps-if (leb f.size d.offset) (ok (some [], fs)) (ok (some r.0, fs')) h h' in
    Keeps-if (ltb (length f.blocks) (d.offset / block_size)) (ok (some [], fs))
      (if leb f.size d.offset then ok (some [], fs) else ok (some r.0, fs')) h tail

read_desc-Keeps :
    (fs : Fs) (fd size : ℕ) (o : Option FileDesc)
    → find_desc fs fd ≡ o
    → IsLinked fs
    → Keeps (read_desc fs fd size o)
unfolding read_desc
read_desc-Keeps fs fd size none e h = refuse-Keeps Cells fs no_file h
read_desc-Keeps fs fd size (some d) e h =
    let p = find_desc-Placed fs fd d e in
    let a = get_elem?-Alive fs (fd - 1) d h p.stands in
    Keeps-if (not (has_flag d.open_flags read_only) && not (has_flag d.open_flags read_write))
      (refuse fs no_permission) (read_file fs fd size d (deref d.file fs.files))
      (refuse-Keeps Cells fs no_permission h)
      (subst (λ o. Keeps (read_file fs fd size d o)) (sym a.points_to)
        (read_file-Keeps fs fd size d a.file h p.stands))

-- Reading, or failing to, follows no dangling pointer, and keeps the state linked.
pub ufs_read-Keeps : (fs : Fs) (fd size : ℕ) → IsLinked fs → Keeps (ufs_read fd size fs)
unfolding ufs_read
ufs_read-Keeps fs fd size h = read_desc-Keeps fs fd size (find_desc fs fd) refl h
