-- ===== src/UserFs/Links/Changes.antt =====
-- hw3/userfs.c: `ufs_delete`, `ufs_write` and `ufs_resize` in a linked state.
use mathlib.Core.Path.{subst}
use system_programming_hw.Base.{
  ℕ, ◌+◌, ◌-◌, ◌/◌, ◌<◌, ◌≡◌, refl, sym, ap, ◌∙◌, arith, Bool, true, false, not, ◌&&◌, Option, none,
  some, List, [], ◌∷◌, Bytes, length, get_elem?, take, map, leb, ltb, ◌==◌, if◌then◌else◌, ok,
  crash, ℕ_discrete, Bool-cases, inl, inr,
}
use system_programming_hw.UserFs.Block.{block_size, max_file_size, Cells, Block, write_loop}
use system_programming_hw.UserFs.State.{
  no_file, no_mem, no_permission, not_implemented, write_only, read_write, has_flag, File, FileDesc,
  Fs, Call, refuse, find_name, same_name, deref, update, find_desc,
}
use system_programming_hw.UserFs.State.Table.{find_desc-Placed, deref_here, deref_there, some_is}
use system_programming_hw.UserFs.Transfer.{store, written, write_file, write_desc, ufs_write}
use system_programming_hw.UserFs.Close.{delete_file, ufs_delete}
use system_programming_hw.UserFs.Resize.{
  block_count, occupy_last, last_occupied, clamp, shrink_blocks, shrink, add_blocks, grow_blocks,
  enlarge, resize_file, resize_desc, ufs_resize,
}
use system_programming_hw.UserFs.Links.{
  points, taken, count_refs, refs_of, AllApart, AreLinked, IsLinked, Keeps, KeepsIfOk,
}
use system_programming_hw.UserFs.Links.Counts.{count_used-set, count_refs-map, count_used-map}
use system_programming_hw.UserFs.Links.Steps.{AreLinked-update, AreLinked-unlink}
use system_programming_hw.UserFs.Links.Calls.{
  AreLinked-if, Alive, get_elem?-Alive, count_refs_others, refuse-Keeps,
}

pub KeepsIfOk-if :
    {A : Type 0} (b : Bool) (c c' : Call A)
    → KeepsIfOk c
    → KeepsIfOk c'
    → KeepsIfOk (if b then c else c')
KeepsIfOk-if true c c' h h' = h
KeepsIfOk-if false c c' h h' = h'

-- A change of a file that leaves its references and its state of deletion.
AreLinked-update_same :
    (fs : Fs) (d : FileDesc) (a : Alive fs d) (g : File) (c : ℕ → ℕ)
    → IsLinked fs
    → g.address ≡ a.file.address
    → g.refs ≡ a.file.refs
    → g.is_ghost ≡ a.file.is_ghost
    → ((p : ℕ) → c p ≡ count_refs p fs.descriptors)
    → AreLinked (update g fs.files) fs.next_address c
AreLinked-update_same fs d a g c h at refs dead same =
    AreLinked-update fs.files fs.next_address (λ p. count_refs p fs.descriptors) c a.file g
      h.files_linked here (λ e. omega (arith, refs, a.held))
      (same g.address ∙ sym (h.files_linked.counted g.address) ∙ ap refs_of here ∙ sym refs)
      (λ p ne. same p)
  where
    here : deref g.address fs.files ≡ some a.file
    here = ap (λ q. deref q fs.files) (at ∙ a.at) ∙ a.points_to

-- The file that a name leads to is the one at its address.
pub find_name-deref :
    (name : Bytes) (files : List File) (f : File)
    → AllApart files
    → find_name name files ≡ some f
    → deref f.address files ≡ some f
unfolding find_name deref
find_name-deref name [] f h e = absurd (cc e)
find_name-deref name (g ∷ files) f (a, h) e =
    elim (Bool-cases (not g.is_ghost && same_name g.name name)) [
      | inl b ↦
          let e' : g ≡ f = some_is (sym (ap pick b) ∙ e) in
          deref_here f.address g files (ap (λ (k : File). k.address) e') ∙ ap some e'
      | inr b ↦
          let later = find_name-deref name files f h (sym (ap pick b) ∙ e) in
          elim (ℕ_discrete g.address f.address) [
            | yes same ↦
                let clash : none ≡ some f = sym a ∙ ap (λ q. deref q files) same ∙ later in
                absurd (cc clash)
            | no other ↦ deref_there f.address g files other ∙ later
          ]
    ]
  where
    pick : Bool → Option File
    pick c = if c then some g else find_name name files

delete_file-Keeps :
    (fs : Fs) (o : Option File)
    → ((f : File) → o ≡ some f → deref f.address fs.files ≡ some f)
    → IsLinked fs
    → Keeps (delete_file fs o)
unfolding delete_file
delete_file-Keeps fs none at h = refuse-Keeps ℕ fs no_file h
delete_file-Keeps fs (some f) at h = record {
  files_linked =
      AreLinked-if (leb f.refs 0) _ _ _ _
        (λ b.
          AreLinked-unlink fs.files fs.next_address (λ p. count_refs p fs.descriptors) _ f.address
            h.files_linked (sym counted ∙ unused b) (λ p ne. refl))
        (λ b.
          AreLinked-update fs.files fs.next_address (λ p. count_refs p fs.descriptors) _ f
            (record f { is_ghost = true }) h.files_linked (at f refl) (λ e. used b) (sym counted)
            (λ p ne. refl));
  used_is = h.used_is;
}
  where
    counted : f.refs ≡ count_refs f.address fs.descriptors
    counted = sym (ap refs_of (at f refl)) ∙ h.files_linked.counted f.address

    unused : leb f.refs 0 ≡ true → f.refs ≡ 0
    unused b = ground arith

    used : leb f.refs 0 ≡ false → 0 < f.refs
    used b = ground arith

-- Deleting a file, or failing to, keeps the state linked: a file that descriptors point to stays in
-- memory, and one that has none is freed.
pub ufs_delete-Keeps : (fs : Fs) (name : Bytes) → IsLinked fs → Keeps (ufs_delete name fs)
unfolding ufs_delete
ufs_delete-Keeps fs name h =
    delete_file-Keeps fs (find_name name fs.files)
      (λ f e. find_name-deref name fs.files f h.files_linked.apart e) h

written-KeepsIfOk :
    (fs : Fs) (fd : ℕ) (d : FileDesc) (a : Alive fs d) (count : ℕ) (r : Option (List Block × ℕ))
    → IsLinked fs
    → get_elem? fs.descriptors (fd - 1) ≡ some (some d)
    → KeepsIfOk (written fs fd a.file d count r)
unfolding written store
written-KeepsIfOk fs fd d a count none h e = tt
written-KeepsIfOk fs fd d a count (some (blocks, offset)) h e = record {
  files_linked =
      AreLinked-update_same fs d a _ _ h refl refl refl
        (λ p. count_refs_others fs.descriptors (fd - 1) (some d) _ d.file p e refl);
  used_is = omega (
    arith,
    h.used_is,
    count_used-set fs.descriptors (fd - 1) (some d) (some (record d { offset = offset })) e,
  );
}

write_file-KeepsIfOk :
    (fs : Fs) (fd : ℕ) (buf : Cells) (d : FileDesc) (a : Alive fs d)
    → IsLinked fs
    → get_elem? fs.descriptors (fd - 1) ≡ some (some d)
    → KeepsIfOk (write_file fs fd buf d (some a.file))
unfolding write_file
write_file-KeepsIfOk fs fd buf d a h e =
    let r = write_loop (length buf) a.file.blocks (d.offset / block_size) d.offset buf in
    let run = written fs fd a.file d (length buf) r in
    let walk = ltb (length a.file.blocks) (d.offset / block_size) in
    let inner : KeepsIfOk (if walk then crash else run) =
      KeepsIfOk-if walk crash run tt (written-KeepsIfOk fs fd d a (length buf) r h e) in
    KeepsIfOk-if (ltb max_file_size (a.file.size + length buf)) (refuse fs no_mem)
      (if walk then crash else run) (refuse-Keeps ℕ fs no_mem h) inner

write_desc-KeepsIfOk :
    (fs : Fs) (fd : ℕ) (buf : Cells) (o : Option FileDesc)
    → find_desc fs fd ≡ o
    → IsLinked fs
    → KeepsIfOk (write_desc fs fd buf o)
unfolding write_desc
write_desc-KeepsIfOk fs fd buf none e h = refuse-Keeps ℕ fs no_file h
write_desc-KeepsIfOk fs fd buf (some d) e h =
    let p = find_desc-Placed fs fd d e in
    let a = get_elem?-Alive fs (fd - 1) d h p.stands in
    let run = write_file fs fd buf d (deref d.file fs.files) in
    let inner : KeepsIfOk (if length buf == 0 then ok (some 0, fs) else run) =
      KeepsIfOk-if (length buf == 0) (ok (some 0, fs)) run h (
        subst (λ o. KeepsIfOk (write_file fs fd buf d o)) (sym a.points_to)
          (write_file-KeepsIfOk fs fd buf d a h p.stands)) in
    KeepsIfOk-if (not (has_flag d.open_flags write_only) && not (has_flag d.open_flags read_write))
      (refuse fs no_permission) (if length buf == 0 then ok (some 0, fs) else run)
      (refuse-Keeps ℕ fs no_permission h) inner

-- A write that comes to its end, or is refused, keeps the state linked.
pub ufs_write-KeepsIfOk :
    (fs : Fs) (fd : ℕ) (buf : Cells) → IsLinked fs → KeepsIfOk (ufs_write fd buf fs)
unfolding ufs_write
ufs_write-KeepsIfOk fs fd buf h = write_desc-KeepsIfOk fs fd buf (find_desc fs fd) refl h

points-clamp :
    (address size p : ℕ) (s : Option FileDesc) → points p (clamp address size s) ≡ points p s
unfolding clamp
points-clamp address size p none = refl
points-clamp address size p (some d) = elim (Bool-cases (d.file == address && ltb size d.offset)) [
  | inl b ↦ ap (λ c. points p (pick c)) b
  | inr b ↦ ap (λ c. points p (pick c)) b
]
  where
    pick : Bool → Option FileDesc
    pick c = if c then some (record d { offset = size }) else some d

taken-clamp : (address size : ℕ) (s : Option FileDesc) → taken (clamp address size s) ≡ taken s
unfolding clamp
taken-clamp address size none = refl
taken-clamp address size (some d) = elim (Bool-cases (d.file == address && ltb size d.offset)) [
  | inl b ↦ ap (λ c. taken (pick c)) b
  | inr b ↦ ap (λ c. taken (pick c)) b
]
  where
    pick : Bool → Option FileDesc
    pick c = if c then some (record d { offset = size }) else some d

-- The state with a file resized and the descriptors clamped.
shrunk-IsLinked :
    (fs : Fs) (d : FileDesc) (a : Alive fs d) (blocks : List Block) (size at : ℕ)
    → IsLinked fs
    → IsLinked (record fs {
      files = update (record a.file { blocks = blocks; size = size }) fs.files;
      descriptors = map (clamp a.file.address at) fs.descriptors;
    })
shrunk-IsLinked fs d a blocks size at h = record {
  files_linked = AreLinked-update_same fs d a _ _ h refl refl refl (λ p.
      count_refs-map (clamp a.file.address at) p fs.descriptors (points-clamp a.file.address at p));
  used_is =
      h.used_is
      ∙ sym
          (count_used-map (clamp a.file.address at) fs.descriptors (taken-clamp a.file.address at));
}

shrink_blocks-KeepsIfOk :
    (fs : Fs) (d : FileDesc) (a : Alive fs d) (new_size : ℕ) (blocks : List Block)
    → IsLinked fs
    → KeepsIfOk (shrink_blocks fs a.file new_size blocks)
unfolding shrink_blocks
shrink_blocks-KeepsIfOk fs d a new_size [] h =
    KeepsIfOk-if (new_size == 0 && block_count new_size == 0)
      (ok (
        some 0,
        record fs {
          files = update (record a.file { blocks = []; size = 0 }) fs.files;
          descriptors = map (clamp a.file.address new_size) fs.descriptors;
        },
      ))
      crash (shrunk-IsLinked fs d a [] 0 new_size h) tt
shrink_blocks-KeepsIfOk fs d a new_size (b ∷ bs) h =
    shrunk-IsLinked fs d a (occupy_last (last_occupied new_size) (b ∷ bs)) new_size new_size h

grow_blocks-KeepsIfOk :
    (fs : Fs) (d : FileDesc) (a : Alive fs d) (new_size : ℕ) (blocks : List Block)
    → IsLinked fs
    → KeepsIfOk (grow_blocks fs a.file new_size blocks)
unfolding grow_blocks
grow_blocks-KeepsIfOk fs d a new_size [] h = tt
grow_blocks-KeepsIfOk fs d a new_size (b ∷ bs) h = record {
  files_linked = AreLinked-update_same fs d a _ _ h refl refl refl (λ p. refl);
  used_is = h.used_is;
}

resize_file-KeepsIfOk :
    (fs : Fs) (d : FileDesc) (a : Alive fs d) (new_size : ℕ)
    → IsLinked fs
    → KeepsIfOk (resize_file fs new_size (some a.file))
unfolding resize_file shrink enlarge
resize_file-KeepsIfOk fs d a new_size h =
    let f = a.file in
    let less = block_count f.size - block_count new_size in
    let more = add_blocks (block_count new_size - block_count f.size) f.blocks in
    let smaller : KeepsIfOk (shrink fs f new_size) =
      KeepsIfOk-if (ltb (length f.blocks) less) crash
        (shrink_blocks fs f new_size (take (length f.blocks - less) f.blocks)) tt
        (shrink_blocks-KeepsIfOk fs d a new_size (take (length f.blocks - less) f.blocks) h) in
    let larger : KeepsIfOk (enlarge fs f new_size) =
      KeepsIfOk-if (ltb max_file_size new_size) (refuse fs no_mem) (grow_blocks fs f new_size more)
        (refuse-Keeps ℕ fs no_mem h) (grow_blocks-KeepsIfOk fs d a new_size more h) in
    let impossible = refuse {A = ℕ} fs not_implemented in
    let grows = if ltb f.size new_size then enlarge fs f new_size else impossible in
    let grows' : KeepsIfOk grows =
      KeepsIfOk-if (ltb f.size new_size) (enlarge fs f new_size) impossible larger
        (refuse-Keeps ℕ fs not_implemented h) in
    let changes = if ltb new_size f.size then shrink fs f new_size else grows in
    let changes' : KeepsIfOk changes =
      KeepsIfOk-if (ltb new_size f.size) (shrink fs f new_size) grows smaller grows' in
    KeepsIfOk-if (new_size == f.size) (ok (some 0, fs)) changes h changes'

resize_desc-KeepsIfOk :
    (fs : Fs) (fd new_size : ℕ) (o : Option FileDesc)
    → find_desc fs fd ≡ o
    → IsLinked fs
    → KeepsIfOk (resize_desc fs new_size o)
unfolding resize_desc
resize_desc-KeepsIfOk fs fd new_size none e h = refuse-Keeps ℕ fs no_file h
resize_desc-KeepsIfOk fs fd new_size (some d) e h =
    let p = find_desc-Placed fs fd d e in
    let a = get_elem?-Alive fs (fd - 1) d h p.stands in
    subst (λ o. KeepsIfOk (resize_file fs new_size o)) (sym a.points_to)
      (resize_file-KeepsIfOk fs d a new_size h)

-- A resize that comes to its end, or is refused, keeps the state linked.
pub ufs_resize-KeepsIfOk :
    (fs : Fs) (fd new_size : ℕ) → IsLinked fs → KeepsIfOk (ufs_resize fd new_size fs)
unfolding ufs_resize
ufs_resize-KeepsIfOk fs fd new_size h =
    resize_desc-KeepsIfOk fs fd new_size (find_desc fs fd) refl h
