-- ===== src/UserFs/Links/Deleted.antt =====
-- hw3/userfs.c: `ufs_delete` and the descriptors that are open.
use system_programming_hw.Base.{
  ℕ, ◌-◌, ◌<◌, ◌≡◌, refl, sym, ap, ◌∙◌, arith, Bool, true, false, Option, none, some, List, Bytes,
  leb, if◌then◌else◌, ok, crash, ℕ_discrete,
}
use system_programming_hw.UserFs.State.{
  File, FileDesc, Fs, Call, find_name, deref, update, unlink, find_desc,
}
use system_programming_hw.UserFs.State.Table.{find_desc-Placed, deref-update, some_is}
use system_programming_hw.UserFs.Close.{delete_file, ufs_delete}
use system_programming_hw.UserFs.Links.{IsLinked}
use system_programming_hw.UserFs.Links.Files.{deref-update_other, deref-unlink_other}
use system_programming_hw.UserFs.Links.Calls.{get_elem?-Alive}
use system_programming_hw.UserFs.Links.Changes.{find_name-deref}

-- The file at an address, perhaps deleted since, with the same blocks, size and references.
pub record Outlives (files : List File) (p : ℕ) (f : File) : Type 0 where
  pub now : File
  pub points_to : deref p files ≡ some now
  pub same_blocks : now.blocks ≡ f.blocks
  pub same_size : now.size ≡ f.size
  pub same_refs : now.refs ≡ f.refs

-- After a call the descriptor `fd` is as before, and has its file with the same bytes.
abbrev pub StillOpens : ℕ → FileDesc → File → Call ℕ → Type 0
StillOpens fd d f (ok (r, fs)) = (find_desc fs fd ≡ some d) × Outlives fs.files d.file f
StillOpens fd d f crash = ⊥

Outlives-if :
    (b : Bool) (files files' : List File) (p : ℕ) (f : File)
    → (b ≡ true → Outlives files p f)
    → (b ≡ false → Outlives files' p f)
    → Outlives (if b then files else files') p f
Outlives-if true files files' p f h h' = h refl
Outlives-if false files files' p f h h' = h' refl

unlink-Outlives :
    (files : List File) (p : ℕ) (f g : File)
    → deref p files ≡ some f
    → deref g.address files ≡ some g
    → 0 < f.refs
    → leb g.refs 0 ≡ true
    → Outlives (unlink g.address files) p f
unlink-Outlives files p f g at at' held b = elim (ℕ_discrete p g.address) [
  | yes same ↦
      let e : f ≡ g = some_is (sym at ∙ ap (λ q. deref q files) same ∙ at') in
      let refs : f.refs ≡ g.refs = ap (λ (k : File). k.refs) e in
      let unused : g.refs ≡ 0 = ground arith in absurd (omega (arith, held, refs, unused))
  | no other ↦ record {
    now = f;
    points_to = deref-unlink_other g.address p files other ∙ at;
    same_blocks = refl;
    same_size = refl;
    same_refs = refl;
  }
]

ghost-Outlives :
    (files : List File) (p : ℕ) (f g : File)
    → deref p files ≡ some f
    → deref g.address files ≡ some g
    → Outlives (update (record g { is_ghost = true }) files) p f
ghost-Outlives files p f g at at' = elim (ℕ_discrete p g.address) [
  | yes same ↦
      let e : g ≡ f = some_is (sym at' ∙ ap (λ q. deref q files) (sym same) ∙ at) in
      record {
        now = record g { is_ghost = true };
        points_to = deref-update p files f (record g { is_ghost = true }) at (sym same);
        same_blocks = ap (λ (k : File). k.blocks) e;
        same_size = ap (λ (k : File). k.size) e;
        same_refs = ap (λ (k : File). k.refs) e;
      }
  | no other ↦ record {
    now = f;
    points_to = deref-update_other p (record g { is_ghost = true }) files other ∙ at;
    same_blocks = refl;
    same_size = refl;
    same_refs = refl;
  }
]

delete_file-StillOpens :
    (fs : Fs) (fd : ℕ) (d : FileDesc) (f : File) (o : Option File)
    → find_desc fs fd ≡ some d
    → deref d.file fs.files ≡ some f
    → 0 < f.refs
    → ((g : File) → o ≡ some g → deref g.address fs.files ≡ some g)
    → StillOpens fd d f (delete_file fs o)
unfolding delete_file find_desc
delete_file-StillOpens fs fd d f none found at held here = (
  found,
  record { now = f; points_to = at; same_blocks = refl; same_size = refl; same_refs = refl },
)
delete_file-StillOpens fs fd d f (some g) found at held here = (
  found,
  Outlives-if (leb g.refs 0) _ _ d.file f
      (unlink-Outlives fs.files d.file f g at (here g refl) held)
      (λ b. ghost-Outlives fs.files d.file f g at (here g refl)),
)

-- Deleting any file, in a linked state, leaves an open descriptor as it was, with its file and the
-- bytes in it, whether or not it is the file that is deleted.
pub ufs_delete-StillOpens :
    (fs : Fs) (name : Bytes) (fd : ℕ) (d : FileDesc) (f : File)
    → IsLinked fs
    → find_desc fs fd ≡ some d
    → deref d.file fs.files ≡ some f
    → StillOpens fd d f (ufs_delete name fs)
unfolding ufs_delete
ufs_delete-StillOpens fs name fd d f h found at =
    let a = get_elem?-Alive fs (fd - 1) d h (find_desc-Placed fs fd d found).stands in
    let same : a.file ≡ f = some_is (sym a.points_to ∙ at) in
    delete_file-StillOpens fs fd d f (find_name name fs.files) found at
      (omega (arith, a.held, ap (λ (k : File). k.refs) same))
      (λ g e. find_name-deref name fs.files g h.files_linked.apart e)
