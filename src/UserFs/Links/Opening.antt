-- ===== src/UserFs/Links/Opening.antt =====
-- hw3/userfs.c: `ufs_open` in a linked state.
use system_programming_hw.Base.{
  ℕ, zero, suc, ◌+◌, ◌≤◌, ◌<◌, ◌≡◌, refl, sym, ap, ◌∙◌, arith, not, Option, none, some, List, [],
  ◌∷◌, ◌++◌, Bytes, length, get_elem?, replicate, length-replicate, dec_lt,
}
use mathlib.Core.Path.{subst}
use system_programming_hw.UserFs.State.{
  no_file, create_flag, has_flag, File, FileDesc, Fs, refuse, find_name, deref,
}
use system_programming_hw.UserFs.State.Table.{deref_here}
use system_programming_hw.UserFs.Open.{
  opened_flags, create_file, init_descriptors, free_slot, find_slot, install, installed, open_file,
  open_found, ufs_open,
}
use system_programming_hw.UserFs.Links.{count_refs, count_used, refs_of, IsLinked, Keeps}
use system_programming_hw.UserFs.Links.Counts.{
  points_same, points_other, count_refs-set, count_used-set, count_refs-append_none,
  count_used-append_none, count_used_le,
}
use system_programming_hw.UserFs.Links.Steps.{AreLinked-counts, AreLinked-update, AreLinked-create}
use system_programming_hw.UserFs.Links.Calls.{Keeps-if, refuse-Keeps, count_refs_others}
use system_programming_hw.UserFs.Links.Changes.{find_name-deref}

-- A table that is not full has a free place, and the search finds one.
record Free (i : ℕ) (table : List (Option FileDesc)) : Type 0 where
  place : ℕ
  found : free_slot i table ≡ some (i + place)
  free : get_elem? table place ≡ some none

free_slot_lem :
    (i : ℕ) (table : List (Option FileDesc)) → count_used table < length table → Free i table
unfolding free_slot
free_slot_lem i [] lt = absurd (omega arith)
free_slot_lem i (none ∷ table) lt = record { place = 0; found = ap some (omega arith); free = refl }
free_slot_lem i (some d ∷ table) lt =
    let r = free_slot_lem (i + 1) table (omega arith) in
    record { place = suc r.place; found = r.found ∙ ap some (omega arith); free = r.free }

get_elem?-append_none :
    (table : List (Option FileDesc)) (n : ℕ)
    → 0 < n
    → get_elem? (table ++ replicate n none) (length table) ≡ some none
unfolding replicate
get_elem?-append_none [] zero pos = absurd (omega arith)
get_elem?-append_none [] (suc n) pos = refl
get_elem?-append_none (s ∷ table) n pos = get_elem?-append_none table n pos

-- The place for a descriptor, in a table that counts the same.
pub record FoundSlot (fs : Fs) (r : Option ℕ × Fs) : Type 0 where
  pub place : ℕ
  pub table : List (Option FileDesc)
  pub result : r ≡ (some place, record fs { descriptors = table })
  pub free : get_elem? table place ≡ some none
  pub same_refs : (p : ℕ) → count_refs p table ≡ count_refs p fs.descriptors
  pub same_used : count_used table ≡ count_used fs.descriptors

find_slot_room :
    (fs : Fs) → fs.used < length fs.descriptors → find_slot fs ≡ (free_slot 0 fs.descriptors, fs)
unfolding find_slot
find_slot_room fs lt = ground arith

find_slot_full :
    (fs : Fs)
    → length fs.descriptors ≤ fs.used
    → find_slot fs ≡ (
      some fs.used,
      record fs { descriptors = fs.descriptors ++ replicate (length fs.descriptors) none },
    )
unfolding find_slot
find_slot_full fs ge = ground arith

find_slot_lem : (fs : Fs) → IsLinked fs → 0 < length fs.descriptors → FoundSlot fs (find_slot fs)
find_slot_lem fs h pos = elim (dec_lt fs.used (length fs.descriptors)) [
  | yes lt ↦
      let r = free_slot_lem 0 fs.descriptors (omega (arith, h.used_is)) in
      record {
        place = r.place;
        table = fs.descriptors;
        result = find_slot_room fs lt ∙ ap (λ o. (o, fs)) (r.found ∙ ap some (omega arith));
        free = r.free;
        same_refs = λ p. refl;
        same_used = refl;
      }
  | no ge ↦
      let n = length fs.descriptors in
      let at : n ≡ fs.used = omega (arith, h.used_is, count_used_le fs.descriptors) in
      record {
        place = fs.used;
        table = fs.descriptors ++ replicate n none;
        result = find_slot_full fs (omega arith);
        free =
            ap (get_elem? (fs.descriptors ++ replicate n none)) (sym at)
            ∙ get_elem?-append_none fs.descriptors n pos;
        same_refs = λ p. count_refs-append_none p fs.descriptors n;
        same_used = count_used-append_none fs.descriptors n;
      }
]

-- The first table, and any other one, has a place.
record Ready (fs : Fs) (r : Fs) : Type 0 where
  linked : IsLinked r
  same_files : r.files ≡ fs.files
  has_table : 0 < length r.descriptors

init_descriptors_empty :
    (fs : Fs)
    → length fs.descriptors ≤ 0
    → init_descriptors fs ≡ record fs { descriptors = replicate 10 none; used = 0 }
unfolding init_descriptors
init_descriptors_empty fs le = ground arith

init_descriptors_room : (fs : Fs) → 0 < length fs.descriptors → init_descriptors fs ≡ fs
unfolding init_descriptors
init_descriptors_room fs lt = ground arith

length_zero : (table : List (Option FileDesc)) → length table ≤ 0 → table ≡ []
length_zero [] le = refl
length_zero (s ∷ table) le = absurd (omega arith)

init_descriptors-Ready : (fs : Fs) → IsLinked fs → Ready fs (init_descriptors fs)
init_descriptors-Ready fs h = elim (dec_lt 0 (length fs.descriptors)) [
  | yes lt ↦
      subst (Ready fs) (sym (init_descriptors_room fs lt))
        (record { linked = h; same_files = refl; has_table = lt })
  | no ge ↦
      let empty = length_zero fs.descriptors (omega arith) in
      subst (Ready fs) (sym (init_descriptors_empty fs (omega arith))) (record {
        linked = record {
          files_linked =
              AreLinked-counts fs.files fs.next_address (λ p. count_refs p fs.descriptors) _
                h.files_linked
                (λ p. count_refs-append_none p [] 10 ∙ sym (ap (count_refs p) empty));
          used_is = sym (count_used-append_none [] 10);
        };
        same_files = refl;
        has_table = omega (arith, length-replicate {A = Option FileDesc} 10 none);
      })
]

install-Keeps :
    (fs : Fs) (flags : ℕ) (f : File) (s : FoundSlot fs (find_slot fs))
    → IsLinked fs
    → deref f.address fs.files ≡ some f
    → Keeps (install (record fs { descriptors = s.table }) flags f s.place)
unfolding install
install-Keeps fs flags f s h at =
    let d : FileDesc = record { file = f.address; open_flags = flags; offset = 0 } in
    record {
      files_linked =
          AreLinked-update fs.files fs.next_address (λ p. count_refs p fs.descriptors) _ f
            (record f { refs = f.refs + 1 }) h.files_linked at (λ e. omega arith)
            (omega (
              arith,
              count_refs-set f.address s.table s.place none (some d) s.free,
              points_same d,
              s.same_refs f.address,
              h.files_linked.counted f.address,
              ap refs_of at,
            ))
            (λ p ne.
              count_refs_others s.table s.place none (some d) f.address p s.free
                (sym (points_other p d ne))
              ∙ s.same_refs p);
      used_is =
          omega
            (arith, h.used_is, s.same_used, count_used-set s.table s.place none (some d) s.free);
    }

open_file-Keeps :
    (fs : Fs) (flags : ℕ) (f : File)
    → IsLinked fs
    → deref f.address fs.files ≡ some f
    → Keeps (open_file fs flags f)
unfolding open_file installed
open_file-Keeps fs flags f h at =
    let r = init_descriptors-Ready fs h in
    let fs' = init_descriptors fs in
    let s = find_slot_lem fs' r.linked r.has_table in
    subst (λ o. Keeps (installed flags f o)) (sym s.result)
      (install-Keeps fs' flags f s r.linked (ap (deref f.address) r.same_files ∙ at))

open_found-Keeps :
    (fs : Fs) (name : Bytes) (flags : ℕ) (o : Option File)
    → ((f : File) → o ≡ some f → deref f.address fs.files ≡ some f)
    → IsLinked fs
    → Keeps (open_found fs name flags o)
unfolding open_found create_file
open_found-Keeps fs name flags (some f) at h = open_file-Keeps fs flags f h (at f refl)
open_found-Keeps fs name flags none at h =
    let (fs', f) = create_file fs name in
    let linked : IsLinked fs' = record {
      files_linked =
          AreLinked-create fs.files fs.next_address (λ p. count_refs p fs.descriptors) f
            h.files_linked refl refl refl;
      used_is = h.used_is;
    } in
    Keeps-if (not (has_flag flags create_flag)) (refuse fs no_file) (open_file fs' flags f)
      (refuse-Keeps ℕ fs no_file h)
      (open_file-Keeps fs' flags f linked (deref_here f.address f fs.files refl))

-- Opening a file, making it, or failing to, follows no dangling pointer, and keeps the state linked.
pub ufs_open-Keeps :
    (fs : Fs) (name : Bytes) (flags : ℕ) → IsLinked fs → Keeps (ufs_open name flags fs)
unfolding ufs_open
ufs_open-Keeps fs name flags h =
    open_found-Keeps fs name (opened_flags flags) (find_name name fs.files)
      (λ f e. find_name-deref name fs.files f h.files_linked.apart e) h
