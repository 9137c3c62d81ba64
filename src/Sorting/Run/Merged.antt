-- ===== src/Sorting/Run/Merged.antt =====
-- hw1/solution.c: the merge behind the coroutines.
use mathlib.Core.List.{Perm}
use mathlib.Core.List.Perm
use mathlib.Core.Path.{subst}
use system_programming_hw.Base.{
  ℕ, zero, suc, ◌+◌, ◌<◌, ◌≡◌, refl, sym, ap, ◌∙◌, arith, Option, some, List, [], ◌∷◌, length,
  get_elem?, ok, inl, inr,
}
use system_programming_hw.Sorting.{sort_file}
use system_programming_hw.Sorting.Partition.{All}
use system_programming_hw.Sorting.Quicksort.{IsAscending, sort_file-SortsKeeping}
use system_programming_hw.Sorting.Merge.{int_max, merge_sorted_files}
use system_programming_hw.Sorting.Merge.Sorts.{
  AreSorted, values_of, SortsAll, merge_sorted_files-SortsAll,
}
use system_programming_hw.Sorting.Run.{finished, Work, Reachable, with_file, collect}
use system_programming_hw.Sorting.Run.Sound.{Settled, Busy, Reachable-IsSound}

abbrev pub AreSmall : List (List ℕ) → Type 0
AreSmall [] = Unit
AreSmall (values ∷ contents) = All (λ x. x < int_max) values × AreSmall contents

-- What the merge gets where every file is sorted.
record Collected (files_data : ℕ → Option (List ℕ)) (i : ℕ) (contents : List (List ℕ))
    : Type 0 where
  files : List (List ℕ)
  collected : collect files_data i contents ≡ some files
  are_sorted : AreSorted files
  perm : Perm (values_of contents) (values_of files)

collect-Collected :
    (files_data : ℕ → Option (List ℕ)) (i : ℕ) (contents : List (List ℕ))
    → AreSmall contents
    → ((k : ℕ) (values : List ℕ)
        → get_elem? contents k ≡ some values
        → (sorted : List ℕ) × (files_data (i + k) ≡ some sorted) × (sort_file values ≡ ok sorted))
    → Collected files_data i contents
collect-Collected files_data i [] small all = record {
  files = [];
  collected = refl;
  are_sorted = tt;
  perm = Perm.rfl;
}
collect-Collected files_data i (values ∷ contents) (below, small) all =
    let (sorted, at, is) = all 0 values refl in
    let s = sort_file-SortsKeeping values in
    let same : s.sorted ≡ sorted = cc (s.result, is) in
    let here : i + 0 ≡ i = omega arith in
    let at' = ap files_data (sym here) ∙ at in
    let rest = collect-Collected files_data (i + 1) contents small λ k vs get.
      let (t, at_t, is_t) = all (suc k) vs get in
      let next : i + 1 + k ≡ i + suc k = omega arith in (t, ap files_data next ∙ at_t, is_t) in
    record {
      files = sorted ∷ rest.files;
      collected =
          ap (λ (o : Option (List ℕ)). with_file o (collect files_data (i + 1) contents)) at'
          ∙ ap (with_file (some sorted)) rest.collected;
      are_sorted = (
        subst IsAscending same s.ascends,
        subst (All (λ x. x < int_max)) same (s.keeps (λ x. x < int_max) below),
        rest.are_sorted,
      );
      perm = Perm.append (subst (Perm values) same s.perm) rest.perm;
    }

place_below : (xs : List (List ℕ)) (k : ℕ) {v : List ℕ} → get_elem? xs k ≡ some v → k < length xs
place_below [] k e = absurd (cc e)
place_below (x ∷ xs) zero e = omega arith
place_below (x ∷ xs) (suc k) e = omega (arith, place_below xs k e)

-- With at least one coroutine, however the coroutines take turns: once all of them have ended,
-- there is an array for every file, and the merge of these arrays comes to its end and writes
-- exactly the values of all files, in ascending order, where no value is INT_MAX.
pub Reachable-SortsAll :
    (contents : List (List ℕ)) (n : ℕ) (w : Work)
    → AreSmall contents
    → 0 < n
    → Reachable contents n w
    → ((k : ℕ) → w.routines k ≡ finished)
    → (files : List (List ℕ)) × (collect w.files_data 0 contents ≡ some files)
      × SortsAll contents (merge_sorted_files files)
unfolding Settled Busy
Reachable-SortsAll contents n w small some_coroutine r over =
    let sound = Reachable-IsSound contents r in
    let c = collect-Collected w.files_data 0 contents small λ k values get.
      elim (sound.covered k values get
        (omega (arith, sound.ended 0 some_coroutine (over 0), place_below contents k get))) [
          | inl (sorted, at, is) ↦
              (let here : 0 + k ≡ k = omega arith in (sorted, ap w.files_data here ∙ at, is))
          | inr (l, at) ↦ absurd (cc (sym (over l), at))
        ] in
    let m = merge_sorted_files-SortsAll c.files c.are_sorted in
    (
      c.files,
      c.collected,
      record {
        merged = m.merged;
        result = m.result;
        perm = Perm.trans c.perm m.perm;
        ascends = m.ascends;
      },
    )
