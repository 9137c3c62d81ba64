-- ===== src/Sorting/Tests.antt =====
-- hw1/solution.c: runs at small inputs, and the theorems at concrete ones.
use system_programming_hw.Base.{ℕ, List, ◌≡◌, refl, arith, some, [], ◌∷◌, ok, inl, inr}
use system_programming_hw.Sorting.{FileStorage, sort_file}
use system_programming_hw.Sorting.Quicksort.{Sorts, sort_file-Sorts}
use system_programming_hw.Sorting.Storage.{Added, add_paths, add_paths-Added}
use system_programming_hw.Sorting.Merge.Sorts.{SortsAll, merge_sorted_files-SortsAll}
use system_programming_hw.Sorting.Run.{
  Work, finished, started_work, taken, worked, left, takes, works, leaves, Reachable, begins, step,
  collect,
}
use system_programming_hw.Sorting.Run.Merged.{Reachable-SortsAll}
use system_programming_hw.Sorting.Merge.{
  int_max, written, before_start, Cursor, merge_loop, merge_sorted_files, merge_loop_max,
}

runs_sort : sort_file (3 ∷ 1 ∷ 2 ∷ 1 ∷ []) ≡ ok (1 ∷ 1 ∷ 2 ∷ 3 ∷ [])
unfolding sort_file
runs_sort = refl

runs_merge :
    merge_sorted_files ((1 ∷ 4 ∷ []) ∷ [] ∷ (2 ∷ 4 ∷ 5 ∷ []) ∷ [])
    ≡ written (1 ∷ 2 ∷ 4 ∷ 4 ∷ 5 ∷ [])
unfolding merge_sorted_files
runs_merge = refl

sort_file-Sorts_example : Sorts (3 ∷ 1 ∷ 2 ∷ []) (sort_file (3 ∷ 1 ∷ 2 ∷ []))
sort_file-Sorts_example = sort_file-Sorts (3 ∷ 1 ∷ 2 ∷ [])

-- A storage with two paths, of one byte each.
abbrev two_paths : FileStorage
two_paths = record { paths = (97 ∷ []) ∷ (98 ∷ []) ∷ []; cur_unsorted = 0; capacity = 2 }

add_paths-Added_example : Added two_paths ((99 ∷ []) ∷ []) (add_paths two_paths ((99 ∷ []) ∷ []))
add_paths-Added_example =
    add_paths-Added ((99 ∷ []) ∷ []) two_paths
      (record { inside = omega arith; positive = omega arith }) (omega arith)

-- Two files, one of them at its end.
abbrev with_max : Cursor
with_max = record { values = 1 ∷ int_max ∷ []; index = 1 }

abbrev at_end : Cursor
at_end = record { values = 1 ∷ []; index = 1 }

merge_loop_max_example : merge_loop 5 (at_end ∷ with_max ∷ []) ≡ before_start (int_max ∷ [])
merge_loop_max_example =
    merge_loop_max 4 (at_end ∷ with_max ∷ []) (inl refl, (inr refl, tt)) (omega arith)

merge_sorted_files-SortsAll_example :
    SortsAll
      ((1 ∷ 4 ∷ []) ∷ [] ∷ (2 ∷ 4 ∷ []) ∷ [])
      (merge_sorted_files ((1 ∷ 4 ∷ []) ∷ [] ∷ (2 ∷ 4 ∷ []) ∷ []))
merge_sorted_files-SortsAll_example =
    merge_sorted_files-SortsAll ((1 ∷ 4 ∷ []) ∷ [] ∷ (2 ∷ 4 ∷ []) ∷ []) (omega arith)

-- Two files, sorted by two coroutines that take turns.
abbrev two_files : List (List ℕ)
two_files = (3 ∷ 1 ∷ []) ∷ (2 ∷ []) ∷ []

abbrev both_busy : Work
both_busy = taken (taken (started_work 2) 0 (3 ∷ 1 ∷ [])) 1 (2 ∷ [])

abbrev both_over : Work
both_over = left (left (worked (worked both_busy 1 1 (2 ∷ [])) 0 0 (1 ∷ 3 ∷ [])) 1) 0

both_over-Reachable : Reachable two_files 2 both_over
unfolding sort_file
both_over-Reachable =
    step
      (step
        (step
          (step
            (step (step (begins 2) (takes 0 (3 ∷ 1 ∷ []) refl refl)) (takes 1 (2 ∷ []) refl refl))
            (works 1 1 (2 ∷ []) (2 ∷ []) refl refl))
          (works 0 0 (3 ∷ 1 ∷ []) (1 ∷ 3 ∷ []) refl refl))
        (leaves 1 refl (omega arith)))
      (leaves 0 refl (omega arith))

all_over : (k : ℕ) → both_over.routines k ≡ finished
all_over k = ground arith

Reachable-SortsAll_example :
    (files : List (List ℕ)) × (collect both_over.files_data 0 two_files ≡ some files)
    × SortsAll two_files (merge_sorted_files files)
Reachable-SortsAll_example =
    Reachable-SortsAll two_files 2 both_over (omega arith) (omega arith) both_over-Reachable
      all_over
