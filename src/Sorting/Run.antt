-- ===== src/Sorting/Run.antt =====
-- hw1/solution.c: the coroutines that sort the files, interleaved, and the merge behind them. What a
-- file holds is a parameter. A coroutine that is switched away from in the middle of a sort goes on
-- with its own array, so that a sort is one step, at its end.
pub mod Sound
pub mod Merged
use mathlib.Core.List.{Perm}
use mathlib.Core.List.Perm
use mathlib.Core.Path.{subst}
use system_programming_hw.Base.{
  ℕ, zero, suc, ◌+◌, ◌≤◌, ◌<◌, ◌≡◌, ◌≢◌, refl, sym, ap, ◌∙◌, arith, Bool, true, false, Option, none,
  some, List, [], ◌∷◌, ◌++◌, length, get_elem?, ltb, ◌==◌, if◌then◌else◌, Checked, ok, inl, inr,
  ◌⊎◌, ℕ_discrete, dec_lt,
}
use system_programming_hw.Sorting.{sort_file}
use system_programming_hw.Sorting.Partition.{All}
use system_programming_hw.Sorting.Quicksort.{IsAscending, SortsKeeping, sort_file-SortsKeeping}
use system_programming_hw.Sorting.Merge.{int_max, merge_sorted_files}
use system_programming_hw.Sorting.Merge.Sorts.{
  AreSorted, values_of, SortsAll, merge_sorted_files-SortsAll,
}

-- Where a coroutine stands in `coroutine_func_f`: at `haveFiles`, in the sort of a file, or at its end.
pub data Routine : Type 0 where
  checks finished : Routine
  sorts : ℕ → List ℕ → Routine

-- The next file, what `filesData` points to, and the coroutines.
pub record Work : Type 0 where
  pub cur_unsorted : ℕ
  pub files_data : ℕ → Option (List ℕ)
  pub routines : ℕ → Routine

abbrev pub change {ℓ} : {A : Type ℓ} → (ℕ → A) → ℕ → A → ℕ → A
change f k x j = if j == k then x else f j

-- The loop of `main` that makes the coroutines.
abbrev pub started_work : ℕ → Work
started_work n = record {
  cur_unsorted = 0;
  files_data = λ i. none;
  routines = λ k. if ltb k n then checks else finished;
}

-- `getLastUnsortFile` and `read_file_content`
abbrev pub taken : Work → ℕ → List ℕ → Work
taken w k values = record {
  cur_unsorted = w.cur_unsorted + 1;
  files_data = change w.files_data w.cur_unsorted (some values);
  routines = change w.routines k (sorts w.cur_unsorted values);
}

-- The end of `quicksort`
abbrev pub worked : Work → ℕ → ℕ → List ℕ → Work
worked w k i sorted = record w {
  files_data = change w.files_data i (some sorted);
  routines = change w.routines k checks;
}

-- `return` where `haveFiles` gives -1
abbrev pub left : Work → ℕ → Work
left w k = record w { routines = change w.routines k finished }

module _ (contents : List (List ℕ)) where
  -- A coroutine takes the next file and reads it, or it sorts its file, or it finds no file left.
  pub data Step : Work → Work → Type 0 where
    takes :
        {w : Work} (k : ℕ) (values : List ℕ)
        → w.routines k ≡ checks
        → get_elem? contents w.cur_unsorted ≡ some values
        → Step w (taken w k values)
    works :
        {w : Work} (k i : ℕ) (values sorted : List ℕ)
        → w.routines k ≡ sorts i values
        → sort_file values ≡ ok sorted
        → Step w (worked w k i sorted)
    leaves :
        {w : Work} (k : ℕ)
        → w.routines k ≡ checks
        → length contents ≤ w.cur_unsorted
        → Step w (left w k)

  pub data Reachable : ℕ → Work → Type 0 where
    begins : (n : ℕ) → Reachable n (started_work n)
    step : {n : ℕ} {w w' : Work} → Reachable n w → Step w w' → Reachable n w'

-- The files that the merge reads, one for each path from an index on.
abbrev pub with_file : Option (List ℕ) → Option (List (List ℕ)) → Option (List (List ℕ))
with_file none files = none
with_file (some sorted) none = none
with_file (some sorted) (some files) = some (sorted ∷ files)

abbrev pub collect : (ℕ → Option (List ℕ)) → ℕ → List (List ℕ) → Option (List (List ℕ))
collect files_data i [] = some []
collect files_data i (values ∷ contents) =
    with_file (files_data i) (collect files_data (i + 1) contents)
