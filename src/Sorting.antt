-- ===== src/Sorting.antt =====
-- hw1/solution.c: the storage of files, the sort of one file, and the merge of the sorted ones. An
-- `int` is the number that stands 2 ^ 31 above it, which keeps the order.
pub mod Partition
pub mod Quicksort
pub mod Storage
pub mod Merge
pub mod Run
mod Tests
use system_programming_hw.Base.{
  ℕ, zero, suc, ◌+◌, ◌-◌, ◌*◌, ◌^◌, Option, none, some, List, [], ◌∷◌, ◌++◌, Bytes, length,
  get_elem?, set, ltb, leb, if◌then◌else◌, Checked, ok, crash, ◌>>=◌,
}

-- `struct file_storage`; the number of paths is the length of the list.
pub record FileStorage : Type 0 where
  pub paths : List Bytes
  pub cur_unsorted : ℕ
  pub capacity : ℕ

unfoldable pub file_storage_new : FileStorage
file_storage_new = record { paths = []; cur_unsorted = 0; capacity = 10 }

-- `addPath`; a path that is put outside of the allocation goes wrong.
put_path : FileStorage → Bytes → Checked FileStorage
put_path list path =
    if ltb (length list.paths) list.capacity
    then ok (record list { paths = list.paths ++ path ∷ [] })
    else crash

-- `capacity` is an `int`: to double it past 2 ^ 31 - 1 has no defined value.
unfoldable pub add_path : FileStorage → Bytes → Checked FileStorage
unfolding put_path
add_path list path =
    if leb list.capacity (length list.paths)
    then (if ltb (list.capacity * 2) 2147483648
        then put_path (record list { capacity = list.capacity * 2 }) path
        else crash)
    else put_path list path

-- `haveFiles`, with `none` for -1
unfoldable pub have_files : FileStorage → Option ℕ
have_files list = if ltb list.cur_unsorted (length list.paths) then some list.cur_unsorted else none

-- `getLastUnsortFile`
unfoldable pub get_last_unsort_file : FileStorage → Option Bytes × FileStorage
get_last_unsort_file list =
    (get_elem? list.paths list.cur_unsorted, record list { cur_unsorted = list.cur_unsorted + 1 })

-- `swap` of two places; one outside of the array goes wrong.
swap_values : List ℕ → ℕ → ℕ → Option ℕ → Option ℕ → Checked (List ℕ)
swap_values arr i j (some a) (some b) = ok (set (set arr i b) j a)
swap_values arr i j _ _ = crash

unfoldable pub swap : List ℕ → ℕ → ℕ → Checked (List ℕ)
unfolding swap_values
swap arr i j = swap_values arr i j (get_elem? arr i) (get_elem? arr j)

-- One round of the loop at the value that is read; `i` is one more than in the source. The yield
-- between rounds gives way to coroutines that sort other arrays.
partition_step :
    (List ℕ → ℕ → ℕ → Checked (List ℕ × ℕ)) → List ℕ → ℕ → ℕ → ℕ → Option ℕ → Checked (List ℕ × ℕ)
partition_step next arr pivot i j none = crash
partition_step next arr pivot i j (some x) =
    if ltb x pivot then (swap arr i j >>= λ arr'. next arr' (i + 1) (j + 1)) else next arr i (j + 1)

-- The loop, with the number of rounds that are left.
unfoldable pub partition_loop : ℕ → List ℕ → ℕ → ℕ → ℕ → Checked (List ℕ × ℕ)
unfolding partition_step swap
partition_loop zero arr pivot i j = ok (arr, i)
partition_loop (suc n) arr pivot i j =
    partition_step (λ arr' i' j'. partition_loop n arr' pivot i' j') arr pivot i j (get_elem? arr j)

-- The last swap, of the pivot to its place.
place_pivot : ℕ → List ℕ × ℕ → Checked (List ℕ × ℕ)
place_pivot high (arr, i) = swap arr i high >>= λ arr'. ok (arr', i)

partition_from : List ℕ → ℕ → ℕ → Option ℕ → Checked (List ℕ × ℕ)
partition_from arr low high none = crash
partition_from arr low high (some pivot) =
    partition_loop (high - low) arr pivot low low >>= place_pivot high

unfoldable pub partition : List ℕ → ℕ → ℕ → Checked (List ℕ × ℕ)
unfolding partition_from place_pivot partition_loop swap
partition arr low high = partition_from arr low high (get_elem? arr high)

-- `quicksort`, with the index behind the last one, `high + 1`. On fuel, one unit for each level of
-- the recursion; `crash` when it runs out.
unfoldable pub quicksort_parts :
    (List ℕ → ℕ → ℕ → Checked (List ℕ)) → ℕ → ℕ → List ℕ × ℕ → Checked (List ℕ)
quicksort_parts again low end (arr, pi) = again arr low pi >>= λ arr'. again arr' (pi + 1) end

unfoldable pub quicksort : ℕ → List ℕ → ℕ → ℕ → Checked (List ℕ)
unfolding quicksort_parts partition
quicksort zero arr low end = crash
quicksort (suc fuel) arr low end =
    let parts = partition arr low (end - 1) >>= quicksort_parts (quicksort fuel) low end in
    if ltb (low + 1) end then parts else ok arr

-- The sort of a whole file, as the coroutine calls it.
unfoldable pub sort_file : List ℕ → Checked (List ℕ)
unfolding quicksort
sort_file arr = quicksort (suc (length arr)) arr 0 (length arr)
