-- ===== src/Sorting/Storage.antt =====
-- hw1/solution.c: the storage of paths, filled and given out.
use system_programming_hw.Base.{
  ℕ, suc, ◌+◌, ◌*◌, ◌≤◌, ◌<◌, ◌≡◌, refl, sym, ap, ◌∙◌, arith, Option, none, some, List, [], ◌∷◌,
  ◌++◌, Bytes, length, length-append, append-nil, append_assoc, zero, drop, drop_all, map,
  get_elem?, ◌>>=◌, dec_lt, Checked, ok,
}
use system_programming_hw.Sorting.{
  FileStorage, add_path, put_path, have_files, get_last_unsort_file,
}

-- The paths lie inside of the allocation, and doubling it makes room.
pub record HasRoom (list : FileStorage) : Type 0 where
  pub inside : length list.paths ≤ list.capacity
  pub positive : 0 < list.capacity

add_path_room :
    (list : FileStorage) (path : Bytes)
    → length list.paths < list.capacity
    → add_path list path ≡ ok (record list { paths = list.paths ++ path ∷ [] })
unfolding add_path put_path
add_path_room list path lt = ground arith

add_path_full :
    (list : FileStorage) (path : Bytes)
    → list.capacity ≤ length list.paths
    → length list.paths < list.capacity * 2
    → list.capacity * 2 < 2147483648
    → add_path list path
      ≡ ok (record list { paths = list.paths ++ path ∷ []; capacity = list.capacity * 2 })
unfolding add_path put_path
add_path_full list path ge lt fits = ground arith

-- All paths added, one after the other.
abbrev pub add_paths : FileStorage → List Bytes → Checked FileStorage
add_paths list [] = ok list
add_paths list (path ∷ paths) = do list' ← add_path list path; add_paths list' paths

-- The storage after paths were added.
pub record Added (list : FileStorage) (new : List Bytes) (r : Checked FileStorage) : Type 0 where
  pub after : FileStorage
  pub result : r ≡ ok after
  pub room : HasRoom after
  pub all_paths : after.paths ≡ list.paths ++ new
  pub same_unsorted : after.cur_unsorted ≡ list.cur_unsorted

add_path_lem :
    (list : FileStorage) (path : Bytes)
    → HasRoom list
    → length list.paths < 1073741824
    → Added list (path ∷ []) (add_path list path)
add_path_lem list path h fits = elim (dec_lt (length list.paths) list.capacity) [
  | yes lt ↦ record {
    after = record list { paths = list.paths ++ path ∷ [] };
    result = add_path_room list path lt;
    room = record {
      inside = omega (arith, length-append list.paths (path ∷ []));
      positive = h.positive;
    };
    all_paths = refl;
    same_unsorted = refl;
  }
  | no ge ↦ record {
    after = record list { paths = list.paths ++ path ∷ []; capacity = list.capacity * 2 };
    result =
        add_path_full list path (omega arith) (omega (arith, h.inside, h.positive))
          (omega (arith, h.inside, fits));
    room = record {
      inside = omega (arith, length-append list.paths (path ∷ []), h.inside, h.positive);
      positive = omega (arith, h.positive);
    };
    all_paths = refl;
    same_unsorted = refl;
  }
]

-- Adding paths to a storage whose paths lie in its allocation, up to 2 ^ 30 paths in all, never
-- overflows the capacity and never writes outside of the allocation, and keeps them all, in order.
pub add_paths-Added :
    (new : List Bytes) (list : FileStorage)
    → HasRoom list
    → length list.paths + length new ≤ 1073741824
    → Added list new (add_paths list new)
add_paths-Added [] list h fits = record {
  after = list;
  result = refl;
  room = h;
  all_paths = sym (append-nil list.paths);
  same_unsorted = refl;
}
add_paths-Added (path ∷ new) list h fits =
    let a = add_path_lem list path h (omega (arith, fits)) in
    let r =
      add_paths-Added new a.after a.room
        (omega (arith, fits, ap length a.all_paths, length-append list.paths (path ∷ []))) in
    record {
      after = r.after;
      result = ap (λ c. c >>= λ list'. add_paths list' new) a.result ∙ r.result;
      room = r.room;
      all_paths =
          r.all_paths ∙ ap (λ m. m ++ new) a.all_paths ∙ append_assoc list.paths (path ∷ []) new;
      same_unsorted = r.same_unsorted ∙ a.same_unsorted;
    }

-- The files given out as long as there are any, on fuel.
abbrev pub take_files : ℕ → FileStorage → List (Option Bytes)
take_files zero list = []
take_files (suc n) list = elim (have_files list) [
  | none ↦ []
  | some i ↦ (get_last_unsort_file list).0 ∷ take_files n (get_last_unsort_file list).1
]

take_files_end :
    (n : ℕ) (list : FileStorage)
    → length list.paths ≤ list.cur_unsorted
    → take_files (suc n) list ≡ []
unfolding have_files
take_files_end n list le = ground arith

take_files_next :
    (n : ℕ) (list : FileStorage)
    → list.cur_unsorted < length list.paths
    → take_files (suc n) list
      ≡ get_elem? list.paths list.cur_unsorted
        ∷ take_files n (record list { cur_unsorted = list.cur_unsorted + 1 })
unfolding have_files get_last_unsort_file
take_files_next n list lt = ground arith

drop_next :
    {A : Type 0} (xs : List A) (i : ℕ)
    → i < length xs
    → map some (drop i xs) ≡ get_elem? xs i ∷ map some (drop (i + 1) xs)
drop_next [] i lt = absurd (omega arith)
drop_next (x ∷ xs) zero lt =
    let e : 1 ≡ zero + 1 = omega arith in ap (λ k. some x ∷ map some (drop k (x ∷ xs))) e
drop_next (x ∷ xs) (suc i) lt =
    let e : suc (i + 1) ≡ suc i + 1 = omega arith in
    drop_next xs i (omega arith) ∙ ap (λ k. get_elem? xs i ∷ map some (drop k (x ∷ xs))) e

-- The coroutines together get each path that is left once, in order, and never a null pointer, and
-- then there is none: whoever asks, the pairs of calls do not overlap.
pub take_files_lem :
    (n : ℕ) (list : FileStorage)
    → length list.paths ≤ list.cur_unsorted + n
    → take_files (suc n) list ≡ map some (drop list.cur_unsorted list.paths)
take_files_lem zero list enough =
    take_files_end zero list (omega arith)
    ∙ sym (ap (map some) (drop_all list.cur_unsorted list.paths (omega arith)))
take_files_lem (suc n) list enough = elim (dec_lt list.cur_unsorted (length list.paths)) [
  | no ge ↦
      take_files_end (suc n) list (omega arith)
      ∙ sym (ap (map some) (drop_all list.cur_unsorted list.paths (omega arith)))
  | yes lt ↦
      take_files_next (suc n) list lt
      ∙ ap (◌∷◌ (get_elem? list.paths list.cur_unsorted))
          (take_files_lem n (record list { cur_unsorted = list.cur_unsorted + 1 }) (omega arith))
      ∙ sym (drop_next list.paths list.cur_unsorted lt)
]
