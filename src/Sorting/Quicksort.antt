-- ===== src/Sorting/Quicksort.antt =====
-- hw1/solution.c, `quicksort` and the sort of a file.
use mathlib.Core.List.{Perm}
use mathlib.Core.List.Perm
use mathlib.Core.Path.{subst}
use system_programming_hw.Base.{
  ℕ, zero, suc, ◌+◌, ◌-◌, ◌≤◌, ◌<◌, ◌≡◌, refl, sym, ap, ◌∙◌, arith, List, [], ◌∷◌, ◌++◌, append-nil,
  append_assoc, length, length-append, Checked, ok,
}
use system_programming_hw.Sorting.{quicksort, quicksort_parts, partition, sort_file}
use system_programming_hw.Sorting.Partition.{
  All, All-append, All-front, All-rest, Parted, partition_lem,
}

-- Ascending: no value is larger than a later one.
abbrev pub IsAscending : List ℕ → Type 0
IsAscending [] = Unit
IsAscending (x ∷ xs) = All (λ y. x ≤ y) xs × IsAscending xs

pub weaken-All : (Q R : ℕ → Type 0) (xs : List ℕ) → ((x : ℕ) → Q x → R x) → All Q xs → All R xs
weaken-All Q R [] imp h = tt
weaken-All Q R (x ∷ xs) imp h = (imp x h.0, weaken-All Q R xs imp h.1)

-- Ascending parts around a pivot.
append-IsAscending :
    (small large : List ℕ) (pivot : ℕ)
    → IsAscending small
    → All (λ x. x < pivot) small
    → All (λ x. pivot ≤ x) large
    → IsAscending large
    → IsAscending (small ++ pivot ∷ large)
append-IsAscending [] large pivot a s l b = (l, b)
append-IsAscending (x ∷ small) large pivot a s l b = (
  All-append (λ y. x ≤ y) small (pivot ∷ large) a.0
      (
        omega (arith, s.0),
        weaken-All (λ y. pivot ≤ y) (λ y. x ≤ y) large (λ y le. omega (arith, s.0)) l,
      ),
  append-IsAscending small large pivot a.1 s.1 l b,
)

-- A part of the array that is sorted, with the rest of the array as it was.
pub record SortsPart (front xs after : List ℕ) (r : Checked (List ℕ)) : Type 1 where
  pub sorted : List ℕ
  pub result : r ≡ ok (front ++ (sorted ++ after))
  pub perm : Perm xs sorted
  pub ascends : IsAscending sorted
  pub same_length : length sorted ≡ length xs
  pub keeps : (Q : ℕ → Type 0) → All Q xs → All Q sorted

quicksort_short :
    (fuel : ℕ) (arr : List ℕ) (low end : ℕ)
    → end ≤ low + 1
    → quicksort (suc fuel) arr low end ≡ ok arr
unfolding quicksort
quicksort_short fuel arr low end le = ground arith

quicksort_long :
    (fuel : ℕ) (arr : List ℕ) (low end pi : ℕ) (arr₁ arr₂ : List ℕ)
    → low + 1 < end
    → partition arr low (end - 1) ≡ ok (arr₁, pi)
    → quicksort fuel arr₁ low pi ≡ ok arr₂
    → quicksort (suc fuel) arr low end ≡ quicksort fuel arr₂ (pi + 1) end
unfolding quicksort quicksort_parts
quicksort_long fuel arr low end pi arr₁ arr₂ lt e k = rw (e, k) (ground arith)

-- The last value of a list that is not empty.
record Snoc (xs : List ℕ) : Type 0 where
  init : List ℕ
  last : ℕ
  is : xs ≡ init ++ last ∷ []

cons-Snoc : (x : ℕ) (xs : List ℕ) → Snoc (x ∷ xs)
cons-Snoc x [] = record { init = []; last = x; is = refl }
cons-Snoc x (y ∷ xs) =
    let s = cons-Snoc y xs in record { init = x ∷ s.init; last = s.last; is = ap (◌∷◌ x) s.is }

sorts_short :
    (fuel : ℕ) (front xs after : List ℕ) (low end : ℕ)
    → length xs ≤ 1
    → end ≤ low + 1
    → SortsPart front xs after (quicksort (suc fuel) (front ++ (xs ++ after)) low end)
sorts_short fuel front [] after low end short le = record {
  sorted = [];
  result = quicksort_short fuel (front ++ after) low end le;
  perm = Perm.rfl;
  ascends = tt;
  same_length = refl;
  keeps = λ Q h. h;
}
sorts_short fuel front (x ∷ []) after low end short le = record {
  sorted = x ∷ [];
  result = quicksort_short fuel (front ++ x ∷ after) low end le;
  perm = Perm.rfl;
  ascends = (tt, tt);
  same_length = refl;
  keeps = λ Q h. h;
}
sorts_short fuel front (x ∷ y ∷ xs) after low end short le = absurd (omega arith)

-- The two parts sorted one after the other.
sorts_parts :
    (fuel : ℕ) (front init : List ℕ) (pivot : ℕ) (after : List ℕ) (low end : ℕ)
    (p : Parted front init pivot after (partition (front ++ (init ++ pivot ∷ after)) low (end - 1)))
    → low ≡ length front
    → end ≡ length front + suc (length init)
    → 0 < length init
    → (s : SortsPart front p.small (pivot ∷ (p.large ++ after)) (
        quicksort fuel
          (front ++ (p.small ++ pivot ∷ (p.large ++ after)))
          low
          (length front + length p.small)))
    → SortsPart (front ++ (s.sorted ++ pivot ∷ [])) p.large after (
        quicksort fuel
          ((front ++ (s.sorted ++ pivot ∷ [])) ++ (p.large ++ after))
          (length front + length p.small + 1)
          end)
    → SortsPart front
        (init ++ pivot ∷ [])
        after
        (quicksort (suc fuel) (front ++ (init ++ pivot ∷ after)) low end)
sorts_parts fuel front init pivot after low end p low_is end_is pos s t = record {
  sorted = s.sorted ++ pivot ∷ t.sorted;
  result =
      quicksort_long fuel (front ++ (init ++ pivot ∷ after)) low end (length front + length p.small)
        _ _ (omega arith) p.result s.result
      ∙ ap (λ m. quicksort fuel m (length front + length p.small + 1) end)
          (regroup (p.large ++ after))
      ∙ t.result
      ∙ ap ok (
          sym (regroup (t.sorted ++ after))
          ∙ ap (λ m. front ++ m) (sym (append_assoc s.sorted (pivot ∷ t.sorted) after)));
  perm = Perm.trans p.perm (Perm.append s.perm (Perm.cons pivot t.perm));
  ascends =
      append-IsAscending s.sorted t.sorted pivot s.ascends (s.keeps _ p.all_small)
        (t.keeps _ p.all_large) t.ascends;
  same_length = omega (
    arith,
    length-append s.sorted (pivot ∷ t.sorted),
    length-append init (pivot ∷ []),
    s.same_length,
    t.same_length,
    p.same_length,
  );
  keeps = λ Q h.
      let parts = p.keeps Q (All-front Q init (pivot ∷ []) h) in
      All-append Q s.sorted (pivot ∷ t.sorted) (s.keeps Q parts.0)
        ((All-rest Q init (pivot ∷ []) h).0, t.keeps Q parts.1);
}
  where
    regroup :
        (tail : List ℕ)
        → front ++ (s.sorted ++ pivot ∷ tail) ≡ (front ++ (s.sorted ++ pivot ∷ [])) ++ tail
    regroup tail = sym (
        append_assoc front (s.sorted ++ pivot ∷ []) tail
        ∙ ap (λ m. front ++ m) (append_assoc s.sorted (pivot ∷ []) tail))

-- With one unit of fuel more than the part is long, quicksort comes to its end, and the part is
-- sorted.
pub quicksort_lem :
    (fuel : ℕ) (front xs after : List ℕ) (low end : ℕ)
    → length xs < fuel
    → low ≡ length front
    → end ≡ length front + length xs
    → SortsPart front xs after (quicksort fuel (front ++ (xs ++ after)) low end)
quicksort_lem zero front xs after low end enough low_is end_is = absurd (omega arith)
quicksort_lem (suc fuel) front [] after low end enough low_is end_is =
    sorts_short fuel front [] after low end (omega arith) (omega arith)
quicksort_lem (suc fuel) front (x ∷ []) after low end enough low_is end_is =
    sorts_short fuel front (x ∷ []) after low end (omega arith) (omega arith)
quicksort_lem (suc fuel) front (x ∷ y ∷ xs) after low end enough low_is end_is =
    let c = cons-Snoc x (y ∷ xs) in
    let size : suc (length c.init) ≡ length (x ∷ y ∷ xs) =
      omega (arith, ap length c.is, length-append c.init (c.last ∷ [])) in
    let p = partition_lem front c.init c.last after low (end - 1) low_is (omega (arith, size)) in
    let s =
      quicksort_lem fuel front p.small (c.last ∷ (p.large ++ after)) low
        (length front + length p.small) (omega (arith, size, p.same_length)) low_is refl in
    let t =
      quicksort_lem fuel (front ++ (s.sorted ++ c.last ∷ [])) p.large after
        (length front + length p.small + 1) end (omega (arith, size, p.same_length))
        (omega (
          arith,
          length-append front (s.sorted ++ c.last ∷ []),
          length-append s.sorted (c.last ∷ []),
          s.same_length,
        ))
        (omega (
          arith,
          size,
          p.same_length,
          length-append front (s.sorted ++ c.last ∷ []),
          length-append s.sorted (c.last ∷ []),
          s.same_length,
        )) in
    let r =
      sorts_parts fuel front c.init c.last after low end p low_is (omega (arith, size))
        (omega (arith, size)) s t in
    subst
      (λ (m : List ℕ).
        SortsPart front m after (quicksort (suc fuel) (front ++ (m ++ after)) low end))
      (sym c.is)
      (subst
        (λ (m : List ℕ).
          SortsPart front (c.init ++ c.last ∷ []) after (quicksort (suc fuel) (front ++ m) low end))
        (sym (append_assoc c.init (c.last ∷ []) after)) r)

-- A sort of a file, with what holds of each value.
pub record SortsKeeping (before : List ℕ) (r : Checked (List ℕ)) : Type 1 where
  pub sorted : List ℕ
  pub result : r ≡ ok sorted
  pub perm : Perm before sorted
  pub ascends : IsAscending sorted
  pub keeps : (Q : ℕ → Type 0) → All Q before → All Q sorted

pub sort_file-SortsKeeping : (arr : List ℕ) → SortsKeeping arr (sort_file arr)
unfolding sort_file
sort_file-SortsKeeping arr =
    let s =
      quicksort_lem (suc (length arr)) [] arr [] 0 (length arr) (omega arith) refl (omega arith) in
    record {
      sorted = s.sorted;
      result =
          ap (λ m. quicksort (suc (length arr)) m 0 (length arr)) (sym (append-nil arr))
          ∙ s.result
          ∙ ap ok (append-nil s.sorted);
      perm = s.perm;
      ascends = s.ascends;
      keeps = s.keeps;
    }

-- What the sort of a file leaves behind.
pub record Sorts (before : List ℕ) (r : Checked (List ℕ)) : Type 0 where
  pub sorted : List ℕ
  pub result : r ≡ ok sorted
  pub perm : Perm before sorted
  pub ascends : IsAscending sorted

-- The sort of a file, whatever its values and its length, comes to its end, touches nothing outside
-- of its array, and leaves the same values in ascending order.
pub sort_file-Sorts : (arr : List ℕ) → Sorts arr (sort_file arr)
sort_file-Sorts arr =
    let s = sort_file-SortsKeeping arr in
    record { sorted = s.sorted; result = s.result; perm = s.perm; ascends = s.ascends }
