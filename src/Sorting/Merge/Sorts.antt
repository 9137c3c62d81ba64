-- ===== src/Sorting/Merge/Sorts.antt =====
-- hw1/solution.c, `merge_sorted_files`: the whole merge.
use mathlib.Core.List.{Perm, perm_middle}
use mathlib.Core.List.Perm
use mathlib.Core.Path.{subst}
use system_programming_hw.Base.{
  ℕ, zero, suc, ◌+◌, ◌≤◌, ◌<◌, ◌≡◌, refl, sym, ap, ◌∙◌, arith, true, Option, none, some, List, [],
  ◌∷◌, ◌++◌, length, drop, get_elem?, inl, inr,
}
use system_programming_hw.Sorting.Partition.{All, All-append, All-front, All-rest}
use system_programming_hw.Sorting.Quicksort.{IsAscending, weaken-All}
use system_programming_hw.Sorting.Merge.{
  Merged, written, found_value, Cursor, Found, scan_files, advance, values_left, int_max, cursors,
  merge_round, merge_loop, merge_sorted_files,
}
use system_programming_hw.Sorting.Merge.Picks.{
  rest_of, remaining, AreAscending, IsAbove, HeadsAbove, At, Stays, Picks, Scanned,
  scan_files-Scanned,
}

drop_at : (xs : List ℕ) (n v : ℕ) → get_elem? xs n ≡ some v → drop n xs ≡ v ∷ drop (n + 1) xs
drop_at [] n v e = absurd (cc e)
drop_at (x ∷ xs) zero v e = cc e
drop_at (x ∷ xs) (suc n) v e =
    let next : suc n + 1 ≡ suc (n + 1) = omega arith in
    drop_at xs n v e ∙ ap (λ (k : ℕ). v ∷ drop k (x ∷ xs)) (sym next)

drop_end : (xs : List ℕ) (n : ℕ) → get_elem? xs n ≡ none → drop n xs ≡ []
drop_end [] zero e = refl
drop_end [] (suc n) e = refl
drop_end (x ∷ xs) zero e = absurd (cc e)
drop_end (x ∷ xs) (suc n) e = drop_end xs n e

-- The count of the chosen file takes its value out of what is left.
pub record Advanced (cs after : List Cursor) (v : ℕ) : Type 1 where
  perm : Perm (remaining cs) (v ∷ remaining after)
  size : values_left cs ≡ suc (values_left after)
  ascends : AreAscending cs → AreAscending after
  keeps : (Q : ℕ → Type 0) → All Q (remaining cs) → Q v × All Q (remaining after)

advance-Advanced : (cs : List Cursor) (k v : ℕ) → At cs k v → Advanced cs (advance cs k) v
unfolding advance
advance-Advanced [] k v at = absurd at
advance-Advanced (c ∷ cs) zero v at =
    let e = drop_at c.values c.index v at in
    record {
      perm =
          subst
            (λ (l : List ℕ).
              Perm (l ++ remaining cs) (v ∷ (drop (c.index + 1) c.values ++ remaining cs)))
            (sym e) Perm.rfl;
      size = omega (arith, ap length e);
      ascends = λ h. ((subst IsAscending e h.0).1, h.1);
      keeps = λ Q h. subst (λ (l : List ℕ). All Q (l ++ remaining cs)) e h;
    }
advance-Advanced (c ∷ cs) (suc k) v at =
    let a = advance-Advanced cs k v at in
    record {
      perm =
          Perm.trans (Perm.append_left (rest_of c) a.perm)
            (perm_middle (rest_of c) (remaining (advance cs k)));
      size = omega (arith, a.size);
      ascends = λ h. (h.0, a.ascends h.1);
      keeps = λ Q h.
          let (q, all) = a.keeps Q (All-rest Q (rest_of c) (remaining cs) h) in
          (
            q,
            All-append Q (rest_of c) (remaining (advance cs k))
                (All-front Q (rest_of c) (remaining cs) h) all,
          );
    }

-- A value that is at most every next one is at most every one that is left.
rest-All :
    (m : ℕ) (xs : List ℕ) (n : ℕ)
    → IsAscending (drop n xs)
    → IsAbove m (get_elem? xs n)
    → All (λ x. m ≤ x) (drop n xs)
rest-All m [] zero a h = tt
rest-All m [] (suc n) a h = tt
rest-All m (x ∷ xs) zero a h =
    (h, weaken-All (λ y. x ≤ y) (λ y. m ≤ y) xs (λ y le. omega (arith, h)) a.0)
rest-All m (x ∷ xs) (suc n) a h = rest-All m xs n a h

remaining-All :
    (m : ℕ) (cs : List Cursor) → AreAscending cs → HeadsAbove m cs → All (λ x. m ≤ x) (remaining cs)
remaining-All m [] a h = tt
remaining-All m (c ∷ cs) a h =
    All-append (λ x. m ≤ x) (rest_of c) (remaining cs) (rest-All m c.values c.index a.0 h.0)
      (remaining-All m cs a.1 h.1)

-- Where every next value is at least INT_MAX and all are smaller, no file has one.
head_none :
    (xs : List ℕ) (n : ℕ)
    → IsAbove int_max (get_elem? xs n)
    → All (λ x. x < int_max) (drop n xs)
    → get_elem? xs n ≡ none
head_none [] n h k = refl
head_none (x ∷ xs) zero h k = absurd (omega (arith, h, k.0))
head_none (x ∷ xs) (suc n) h k = head_none xs n h k

-- A pass over such files finds nothing, and nothing is left.
scan_files_end :
    (i : ℕ) (cs : List Cursor) (found : Found)
    → HeadsAbove int_max cs
    → All (λ x. x < int_max) (remaining cs)
    → (scan_files i cs found ≡ found) × (remaining cs ≡ [])
unfolding scan_files found_value
scan_files_end i [] found h k = (refl, refl)
scan_files_end i (c ∷ cs) found h k =
    let below = All-front (λ x. x < int_max) (rest_of c) (remaining cs) k in
    let e = head_none c.values c.index h.0 below in
    let (same, empty) =
      scan_files_end (i + 1) cs found h.1
        (All-rest (λ x. x < int_max) (rest_of c) (remaining cs) k) in
    (
      ap (λ (o : Option ℕ). scan_files (i + 1) cs (found_value i o found)) e ∙ same,
      ap (λ (l : List ℕ). l ++ remaining cs) (drop_end c.values c.index e) ∙ empty,
    )

-- What the rounds leave behind.
record Merges (cs : List Cursor) (r : Merged) : Type 1 where
  merged : List ℕ
  result : r ≡ written merged
  perm : Perm (remaining cs) merged
  ascends : IsAscending merged
  keeps : (Q : ℕ → Type 0) → All Q (remaining cs) → All Q merged

-- What a pass starts with.
abbrev nothing_found : Found
nothing_found = record { done = true; min_val = int_max; min_ind = none }

round-Stays :
    (again : List Cursor → Merged) (cs : List Cursor)
    → All (λ x. x < int_max) (remaining cs)
    → Stays 0 cs nothing_found (scan_files 0 cs nothing_found)
    → Merges cs (merge_round again cs (scan_files 0 cs nothing_found))
unfolding merge_round
round-Stays again cs below s =
    let (same, empty) = scan_files_end 0 cs nothing_found s.above below in
    record {
      merged = [];
      result = ap (merge_round again cs) same;
      perm = subst (λ (l : List ℕ). Perm l []) (sym empty) Perm.rfl;
      ascends = tt;
      keeps = λ Q h. tt;
    }

round-Picks :
    (again : List Cursor → Merged) (cs : List Cursor) (r : Found)
    → AreAscending cs
    → (p : Picks 0 cs nothing_found r) → Merges (advance cs p.place) (again (advance cs p.place))
    → Merges cs (merge_round again cs r)
unfolding merge_round
round-Picks again cs r ascending p m =
    let a = advance-Advanced cs p.place r.min_val p.value in
    let least = remaining-All r.min_val cs ascending p.above in
    let place : 0 + p.place ≡ p.place = omega arith in
    record {
      merged = r.min_val ∷ m.merged;
      result = rw (p.min_ind, place, m.result) refl;
      perm = Perm.trans a.perm (Perm.cons r.min_val m.perm);
      ascends = (m.keeps (λ x. r.min_val ≤ x) (a.keeps (λ x. r.min_val ≤ x) least).1, m.ascends);
      keeps = λ Q h. ((a.keeps Q h).0, m.keeps Q (a.keeps Q h).1);
    }

merge_loop-Merges :
    (fuel : ℕ) (cs : List Cursor)
    → values_left cs < fuel
    → AreAscending cs
    → All (λ x. x < int_max) (remaining cs)
    → Merges cs (merge_loop fuel cs)
unfolding merge_loop Scanned
merge_loop-Merges zero cs enough ascending below = absurd (omega arith)
merge_loop-Merges (suc fuel) cs enough ascending below =
    elim (scan_files-Scanned 0 cs nothing_found) [
      | inl s ↦ round-Stays (merge_loop fuel) cs below s
      | inr p ↦
          (let a = advance-Advanced cs p.place (scan_files 0 cs nothing_found).min_val p.value in
            round-Picks (merge_loop fuel) cs (scan_files 0 cs nothing_found) ascending p (
              merge_loop-Merges fuel (advance cs p.place) (omega (arith, a.size))
                (a.ascends ascending) (a.keeps (λ x. x < int_max) below).1))
    ]

-- Files in ascending order, of values that are smaller than INT_MAX.
abbrev pub AreSorted : List (List ℕ) → Type 0
AreSorted [] = Unit
AreSorted (values ∷ files) = IsAscending values × All (λ x. x < int_max) values × AreSorted files

abbrev pub values_of : List (List ℕ) → List ℕ
values_of [] = []
values_of (values ∷ files) = values ++ values_of files

cursors-remaining : (files : List (List ℕ)) → remaining (cursors files) ≡ values_of files
cursors-remaining [] = refl
cursors-remaining (values ∷ files) = ap (λ (l : List ℕ). values ++ l) (cursors-remaining files)

cursors-AreAscending : (files : List (List ℕ)) → AreSorted files → AreAscending (cursors files)
cursors-AreAscending [] h = tt
cursors-AreAscending (values ∷ files) (a, b, h) = (a, cursors-AreAscending files h)

cursors-below :
    (files : List (List ℕ)) → AreSorted files → All (λ x. x < int_max) (remaining (cursors files))
cursors-below [] h = tt
cursors-below (values ∷ files) (a, b, h) =
    All-append (λ x. x < int_max) values (remaining (cursors files)) b (cursors-below files h)

-- What a merge of files leaves behind: their values, in ascending order.
pub record SortsAll (files : List (List ℕ)) (r : Merged) : Type 0 where
  pub merged : List ℕ
  pub result : r ≡ written merged
  pub perm : Perm (values_of files) merged
  pub ascends : IsAscending merged

-- The merge of any number of files in ascending order, whose values are smaller than INT_MAX, comes to
-- its end and writes exactly their values, in ascending order.
pub merge_sorted_files-SortsAll :
    (files : List (List ℕ)) → AreSorted files → SortsAll files (merge_sorted_files files)
unfolding merge_sorted_files
merge_sorted_files-SortsAll files h =
    let m =
      merge_loop-Merges (suc (values_left (cursors files))) (cursors files) (omega arith)
        (cursors-AreAscending files h) (cursors-below files h) in
    record {
      merged = m.merged;
      result = m.result;
      perm = subst (λ (l : List ℕ). Perm l m.merged) (cursors-remaining files) m.perm;
      ascends = m.ascends;
    }
