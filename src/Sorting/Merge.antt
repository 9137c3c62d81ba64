-- ===== src/Sorting/Merge.antt =====
-- hw1/solution.c, `merge_sorted_files`.
pub mod Picks
pub mod Sorts
use mathlib.Core.Path.{subst}
use system_programming_hw.Base.{
  sym, ℕ, zero, suc, ◌+◌, ◌-◌, ◌^◌, ◌<◌, ◌≡◌, refl, ap, ◌∙◌, arith, Bool, true, false, Option, none,
  some, List, [], ◌∷◌, length, drop, get_elem?, ltb, if◌then◌else◌, inl, inr, ◌⊎◌,
}

-- `INT_MAX`, 2 ^ 31 - 1 moved up by 2 ^ 31
abbrev pub int_max : ℕ
int_max = 2 ^ 32 - 1

-- A sorted file, and its place in `indices`.
pub record Cursor : Type 0 where
  pub values : List ℕ
  pub index : ℕ

-- What one pass over the files has found: `done`, `min_val` and `min_ind`, `none` for -1.
pub record Found : Type 0 where
  pub done : Bool
  pub min_val : ℕ
  pub min_ind : Option ℕ

-- The pass at a file with a value, or at its end.
found_value : ℕ → Option ℕ → Found → Found
found_value i none found = found
found_value i (some v) found =
    if ltb v found.min_val
    then record { done = false; min_val = v; min_ind = some i }
    else record found { done = false }

unfoldable pub scan_files : ℕ → List Cursor → Found → Found
unfolding found_value
scan_files i [] found = found
scan_files i (c ∷ cs) found =
    scan_files (i + 1) cs (found_value i (get_elem? c.values c.index) found)

-- `indices[i]++`
unfoldable pub advance : List Cursor → ℕ → List Cursor
advance [] i = []
advance (c ∷ cs) zero = record c { index = c.index + 1 } ∷ cs
advance (c ∷ cs) (suc i) = c ∷ advance cs i

-- The rounds: the values written out up to the end, or up to a round that writes its value and then
-- counts at index -1, before the start of `indices`.
pub data Merged : Type 0 where
  written before_start : List ℕ → Merged
  no_fuel : Merged

abbrev pub with_value : ℕ → Merged → Merged
with_value v (written rest) = written (v ∷ rest)
with_value v (before_start rest) = before_start (v ∷ rest)
with_value v no_fuel = no_fuel

-- `break`, or the value and the count.
merge_round : (List Cursor → Merged) → List Cursor → Found → Merged
merge_round again cs found = elim found.min_ind [
  | none ↦ if found.done then written [] else before_start (found.min_val ∷ [])
  | some i ↦ with_value found.min_val (again (advance cs i))
]

-- Fuel is one unit for each value and one more.
unfoldable pub merge_loop : ℕ → List Cursor → Merged
unfolding merge_round scan_files advance
merge_loop zero cs = no_fuel
merge_loop (suc fuel) cs =
    merge_round (merge_loop fuel) cs
      (scan_files 0 cs (record { done = true; min_val = int_max; min_ind = none }))

-- The values of a file that are still to be written.
abbrev pub values_left : List Cursor → ℕ
values_left [] = 0
values_left (c ∷ cs) = length (drop c.index c.values) + values_left cs

-- `indices` filled with 0
abbrev pub cursors : List (List ℕ) → List Cursor
cursors [] = []
cursors (values ∷ files) = record { values = values; index = 0 } ∷ cursors files

unfoldable pub merge_sorted_files : List (List ℕ) → Merged
unfolding merge_loop
merge_sorted_files files = merge_loop (suc (values_left (cursors files))) (cursors files)

-- Files in which only `INT_MAX` is left.
abbrev pub AllMax : List Cursor → Type 0
AllMax [] = Unit
AllMax (c ∷ cs) =
    ((get_elem? c.values c.index ≡ none) ⊎ (get_elem? c.values c.index ≡ some int_max)) × AllMax cs

-- The number of files with a value left.
abbrev pub has_head : Option ℕ → ℕ
has_head none = 0
has_head (some v) = 1

abbrev pub heads_left : List Cursor → ℕ
heads_left [] = 0
heads_left (c ∷ cs) = has_head (get_elem? c.values c.index) + heads_left cs

found_end : (i : ℕ) (o : Option ℕ) (found : Found) → o ≡ none → found_value i o found ≡ found
unfolding found_value
found_end i o found e = rw e refl

found_max :
    (i : ℕ) (o : Option ℕ) (found : Found)
    → found.min_val ≡ int_max
    → o ≡ some int_max
    → found_value i o found ≡ record found { done = false }
unfolding found_value
found_max i o found m e = rw e (ground arith)

-- The pass leaves the index at -1, and the value at `INT_MAX`.
scan_files_max :
    (i : ℕ) (cs : List Cursor) (found : Found)
    → AllMax cs
    → found.min_val ≡ int_max
    → found.min_ind ≡ none
    → ((scan_files i cs found).min_ind ≡ none) × ((scan_files i cs found).min_val ≡ int_max)
unfolding scan_files
scan_files_max i [] found h m n = (n, m)
scan_files_max i (c ∷ cs) found (inl e, h) m n =
    subst
      (λ (f : Found).
        ((scan_files (i + 1) cs f).min_ind ≡ none) × ((scan_files (i + 1) cs f).min_val ≡ int_max))
      (sym (found_end i (get_elem? c.values c.index) found e))
      (scan_files_max (i + 1) cs found h m n)
scan_files_max i (c ∷ cs) found (inr e, h) m n =
    subst
      (λ (f : Found).
        ((scan_files (i + 1) cs f).min_ind ≡ none) × ((scan_files (i + 1) cs f).min_val ≡ int_max))
      (sym (found_max i (get_elem? c.values c.index) found m e))
      (scan_files_max (i + 1) cs (record found { done = false }) h m n)

-- The pass sees that there is a value.
scan_files_seen :
    (i : ℕ) (cs : List Cursor) (found : Found)
    → AllMax cs
    → found.min_val ≡ int_max
    → ((found.done ≡ false) ⊎ (0 < heads_left cs))
    → (scan_files i cs found).done ≡ false
unfolding scan_files
scan_files_seen i [] found h m (inl d) = d
scan_files_seen i [] found h m (inr d) = absurd (omega arith)
scan_files_seen i (c ∷ cs) found (inl e, h) m d =
    ap (λ (f : Found). (scan_files (i + 1) cs f).done)
      (found_end i (get_elem? c.values c.index) found e)
    ∙ scan_files_seen (i + 1) cs found h m
        (elim d [ inl k ↦ inl k | inr k ↦ inr (omega (arith, k, ap has_head e)) ])
scan_files_seen i (c ∷ cs) found (inr e, h) m d =
    ap (λ (f : Found). (scan_files (i + 1) cs f).done)
      (found_max i (get_elem? c.values c.index) found m e)
    ∙ scan_files_seen (i + 1) cs (record found { done = false }) h m (inl refl)

merge_round_stuck :
    (again : List Cursor → Merged) (cs : List Cursor) (found : Found)
    → found.min_ind ≡ none
    → found.min_val ≡ int_max
    → found.done ≡ false
    → merge_round again cs found ≡ before_start (int_max ∷ [])
unfolding merge_round
merge_round_stuck again cs found e m d = rw (e, d, m) refl

-- Where the next value of every file that has one is `INT_MAX`, and there is one, no file is chosen,
-- since the value is not smaller than the start of the search: the round writes `INT_MAX`, and counts at
-- index -1.
pub merge_loop_max :
    (fuel : ℕ) (cs : List Cursor)
    → AllMax cs
    → 0 < heads_left cs
    → merge_loop (suc fuel) cs ≡ before_start (int_max ∷ [])
unfolding merge_loop
merge_loop_max fuel cs h pos =
    merge_round_stuck (merge_loop fuel) cs
      (scan_files 0 cs (record { done = true; min_val = int_max; min_ind = none }))
      (scan_files_max 0 cs (record { done = true; min_val = int_max; min_ind = none }) h refl
        refl).0
      (scan_files_max 0 cs (record { done = true; min_val = int_max; min_ind = none }) h refl
        refl).1
      (scan_files_seen 0 cs (record { done = true; min_val = int_max; min_ind = none }) h refl
        (inr pos))
