-- ===== src/Sorting/Merge/Picks.antt =====
-- hw1/solution.c, `merge_sorted_files`: one pass over the files, and the count of the chosen one.
use mathlib.Core.Path.{subst}
use system_programming_hw.Base.{
  ℕ, zero, suc, ◌+◌, ◌≤◌, ◌<◌, ◌≡◌, refl, sym, ap, ◌∙◌, arith, true, false, Option, none, some,
  List, [], ◌∷◌, ◌++◌, drop, get_elem?, ltb, inl, inr, ◌⊎◌, dec_lt,
}
use system_programming_hw.Sorting.Quicksort.{IsAscending}
use system_programming_hw.Sorting.Merge.{Cursor, Found, found_value, scan_files}

abbrev pub head : Cursor → Option ℕ
head c = get_elem? c.values c.index

-- The values of a file and of all files that are still to be written.
abbrev pub rest_of : Cursor → List ℕ
rest_of c = drop c.index c.values

abbrev pub remaining : List Cursor → List ℕ
remaining [] = []
remaining (c ∷ cs) = rest_of c ++ remaining cs

abbrev pub AreAscending : List Cursor → Type 0
AreAscending [] = Unit
AreAscending (c ∷ cs) = IsAscending (rest_of c) × AreAscending cs

abbrev pub IsAbove : ℕ → Option ℕ → Type 0
IsAbove m none = Unit
IsAbove m (some v) = m ≤ v

abbrev pub HeadsAbove : ℕ → List Cursor → Type 0
HeadsAbove m [] = Unit
HeadsAbove m (c ∷ cs) = IsAbove m (head c) × HeadsAbove m cs

-- The file at a place has this value next.
abbrev pub At : List Cursor → ℕ → ℕ → Type 0
At [] k v = ⊥
At (c ∷ cs) zero v = head c ≡ some v
At (c ∷ cs) (suc k) v = At cs k v

-- A pass finds nothing smaller, or it picks the smallest value.
pub record Stays (i : ℕ) (cs : List Cursor) (found r : Found) : Type 0 where
  pub min_val : r.min_val ≡ found.min_val
  pub min_ind : r.min_ind ≡ found.min_ind
  pub above : HeadsAbove found.min_val cs

pub record Picks (i : ℕ) (cs : List Cursor) (found r : Found) : Type 0 where
  pub place : ℕ
  pub min_ind : r.min_ind ≡ some (i + place)
  pub value : At cs place r.min_val
  pub smaller : r.min_val < found.min_val
  pub above : HeadsAbove r.min_val cs

unfoldable pub Scanned : ℕ → List Cursor → Found → Found → Type 0
Scanned i cs found r = Stays i cs found r ⊎ Picks i cs found r

-- The step at one file.
Scanned-end :
    (i : ℕ) (c : Cursor) (cs : List Cursor) (found r : Found)
    → head c ≡ none
    → Scanned (i + 1) cs found r
    → Scanned i (c ∷ cs) found r
unfolding Scanned
Scanned-end i c cs found r e (inl s) = inl (record {
  min_val = s.min_val;
  min_ind = s.min_ind;
  above = (subst (IsAbove found.min_val) (sym e) tt, s.above);
})
Scanned-end i c cs found r e (inr p) = inr (record {
  place = suc p.place;
  min_ind = p.min_ind ∙ ap some (omega arith);
  value = p.value;
  smaller = p.smaller;
  above = (subst (IsAbove r.min_val) (sym e) tt, p.above);
})

Scanned-smaller :
    (i v : ℕ) (c : Cursor) (cs : List Cursor) (found r : Found)
    → head c ≡ some v
    → v < found.min_val
    → Scanned (i + 1) cs (record { done = false; min_val = v; min_ind = some i }) r
    → Scanned i (c ∷ cs) found r
unfolding Scanned
Scanned-smaller i v c cs found r e lt (inl s) = inr (record {
  place = 0;
  min_ind = s.min_ind ∙ ap some (omega arith);
  value = e ∙ ap some (sym s.min_val);
  smaller = omega (arith, lt, s.min_val);
  above = (
    subst (IsAbove r.min_val) (sym e) (omega (arith, s.min_val)),
    subst (λ (m : ℕ). HeadsAbove m cs) (sym s.min_val) s.above,
  );
})
Scanned-smaller i v c cs found r e lt (inr p) = inr (record {
  place = suc p.place;
  min_ind = p.min_ind ∙ ap some (omega arith);
  value = p.value;
  smaller = omega (arith, lt, p.smaller);
  above = (subst (IsAbove r.min_val) (sym e) (omega (arith, p.smaller)), p.above);
})

Scanned-larger :
    (i v : ℕ) (c : Cursor) (cs : List Cursor) (found r : Found)
    → head c ≡ some v
    → found.min_val ≤ v
    → Scanned (i + 1) cs (record found { done = false }) r
    → Scanned i (c ∷ cs) found r
unfolding Scanned
Scanned-larger i v c cs found r e le (inl s) = inl (record {
  min_val = s.min_val;
  min_ind = s.min_ind;
  above = (subst (IsAbove found.min_val) (sym e) le, s.above);
})
Scanned-larger i v c cs found r e le (inr p) = inr (record {
  place = suc p.place;
  min_ind = p.min_ind ∙ ap some (omega arith);
  value = p.value;
  smaller = p.smaller;
  above = (subst (IsAbove r.min_val) (sym e) (omega (arith, le, p.smaller)), p.above);
})

Scanned-head :
    (i : ℕ) (c : Cursor) (cs : List Cursor) (found : Found) (o : Option ℕ)
    → head c ≡ o
    → ((f : Found) → Scanned (i + 1) cs f (scan_files (i + 1) cs f))
    → Scanned i (c ∷ cs) found (scan_files (i + 1) cs (found_value i o found))
unfolding found_value
Scanned-head i c cs found none e ih =
    Scanned-end i c cs found (scan_files (i + 1) cs found) e (ih found)
Scanned-head i c cs found (some v) e ih = elim (dec_lt v found.min_val) [
  | yes lt ↦
      (let less : ltb v found.min_val ≡ true = ground (arith, lt) in
        let f : Found = record { done = false; min_val = v; min_ind = some i } in
        rw less (Scanned-smaller i v c cs found (scan_files (i + 1) cs f) e lt (ih f)))
  | no ge ↦
      (let more : ltb v found.min_val ≡ false = ground (arith, ge) in
        let f : Found = record found { done = false } in
        rw more (Scanned-larger i v c cs found (scan_files (i + 1) cs f) e (omega arith) (ih f)))
]

-- A pass keeps what it had, or it picks the first file with the smallest value.
pub scan_files-Scanned :
    (i : ℕ) (cs : List Cursor) (found : Found) → Scanned i cs found (scan_files i cs found)
unfolding scan_files Scanned
scan_files-Scanned i [] found = inl (record { min_val = refl; min_ind = refl; above = tt })
scan_files-Scanned i (c ∷ cs) found =
    Scanned-head i c cs found (head c) refl (scan_files-Scanned (i + 1) cs)
