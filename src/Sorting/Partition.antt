-- ===== src/Sorting/Partition.antt =====
-- hw1/solution.c, `partition`: small values, the pivot, and the rest.
use mathlib.Core.List.{Perm, perm_middle, perm_append_singleton}
use mathlib.Core.List.Perm
use mathlib.Core.Path.{subst}
use system_programming_hw.Base.{
  ℕ, zero, suc, ◌+◌, ◌-◌, ◌≤◌, ◌<◌, ◌≡◌, refl, sym, ap, ◌∙◌, arith, some, List, [], ◌∷◌, ◌++◌,
  append-nil, append_assoc, length, length-append, get_elem?, set, dec_lt, Checked, ok,
}
use system_programming_hw.Sorting.{
  swap, swap_values, partition_step, partition_loop, place_pivot, partition_from, partition,
}

abbrev pub All : (ℕ → Type 0) → List ℕ → Type 0
All Q [] = Unit
All Q (x ∷ xs) = Q x × All Q xs

pub All-append : (Q : ℕ → Type 0) (xs ys : List ℕ) → All Q xs → All Q ys → All Q (xs ++ ys)
All-append Q [] ys h k = k
All-append Q (x ∷ xs) ys h k = (h.0, All-append Q xs ys h.1 k)

pub All-front : (Q : ℕ → Type 0) (xs ys : List ℕ) → All Q (xs ++ ys) → All Q xs
All-front Q [] ys h = tt
All-front Q (x ∷ xs) ys h = (h.0, All-front Q xs ys h.1)

pub All-rest : (Q : ℕ → Type 0) (xs ys : List ℕ) → All Q (xs ++ ys) → All Q ys
All-rest Q [] ys h = h
All-rest Q (x ∷ xs) ys h = All-rest Q xs ys h.1

get_elem?_middle :
    (front : List ℕ) (x : ℕ) (rest : List ℕ) (i : ℕ)
    → i ≡ length front
    → get_elem? (front ++ x ∷ rest) i ≡ some x
get_elem?_middle [] x rest i e = ap (get_elem? (x ∷ rest)) e
get_elem?_middle (y ∷ front) x rest zero e = absurd (omega arith)
get_elem?_middle (y ∷ front) x rest (suc i) e = get_elem?_middle front x rest i (omega arith)

set_middle :
    (front : List ℕ) (x y : ℕ) (rest : List ℕ) (i : ℕ)
    → i ≡ length front
    → set (front ++ x ∷ rest) i y ≡ front ++ y ∷ rest
set_middle [] x y rest i e = ap (λ k. set (x ∷ rest) k y) e
set_middle (z ∷ front) x y rest zero e = absurd (omega arith)
set_middle (z ∷ front) x y rest (suc i) e = ap (◌∷◌ z) (set_middle front x y rest i (omega arith))

swap_go :
    (arr : List ℕ) (i j a b : ℕ)
    → get_elem? arr i ≡ some a
    → get_elem? arr j ≡ some b
    → swap arr i j ≡ ok (set (set arr i b) j a)
unfolding swap swap_values
swap_go arr i j a b e k = rw (e, k) refl

-- A swap of a place with itself.
swap_self :
    (front : List ℕ) (x : ℕ) (rest : List ℕ) (i j : ℕ)
    → i ≡ length front
    → j ≡ length front
    → swap (front ++ x ∷ rest) i j ≡ ok (front ++ x ∷ rest)
swap_self front x rest i j e k =
    swap_go (front ++ x ∷ rest) i j x x (get_elem?_middle front x rest i e)
      (get_elem?_middle front x rest j k)
    ∙ ap ok (ap (λ m. set m j x) (set_middle front x x rest i e) ∙ set_middle front x x rest j k)

-- A swap of two places.
swap_two :
    (front : List ℕ) (a : ℕ) (mid : List ℕ) (b : ℕ) (rest : List ℕ) (i j : ℕ)
    → i ≡ length front
    → j ≡ length front + suc (length mid)
    → swap (front ++ a ∷ (mid ++ b ∷ rest)) i j ≡ ok (front ++ b ∷ (mid ++ a ∷ rest))
swap_two front a mid b rest i j e k =
    swap_go (front ++ a ∷ (mid ++ b ∷ rest)) i j a b
      (get_elem?_middle front a (mid ++ b ∷ rest) i e)
      (ap (λ m. get_elem? m j) (shift a b) ∙ get_elem?_middle (front ++ a ∷ mid) b rest j at)
    ∙ ap ok (
        ap (λ m. set m j a) (set_middle front a b (mid ++ b ∷ rest) i e ∙ shift b b)
        ∙ set_middle (front ++ b ∷ mid) b a rest j (omega (arith, k, length-append front (b ∷ mid)))
        ∙ sym (shift b a))
  where
    shift : (u v : ℕ) → front ++ u ∷ (mid ++ v ∷ rest) ≡ (front ++ u ∷ mid) ++ v ∷ rest
    shift u v = sym (append_assoc front (u ∷ mid) (v ∷ rest))

    at : j ≡ length (front ++ a ∷ mid)
    at = omega (arith, k, length-append front (a ∷ mid))

-- What is swapped behind a value that is moved to the front.
record Rotated (large : List ℕ) : Type 1 where
  turned : List ℕ
  same_length : length turned ≡ length large
  perm : Perm large turned
  keeps : (Q : ℕ → Type 0) → All Q large → All Q turned

-- The swap of `x` with the first one of the large values.
record Swapped (front large : List ℕ) (x : ℕ) (rest : List ℕ) (i j : ℕ) : Type 1 where
  after : Rotated large
  result :
      swap (front ++ (large ++ x ∷ rest)) i j ≡ ok ((front ++ x ∷ []) ++ (after.turned ++ rest))

swap_front :
    (front large : List ℕ) (x : ℕ) (rest : List ℕ) (i j : ℕ)
    → i ≡ length front
    → j ≡ length front + length large
    → Swapped front large x rest i j
swap_front front [] x rest i j e k = record {
  after = record { turned = []; same_length = refl; perm = Perm.rfl; keeps = λ Q h. tt };
  result =
      swap_self front x rest i j e (omega (arith, k))
      ∙ ap ok (sym (append_assoc front (x ∷ []) rest));
}
swap_front front (l ∷ ls) x rest i j e k = record {
  after = record {
    turned = ls ++ l ∷ [];
    same_length = omega (arith, length-append ls (l ∷ []));
    perm = Perm.symm (perm_append_singleton l ls);
    keeps = λ Q h. All-append Q ls (l ∷ []) h.1 (h.0, tt);
  };
  result =
      swap_two front l ls x rest i j e (omega (arith, k))
      ∙ ap ok (
          ap (λ m. front ++ x ∷ m) (sym (append_assoc ls (l ∷ []) rest))
          ∙ sym (append_assoc front (x ∷ []) ((ls ++ l ∷ []) ++ rest)));
}

-- The loop: smaller values are added to the front, the others stay behind it.
record Split (front large rest : List ℕ) (pivot : ℕ) (after : List ℕ) (r : Checked (List ℕ × ℕ))
    : Type 1 where
  small : List ℕ
  others : List ℕ
  result : r ≡ ok (front ++ (small ++ (others ++ after)), length front + length small)
  same_length : length small + length others ≡ length large + length rest
  all_small : All (λ x. x < pivot) small
  all_large : All (λ x. pivot ≤ x) others
  perm : Perm (large ++ rest) (small ++ others)
  keeps : (Q : ℕ → Type 0) → All Q large → All Q rest → All Q small × All Q others

step_small :
    (n : ℕ) (arr arr' : List ℕ) (pivot i j x : ℕ)
    → get_elem? arr j ≡ some x
    → x < pivot
    → swap arr i j ≡ ok arr'
    → partition_loop (suc n) arr pivot i j ≡ partition_loop n arr' pivot (i + 1) (j + 1)
unfolding partition_loop partition_step
step_small n arr arr' pivot i j x e lt s = rw (e, s) (ground arith)

step_large :
    (n : ℕ) (arr : List ℕ) (pivot i j x : ℕ)
    → get_elem? arr j ≡ some x
    → pivot ≤ x
    → partition_loop (suc n) arr pivot i j ≡ partition_loop n arr pivot i (j + 1)
unfolding partition_loop partition_step
step_large n arr pivot i j x e ge = rw e (ground arith)

partition_loop_lem :
    (front large rest : List ℕ) (pivot : ℕ) (after : List ℕ) (n i j : ℕ)
    → n ≡ length rest
    → i ≡ length front
    → j ≡ length front + length large
    → All (λ x. pivot ≤ x) large
    → Split front large rest pivot after
        (partition_loop n (front ++ (large ++ (rest ++ after))) pivot i j)
unfolding partition_loop
partition_loop_lem front large [] pivot after zero i j n_is i_is j_is h = record {
  small = [];
  others = large;
  result = ap (λ k. ok (front ++ (large ++ after), k)) (omega arith);
  same_length = omega arith;
  all_small = tt;
  all_large = h;
  perm = subst (λ m. Perm m large) (sym (append-nil large)) Perm.rfl;
  keeps = λ Q a b. (tt, a);
}
partition_loop_lem front large [] pivot after (suc n) i j n_is i_is j_is h = absurd (omega arith)
partition_loop_lem front large (x ∷ rest) pivot after zero i j n_is i_is j_is h =
    absurd (omega arith)
partition_loop_lem front large (x ∷ rest) pivot after (suc n) i j n_is i_is j_is h =
    elim (dec_lt x pivot) [
      | yes lt ↦
          let s = swap_front front large x (rest ++ after) i j i_is j_is in
          let t = s.after in
          let r =
            partition_loop_lem (front ++ x ∷ []) t.turned rest pivot after n (i + 1) (j + 1)
              (omega arith) (omega (arith, length-append front (x ∷ [])))
              (omega (arith, length-append front (x ∷ []), t.same_length)) (t.keeps _ h) in
          record {
            small = x ∷ r.small;
            others = r.others;
            result =
                step_small n (front ++ (large ++ (x ∷ (rest ++ after)))) _ pivot i j x at lt
                  s.result
                ∙ r.result
                ∙ ap ok (
                    ap (λ m. (m, length (front ++ x ∷ []) + length r.small))
                      (append_assoc front (x ∷ []) (r.small ++ (r.others ++ after)))
                    ∙ ap (λ (k : ℕ). (front ++ x ∷ (r.small ++ (r.others ++ after)), k))
                        (omega (arith, length-append front (x ∷ []))));
            same_length = omega (arith, r.same_length, t.same_length);
            all_small = (lt, r.all_small);
            all_large = r.all_large;
            perm =
                Perm.trans (perm_middle large rest)
                  (Perm.cons x (Perm.trans (Perm.append_right rest t.perm) r.perm));
            keeps = λ Q a b. let (u, v) = r.keeps Q (t.keeps Q a) b.1 in ((b.0, u), v);
          }
      | no ge ↦
          let r =
            partition_loop_lem front (large ++ x ∷ []) rest pivot after n i (j + 1) (omega arith)
              i_is (omega (arith, length-append large (x ∷ [])))
              (All-append (λ y. pivot ≤ y) large (x ∷ []) h (omega arith, tt)) in
          record {
            small = r.small;
            others = r.others;
            result =
                step_large n (front ++ (large ++ (x ∷ (rest ++ after)))) pivot i j x at
                  (omega arith)
                ∙ ap (λ m. partition_loop n (front ++ m) pivot i (j + 1))
                    (sym (append_assoc large (x ∷ []) (rest ++ after)))
                ∙ r.result;
            same_length = omega (arith, r.same_length, length-append large (x ∷ []));
            all_small = r.all_small;
            all_large = r.all_large;
            perm =
                subst (λ m. Perm m (r.small ++ r.others)) (append_assoc large (x ∷ []) rest) r.perm;
            keeps = λ Q a b. r.keeps Q (All-append Q large (x ∷ []) a (b.0, tt)) b.1;
          }
    ]
  where
    at : get_elem? (front ++ (large ++ (x ∷ (rest ++ after)))) j ≡ some x
    at =
        ap (λ m. get_elem? m j) (sym (append_assoc front large (x ∷ (rest ++ after))))
        ∙ get_elem?_middle (front ++ large) x (rest ++ after) j
            (omega (arith, j_is, length-append front large))

-- `partition` of a part of the array that ends with the pivot: smaller values, the pivot at the
-- index that is returned, and the others.
pub record Parted (front xs : List ℕ) (pivot : ℕ) (after : List ℕ) (r : Checked (List ℕ × ℕ))
    : Type 1 where
  pub small : List ℕ
  pub large : List ℕ
  pub result : r ≡ ok (front ++ (small ++ pivot ∷ (large ++ after)), length front + length small)
  pub same_length : length small + length large ≡ length xs
  pub all_small : All (λ x. x < pivot) small
  pub all_large : All (λ x. pivot ≤ x) large
  pub perm : Perm (xs ++ pivot ∷ []) (small ++ pivot ∷ large)
  pub keeps : (Q : ℕ → Type 0) → All Q xs → All Q small × All Q large

place_go :
    (high : ℕ) (arr arr' : List ℕ) (i : ℕ)
    → swap arr i high ≡ ok arr'
    → place_pivot high (arr, i) ≡ ok (arr', i)
unfolding place_pivot
place_go high arr arr' i e = rw e refl

partition_go :
    (arr : List ℕ) (low high pivot : ℕ) (r : List ℕ × ℕ)
    → get_elem? arr high ≡ some pivot
    → partition_loop (high - low) arr pivot low low ≡ ok r
    → partition arr low high ≡ place_pivot high r
unfolding partition partition_from
partition_go arr low high pivot r e k = rw (e, k) refl

pub partition_lem :
    (front xs : List ℕ) (pivot : ℕ) (after : List ℕ) (low high : ℕ)
    → low ≡ length front
    → high ≡ length front + length xs
    → Parted front xs pivot after (partition (front ++ (xs ++ pivot ∷ after)) low high)
partition_lem front xs pivot after low high low_is high_is =
    let s =
      partition_loop_lem front [] xs pivot (pivot ∷ after) (high - low) low low (omega arith) low_is
        (omega arith) tt in
    let t =
      swap_front (front ++ s.small) s.others pivot after (length front + length s.small) high
        (omega (arith, length-append front s.small))
        (omega (arith, length-append front s.small, s.same_length)) in
    record {
      small = s.small;
      large = t.after.turned;
      result =
          partition_go (front ++ (xs ++ pivot ∷ after)) low high pivot _ at s.result
          ∙ place_go high (front ++ (s.small ++ (s.others ++ pivot ∷ after))) _
              (length front + length s.small)
              (ap (λ m. swap m (length front + length s.small) high)
                  (sym (append_assoc front s.small (s.others ++ pivot ∷ after)))
                ∙ t.result)
          ∙ ap (λ m. ok (m, length front + length s.small))
              (append_assoc (front ++ s.small) (pivot ∷ []) (t.after.turned ++ after)
                ∙ append_assoc front s.small (pivot ∷ (t.after.turned ++ after)));
      same_length = omega (arith, s.same_length, t.after.same_length);
      all_small = s.all_small;
      all_large = t.after.keeps _ s.all_large;
      perm = Perm.trans (perm_append_singleton pivot xs) (
          Perm.trans (Perm.cons pivot (Perm.trans s.perm (Perm.append_left s.small t.after.perm)))
            (Perm.symm (perm_middle s.small t.after.turned)));
      keeps = λ Q h. let (a, b) = s.keeps Q tt h in (a, t.after.keeps Q b);
    }
  where
    at : get_elem? (front ++ (xs ++ pivot ∷ after)) high ≡ some pivot
    at =
        ap (λ m. get_elem? m high) (sym (append_assoc front xs (pivot ∷ after)))
        ∙ get_elem?_middle (front ++ xs) pivot after high
            (omega (arith, high_is, length-append front xs))
