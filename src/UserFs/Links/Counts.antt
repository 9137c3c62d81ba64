-- ===== src/UserFs/Links/Counts.antt =====
-- hw3/userfs.c: the descriptors counted, after a change of the table.
use system_programming_hw.Base.{
  ℕ, zero, suc, ◌+◌, ◌≤◌, ◌≡◌, ◌≢◌, refl, ap, arith, Option, none, some, List, [], ◌∷◌, ◌++◌,
  length, map, get_elem?, set, replicate,
}
use system_programming_hw.UserFs.State.{FileDesc}
use system_programming_hw.UserFs.Links.{points, taken, count_refs, count_used}

pub points_same : (d : FileDesc) → points d.file (some d) ≡ 1
points_same d = ground arith

pub points_other : (p : ℕ) (d : FileDesc) → p ≢ d.file → points p (some d) ≡ 0
points_other p d ne = ground arith

pub count_refs-set :
    (p : ℕ) (table : List (Option FileDesc)) (i : ℕ) (old new : Option FileDesc)
    → get_elem? table i ≡ some old
    → count_refs p (set table i new) + points p old ≡ count_refs p table + points p new
count_refs-set p [] i old new e = absurd (cc e)
count_refs-set p (s ∷ table) zero old new e =
    let e' : s ≡ old = cc e in omega (arith, ap (points p) e')
count_refs-set p (s ∷ table) (suc i) old new e = omega (arith, count_refs-set p table i old new e)

pub count_used-set :
    (table : List (Option FileDesc)) (i : ℕ) (old new : Option FileDesc)
    → get_elem? table i ≡ some old
    → count_used (set table i new) + taken old ≡ count_used table + taken new
count_used-set [] i old new e = absurd (cc e)
count_used-set (s ∷ table) zero old new e = let e' : s ≡ old = cc e in omega (arith, ap taken e')
count_used-set (s ∷ table) (suc i) old new e = omega (arith, count_used-set table i old new e)

pub count_refs-append_none :
    (p : ℕ) (table : List (Option FileDesc)) (n : ℕ)
    → count_refs p (table ++ replicate n none) ≡ count_refs p table
unfolding replicate
count_refs-append_none p [] zero = refl
count_refs-append_none p [] (suc n) = omega (arith, count_refs-append_none p [] n)
count_refs-append_none p (s ∷ table) n = ap (λ k. points p s + k) (count_refs-append_none p table n)

pub count_used-append_none :
    (table : List (Option FileDesc)) (n : ℕ)
    → count_used (table ++ replicate n none) ≡ count_used table
unfolding replicate
count_used-append_none [] zero = refl
count_used-append_none [] (suc n) = omega (arith, count_used-append_none [] n)
count_used-append_none (s ∷ table) n = ap (λ k. taken s + k) (count_used-append_none table n)

pub taken_le : (s : Option FileDesc) → taken s ≤ 1
taken_le none = omega arith
taken_le (some d) = omega arith

pub count_used_le : (table : List (Option FileDesc)) → count_used table ≤ length table
count_used_le [] = omega arith
count_used_le (s ∷ table) = omega (arith, count_used_le table, taken_le s)

-- A change of every descriptor that leaves its file.
pub count_refs-map :
    (h : Option FileDesc → Option FileDesc) (p : ℕ) (table : List (Option FileDesc))
    → ((s : Option FileDesc) → points p (h s) ≡ points p s)
    → count_refs p (map h table) ≡ count_refs p table
count_refs-map h p [] same = refl
count_refs-map h p (s ∷ table) same = omega (arith, same s, count_refs-map h p table same)

pub count_used-map :
    (h : Option FileDesc → Option FileDesc) (table : List (Option FileDesc))
    → ((s : Option FileDesc) → taken (h s) ≡ taken s)
    → count_used (map h table) ≡ count_used table
count_used-map h [] same = refl
count_used-map h (s ∷ table) same = omega (arith, same s, count_used-map h table same)
