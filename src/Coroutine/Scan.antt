-- ===== src/Coroutine/Scan.antt =====
-- hw1/libcoro.c: the search of the scheduler for a finished coroutine.
use mathlib.Core.Path.{subst}
use system_programming_hw.Base.{
  inl, inr, ◌∙◌, ℕ, zero, suc, ◌≤◌, Bool, true, false, Option, some, List, [], ◌∷◌, ◌++◌, ◌≡◌, refl,
  sym, ap, arith, length, if◌then◌else◌,
}
use system_programming_hw.Coroutine.{Scheduler, Search, found, nothing, no_fuel, first_finished}
use system_programming_hw.Coroutine.Links.{In, Chain}

abbrev pub AreAlive : (ℕ → Bool) → List ℕ → Type 0
AreAlive finished [] = Unit
AreAlive finished (c ∷ cs) = (finished c ≡ false) × AreAlive finished cs

-- What the search may say of a list: nothing where no coroutine has finished, and else the first that has.
abbrev pub Says : (ℕ → Bool) → List ℕ → Search → Type 0
Says finished ids nothing = AreAlive finished ids
Says finished ids (found c) =
    (xs : List ℕ) × (ys : List ℕ) × (ids ≡ xs ++ c ∷ ys)
    × AreAlive finished xs
    × (finished c ≡ true)
Says finished ids no_fuel = ⊥

behind-Says :
    (finished : ℕ → Bool) (c : ℕ) (ids : List ℕ) (r : Search)
    → finished c ≡ false
    → Says finished ids r
    → Says finished (c ∷ ids) r
behind-Says finished c ids nothing alive h = (alive, h)
behind-Says finished c ids (found d) alive (xs, ys, e, all, over) =
    (c ∷ xs, ys, ap (λ (l : List ℕ). c ∷ l) e, (alive, all), over)
behind-Says finished c ids no_fuel alive h = h

-- With one unit of fuel for each coroutine of the list the search ends, and it finds the first
-- finished one exactly where there is one.
pub first_finished-Says :
    (fuel : ℕ) (s : Scheduler) (before : Option ℕ) (ids : List ℕ) (head : Option ℕ)
    → Chain s.next s.prev before ids head
    → length ids ≤ fuel
    → Says s.is_finished ids (first_finished fuel head s)
unfolding first_finished
first_finished-Says fuel s before [] head h enough = rw h tt
first_finished-Says zero s before (c ∷ ids) head h enough = absurd (omega arith)
first_finished-Says (suc fuel) s before (c ∷ ids) head (at, back, h) enough =
    subst (λ (q : Option ℕ). Says s.is_finished (c ∷ ids) (first_finished (suc fuel) q s)) (sym at)
      (step (s.is_finished c) refl
        (first_finished-Says fuel s (some c) ids (s.next c) h (omega arith)))
  where
    step :
        (b : Bool)
        → s.is_finished c ≡ b
        → Says s.is_finished ids (first_finished fuel (s.next c) s)
        → Says s.is_finished (c ∷ ids) (if b then found c else first_finished fuel (s.next c) s)
    step true over says = ([], ids, refl, tt, over)
    step false alive says =
        behind-Says s.is_finished c ids (first_finished fuel (s.next c) s) alive says

pub head-In :
    (next prev : ℕ → Option ℕ) (before : Option ℕ) (ids : List ℕ) (head : Option ℕ) (c : ℕ)
    → Chain next prev before ids head
    → head ≡ some c
    → In c ids
head-In next prev before [] head c h at = absurd (cc (h, at))
head-In next prev before (d ∷ ids) head c (at', back, h) at = inl (cc (at, at'))

-- What stands behind a coroutine of the list is in the list.
pub next-In :
    (next prev : ℕ → Option ℕ) (before : Option ℕ) (ids : List ℕ) (head : Option ℕ) (c d : ℕ)
    → Chain next prev before ids head
    → In c ids
    → next c ≡ some d
    → In d ids
next-In next prev before [] head c d h i at = absurd i
next-In next prev before (x ∷ ids) head c d (at', back, h) (inl e) at =
    inr (head-In next prev (some x) ids (next x) d h (ap next (sym e) ∙ at))
next-In next prev before (x ∷ ids) head c d (at', back, h) (inr i) at =
    inr (next-In next prev (some x) ids (next x) c d h i at)

pub alive-In :
    (finished : ℕ → Bool) (ids : List ℕ) (c : ℕ)
    → AreAlive finished ids
    → In c ids
    → finished c ≡ false
alive-In finished [] c all i = absurd i
alive-In finished (x ∷ ids) c (alive, all) (inl e) = ap finished e ∙ alive
alive-In finished (x ∷ ids) c (alive, all) (inr i) = alive-In finished ids c all i
