-- ===== src/Sorting/Run/Sound.antt =====
-- hw1/solution.c: what holds of the files and the coroutines at every step.
use system_programming_hw.Base.{
  ℕ, ◌+◌, ◌≤◌, ◌<◌, ◌≡◌, ◌≢◌, refl, sym, ap, ◌∙◌, arith, Bool, true, false, Option, some, List,
  length, get_elem?, ltb, if◌then◌else◌, ok, inl, inr, ◌⊎◌, ℕ_discrete,
}
use system_programming_hw.Sorting.{sort_file}
use system_programming_hw.Sorting.Run.{
  Routine, checks, finished, sorts, Work, change, started_work, taken, worked, left, takes, works,
  leaves, Reachable, begins, step,
}

change_same {ℓ} : {A : Type ℓ} (f : ℕ → A) (k : ℕ) (x : A) → change f k x k ≡ x
change_same f k x = ground arith

change_other {ℓ} : {A : Type ℓ} (f : ℕ → A) (k j : ℕ) (x : A) → j ≢ k → change f k x j ≡ f j
change_other f k j x ne = ground (arith, ne)

module _ (contents : List (List ℕ)) where
  -- A file that was taken holds its sorted values, or a coroutine sorts it.
  unfoldable pub Settled : Work → ℕ → List ℕ → Type 0
  Settled w i values =
      (sorted : List ℕ) × (w.files_data i ≡ some sorted) × (sort_file values ≡ ok sorted)

  unfoldable pub Busy : Work → ℕ → List ℕ → Type 0
  Busy w i values = (k : ℕ) × (w.routines k ≡ sorts i values)

  pub record IsSound (n : ℕ) (w : Work) : Type 0 where
    pub covered :
        (i : ℕ) (values : List ℕ)
        → get_elem? contents i ≡ some values
        → i < w.cur_unsorted
        → Settled w i values ⊎ Busy w i values
    pub own :
        (k i : ℕ) (values : List ℕ)
        → w.routines k ≡ sorts i values
        → (get_elem? contents i ≡ some values) × (i < w.cur_unsorted)
    pub ended : (k : ℕ) → k < n → w.routines k ≡ finished → length contents ≤ w.cur_unsorted

  -- A coroutine that is somewhere else is another one.
  apart : (w : Work) (k l : ℕ) (p q : Routine) → w.routines k ≡ p → w.routines l ≡ q → p ≢ q → l ≢ k
  apart w k l p q at at' ne e = ne (sym at ∙ ap w.routines (sym e) ∙ at')

  Settled-apart :
      (w w' : Work) (i j : ℕ) (x : Option (List ℕ)) (values : List ℕ)
      → w'.files_data ≡ change w.files_data i x
      → j ≢ i
      → Settled w j values
      → Settled w' j values
  unfolding Settled
  Settled-apart w w' i j x values e ne (sorted, at, is) = (
    sorted,
    ap (λ (f : ℕ → Option (List ℕ)). f j) e ∙ change_other w.files_data i j x ne ∙ at,
    is,
  )

  Busy-apart :
      (w w' : Work) (k : ℕ) (p : Routine) (i : ℕ) (values : List ℕ)
      → w'.routines ≡ change w.routines k p
      → w.routines k ≢ sorts i values
      → Busy w i values
      → Busy w' i values
  unfolding Busy
  Busy-apart w w' k p i values e ne (l, at) = (
    l,
    ap (λ (f : ℕ → Routine). f l) e
        ∙ change_other w.routines k l p (λ same. ne (ap w.routines (sym same) ∙ at))
        ∙ at,
  )

  -- What the other coroutines have, and the changed one.
  changed_at :
      (w : Work) (k l : ℕ) (p q : Routine) (P : Type 0)
      → change w.routines k p l ≡ q
      → (p ≡ q → P)
      → (w.routines l ≡ q → P)
      → P
  changed_at w k l p q P e changed kept = elim (ℕ_discrete l k) [
    | yes same ↦
        changed (sym (change_same w.routines k p) ∙ ap (change w.routines k p) (sym same) ∙ e)
    | no ne ↦ kept (sym (change_other w.routines k l p ne) ∙ e)
  ]

  takes-IsSound :
      (n : ℕ) (w : Work) (k : ℕ) (values : List ℕ)
      → IsSound n w
      → w.routines k ≡ checks
      → get_elem? contents w.cur_unsorted ≡ some values
      → IsSound n (taken w k values)
  unfolding Busy
  takes-IsSound n w k values sound at next = record {
    covered = λ i vs get lt. elim (ℕ_discrete i w.cur_unsorted) [
      | yes same ↦
          (let found : vs ≡ values = cc (sym get, ap (get_elem? contents) same, next) in
            inr (k, change_same w.routines k (sorts w.cur_unsorted values) ∙ cc (same, found)))
      | no ne ↦ elim (sound.covered i vs get (omega arith)) [
        | inl s ↦
            inl (Settled-apart w (taken w k values) w.cur_unsorted i (some values) vs refl ne s)
        | inr b ↦ inr (
            Busy-apart w (taken w k values) k (sorts w.cur_unsorted values) i vs refl
              (λ e. absurd (cc (sym at, e))) b)
      ]
    ];
    own = λ l i vs e.
        changed_at w k l (sorts w.cur_unsorted values) (sorts i vs)
          ((get_elem? contents i ≡ some vs) × (i < w.cur_unsorted + 1)) e
          (λ new.
            let place : w.cur_unsorted ≡ i = cc new in
            let found : values ≡ vs = cc new in
            (ap (get_elem? contents) (sym place) ∙ next ∙ ap some found, omega (arith, place)))
          (λ old. ((sound.own l i vs old).0, omega (arith, (sound.own l i vs old).1)));
    ended = λ l lt over.
        changed_at w k l (sorts w.cur_unsorted values) finished
          (length contents ≤ w.cur_unsorted + 1) over (λ new. absurd (cc new))
          (λ old. omega (arith, sound.ended l lt old));
  }

  works-IsSound :
      (n : ℕ) (w : Work) (k i : ℕ) (values sorted : List ℕ)
      → IsSound n w
      → w.routines k ≡ sorts i values
      → sort_file values ≡ ok sorted
      → IsSound n (worked w k i sorted)
  unfolding Settled
  works-IsSound n w k i values sorted sound at is = record {
    covered = λ j vs get lt. elim (ℕ_discrete j i) [
      | yes same ↦
          (let found : values ≡ vs =
              cc (sym get, ap (get_elem? contents) same, (sound.own k i values at).0) in
            inl (
              sorted,
              ap (change w.files_data i (some sorted)) same
                  ∙ change_same w.files_data i (some sorted),
              ap sort_file (sym found) ∙ is,
            ))
      | no ne ↦ elim (sound.covered j vs get lt) [
        | inl s ↦ inl (Settled-apart w (worked w k i sorted) i j (some sorted) vs refl ne s)
        | inr b ↦ inr (
            Busy-apart w (worked w k i sorted) k checks j vs refl
              (λ e. let clash : i ≡ j = cc (sym at, e) in ne (sym clash)) b)
      ]
    ];
    own = λ l j vs e.
        changed_at w k l checks (sorts j vs)
          ((get_elem? contents j ≡ some vs) × (j < w.cur_unsorted)) e (λ new. absurd (cc new))
          (λ old. sound.own l j vs old);
    ended = λ l lt over.
        changed_at w k l checks finished (length contents ≤ w.cur_unsorted) over
          (λ new. absurd (cc new)) (λ old. sound.ended l lt old);
  }

  leaves-IsSound :
      (n : ℕ) (w : Work) (k : ℕ)
      → IsSound n w
      → w.routines k ≡ checks
      → length contents ≤ w.cur_unsorted
      → IsSound n (left w k)
  unfolding Settled
  leaves-IsSound n w k sound at none_left = record {
    covered = λ j vs get lt. elim (sound.covered j vs get lt) [
      | inl s ↦ inl s
      | inr b ↦ inr (Busy-apart w (left w k) k finished j vs refl (λ e. absurd (cc (sym at, e))) b)
    ];
    own = λ l j vs e.
        changed_at w k l finished (sorts j vs)
          ((get_elem? contents j ≡ some vs) × (j < w.cur_unsorted)) e (λ new. absurd (cc new))
          (λ old. sound.own l j vs old);
    ended = λ l lt over. none_left;
  }

  not_sorting :
      (b : Bool) (i : ℕ) (values : List ℕ) → (if b then checks else finished) ≡ sorts i values → ⊥
  not_sorting true i values e = absurd (cc e)
  not_sorting false i values e = absurd (cc e)

  started_work-IsSound : (n : ℕ) → IsSound n (started_work n)
  started_work-IsSound n = record {
    covered = λ i values get lt. absurd (omega (arith, lt));
    own = λ k i values e. absurd (not_sorting (ltb k n) i values e);
    ended = λ k lt over.
        let inside : ltb k n ≡ true = ground (arith, lt) in
        let clash : checks ≡ finished =
          ap (λ (b : Bool). if b then checks else finished) (sym inside) ∙ over in
        absurd (cc clash);
  }

  pub Reachable-IsSound : {n : ℕ} {w : Work} → Reachable contents n w → IsSound n w
  Reachable-IsSound (begins n) = started_work-IsSound n
  Reachable-IsSound (step {n = n} {w = w} r (takes k values at next)) =
      takes-IsSound n w k values (Reachable-IsSound r) at next
  Reachable-IsSound (step {n = n} {w = w} r (works k i values sorted at is)) =
      works-IsSound n w k i values sorted (Reachable-IsSound r) at is
  Reachable-IsSound (step {n = n} {w = w} r (leaves k at none_left)) =
      leaves-IsSound n w k (Reachable-IsSound r) at none_left
