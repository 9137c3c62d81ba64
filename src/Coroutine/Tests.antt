-- ===== src/Coroutine/Tests.antt =====
-- hw1/libcoro.c: the theorems at concrete inputs.
use system_programming_hw.Base.{
  ℕ, true, false, none, some, List, [], ◌∷◌, ◌≡◌, ◌≢◌, refl, arith, length, ◌≤◌, ℤ, pos,
}
use system_programming_hw.Coroutine.{
  Scheduler, coro_list_add, coro_list_delete, coro_sched_init, coro_new, coro_yield, coro_yield_to,
  coro_finish, coro_is_finished, first_finished, sched_turn,
}
use system_programming_hw.Coroutine.Links.{Lists, Fresh, coro_list_delete-Lists}
use system_programming_hw.Coroutine.System.{turns, creates, Reachable, begins, step}
use system_programming_hw.Coroutine.System.Safe.{Reachable-runs}
use system_programming_hw.Coroutine.Rounds.{turn_order, turn_order-Lists}

abbrev blank : Scheduler
blank = record {
  ret = λ c. pos 0;
  is_finished = λ c. false;
  switch_count = λ c. 0;
  next = λ c. none;
  prev = λ c. none;
  sched_switch_count = 0;
  is_sched_waiting = false;
  coro_this = none;
  coro_list = none;
}

-- Three coroutines, made at 1, 2 and 3.
abbrev three : Scheduler
three = coro_new 3 (coro_new 2 (coro_new 1 (coro_sched_init blank)))

three-Lists : Lists (3 ∷ 2 ∷ 1 ∷ []) three
unfolding Lists coro_new coro_list_add
three-Lists = (
  ((omega arith, (omega arith, tt)), ((omega arith, tt), (tt, tt))),
  (refl, refl, (refl, refl, (refl, refl, refl))),
)

coro_list_delete-Lists_example : Lists (3 ∷ 1 ∷ []) (coro_list_delete 2 three)
coro_list_delete-Lists_example = coro_list_delete-Lists 2 (3 ∷ []) (1 ∷ []) three three-Lists

turn_order-Lists_example :
    turn_order 3 (coro_yield_to three.coro_list three) ≡ some 3 ∷ some 2 ∷ some 1 ∷ none ∷ []
turn_order-Lists_example = turn_order-Lists (3 ∷ 2 ∷ 1 ∷ []) three three-Lists

abbrev one : Scheduler
one = coro_new 1 (coro_sched_init blank)

no-Lists : (c : ℕ) (ids : List ℕ) → Lists ids (coro_sched_init blank) → Fresh c ids
unfolding Lists
no-Lists c [] lists = tt
no-Lists c (x ∷ ids) (apart, (at, back, h)) = absurd (cc at)

one-Lists : (ids : List ℕ) → Lists ids one → length ids ≤ 1
unfolding Lists coro_new coro_list_add
one-Lists [] lists = omega arith
one-Lists (x ∷ []) lists = omega arith
one-Lists (x ∷ y ∷ ids) (apart, (at, back, (at', back', h))) = absurd (ground (arith, at'))

abbrev one_runs : Scheduler
one_runs = coro_yield_to (some 1) (record one { is_sched_waiting = true })

one_runs-Reachable : Reachable one_runs
unfolding coro_new coro_list_add sched_turn first_finished
one_runs-Reachable =
    step (step (begins blank refl refl) (creates 1 (no-Lists 1))) (turns 1 refl one-Lists refl)

Reachable-runs_example :
    (coro_is_finished 1 one_runs ≡ false)
    × ((d : ℕ) → (coro_yield one_runs).coro_this ≡ some d → coro_is_finished d one_runs ≡ false)
    × ((value : ℤ) → coro_finish 1 value one_runs ≢ none)
unfolding coro_yield_to
Reachable-runs_example = Reachable-runs 1 one_runs-Reachable refl
