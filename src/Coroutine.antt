-- ===== src/Coroutine.antt =====
-- hw1/libcoro.c: coroutines and their scheduler. A coroutine is its address, and a field of it a map
-- from addresses. The switch of stacks and signal handlers is not modelled: a jump sets who runs.
pub mod Links
pub mod Scan
pub mod System
pub mod Rounds
mod Tests
use system_programming_hw.Base.{
  ℕ, zero, suc, ◌+◌, Bool, true, false, Option, none, some, List, [], ◌∷◌, ◌==◌, if◌then◌else◌, ℤ,
  pos,
}

abbrev pub update {ℓ} : {A : Type ℓ} → (ℕ → A) → ℕ → A → ℕ → A
update f c x k = if k == c then x else f k

-- The fields of `struct coro` and the variables of the scheduler. `none` is the scheduler's own
-- coroutine for `coro_this_ptr`, and the null pointer elsewhere.
pub record Scheduler : Type 0 where
  pub ret : ℕ → ℤ
  pub is_finished : ℕ → Bool
  pub switch_count : ℕ → ℕ
  pub next : ℕ → Option ℕ
  pub prev : ℕ → Option ℕ
  pub sched_switch_count : ℕ
  pub is_sched_waiting : Bool
  pub coro_this : Option ℕ
  pub coro_list : Option ℕ

-- A field of the coroutine that a pointer points to, set unless it is null.
abbrev pub update_at : (ℕ → Option ℕ) → Option ℕ → Option ℕ → ℕ → Option ℕ
update_at f none x = f
update_at f (some c) x = update f c x

unfoldable pub coro_list_add : ℕ → Scheduler → Scheduler
coro_list_add c s = record s {
  next = update s.next c s.coro_list;
  prev = update_at (update s.prev c none) s.coro_list (some c);
  coro_list = some c;
}

abbrev pub list_without : Option ℕ → Option ℕ → Option ℕ → Option ℕ
list_without none next list = next
list_without (some p) next list = list

unfoldable pub coro_list_delete : ℕ → Scheduler → Scheduler
coro_list_delete c s = record s {
  next = update_at s.next (s.prev c) (s.next c);
  prev = update_at s.prev (s.next c) (s.prev c);
  coro_list = list_without (s.prev c) (s.next c) s.coro_list;
}

abbrev pub coro_status : ℕ → Scheduler → ℤ
coro_status c s = s.ret c

abbrev pub coro_switch_count : ℕ → Scheduler → ℕ
coro_switch_count c s = s.switch_count c

abbrev pub coro_is_finished : ℕ → Scheduler → Bool
coro_is_finished c s = s.is_finished c

-- `++from->switch_count`
counted : Option ℕ → (ℕ → ℕ) → ℕ → ℕ
counted none count = count
counted (some c) count = update count c (count c + 1)

sched_counted : Option ℕ → ℕ → ℕ
sched_counted none n = n + 1
sched_counted (some c) n = n

-- `coro_yield_to`: the coroutine that goes on sets `coro_this_ptr` to itself.
unfoldable pub coro_yield_to : Option ℕ → Scheduler → Scheduler
unfolding counted sched_counted
coro_yield_to to s = record s {
  switch_count = counted s.coro_this s.switch_count;
  sched_switch_count = sched_counted s.coro_this s.sched_switch_count;
  coro_this = to;
}

-- `from->next`; nothing sets the one of the scheduler's own coroutine.
abbrev pub next_of : Option ℕ → Scheduler → Option ℕ
next_of none s = none
next_of (some c) s = s.next c

unfoldable pub coro_yield : Scheduler → Scheduler
coro_yield s = coro_yield_to (next_of s.coro_this s) s

-- The loop of `coro_sched_wait` over the list, on fuel: one unit for each coroutine and the end.
pub data Search : Type 0 where
  found : ℕ → Search
  nothing no_fuel : Search

unfoldable pub first_finished : ℕ → Option ℕ → Scheduler → Search
first_finished fuel none s = nothing
first_finished zero (some c) s = no_fuel
first_finished (suc fuel) (some c) s =
    let rest = first_finished fuel (s.next c) s in if s.is_finished c then found c else rest

-- One round of the outer loop: it returns a coroutine or null, or it switches to the first one.
pub data Turn : Type 0 where
  returns : Option ℕ → Scheduler → Turn
  switches : Scheduler → Turn
  stuck : Turn

turn_by : Scheduler → Search → Turn
turn_by s (found c) = returns (some c) (coro_list_delete c s)
turn_by s nothing = switches (coro_yield_to s.coro_list (record s { is_sched_waiting = true }))
turn_by s no_fuel = stuck

turn_on : ℕ → Scheduler → Option ℕ → Turn
unfolding turn_by coro_list_delete coro_yield_to first_finished
turn_on fuel s none = returns none s
turn_on fuel s (some c) = turn_by s (first_finished fuel (some c) s)

unfoldable pub sched_turn : ℕ → Scheduler → Turn
unfolding turn_on
sched_turn fuel s = turn_on fuel s s.coro_list

-- The scheduler goes on behind its call of `coro_yield_to`.
abbrev pub resume : Scheduler → Scheduler
resume s = record s { is_sched_waiting = false }

-- The end of `coro_body`, on the value of the function; `none` is the exit with a critical error.
unfoldable pub coro_finish : ℕ → ℤ → Scheduler → Option Scheduler
coro_finish c value s =
    if s.is_sched_waiting
    then some (record s {
      ret = update s.ret c value;
      is_finished = update s.is_finished c true;
      coro_this = none;
      is_sched_waiting = false;
    })
    else none

-- `coro_new`, with the address that the allocation gives.
unfoldable pub coro_new : ℕ → Scheduler → Scheduler
unfolding coro_list_add
coro_new c s = coro_list_add c (record s {
  ret = update s.ret c (pos 0);
  is_finished = update s.is_finished c false;
  switch_count = update s.switch_count c 0;
})

-- `coro_sched_init`: the scheduler's own coroutine is cleared, and is the one that runs.
abbrev pub coro_sched_init : Scheduler → Scheduler
coro_sched_init s = record s { sched_switch_count = 0; coro_this = none }
