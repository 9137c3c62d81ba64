-- ===== src/Coroutine/System.antt =====
-- hw1/libcoro.c: the scheduler, the program that waits for coroutines, and the coroutines, in steps.
pub mod Safe
use system_programming_hw.Base.{ℕ, Bool, true, false, Option, none, some, List, ◌≡◌, length, ◌≤◌, ℤ}
use system_programming_hw.Coroutine.{
  Scheduler, coro_yield, Turn, returns, switches, sched_turn, resume, coro_finish, coro_new,
  coro_sched_init,
}
use system_programming_hw.Coroutine.Links.{Fresh, Lists}

-- The scheduler goes on where it called `coro_yield_to`.
abbrev pub arrive_at : Option ℕ → Scheduler → Scheduler
arrive_at none s = resume s
arrive_at (some c) s = s

abbrev pub arrive : Scheduler → Scheduler
arrive s = arrive_at s.coro_this s

-- The fuel of a search, which is enough for every list of the coroutines.
abbrev pub IsEnough : ℕ → Scheduler → Type 0
IsEnough fuel s = (ids : List ℕ) → Lists ids s → length ids ≤ fuel

-- The program calls `coro_sched_wait`, which switches to the first coroutine or returns; the coroutine
-- that runs yields or finishes; and whoever runs makes a coroutine, at an address that none has.
pub data Step : Scheduler → Scheduler → Type 0 where
  turns :
      {s s' : Scheduler} (fuel : ℕ)
      → s.coro_this ≡ none
      → IsEnough fuel s
      → sched_turn fuel s ≡ switches s'
      → Step s s'
  gives :
      {s s' : Scheduler} (fuel : ℕ) (c : Option ℕ)
      → s.coro_this ≡ none
      → IsEnough fuel s
      → sched_turn fuel s ≡ returns c s'
      → Step s s'
  yields : {s : Scheduler} (c : ℕ) → s.coro_this ≡ some c → Step s (arrive (coro_yield s))
  finishes :
      {s s' : Scheduler} (c : ℕ) (value : ℤ)
      → s.coro_this ≡ some c
      → coro_finish c value s ≡ some s'
      → Step s s'
  creates :
      {s : Scheduler} (c : ℕ) → ((ids : List ℕ) → Lists ids s → Fresh c ids) → Step s (coro_new c s)

-- The program begins with the list and the flag as C sets them, and initialises the scheduler.
pub data Reachable : Scheduler → Type 0 where
  begins :
      (s : Scheduler)
      → s.coro_list ≡ none
      → s.is_sched_waiting ≡ false
      → Reachable (coro_sched_init s)
  step : {s s' : Scheduler} → Reachable s → Step s s' → Reachable s'
