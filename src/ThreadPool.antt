-- ===== src/ThreadPool.antt =====
-- hw4/thread_pool.c: the pool and its workers. What happens between two points where the pool's
-- mutex is free is one function on the state; the waits are tests.
pub mod System
pub mod Counts
pub mod Invariant
pub mod Reach
pub mod Opens
pub mod Live
pub mod Progress
pub mod Clients
pub mod Signals
pub mod Task
mod Tests
use system_programming_hw.Base.{
  ℕ, zero, suc, ◌+◌, ◌-◌, ◌≤◌, Bool, true, false, not, ◌&&◌, ◌||◌, Option, none, some, List, [],
  ◌∷◌, length, ltb, leb, ◌==◌, if◌then◌else◌,
}

-- `TPOOL_MAX_THREADS` and `TPOOL_MAX_TASKS`
abbrev pub max_threads : ℕ
max_threads = 20

abbrev pub max_tasks : ℕ
max_tasks = 100000

-- `enum thread_poool_errcode`
pub data PoolError : Type 0 where
  invalid_argument too_many_tasks has_tasks task_not_pushed task_in_pool timed_out : PoolError

-- The result of a call: its value, or an error code.
pub data Result {ℓ} (A : Type ℓ) : Type ℓ where
  value : A → Result A
  error : PoolError → Result A

-- `struct thread_pool`. A task is a number. The list of threads is not NULL once one was made.
pub record Pool : Type 0 where
  pub has_threads : Bool
  pub pending_task_count : ℕ
  pub running_task_count : ℕ
  pub pending_task_list : List ℕ
  pub max_thread_count : ℕ
  pub thread_count : ℕ
  pub idle_thread_count : ℕ
  pub thread_idx_that_should_exit : Option ℕ

unfoldable pub thread_pool_new : ℕ → Result Pool
thread_pool_new max_thread_count =
    if ltb max_thread_count 1 || ltb max_threads max_thread_count
    then error invalid_argument
    else value (record {
      has_threads = false;
      pending_task_count = 0;
      running_task_count = 0;
      pending_task_list = [];
      max_thread_count = max_thread_count;
      thread_count = 0;
      idle_thread_count = 0;
      thread_idx_that_should_exit = none;
    })

-- `thread_pool_push_task` up to its wait: the number of threads to wait for, and the index of the
-- worker that is created, if one is.
pub record Spawning : Type 0 where
  pub pool : Pool
  pub required_thread_count : ℕ
  pub created : Option ℕ

unfoldable pub push_begin : Pool → Result Spawning
push_begin pool =
    if leb max_tasks pool.pending_task_count
    then error too_many_tasks
    else if not pool.has_threads
    then value (record {
      pool = record pool { has_threads = true };
      required_thread_count = 1;
      created = some 0;
    })
    else if pool.idle_thread_count == 0 && ltb pool.thread_count pool.max_thread_count
    then value (record {
      pool = pool;
      required_thread_count = pool.thread_count + 1;
      created = some pool.thread_count;
    })
    else value (record { pool = pool; required_thread_count = pool.thread_count; created = none })

-- The part behind the wait, which is over when there are as many threads as required.
unfoldable pub push_end : ℕ → Pool → Pool
push_end task pool = record pool {
  pending_task_list = task ∷ pool.pending_task_list;
  pending_task_count = pool.pending_task_count + 1;
}

-- A worker from its start to its wait.
unfoldable pub worker_start : Pool → Pool
worker_start pool = record pool {
  thread_count = pool.thread_count + 1;
  idle_thread_count = pool.idle_thread_count + 1;
}

-- What a worker does when the wait is tried: it leaves, takes the first task, or waits on. A list
-- that is empty while the count is not is a null pointer, `broken`.
pub data Woken : Type 0 where
  waits leaves broken : Woken
  takes : ℕ → Pool → Woken

take_task : Pool → List ℕ → Woken
take_task pool [] = broken
take_task pool (task ∷ tasks) = takes task (record pool {
  pending_task_list = tasks;
  idle_thread_count = pool.idle_thread_count - 1;
  pending_task_count = pool.pending_task_count - 1;
  running_task_count = pool.running_task_count + 1;
})

abbrev pub should_exit : Option ℕ → ℕ → Bool
should_exit none idx = false
should_exit (some i) idx = i == idx

unfoldable pub worker_wake : ℕ → Pool → Woken
unfolding take_task
worker_wake idx pool =
    if should_exit pool.thread_idx_that_should_exit idx
    then leaves
    else if ltb pool.pending_task_count 1
    then waits
    else take_task pool pool.pending_task_list

-- A worker behind its task, and back to the wait.
unfoldable pub worker_finish : Pool → Pool
worker_finish pool = record pool {
  running_task_count = pool.running_task_count - 1;
  idle_thread_count = pool.idle_thread_count + 1;
}

-- The test at the start of `thread_pool_delete`.
unfoldable pub delete_check : Pool → Bool
delete_check pool = not (
    ltb 0 pool.running_task_count
    || ltb 0 pool.pending_task_count
    || not (pool.idle_thread_count == pool.thread_count))
