-- ===== src/ThreadPool/System.antt =====
-- hw4/thread_pool.c: the pool with its workers and one client, as steps.
use system_programming_hw.Base.{
  ℕ, suc, ◌<◌, ◌≡◌, true, Option, none, some, List, [], ◌∷◌, ◌++◌, get_elem?, set,
}
use system_programming_hw.ThreadPool.{
  Pool, value, Spawning, thread_pool_new, push_begin, push_end, worker_start, leaves, takes,
  worker_wake, worker_finish, delete_check,
}

-- A worker with its index: created, waiting for tasks, running one, or gone.
pub data Worker : Type 0 where
  spawned waiting gone : ℕ → Worker
  running : ℕ → ℕ → Worker

-- The client: outside of the pool's functions, waiting in a push for the number of threads, with the
-- task to push, or waiting in the deletion for a thread to end.
pub data Client : Type 0 where
  free : Client
  pushing : ℕ → ℕ → Client
  deleting : ℕ → Client

pub record System : Type 0 where
  pub pool : Pool
  pub workers : List Worker
  pub client : Client

abbrev pub created_workers : Option ℕ → List Worker
created_workers none = []
created_workers (some idx) = spawned idx ∷ []

-- One step of a worker or of the client. A wait whose test holds may end with a signal or without one, so
-- that what the pool can do with its condition variables (Signals) is among these steps.
pub data Step : System → System → Type 0 where
  starts :
      {s : System} (i idx : ℕ)
      → get_elem? s.workers i ≡ some (spawned idx)
      → Step s (record s { pool = worker_start s.pool; workers = set s.workers i (waiting idx) })
  exits :
      {s : System} (i idx : ℕ)
      → get_elem? s.workers i ≡ some (waiting idx)
      → worker_wake idx s.pool ≡ leaves
      → Step s (record s { workers = set s.workers i (gone idx) })
  begins :
      {s : System} (i idx task : ℕ) (pool' : Pool)
      → get_elem? s.workers i ≡ some (waiting idx)
      → worker_wake idx s.pool ≡ takes task pool'
      → Step s (record s { pool = pool'; workers = set s.workers i (running idx task) })
  finishes :
      {s : System} (i idx task : ℕ)
      → get_elem? s.workers i ≡ some (running idx task)
      → Step s (record s { pool = worker_finish s.pool; workers = set s.workers i (waiting idx) })
  pushes :
      {s : System} (task : ℕ) (p : Spawning)
      → s.client ≡ free
      → push_begin s.pool ≡ value p
      → Step s (record s {
        pool = p.pool;
        workers = s.workers ++ created_workers p.created;
        client = pushing p.required_thread_count task;
      })
  pushed :
      {s : System} (required task : ℕ)
      → s.client ≡ pushing required task
      → s.pool.thread_count ≡ required
      → Step s (record s { pool = push_end task s.pool; client = free })
  deletes :
      {s : System}
      → s.client ≡ free
      → delete_check s.pool ≡ true
      → s.pool.has_threads ≡ true
      → Step s (record s {
        pool = record s.pool { thread_idx_that_should_exit = some 0 };
        client = deleting 0;
      })
  joins :
      {s : System} (i : ℕ)
      → s.client ≡ deleting i
      → get_elem? s.workers i ≡ some (gone i)
      → suc i < s.pool.thread_count
      → Step s (record s {
        pool = record s.pool { thread_idx_that_should_exit = some (suc i) };
        client = deleting (suc i);
      })

-- The states that steps lead to from a new pool.
pub data Reachable : System → Type 0 where
  fresh :
      {pool : Pool} (max : ℕ)
      → thread_pool_new max ≡ value pool
      → Reachable (record { pool = pool; workers = []; client = free })
  after : {s t : System} → Reachable s → Step s t → Reachable t
