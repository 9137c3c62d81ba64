-- ===== src/ThreadPool/Progress.antt =====
-- hw4/thread_pool.c: the steps of the workers alone.
use system_programming_hw.Base.{
  ℕ, ◌+◌, ◌-◌, ◌*◌, ◌<◌, ◌≡◌, refl, ap, arith, Bool, false, Option, none, List, [], ◌∷◌, length,
  ltb, if◌then◌else◌,
}
use system_programming_hw.ThreadPool.{
  Pool, worker_start, worker_finish, waits, leaves, takes, take_task, should_exit, worker_wake,
}
use system_programming_hw.ThreadPool.System.{
  Worker, spawned, waiting, gone, running, Client, free, pushing, deleting, System, Step, starts,
  exits, begins, finishes, pushes, pushed, deletes, joins,
}
use system_programming_hw.ThreadPool.Counts.{is_running, total, total-set, worker_wake-Taken}
use system_programming_hw.ThreadPool.Live.{is_gone, ClientLive, wake_stays}

-- A step of a worker.
abbrev pub IsWorkers : {s t : System} → Step s t → Type 0
IsWorkers (starts i idx e) = Unit
IsWorkers (exits i idx e l) = Unit
IsWorkers (begins i idx task pool' e w) = Unit
IsWorkers (finishes i idx task e) = Unit
IsWorkers (pushes task p e b) = ⊥
IsWorkers (pushed required task e ready) = ⊥
IsWorkers (deletes e c m) = ⊥
IsWorkers (joins i e g lt) = ⊥

abbrev pub IsDeleting : Client → Type 0
IsDeleting free = ⊥
IsDeleting (pushing required task) = ⊥
IsDeleting (deleting i) = Unit

abbrev pub is_spawned : Worker → ℕ
is_spawned (spawned i) = 1
is_spawned (waiting i) = 0
is_spawned (gone i) = 0
is_spawned (running i t) = 0

-- The steps that are left to the workers: a task is to be taken and to be finished.
abbrev pub work_left : System → ℕ
work_left s =
    2 * length s.pool.pending_task_list + total is_running s.workers + total is_spawned s.workers

pub calm_of :
    (c : Client) (pool : Pool) (workers : List Worker)
    → (IsDeleting c → ⊥)
    → ClientLive c pool workers
    → (pool.thread_idx_that_should_exit ≡ none) × (total is_gone workers ≡ 0)
calm_of free pool workers ne h = h
calm_of (pushing r t) pool workers ne h = (h.0, h.1)
calm_of (deleting i) pool workers ne h = absurd (ne tt)

pub less_work :
    {s t : System} (move : Step s t)
    → IsWorkers move
    → s.pool.thread_idx_that_should_exit ≡ none
    → work_left t < work_left s
unfolding worker_start worker_finish
less_work (starts {s} i idx e) is calm = omega (
  arith,
  total-set is_running s.workers i (spawned idx) (waiting idx) e,
  total-set is_spawned s.workers i (spawned idx) (waiting idx) e,
)
less_work (exits {s} i idx e l) is calm = absurd (wake_stays idx s.pool calm l)
less_work (begins {s} i idx task pool' e w) is calm =
    let t = worker_wake-Taken idx s.pool task pool' w in
    omega (
      arith,
      total-set is_running s.workers i (waiting idx) (running idx task) e,
      total-set is_spawned s.workers i (waiting idx) (running idx task) e,
      ap length t.list_is,
      ap (λ (q : Pool). length q.pending_task_list) t.pool_is,
    )
less_work (finishes {s} i idx task e) is calm = omega (
  arith,
  total-set is_running s.workers i (running idx task) (waiting idx) e,
  total-set is_spawned s.workers i (running idx task) (waiting idx) e,
)
less_work (pushes task p e b) is calm = absurd is
less_work (pushed required task e ready) is calm = absurd is
less_work (deletes e c m) is calm = absurd is
less_work (joins i e g lt) is calm = absurd is

pub wake_takes :
    (idx : ℕ) (pool : Pool)
    → pool.thread_idx_that_should_exit ≡ none
    → 0 < pool.pending_task_count
    → 0 < length pool.pending_task_list
    → (task : ℕ) × (pool' : Pool) × (worker_wake idx pool ≡ takes task pool')
unfolding worker_wake take_task
wake_takes idx pool calm counted some_task =
    go (ltb pool.pending_task_count 1) pool.thread_idx_that_should_exit pool.pending_task_list
      (ground (arith, counted)) calm some_task
  where
    go :
        (b : Bool) (o : Option ℕ) (tasks : List ℕ)
        → b ≡ false
        → o ≡ none
        → 0 < length tasks
        → (task : ℕ) × (pool' : Pool) × ((if should_exit o idx
              then leaves
              else if b
              then waits
              else take_task pool tasks)
            ≡ takes task pool')
    go b o [] no_wait calm_o lt = absurd (omega arith)
    go b o (t ∷ tasks) no_wait calm_o lt = (
      t,
      record pool {
        pending_task_list = tasks;
        idle_thread_count = pool.idle_thread_count - 1;
        pending_task_count = pool.pending_task_count - 1;
        running_task_count = pool.running_task_count + 1;
      },
      rw (no_wait, calm_o) refl,
    )
