-- ===== src/ThreadPool/Clients.antt =====
-- hw4/thread_pool.c: the pool with its workers and several clients.
use mathlib.Core.Path.{subst}
use system_programming_hw.Base.{
  ℕ, ◌≤◌, ◌<◌, ◌≡◌, refl, sym, ap, ◌∙◌, arith, Bool, true, false, none, some, List, [], ◌||◌, ltb,
  ◌==◌, if◌then◌else◌, ℕ_discrete,
}
use system_programming_hw.ThreadPool.{
  max_threads, invalid_argument, error, Pool, value, Spawning, thread_pool_new, push_begin,
  push_end, worker_start, worker_finish,
}
use system_programming_hw.ThreadPool.System.{
  Worker, Client, free, pushing, System, Step, starts, exits, begins, finishes, pushes, pushed,
  deletes, joins,
}
use system_programming_hw.ThreadPool.Counts.{worker_wake-Taken}
use system_programming_hw.ThreadPool.Opens.{push_begin-Opens}

pub record Shared : Type 0 where
  pub pool : Pool
  pub workers : List Worker
  pub clients : ℕ → Client

-- What one client sees of the system, and the system behind a step of it.
abbrev pub seen_by : ℕ → Shared → System
seen_by k s = record { pool = s.pool; workers = s.workers; client = s.clients k }

abbrev pub back_from : ℕ → Shared → System → Shared
back_from k s t = record {
  pool = t.pool;
  workers = t.workers;
  clients = λ j. if j == k then t.client else s.clients j;
}

-- A step of a worker, or of one of the clients.
pub data Moves : Shared → Shared → Type 0 where
  moves : {s : Shared} (k : ℕ) (t : System) → Step (seen_by k s) t → Moves s (back_from k s t)

pub data Run : Shared → Shared → Type 0 where
  ended : {s : Shared} → Run s s
  then_moves : {s t u : Shared} → Run s t → Moves t u → Run s u

-- A push of a client waits for a number of threads that is exceeded.
abbrev pub IsStuck : ℕ → ℕ → ℕ → Shared → Type 0
IsStuck k required task s = (s.clients k ≡ pushing required task) × (required < s.pool.thread_count)

push_begin-threads :
    (pool : Pool) (p : Spawning)
    → push_begin pool ≡ value p
    → p.pool.thread_count ≡ pool.thread_count
push_begin-threads pool p e = (push_begin-Opens pool p e).threads_is

-- No step makes the number of threads smaller.
Step-threads : {s t : System} → Step s t → s.pool.thread_count ≤ t.pool.thread_count
unfolding worker_start worker_finish push_end
Step-threads (starts {s} i idx e) = omega arith
Step-threads (exits {s} i idx e l) = omega arith
Step-threads (begins {s} i idx task pool' e w) =
    omega
      (arith, ap (λ (q : Pool). q.thread_count) (worker_wake-Taken idx s.pool task pool' w).pool_is)
Step-threads (finishes {s} i idx task e) = omega arith
Step-threads (pushes {s} task p e b) = omega (arith, push_begin-threads s.pool p b)
Step-threads (pushed {s} required task e ready) = omega arith
Step-threads (deletes {s} e c m) = omega arith
Step-threads (joins {s} i e g lt) = omega arith

-- A client in a push stays in it until the number of threads is the one it waits for.
Step-pushing :
    {s t : System} (required task : ℕ)
    → Step s t
    → s.client ≡ pushing required task
    → required < s.pool.thread_count
    → t.client ≡ pushing required task
Step-pushing required task (starts i idx e) at lt = at
Step-pushing required task (exits i idx e l) at lt = at
Step-pushing required task (begins i idx task' pool' e w) at lt = at
Step-pushing required task (finishes i idx task' e) at lt = at
Step-pushing required task (pushes task' p e b) at lt = absurd (cc (e, at))
Step-pushing required task (pushed {s} required' task' e ready) at lt =
    let same : required' ≡ required = cc (e, at) in absurd (omega (arith, ready, same, lt))
Step-pushing required task (deletes e c m) at lt = absurd (cc (e, at))
Step-pushing required task (joins i e g lt') at lt = absurd (cc (e, at))

Moves-IsStuck :
    {s t : Shared} (k required task : ℕ)
    → Moves s t
    → IsStuck k required task s
    → IsStuck k required task t
Moves-IsStuck {s} k required task (moves j t step) (at, lt) = (
  elim (ℕ_discrete k j) [
    | yes same ↦
        (let seen : (seen_by j s).client ≡ pushing required task = ap s.clients (sym same) ∙ at in
          let kept : t.client ≡ pushing required task = Step-pushing required task step seen lt in
          ground (arith, same, kept))
    | no ne ↦ ground (arith, ne, at)
  ],
  omega (arith, lt, Step-threads step),
)

-- Once more threads have started than a push waits for, it waits for ever, whatever the workers and the
-- other clients do.
pub Run-IsStuck :
    {s t : Shared} (k required task : ℕ)
    → Run s t
    → IsStuck k required task s
    → IsStuck k required task t
Run-IsStuck k required task ended h = h
Run-IsStuck k required task (then_moves r m) h =
    Moves-IsStuck k required task m (Run-IsStuck k required task r h)

abbrev pub fresh_pool : ℕ → Pool
fresh_pool max = record {
  has_threads = false;
  pending_task_count = 0;
  running_task_count = 0;
  pending_task_list = [];
  max_thread_count = max;
  thread_count = 0;
  idle_thread_count = 0;
  thread_idx_that_should_exit = none;
}

-- A pool that nobody uses yet.
abbrev pub unused : Pool → Shared
unused pool = record { pool = pool; workers = []; clients = λ k. free }

new-fresh_pool :
    (max : ℕ) (pool : Pool) → thread_pool_new max ≡ value pool → (fresh_pool max ≡ pool) × (0 < max)
unfolding thread_pool_new
new-fresh_pool max pool e =
    go (ltb max 1 || ltb max_threads max) (fresh_pool max) (λ b. ground arith) e
  where
    go :
        (b : Bool) (new : Pool)
        → (b ≡ false → 0 < max)
        → (if b then error invalid_argument else value new) ≡ value pool
        → (new ≡ pool) × (0 < max)
    go true new positive w = absurd (cc w)
    go false new positive w = (cc w, positive refl)

first_push :
    (max : ℕ)
    → push_begin (fresh_pool max)
      ≡ value (record {
        pool = record (fresh_pool max) { has_threads = true };
        required_thread_count = 1;
        created = some 0;
      })
unfolding push_begin
first_push max = refl

second_push :
    (max : ℕ)
    → 0 < max
    → push_begin (record (fresh_pool max) { has_threads = true })
      ≡ value (record {
        pool = record (fresh_pool max) { has_threads = true };
        required_thread_count = 1;
        created = some 0;
      })
unfolding push_begin
second_push max positive = let less : ltb 0 max ≡ true = ground (arith, positive) in rw less refl

-- What the two pushes lead to.
record BothStuck (pool : Pool) (a b : ℕ) : Type 0 where
  state : Shared
  run : Run (unused pool) state
  first : IsStuck 0 1 a state
  second : IsStuck 1 1 b state

fresh-BothStuck : (max a b : ℕ) → 0 < max → BothStuck (fresh_pool max) a b
unfolding worker_start
fresh-BothStuck max a b positive = record {
  state = _;
  run =
      then_moves
        (then_moves
          (then_moves (then_moves ended (moves 0 _ (pushes a _ refl (first_push max))))
            (moves 1 _ (pushes b _ refl (second_push max positive))))
          (moves 0 _ (starts 0 0 refl)))
        (moves 0 _ (starts 1 0 refl));
  first = (refl, omega arith);
  second = (refl, omega arith);
}

-- Two clients that push a task each to a pool that is not used yet can both end up waiting for ever:
-- there are steps to a state from which, whatever the workers and all clients do, both pushes still
-- wait for one thread, and more than one has started.
pub two_pushes-IsStuck :
    (max a b : ℕ) (pool : Pool)
    → thread_pool_new max ≡ value pool
    → (s : Shared) × Run (unused pool) s
      × ((t : Shared) → Run s t → IsStuck 0 1 a t × IsStuck 1 1 b t)
two_pushes-IsStuck max a b pool e =
    let (same, positive) = new-fresh_pool max pool e in
    let both = subst (λ (p : Pool). BothStuck p a b) same (fresh-BothStuck max a b positive) in
    (
      both.state,
      both.run,
      λ t run. (Run-IsStuck 0 1 a run both.first, Run-IsStuck 1 1 b run both.second),
    )
