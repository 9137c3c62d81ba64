-- ===== src/ThreadPool/Reach.antt =====
-- hw4/thread_pool.c: the states that a pool, its workers and one client reach.
use mathlib.Core.Path.{subst}
use system_programming_hw.Base.{
  ℕ, suc, ◌+◌, ◌≤◌, ◌<◌, ◌≡◌, ◌≢◌, refl, sym, ◌∙◌, arith, Bool, true, false, ◌||◌, some, List, [],
  ◌∷◌, ◌++◌, append-nil, length, length-append, ltb, if◌then◌else◌, inl, inr,
}
use system_programming_hw.ThreadPool.{
  max_threads, max_tasks, Pool, value, error, invalid_argument, Spawning, thread_pool_new, push_end,
  broken, waits, leaves, take_task, should_exit, worker_wake, delete_check,
}
use system_programming_hw.ThreadPool.System.{
  Worker, spawned, Client, free, pushing, deleting, System, created_workers, Step, starts, exits,
  begins, finishes, pushes, pushed, deletes, joins, Reachable, fresh, after,
}
use system_programming_hw.ThreadPool.Counts.{
  is_idle, is_running, is_started, total, total-append, worker_wake-Taken, Begun, push_begin-Begun,
}
use system_programming_hw.ThreadPool.Invariant.{
  ClientFits, IsCounted, starts-IsCounted, exits-IsCounted, begins-IsCounted, finishes-IsCounted,
}

client_at : (s : System) (c : Client) → IsCounted s → s.client ≡ c → ClientFits c s.pool s.workers
client_at s c h e = subst (λ k. ClientFits k s.pool s.workers) e h.client_fits

-- A push that creates a worker.
spawn-IsCounted :
    (s : System) (required task idx : ℕ) (has : Bool)
    → IsCounted s
    → has ≡ true
    → required ≡ length s.workers + 1
    → required ≤ s.pool.max_thread_count
    → s.pool.pending_task_count < max_tasks
    → IsCounted (record s {
      pool = record s.pool { has_threads = has };
      workers = s.workers ++ spawned idx ∷ [];
      client = pushing required task;
    })
spawn-IsCounted s required task idx has h made required_is fits room = record {
  pending_is = h.pending_is;
  running_is = omega (arith, h.running_is, total-append is_running s.workers (spawned idx ∷ []));
  idle_is = omega (arith, h.idle_is, total-append is_idle s.workers (spawned idx ∷ []));
  threads_is = omega (arith, h.threads_is, total-append is_started s.workers (spawned idx ∷ []));
  thread_limit = omega (arith, size);
  task_limit = h.task_limit;
  none_yet = λ n. let clash : true ≡ false = sym made ∙ n in absurd (cc clash);
  some_allowed = h.some_allowed;
  client_fits = (omega (arith, size), room);
}
  where
    size : length (s.workers ++ spawned idx ∷ []) ≡ required
    size = omega (arith, required_is, length-append s.workers (spawned idx ∷ []))

pushes-IsCounted :
    (s : System) (task : ℕ) (p : Spawning)
    → s.client ≡ free
    → Begun s.pool p
    → IsCounted s
    → IsCounted (record s {
      pool = p.pool;
      workers = s.workers ++ created_workers p.created;
      client = pushing p.required_thread_count task;
    })
pushes-IsCounted s task p idle (room, how) h =
    let fits = client_at s free h idle in
    let P = λ (q : Spawning). IsCounted (record s {
      pool = q.pool;
      workers = s.workers ++ created_workers q.created;
      client = pushing q.required_thread_count task;
    }) in
    elim how [
      | inl (unset, e) ↦ subst P (sym e) (
          spawn-IsCounted s 1 task 0 true h refl (omega (arith, h.none_yet unset))
            (omega (arith, h.some_allowed)) room)
      | inr (inl (isset, fewer, e)) ↦ subst P (sym e) (
          spawn-IsCounted s (s.pool.thread_count + 1) task s.pool.thread_count s.pool.has_threads h
            isset (omega (arith, fits)) (omega arith) room)
      | inr (inr e) ↦ subst P (sym e) (
          subst
            (λ (ws : List Worker).
              IsCounted (record s { workers = ws; client = pushing s.pool.thread_count task }))
            (sym (append-nil s.workers))
            (record {
              pending_is = h.pending_is;
              running_is = h.running_is;
              idle_is = h.idle_is;
              threads_is = h.threads_is;
              thread_limit = h.thread_limit;
              task_limit = h.task_limit;
              none_yet = h.none_yet;
              some_allowed = h.some_allowed;
              client_fits = (fits, room);
            }))
    ]

pushed-IsCounted :
    (s : System) (required task : ℕ)
    → s.client ≡ pushing required task
    → s.pool.thread_count ≡ required
    → IsCounted s
    → IsCounted (record s { pool = push_end task s.pool; client = free })
unfolding push_end
pushed-IsCounted s required task e ready h =
    let fits = client_at s (pushing required task) h e in
    record {
      pending_is = omega (arith, h.pending_is);
      running_is = h.running_is;
      idle_is = h.idle_is;
      threads_is = h.threads_is;
      thread_limit = h.thread_limit;
      task_limit = omega (arith, fits.1);
      none_yet = h.none_yet;
      some_allowed = h.some_allowed;
      client_fits = fits.0 ∙ sym ready;
    }

-- The deletion moves on to a worker.
deleting-IsCounted :
    (s : System) (i : ℕ)
    → length s.workers ≡ s.pool.thread_count
    → IsCounted s
    → IsCounted (record s {
      pool = record s.pool { thread_idx_that_should_exit = some i };
      client = deleting i;
    })
deleting-IsCounted s i fits h = record {
  pending_is = h.pending_is;
  running_is = h.running_is;
  idle_is = h.idle_is;
  threads_is = h.threads_is;
  thread_limit = h.thread_limit;
  task_limit = h.task_limit;
  none_yet = h.none_yet;
  some_allowed = h.some_allowed;
  client_fits = fits;
}

step-IsCounted : {s t : System} → Step s t → IsCounted s → IsCounted t
step-IsCounted (starts {s} i idx e) h = starts-IsCounted s i idx e h
step-IsCounted (exits {s} i idx e l) h = exits-IsCounted s i idx e h
step-IsCounted (begins {s} i idx task pool' e w) h =
    begins-IsCounted s i idx task pool' e (worker_wake-Taken idx s.pool task pool' w) h
step-IsCounted (finishes {s} i idx task e) h = finishes-IsCounted s i idx task e h
step-IsCounted (pushes {s} task p e b) h =
    pushes-IsCounted s task p e (push_begin-Begun s.pool p b) h
step-IsCounted (pushed {s} required task e ready) h = pushed-IsCounted s required task e ready h
step-IsCounted (deletes {s} e c m) h = deleting-IsCounted s 0 (client_at s free h e) h
step-IsCounted (joins {s} i e g lt) h =
    deleting-IsCounted s (suc i) (client_at s (deleting i) h e) h

new_go :
    (b : Bool) (pool pool' : Pool)
    → (if b then error invalid_argument else value pool') ≡ value pool
    → (b ≡ false) × (pool' ≡ pool)
new_go true pool pool' e = absurd (cc e)
new_go false pool pool' e = (refl, cc e)

fresh-IsCounted :
    (pool : Pool) (max : ℕ)
    → thread_pool_new max ≡ value pool
    → IsCounted (record { pool = pool; workers = []; client = free })
unfolding thread_pool_new
fresh-IsCounted pool max e =
    let (b, same) = new_go (ltb max 1 || ltb max_threads max) pool _ e in
    subst (λ (q : Pool). IsCounted (record { pool = q; workers = []; client = free })) same
      (record {
        pending_is = refl;
        running_is = refl;
        idle_is = refl;
        threads_is = refl;
        thread_limit = omega arith;
        task_limit = omega arith;
        none_yet = λ n. refl;
        some_allowed = allowed b;
        client_fits = refl;
      })
  where
    allowed : (ltb max 1 || ltb max_threads max) ≡ false → 0 < max
    allowed b = ground arith

-- With one client, whatever the workers do and in whatever order: the counts of pending tasks, of
-- running tasks, of idle threads and of threads are those of the tasks and workers there are, and
-- there are never more threads or pending tasks than are allowed.
pub Reachable-IsCounted : {s : System} → Reachable s → IsCounted s
Reachable-IsCounted (fresh {pool} max e) = fresh-IsCounted pool max e
Reachable-IsCounted (after r s) = step-IsCounted s (Reachable-IsCounted r)

wake_lem :
    (b c : Bool) (pool : Pool) (tasks : List ℕ)
    → (c ≡ false → 0 < length tasks)
    → (if b then leaves else if c then waits else take_task pool tasks) ≢ broken
unfolding take_task
wake_lem true c pool tasks h e = cc e
wake_lem false true pool tasks h e = cc e
wake_lem false false pool [] h e = omega (arith, h refl)
wake_lem false false pool (t ∷ tasks) h e = cc e

-- A worker that wakes up never takes a task from an empty list.
pub worker_wake_safe : {s : System} → Reachable s → (idx : ℕ) → worker_wake idx s.pool ≢ broken
unfolding worker_wake
worker_wake_safe {s} r idx e =
    wake_lem (should_exit s.pool.thread_idx_that_should_exit idx) (ltb s.pool.pending_task_count 1)
      s.pool s.pool.pending_task_list
      (λ c. omega (arith, (Reachable-IsCounted r).pending_is, some_left c)) e
  where
    some_left : ltb s.pool.pending_task_count 1 ≡ false → 0 < s.pool.pending_task_count
    some_left c = ground arith

-- Where the test of the deletion passes, no task is pending and no worker runs one.
pub delete_check_lem :
    {s : System}
    → Reachable s
    → delete_check s.pool ≡ true
    → (length s.pool.pending_task_list ≡ 0) × (total is_running s.workers ≡ 0)
unfolding delete_check
delete_check_lem {s} r e =
    let h = Reachable-IsCounted r in
    (omega (arith, h.pending_is, no_pending), omega (arith, h.running_is, no_running))
  where
    no_pending : s.pool.pending_task_count ≡ 0
    no_pending = ground arith

    no_running : s.pool.running_task_count ≡ 0
    no_running = ground arith
