-- ===== src/ThreadPool/Invariant.antt =====
-- hw4/thread_pool.c: the counts of the pool against its workers and tasks, and the workers' steps.
use mathlib.Core.Path.{subst}
use system_programming_hw.Base.{
  ℕ, zero, suc, ◌≤◌, ◌<◌, ◌≡◌, refl, sym, ap, ◌∙◌, arith, false, some, List, [], ◌∷◌, length,
  get_elem?, set,
}
use system_programming_hw.ThreadPool.{max_tasks, Pool, worker_start, worker_finish}
use system_programming_hw.ThreadPool.System.{
  Worker, spawned, waiting, gone, running, Client, free, pushing, deleting, System,
}
use system_programming_hw.ThreadPool.Counts.{
  is_idle, is_running, is_started, total, total-set, total_started_le, Taken,
}

pub length-set : (xs : List Worker) (i : ℕ) (v : Worker) → length (set xs i v) ≡ length xs
length-set [] i v = refl
length-set (x ∷ xs) zero v = refl
length-set (x ∷ xs) (suc i) v = ap suc (length-set xs i v)

-- Outside of a push every worker that was created has started. In a push as many are created as it
-- waits for, and there is room for its task.
abbrev pub ClientFits : Client → Pool → List Worker → Type 0
ClientFits free pool workers = length workers ≡ pool.thread_count
ClientFits (pushing required task) pool workers =
    (length workers ≡ required) × (pool.pending_task_count < max_tasks)
ClientFits (deleting i) pool workers = length workers ≡ pool.thread_count

pub record IsCounted (s : System) : Type 0 where
  pub pending_is : s.pool.pending_task_count ≡ length s.pool.pending_task_list
  pub running_is : s.pool.running_task_count ≡ total is_running s.workers
  pub idle_is : s.pool.idle_thread_count ≡ total is_idle s.workers
  pub threads_is : s.pool.thread_count ≡ total is_started s.workers
  pub thread_limit : length s.workers ≤ s.pool.max_thread_count
  pub task_limit : s.pool.pending_task_count ≤ max_tasks
  pub none_yet : s.pool.has_threads ≡ false → length s.workers ≡ 0
  pub some_allowed : 0 < s.pool.max_thread_count
  pub client_fits : ClientFits s.client s.pool s.workers

ClientFits-start :
    (c : Client) (pool : Pool) (workers workers' : List Worker)
    → ClientFits c pool workers
    → pool.thread_count < length workers
    → length workers' ≡ length workers
    → ClientFits c (worker_start pool) workers'
unfolding worker_start
ClientFits-start free pool workers workers' h lt e = absurd (omega (arith, h))
ClientFits-start (pushing required task) pool workers workers' h lt e = (e ∙ h.0, h.1)
ClientFits-start (deleting i) pool workers workers' h lt e = absurd (omega (arith, h))

pub ClientFits-kept :
    (c : Client) (pool pool' : Pool) (workers workers' : List Worker)
    → ClientFits c pool workers
    → length workers' ≡ length workers
    → pool'.thread_count ≡ pool.thread_count
    → pool'.pending_task_count ≤ pool.pending_task_count
    → ClientFits c pool' workers'
ClientFits-kept free pool pool' workers workers' h e t p = e ∙ h ∙ sym t
ClientFits-kept (pushing required task) pool pool' workers workers' h e t p =
    (e ∙ h.0, omega (arith, h.1))
ClientFits-kept (deleting i) pool pool' workers workers' h e t p = e ∙ h ∙ sym t

pub starts-IsCounted :
    (s : System) (i idx : ℕ)
    → get_elem? s.workers i ≡ some (spawned idx)
    → IsCounted s
    → IsCounted (record s { pool = worker_start s.pool; workers = set s.workers i (waiting idx) })
unfolding worker_start
starts-IsCounted s i idx e h =
    let ws = set s.workers i (waiting idx) in
    let size = length-set s.workers i (waiting idx) in
    let started = total-set is_started s.workers i (spawned idx) (waiting idx) e in
    record {
      pending_is = h.pending_is;
      running_is =
          omega
            (arith, h.running_is, total-set is_running s.workers i (spawned idx) (waiting idx) e);
      idle_is =
          omega (arith, h.idle_is, total-set is_idle s.workers i (spawned idx) (waiting idx) e);
      threads_is = omega (arith, h.threads_is, started);
      thread_limit = omega (arith, h.thread_limit, size);
      task_limit = h.task_limit;
      none_yet = λ n. size ∙ h.none_yet n;
      some_allowed = h.some_allowed;
      client_fits =
          ClientFits-start s.client s.pool s.workers ws h.client_fits
            (omega (arith, h.threads_is, started, total_started_le ws, size)) size;
    }

pub exits-IsCounted :
    (s : System) (i idx : ℕ)
    → get_elem? s.workers i ≡ some (waiting idx)
    → IsCounted s
    → IsCounted (record s { workers = set s.workers i (gone idx) })
exits-IsCounted s i idx e h =
    let size = length-set s.workers i (gone idx) in
    record {
      pending_is = h.pending_is;
      running_is =
          omega (arith, h.running_is, total-set is_running s.workers i (waiting idx) (gone idx) e);
      idle_is = omega (arith, h.idle_is, total-set is_idle s.workers i (waiting idx) (gone idx) e);
      threads_is =
          omega (arith, h.threads_is, total-set is_started s.workers i (waiting idx) (gone idx) e);
      thread_limit = omega (arith, h.thread_limit, size);
      task_limit = h.task_limit;
      none_yet = λ n. size ∙ h.none_yet n;
      some_allowed = h.some_allowed;
      client_fits =
          ClientFits-kept s.client s.pool s.pool s.workers _ h.client_fits size refl (omega arith);
    }

pub begins-IsCounted :
    (s : System) (i idx task : ℕ) (pool' : Pool)
    → get_elem? s.workers i ≡ some (waiting idx)
    → Taken s.pool task pool'
    → IsCounted s
    → IsCounted (record s { pool = pool'; workers = set s.workers i (running idx task) })
begins-IsCounted s i idx task pool' e t h =
    let size = length-set s.workers i (running idx task) in
    let pending : length s.pool.pending_task_list ≡ suc (length t.rest) = ap length t.list_is in
    subst (λ q. IsCounted (record s { pool = q; workers = set s.workers i (running idx task) }))
      (sym t.pool_is)
      (record {
        pending_is = omega (arith, h.pending_is, pending);
        running_is = omega (
          arith,
          h.running_is,
          total-set is_running s.workers i (waiting idx) (running idx task) e,
        );
        idle_is =
            omega
              (arith, h.idle_is, total-set is_idle s.workers i (waiting idx) (running idx task) e);
        threads_is = omega (
          arith,
          h.threads_is,
          total-set is_started s.workers i (waiting idx) (running idx task) e,
        );
        thread_limit = omega (arith, h.thread_limit, size);
        task_limit = omega (arith, h.task_limit);
        none_yet = λ n. size ∙ h.none_yet n;
        some_allowed = h.some_allowed;
        client_fits =
            ClientFits-kept s.client s.pool _ s.workers _ h.client_fits size refl (omega arith);
      })

pub finishes-IsCounted :
    (s : System) (i idx task : ℕ)
    → get_elem? s.workers i ≡ some (running idx task)
    → IsCounted s
    → IsCounted (record s { pool = worker_finish s.pool; workers = set s.workers i (waiting idx) })
unfolding worker_finish
finishes-IsCounted s i idx task e h =
    let size = length-set s.workers i (waiting idx) in
    record {
      pending_is = h.pending_is;
      running_is = omega (
        arith,
        h.running_is,
        total-set is_running s.workers i (running idx task) (waiting idx) e,
      );
      idle_is =
          omega
            (arith, h.idle_is, total-set is_idle s.workers i (running idx task) (waiting idx) e);
      threads_is = omega (
        arith,
        h.threads_is,
        total-set is_started s.workers i (running idx task) (waiting idx) e,
      );
      thread_limit = omega (arith, h.thread_limit, size);
      task_limit = h.task_limit;
      none_yet = λ n. size ∙ h.none_yet n;
      some_allowed = h.some_allowed;
      client_fits =
          ClientFits-kept s.client s.pool _ s.workers _ h.client_fits size refl (omega arith);
    }
