-- ===== src/ThreadPool/Live.antt =====
-- hw4/thread_pool.c: what the pool owes to the tasks that were pushed, as long as it is not deleted.
use mathlib.Core.Path.{subst}
use system_programming_hw.Base.{
  ℕ, suc, ◌≤◌, ◌<◌, ◌≡◌, ◌≢◌, refl, sym, ap, ◌∙◌, arith, Bool, true, false, ◌||◌, Option, none,
  some, List, [], ◌∷◌, ◌++◌, length, length-append, get_elem?, set, ltb, if◌then◌else◌, inl, inr,
}
use system_programming_hw.ThreadPool.{
  max_threads, invalid_argument, Pool, value, error, Spawning, thread_pool_new, push_begin,
  push_end, worker_start, worker_finish, waits, leaves, take_task, should_exit, worker_wake,
  delete_check,
}
use system_programming_hw.ThreadPool.System.{
  Worker, spawned, waiting, gone, running, Client, free, pushing, deleting, System, created_workers,
  Step, starts, exits, begins, finishes, pushes, pushed, deletes, joins, Reachable, fresh, after,
}
use system_programming_hw.ThreadPool.Counts.{total, total-set, total-append, worker_wake-Taken}
use system_programming_hw.ThreadPool.Invariant.{length-set}
use system_programming_hw.ThreadPool.Opens.{push_begin-Opens}

abbrev pub is_gone : Worker → ℕ
is_gone (gone i) = 1
is_gone (spawned i) = 0
is_gone (waiting i) = 0
is_gone (running i t) = 0

-- Outside of a deletion no worker is to leave, and none has; in a deletion no task is pending.
abbrev pub ClientLive : Client → Pool → List Worker → Type 0
ClientLive free pool workers =
    (pool.thread_idx_that_should_exit ≡ none) × (total is_gone workers ≡ 0)
ClientLive (pushing required task) pool workers =
    (pool.thread_idx_that_should_exit ≡ none)
    × (total is_gone workers ≡ 0)
    × (pool.has_threads ≡ true)
ClientLive (deleting i) pool workers = pool.pending_task_count ≡ 0

pub record IsLive (s : System) : Type 0 where
  pub client_live : ClientLive s.client s.pool s.workers
  pub manned : s.pool.has_threads ≡ true → 0 < length s.workers
  pub pushed_to : 0 < s.pool.pending_task_count → s.pool.has_threads ≡ true

-- A step of a worker that stays, and takes at most a task.
ClientLive-kept :
    (c : Client) (pool pool' : Pool) (workers workers' : List Worker)
    → ClientLive c pool workers
    → pool'.thread_idx_that_should_exit ≡ pool.thread_idx_that_should_exit
    → pool'.has_threads ≡ pool.has_threads
    → pool'.pending_task_count ≤ pool.pending_task_count
    → total is_gone workers' ≡ total is_gone workers
    → ClientLive c pool' workers'
ClientLive-kept free pool pool' workers workers' h e t p g = (e ∙ h.0, g ∙ h.1)
ClientLive-kept (pushing r k) pool pool' workers workers' h e t p g = (e ∙ h.0, g ∙ h.1, t ∙ h.2)
ClientLive-kept (deleting i) pool pool' workers workers' h e t p g = omega (arith, h)

worker-IsLive :
    (s : System) (pool' : Pool) (i : ℕ) (old new : Worker)
    → IsLive s
    → get_elem? s.workers i ≡ some old
    → is_gone old ≡ is_gone new
    → pool'.thread_idx_that_should_exit ≡ s.pool.thread_idx_that_should_exit
    → pool'.has_threads ≡ s.pool.has_threads
    → pool'.pending_task_count ≤ s.pool.pending_task_count
    → IsLive (record s { pool = pool'; workers = set s.workers i new })
worker-IsLive s pool' i old new h at same e t p = record {
  client_live =
      ClientLive-kept s.client s.pool pool' s.workers (set s.workers i new) h.client_live e t p
        (omega (arith, total-set is_gone s.workers i old new at, same));
  manned = λ has. omega (arith, h.manned (sym t ∙ has), length-set s.workers i new);
  pushed_to = λ some_task. t ∙ h.pushed_to (omega arith);
}

-- Without an index to leave no worker leaves.
pub wake_stays :
    (idx : ℕ) (pool : Pool)
    → pool.thread_idx_that_should_exit ≡ none
    → worker_wake idx pool ≢ leaves
unfolding worker_wake
wake_stays idx pool calm e = go (ltb pool.pending_task_count 1) pool.pending_task_list (
    ap
      (λ (o : Option ℕ).
        if should_exit o idx
        then leaves
        else if ltb pool.pending_task_count 1
        then waits
        else take_task pool pool.pending_task_list)
      (sym calm)
    ∙ e)
  where
    go : (c : Bool) (tasks : List ℕ) → (if c then waits else take_task pool tasks) ≡ leaves → ⊥
    go true tasks w = absurd (cc w)
    go false [] w = absurd (cc w)
    go false (t ∷ tasks) w = absurd (cc w)

exits-IsLive :
    (s : System) (i idx : ℕ) (c : Client)
    → IsLive s
    → s.client ≡ c
    → get_elem? s.workers i ≡ some (waiting idx)
    → worker_wake idx s.pool ≡ leaves
    → IsLive (record s { workers = set s.workers i (gone idx) })
exits-IsLive s i idx free h at e l = absurd (
    wake_stays idx s.pool (subst (λ (c : Client). ClientLive c s.pool s.workers) at h.client_live).0
      l)
exits-IsLive s i idx (pushing r t) h at e l = absurd (
    wake_stays idx s.pool (subst (λ (c : Client). ClientLive c s.pool s.workers) at h.client_live).0
      l)
exits-IsLive s i idx (deleting k) h at e l =
    let empty = subst (λ (c : Client). ClientLive c s.pool s.workers) at h.client_live in
    record {
      client_live =
          subst (λ (c : Client). ClientLive c s.pool (set s.workers i (gone idx))) (sym at) empty;
      manned = λ has. omega (arith, h.manned has, length-set s.workers i (gone idx));
      pushed_to = h.pushed_to;
    }

no_created_gone : (o : Option ℕ) → total is_gone (created_workers o) ≡ 0
no_created_gone none = omega arith
no_created_gone (some i) = omega arith

client_as : (s : System) (c : Client) → IsLive s → s.client ≡ c → ClientLive c s.pool s.workers
client_as s c h at = subst (λ (k : Client). ClientLive k s.pool s.workers) at h.client_live

pushes-IsLive :
    (s : System) (task : ℕ) (p : Spawning)
    → IsLive s
    → s.client ≡ free
    → push_begin s.pool ≡ value p
    → IsLive (record s {
      pool = p.pool;
      workers = s.workers ++ created_workers p.created;
      client = pushing p.required_thread_count task;
    })
pushes-IsLive s task p h at e =
    let o = push_begin-Opens s.pool p e in
    let live = client_as s free h at in
    record {
      client_live = (
        o.exit_is ∙ live.0,
        omega (
          arith,
          live.1,
          total-append is_gone s.workers (created_workers p.created),
          no_created_gone p.created,
        ),
        o.has,
      );
      manned = λ has. elim o.made [
        | inl before ↦
            omega (arith, h.manned before, length-append s.workers (created_workers p.created))
        | inr some_made ↦
            omega (arith, some_made, length-append s.workers (created_workers p.created))
      ];
      pushed_to = λ some_task. o.has;
    }

pushed-IsLive :
    (s : System) (required task : ℕ)
    → IsLive s
    → s.client ≡ pushing required task
    → IsLive (record s { pool = push_end task s.pool; client = free })
unfolding push_end
pushed-IsLive s required task h at =
    let live = client_as s (pushing required task) h at in
    record { client_live = (live.0, live.1); manned = h.manned; pushed_to = λ some_task. live.2 }

deletes-IsLive :
    (s : System) (i : ℕ)
    → IsLive s
    → s.pool.pending_task_count ≡ 0
    → IsLive (record s {
      pool = record s.pool { thread_idx_that_should_exit = some i };
      client = deleting i;
    })
deletes-IsLive s i h empty = record {
  client_live = empty;
  manned = h.manned;
  pushed_to = h.pushed_to;
}

delete_check-pending : (pool : Pool) → delete_check pool ≡ true → pool.pending_task_count ≡ 0
unfolding delete_check
delete_check-pending pool e = ground arith

step-IsLive : {s t : System} → Step s t → IsLive s → IsLive t
unfolding worker_start worker_finish
step-IsLive (starts {s} i idx e) h =
    worker-IsLive s (worker_start s.pool) i (spawned idx) (waiting idx) h e refl refl refl
      (omega arith)
step-IsLive (exits {s} i idx e l) h = exits-IsLive s i idx s.client h refl e l
step-IsLive (begins {s} i idx task pool' e w) h =
    let t = worker_wake-Taken idx s.pool task pool' w in
    worker-IsLive s pool' i (waiting idx) (running idx task) h e refl
      (ap (λ (q : Pool). q.thread_idx_that_should_exit) t.pool_is)
      (ap (λ (q : Pool). q.has_threads) t.pool_is)
      (omega (arith, ap (λ (q : Pool). q.pending_task_count) t.pool_is))
step-IsLive (finishes {s} i idx task e) h =
    worker-IsLive s (worker_finish s.pool) i (running idx task) (waiting idx) h e refl refl refl
      (omega arith)
step-IsLive (pushes {s} task p e b) h = pushes-IsLive s task p h e b
step-IsLive (pushed {s} required task e ready) h = pushed-IsLive s required task h e
step-IsLive (deletes {s} e c m) h = deletes-IsLive s 0 h (delete_check-pending s.pool c)
step-IsLive (joins {s} i e g lt) h = deletes-IsLive s (suc i) h (client_as s (deleting i) h e)

fresh-IsLive :
    (b : Bool) (new pool : Pool)
    → new.has_threads ≡ false
    → new.thread_idx_that_should_exit ≡ none
    → new.pending_task_count ≡ 0
    → (if b then error invalid_argument else value new) ≡ value pool
    → IsLive (record { pool = pool; workers = []; client = free })
fresh-IsLive true new pool no_threads calm empty w = absurd (cc w)
fresh-IsLive false new pool no_threads calm empty w =
    let same : new ≡ pool = cc w in
    subst (λ (q : Pool). IsLive (record { pool = q; workers = []; client = free })) same
      (record {
        client_live = (calm, refl);
        manned = λ has. let clash : true ≡ false = sym has ∙ no_threads in absurd (cc clash);
        pushed_to = λ some_task. absurd (omega arith);
      })

pub Reachable-IsLive : {s : System} → Reachable s → IsLive s
unfolding thread_pool_new
Reachable-IsLive (fresh {pool} max e) =
    fresh-IsLive (ltb max 1 || ltb max_threads max) _ pool refl refl refl e
Reachable-IsLive (after r s) = step-IsLive s (Reachable-IsLive r)
