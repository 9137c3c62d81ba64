-- ===== src/ThreadPool/Counts.antt =====
-- hw4/thread_pool.c: the workers in each state counted, and what the tests of the pool tell.
use system_programming_hw.Base.{
  ℕ, zero, suc, ◌+◌, ◌-◌, ◌≤◌, ◌<◌, ◌≡◌, refl, ap, ◌∙◌, arith, Bool, true, false, not, ◌&&◌, none,
  some, List, [], ◌∷◌, ◌++◌, length, get_elem?, set, ltb, leb, ◌==◌, if◌then◌else◌, ◌⊎◌, inl, inr,
}
use system_programming_hw.ThreadPool.{
  max_tasks, Pool, too_many_tasks, value, error, Spawning, push_begin, waits, leaves, takes,
  take_task, should_exit, worker_wake,
}
use system_programming_hw.ThreadPool.System.{Worker, spawned, waiting, gone, running}

-- A worker waits for tasks or is gone; it runs one; it has started.
abbrev pub is_idle : Worker → ℕ
is_idle (spawned i) = 0
is_idle (waiting i) = 1
is_idle (gone i) = 1
is_idle (running i t) = 0

abbrev pub is_running : Worker → ℕ
is_running (spawned i) = 0
is_running (waiting i) = 0
is_running (gone i) = 0
is_running (running i t) = 1

abbrev pub is_started : Worker → ℕ
is_started (spawned i) = 0
is_started (waiting i) = 1
is_started (gone i) = 1
is_started (running i t) = 1

abbrev pub total : (Worker → ℕ) → List Worker → ℕ
total w [] = 0
total w (x ∷ xs) = w x + total w xs

pub total-set :
    (w : Worker → ℕ) (xs : List Worker) (i : ℕ) (old new : Worker)
    → get_elem? xs i ≡ some old
    → total w (set xs i new) + w old ≡ total w xs + w new
total-set w [] i old new e = absurd (cc e)
total-set w (x ∷ xs) zero old new e = let e' : x ≡ old = cc e in omega (arith, ap w e')
total-set w (x ∷ xs) (suc i) old new e = omega (arith, total-set w xs i old new e)

pub total-append :
    (w : Worker → ℕ) (xs ys : List Worker) → total w (xs ++ ys) ≡ total w xs + total w ys
total-append w [] ys = omega arith
total-append w (x ∷ xs) ys = omega (arith, total-append w xs ys)

is_started_le : (x : Worker) → is_started x ≤ 1
is_started_le (spawned i) = omega arith
is_started_le (waiting i) = omega arith
is_started_le (gone i) = omega arith
is_started_le (running i t) = omega arith

pub total_started_le : (xs : List Worker) → total is_started xs ≤ length xs
total_started_le [] = omega arith
total_started_le (x ∷ xs) = omega (arith, is_started_le x, total_started_le xs)

is_started_sum : (x : Worker) → is_started x ≡ is_idle x + is_running x
is_started_sum (spawned i) = omega arith
is_started_sum (waiting i) = omega arith
is_started_sum (gone i) = omega arith
is_started_sum (running i t) = omega arith

pub total_started_sum :
    (xs : List Worker) → total is_started xs ≡ total is_idle xs + total is_running xs
total_started_sum [] = omega arith
total_started_sum (x ∷ xs) = omega (arith, is_started_sum x, total_started_sum xs)

-- A worker that takes a task takes the first one.
pub record Taken (pool : Pool) (task : ℕ) (pool' : Pool) : Type 0 where
  pub rest : List ℕ
  pub list_is : pool.pending_task_list ≡ task ∷ rest
  pub pool_is : pool' ≡ record pool {
    pending_task_list = rest;
    idle_thread_count = pool.idle_thread_count - 1;
    pending_task_count = pool.pending_task_count - 1;
    running_task_count = pool.running_task_count + 1;
  }

wake_go :
    (b c : Bool) (pool : Pool) (tasks : List ℕ) (task : ℕ) (pool' : Pool)
    → pool.pending_task_list ≡ tasks
    → (if b then leaves else if c then waits else take_task pool tasks) ≡ takes task pool'
    → Taken pool task pool'
unfolding take_task
wake_go true c pool tasks task pool' l e = absurd (cc e)
wake_go false true pool tasks task pool' l e = absurd (cc e)
wake_go false false pool [] task pool' l e = absurd (cc e)
wake_go false false pool (t ∷ tasks) task pool' l e =
    let same : t ≡ task = cc e in
    record { rest = tasks; list_is = l ∙ ap (λ k. k ∷ tasks) same; pool_is = cc e }

pub worker_wake-Taken :
    (idx : ℕ) (pool : Pool) (task : ℕ) (pool' : Pool)
    → worker_wake idx pool ≡ takes task pool'
    → Taken pool task pool'
unfolding worker_wake
worker_wake-Taken idx pool task pool' e =
    wake_go (should_exit pool.thread_idx_that_should_exit idx) (ltb pool.pending_task_count 1) pool
      pool.pending_task_list task pool' refl e

-- A push that begins: there is room for a task, and it creates the first worker, another one where
-- all are busy and there may be more, or none.
abbrev pub Begun : Pool → Spawning → Type 0
Begun pool p =
    (pool.pending_task_count < max_tasks)
    × (((pool.has_threads ≡ false)
          × (p ≡ record {
            pool = record pool { has_threads = true };
            required_thread_count = 1;
            created = some 0;
          }))
        ⊎ ((pool.has_threads ≡ true)
            × (pool.thread_count < pool.max_thread_count)
            × (p ≡ record {
              pool = pool;
              required_thread_count = pool.thread_count + 1;
              created = some pool.thread_count;
            }))
        ⊎ (p ≡ record { pool = pool; required_thread_count = pool.thread_count; created = none }))

push_go :
    (a b c : Bool) (pool : Pool) (first more same p : Spawning)
    → (if a
        then error too_many_tasks
        else if b
        then value first
        else if c
        then value more
        else value same)
      ≡ value p
    → (a ≡ false)
      × (((b ≡ true) × (p ≡ first)) ⊎ ((b ≡ false) × (c ≡ true) × (p ≡ more)) ⊎ (p ≡ same))
push_go true b c pool first more same p e = absurd (cc e)
push_go false true c pool first more same p e = (refl, inl (refl, cc e))
push_go false false true pool first more same p e = (refl, inr (inl (refl, refl, cc e)))
push_go false false false pool first more same p e = (refl, inr (inr (cc e)))

pub push_begin-Begun : (pool : Pool) (p : Spawning) → push_begin pool ≡ value p → Begun pool p
unfolding push_begin
push_begin-Begun pool p e =
    let (room, how) =
      push_go (leb max_tasks pool.pending_task_count) (not pool.has_threads)
        (pool.idle_thread_count == 0 && ltb pool.thread_count pool.max_thread_count) pool _ _ _ p
        e in
    (
      less room,
      elim how [
        | inl (b, q) ↦ inl (unset pool.has_threads b, q)
        | inr (inl (b, c, q)) ↦ inr (inl (isset pool.has_threads b, fewer c, q))
        | inr (inr q) ↦ inr (inr q)
      ],
    )
  where
    less : leb max_tasks pool.pending_task_count ≡ false → pool.pending_task_count < max_tasks
    less b = ground arith

    unset : (b : Bool) → not b ≡ true → b ≡ false
    unset true e = absurd (cc e)
    unset false e = refl

    isset : (b : Bool) → not b ≡ false → b ≡ true
    isset true e = refl
    isset false e = absurd (cc e)

    fewer :
        (pool.idle_thread_count == 0 && ltb pool.thread_count pool.max_thread_count) ≡ true
        → pool.thread_count < pool.max_thread_count
    fewer b = ground arith
