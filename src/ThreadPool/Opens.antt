-- ===== src/ThreadPool/Opens.antt =====
-- hw4/thread_pool.c: what a push that begins makes of the pool.
use mathlib.Core.Path.{subst}
use system_programming_hw.Base.{
  ◌+◌, ◌<◌, ◌≡◌, refl, arith, Bool, true, false, not, ◌&&◌, none, some, length, ltb, leb, ◌==◌,
  if◌then◌else◌, inl, inr, ◌⊎◌,
}
use system_programming_hw.ThreadPool.{
  max_tasks, Pool, value, error, too_many_tasks, Spawning, push_begin,
}
use system_programming_hw.ThreadPool.System.{created_workers}

-- A push that begins has an array of threads behind it, and the pool is else as it was.
pub record Opens (pool : Pool) (p : Spawning) : Type 0 where
  pub exit_is : p.pool.thread_idx_that_should_exit ≡ pool.thread_idx_that_should_exit
  pub pending_is : p.pool.pending_task_count ≡ pool.pending_task_count
  pub has : p.pool.has_threads ≡ true
  pub threads_is : p.pool.thread_count ≡ pool.thread_count
  pub made : (pool.has_threads ≡ true) ⊎ (0 < length (created_workers p.created))

pub push_begin-Opens : (pool : Pool) (p : Spawning) → push_begin pool ≡ value p → Opens pool p
unfolding push_begin
push_begin-Opens pool p e =
    go (leb max_tasks pool.pending_task_count) pool.has_threads refl
      (pool.idle_thread_count == 0 && ltb pool.thread_count pool.max_thread_count) e
  where
    first : Spawning
    first = record {
      pool = record pool { has_threads = true };
      required_thread_count = 1;
      created = some 0;
    }

    more : Spawning
    more = record {
      pool = pool;
      required_thread_count = pool.thread_count + 1;
      created = some pool.thread_count;
    }

    same : Spawning
    same = record { pool = pool; required_thread_count = pool.thread_count; created = none }

    go :
        (a b : Bool)
        → pool.has_threads ≡ b
        → (c : Bool)
        → (if a
            then error too_many_tasks
            else if not b
            then value first
            else if c
            then value more
            else value same)
          ≡ value p
        → Opens pool p
    go true b is c w = absurd (cc w)
    go false false is c w =
        let e' : first ≡ p = cc w in
        subst (Opens pool) e' (record {
          exit_is = refl;
          pending_is = refl;
          has = refl;
          threads_is = refl;
          made = inr (omega arith);
        })
    go false true is true w =
        let e' : more ≡ p = cc w in
        subst (Opens pool) e'
          (record { exit_is = refl; pending_is = refl; has = is; threads_is = refl; made = inl is })
    go false true is false w =
        let e' : same ≡ p = cc w in
        subst (Opens pool) e'
          (record { exit_is = refl; pending_is = refl; has = is; threads_is = refl; made = inl is })
