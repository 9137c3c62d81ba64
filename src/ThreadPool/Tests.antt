-- ===== src/ThreadPool/Tests.antt =====
-- hw4/thread_pool.c: the theorems at a concrete pool.
use system_programming_hw.Base.{
  arith, ◌≡◌, ◌≢◌, ◌<◌, refl, true, false, none, some, [], ◌∷◌, length,
}
use system_programming_hw.ThreadPool.{
  Pool, error, value, task_in_pool, Spawning, thread_pool_new, push_begin, push_end, worker_start,
  worker_wake, delete_check,
}
use system_programming_hw.ThreadPool.System.{
  System, spawned, waiting, free, pushing, Reachable, fresh, after, starts, pushes, pushed,
}
use system_programming_hw.ThreadPool.Counts.{is_running, total}
use system_programming_hw.ThreadPool.Invariant.{IsCounted}
use system_programming_hw.ThreadPool.Clients.{Shared, Run, IsStuck, unused, two_pushes-IsStuck}
use system_programming_hw.ThreadPool.Progress.{IsDeleting, work_left}
use system_programming_hw.ThreadPool.Signals
use system_programming_hw.ThreadPool.Signals.{Signalled, set_asleep, wakes_one, Move, moves, sleeps}
use system_programming_hw.ThreadPool.Signals.Awake.{OfWorkers, Reachable-work_left}
use system_programming_hw.ThreadPool.Reach.{Reachable-IsCounted, delete_check_lem}
use system_programming_hw.ThreadPool.Task.{
  thread_task_new, put_task, run_task, finish_task, delete_task, thread_task_join,
  thread_task_detach, join_waits, join_finished, unlocks_freed, finish_after_detach,
  run_after_detach, detach_after_finish, detach-finish, join-finish,
}

-- A pool for two threads, and what a push of its first task has done before its wait.
abbrev new_pool : Pool
new_pool = record {
  has_threads = false;
  pending_task_count = 0;
  running_task_count = 0;
  pending_task_list = [];
  max_thread_count = 2;
  thread_count = 0;
  idle_thread_count = 0;
  thread_idx_that_should_exit = none;
}

abbrev first_push : Spawning
first_push = record {
  pool = record new_pool { has_threads = true };
  required_thread_count = 1;
  created = some 0;
}

abbrev new_system : System
new_system = record { pool = new_pool; workers = []; client = free }

new_system-Reachable : Reachable new_system
unfolding thread_pool_new
new_system-Reachable = fresh 2 refl

push_begin_first : push_begin new_pool ≡ value first_push
unfolding push_begin
push_begin_first = refl

abbrev pushing_system : System
pushing_system = record {
  pool = record new_pool { has_threads = true };
  workers = spawned 0 ∷ [];
  client = pushing 1 7;
}

pushing_system-Reachable : Reachable pushing_system
pushing_system-Reachable = after new_system-Reachable (pushes 7 first_push refl push_begin_first)

Reachable-IsCounted_example : IsCounted pushing_system
Reachable-IsCounted_example = Reachable-IsCounted pushing_system-Reachable

new_pool-deletable : delete_check new_pool ≡ true
unfolding delete_check
new_pool-deletable = refl

delete_check_lem_example :
    (length new_system.pool.pending_task_list ≡ 0) × (total is_running new_system.workers ≡ 0)
delete_check_lem_example = delete_check_lem new_system-Reachable new_pool-deletable

detach-finish_example :
    (run_after_detach 5 (thread_task_detach (put_task thread_task_new)) ≡ some unlocks_freed)
    × (finish_after_detach 5 (thread_task_detach (run_task (put_task thread_task_new)))
        ≡ some unlocks_freed)
    × (finish_task 5 (run_task (put_task thread_task_new)) ≢ unlocks_freed)
    × (detach_after_finish (finish_task 5 (run_task (put_task thread_task_new)))
        ≡ some (value none))
detach-finish_example = detach-finish 5 thread_task_new (unfold thread_task_new in refl)

join-finish_example :
    (delete_task (run_task (put_task thread_task_new)) ≡ error task_in_pool)
    × (thread_task_join (run_task (put_task thread_task_new)) ≡ join_waits)
    × (join_finished (finish_task 5 (run_task (put_task thread_task_new)))
        ≡ some (some 5, value none))
join-finish_example = join-finish 5 thread_task_new (unfold thread_task_new in refl)

-- The first push has made a worker, which has started and has gone to sleep; then the push ends, and
-- its signal wakes the worker up.
abbrev asleep_system : Signalled
asleep_system = record {
  system = record {
    pool = record new_pool { has_threads = true; thread_count = 1; idle_thread_count = 1 };
    workers = waiting 0 ∷ [];
    client = pushing 1 7;
  };
  asleep = set_asleep 0 true λ i. false;
  client_asleep = false;
}

abbrev woken_system : Signalled
woken_system = record {
  system = record {
    pool = push_end 7 asleep_system.system.pool;
    workers = waiting 0 ∷ [];
    client = free;
  };
  asleep = set_asleep 0 false asleep_system.asleep;
  client_asleep = false;
}

asleep_system-Reachable : Signals.Reachable asleep_system
unfolding thread_pool_new worker_start worker_wake
asleep_system-Reachable =
    Signals.after
      (Signals.after
        (Signals.after (Signals.fresh 2 refl)
          (moves (pushes {s = new_system} 7 first_push refl push_begin_first) tt refl))
        (moves (starts {s = pushing_system} 0 0 refl) tt refl))
      (sleeps 0 0 refl refl refl)

woken_system-Reachable : Signals.Reachable woken_system
woken_system-Reachable =
    Signals.after asleep_system-Reachable
      (moves (pushed {s = asleep_system.system} 1 7 refl refl) refl (wakes_one 0 refl))

woken_stays : IsDeleting woken_system.system.client → ⊥
woken_stays d = d

Reachable-work_left_example :
    ((t : Signalled) (move : Move woken_system t)
      → OfWorkers move
      → work_left t.system < work_left woken_system.system)
    × ((t : Signalled) × (move : Move woken_system t) × OfWorkers move)
unfolding push_end
Reachable-work_left_example = Reachable-work_left woken_system-Reachable woken_stays (omega arith)

two_pushes-IsStuck_example :
    (s : Shared) × Run (unused new_pool) s
    × ((t : Shared) → Run s t → IsStuck 0 1 7 t × IsStuck 1 1 8 t)
unfolding thread_pool_new
two_pushes-IsStuck_example = two_pushes-IsStuck 2 7 8 new_pool refl
