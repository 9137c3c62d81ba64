-- ===== src/ThreadPool/Task.antt =====
-- hw4/thread_pool.c: `struct thread_task` and its functions, each between two points where the
-- task's mutex is free. A task is in a pool when its pointer to it is not NULL.
use system_programming_hw.Base.{
  ℕ, ◌≡◌, ◌≢◌, refl, Bool, true, false, not, Option, none, some, if◌then◌else◌,
}
use system_programming_hw.ThreadPool.{
  PoolError, task_not_pushed, task_in_pool, timed_out, Result, value, error,
}

pub record Task : Type 0 where
  pub in_pool : Bool
  pub is_detached : Bool
  pub is_running : Bool
  pub is_finished : Bool
  pub result : Option ℕ

unfoldable pub thread_task_new : Task
thread_task_new = record {
  in_pool = false;
  is_detached = false;
  is_running = false;
  is_finished = false;
  result = none;
}

-- What `thread_pool_push_task` does to the task.
unfoldable pub put_task : Task → Task
put_task task = record task { in_pool = true; is_finished = false; is_running = false }

-- The worker before the function of the task.
unfoldable pub run_task : Task → Task
run_task task = record task { is_running = true }

unfoldable pub delete_task : Task → Result (Option Task)
delete_task task = if task.in_pool then error task_in_pool else value none

-- The worker behind the function has unlocked the mutex of the task at the end: of one that is there,
-- or of one that it has destroyed and freed before, which has no defined effect.
pub data Finished : Type 0 where
  kept : Task → Finished
  unlocks_freed : Finished

-- The unlock behind `thread_task_delete`, whose answer is not looked at.
unlock : Task → Result (Option Task) → Finished
unlock task (value none) = unlocks_freed
unlock task (value (some task')) = kept task'
unlock task (error e) = kept task

unfoldable pub finish_task : ℕ → Task → Finished
unfolding delete_task unlock
finish_task r task =
    if task.is_detached
    then unlock task (delete_task task)
    else kept (record task { is_running = false; is_finished = true; result = some r })

-- A join: an error, a wait until the task is finished, or the result and the task behind it.
pub data Joined : Type 0 where
  join_error : PoolError → Joined
  join_waits : Joined
  joined : Option ℕ → Task → Joined

unfoldable pub thread_task_join : Task → Joined
thread_task_join task =
    if not task.in_pool
    then join_error task_not_pushed
    else if not task.is_finished
    then join_waits
    else joined task.result (record task { in_pool = false })

-- The same with a timeout: `at_once` when it is not positive, and `expired` when the wait has ended
-- with ETIMEDOUT.
unfoldable pub thread_task_timed_join : Bool → Bool → Task → Joined
thread_task_timed_join at_once expired task =
    if not task.in_pool
    then join_error task_not_pushed
    else if at_once
    then (if not task.is_finished
        then join_error timed_out
        else joined task.result (record task { in_pool = false }))
    else if expired
    then join_error timed_out
    else if not task.is_finished
    then join_waits
    else joined task.result (record task { in_pool = false })

-- `thread_task_delete` where its answer is not looked at; nothing touches the task behind it.
kept_or_freed : Task → Result (Option Task) → Option Task
kept_or_freed task (value r) = r
kept_or_freed task (error e) = some task

-- A task that is finished is freed at once.
unfoldable pub thread_task_detach : Task → Result (Option Task)
unfolding delete_task kept_or_freed
thread_task_detach task =
    if not task.in_pool
    then error task_not_pushed
    else if task.is_finished
    then value (
        kept_or_freed (record task { in_pool = false })
          (delete_task (record task { in_pool = false })))
    else value (some (record task { in_pool = false; is_detached = true }))

-- What a detached task becomes in the worker; `none` where the detachment has failed or freed it.
abbrev pub finish_after_detach : ℕ → Result (Option Task) → Option Finished
finish_after_detach r (error e) = none
finish_after_detach r (value none) = none
finish_after_detach r (value (some task)) = some (finish_task r task)

-- The same where the worker takes the task only after the detachment.
abbrev pub run_after_detach : ℕ → Result (Option Task) → Option Finished
run_after_detach r (error e) = none
run_after_detach r (value none) = none
run_after_detach r (value (some task)) = some (finish_task r (run_task task))

abbrev pub detach_after_finish : Finished → Option (Result (Option Task))
detach_after_finish unlocks_freed = none
detach_after_finish (kept task) = some (thread_task_detach task)

-- A task that was pushed and is not yet detached: detached while it is pending or while it runs, it is
-- freed by the worker, which then unlocks the mutex that it has destroyed and freed; detached behind its
-- end, it is freed with no access to it afterwards. A task that nobody detaches is kept by the worker.
pub detach-finish :
    (r : ℕ) (task : Task)
    → task.is_detached ≡ false
    → let pending = put_task task in
      (run_after_detach r (thread_task_detach pending) ≡ some unlocks_freed)
      × (finish_after_detach r (thread_task_detach (run_task pending)) ≡ some unlocks_freed)
      × (finish_task r (run_task pending) ≢ unlocks_freed)
      × (detach_after_finish (finish_task r (run_task pending)) ≡ some (value none))
unfolding thread_task_detach finish_task run_task put_task delete_task kept_or_freed unlock
detach-finish r task e = (refl, refl, λ bad. cc (bad, e), rw e refl)

-- What a join of a task hands over, and whether the task may be deleted then.
abbrev pub join_then_delete : Joined → Option (Option ℕ × Result (Option Task))
join_then_delete (join_error e) = none
join_then_delete join_waits = none
join_then_delete (joined r task) = some (r, delete_task task)

abbrev pub join_finished : Finished → Option (Option ℕ × Result (Option Task))
join_finished unlocks_freed = none
join_finished (kept task) = join_then_delete (thread_task_join task)

-- A task that was pushed and is not detached cannot be deleted, and a join of it waits, until it has
-- finished; then a join hands over the result of its function, and it can be deleted.
pub join-finish :
    (r : ℕ) (task : Task)
    → task.is_detached ≡ false
    → let running = run_task (put_task task) in
      (delete_task running ≡ error task_in_pool)
      × (thread_task_join running ≡ join_waits)
      × (join_finished (finish_task r running) ≡ some (some r, value none))
unfolding thread_task_join finish_task run_task put_task delete_task
join-finish r task e = (refl, refl, rw e refl)
