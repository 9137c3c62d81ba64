-- ===== src/ThreadPool/Signals/Awake.antt =====
-- hw4/thread_pool.c: the steps of the workers with their condition variable.
use system_programming_hw.Base.{ℕ, ◌<◌, ◌≡◌, refl, arith, none, some, length, get_elem?, false}
use system_programming_hw.ThreadPool.System.{
  Worker, spawned, waiting, gone, running, starts, begins, finishes,
}
use system_programming_hw.ThreadPool.Reach.{Reachable-IsCounted}
use system_programming_hw.ThreadPool.Live.{is_gone, Reachable-IsLive}
use system_programming_hw.ThreadPool.Progress.{
  IsWorkers, IsDeleting, work_left, calm_of, less_work, wake_takes,
}
use system_programming_hw.ThreadPool.Signals.{
  Signalled, Move, moves, sleeps, client_sleeps, wakes, client_wakes, Reachable,
}
use system_programming_hw.ThreadPool.Signals.Wakeful.{
  waits_idle, Reachable-system, Reachable-IsWakeful,
}

-- What a worker does: a step, or to go to sleep.
abbrev pub OfWorkers : {s t : Signalled} → Move s t → Type 0
OfWorkers (moves step awake w) = IsWorkers step
OfWorkers (sleeps i idx e awake w) = Unit
OfWorkers (client_sleeps required task e ne) = ⊥
OfWorkers (wakes i) = ⊥
OfWorkers client_wakes = ⊥

less_work_left :
    {s t : Signalled} (move : Move s t)
    → OfWorkers move
    → s.system.pool.thread_idx_that_should_exit ≡ none
    → 0 < s.system.pool.pending_task_count
    → work_left t.system < work_left s.system
less_work_left (moves step awake w) is calm some_task = less_work step is calm
less_work_left (sleeps {s} i idx e awake w) is calm some_task =
    absurd (omega (arith, some_task, waits_idle idx s.system.pool w))
less_work_left (client_sleeps required task e ne) is calm some_task = absurd is
less_work_left (wakes i) is calm some_task = absurd is
less_work_left client_wakes is calm some_task = absurd is

can_go_on :
    (s : Signalled) (i : ℕ) (w : Worker)
    → get_elem? s.system.workers i ≡ some w
    → is_gone w ≡ 0
    → s.asleep i ≡ false
    → s.system.pool.thread_idx_that_should_exit ≡ none
    → 0 < s.system.pool.pending_task_count
    → 0 < length s.system.pool.pending_task_list
    → (t : Signalled) × (move : Move s t) × OfWorkers move
can_go_on s i (spawned idx) at stays awake calm counted listed =
    (_, moves (starts {s = s.system} i idx at) tt refl, tt)
can_go_on s i (running idx task) at stays awake calm counted listed =
    (_, moves (finishes {s = s.system} i idx task at) tt refl, tt)
can_go_on s i (gone idx) at stays awake calm counted listed = absurd (omega (arith, stays))
can_go_on s i (waiting idx) at stays awake calm counted listed =
    let (task, pool', w) = wake_takes idx s.system.pool calm counted listed in
    (_, moves (begins {s = s.system} i idx task pool' at w) awake refl, tt)

-- With the condition variables: unless the pool is being deleted, as long as a task is pending,
-- everything that a worker does makes the work that is left smaller, which is twice the number of
-- pending tasks, with the number of running ones and of workers that have not started, and some worker
-- that does not sleep can do something, so that none of them goes to sleep.
pub Reachable-work_left :
    {s : Signalled}
    → Reachable s
    → (IsDeleting s.system.client → ⊥)
    → 0 < s.system.pool.pending_task_count
    → ((t : Signalled) (move : Move s t) → OfWorkers move → work_left t.system < work_left s.system)
      × ((t : Signalled) × (move : Move s t) × OfWorkers move)
Reachable-work_left {s} r stays some_task =
    let r' = Reachable-system r in
    let counted = Reachable-IsCounted r' in
    let (calm, none_gone) =
      calm_of s.system.client s.system.pool s.system.workers stays
        (Reachable-IsLive r').client_live in
    let w = (Reachable-IsWakeful r).ready some_task in
    (
      λ t move is. less_work_left move is calm some_task,
      can_go_on s w.place w.worker w.at w.stays w.awake calm some_task
          (omega (arith, some_task, counted.pending_is)),
    )
