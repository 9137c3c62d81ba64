-- ===== src/ThreadPool/Signals/Wakeful.antt =====
-- hw4/thread_pool.c: no wake-up of a worker is lost.
use system_programming_hw.Base.{
  ℕ, zero, suc, ◌<◌, ◌≡◌, ◌≢◌, refl, sym, ap, ◌∙◌, arith, Bool, true, false, some, List, [], ◌∷◌,
  ◌++◌, length, get_elem?, get_elem?-set_other, set, ltb, ◌||◌, if◌then◌else◌, ℕ_discrete,
}
use mathlib.Core.Path.{subst}
use system_programming_hw.ThreadPool.{
  max_threads, invalid_argument, Pool, value, error, take_task, should_exit, thread_pool_new,
  push_end, waits, leaves, worker_start, worker_finish, worker_wake,
}
use system_programming_hw.ThreadPool.System.{
  Worker, spawned, waiting, gone, running, Client, free, pushing, deleting, System, created_workers,
  Step, starts, exits, begins, finishes, pushes, pushed, deletes, joins,
}
use system_programming_hw.ThreadPool.System
use system_programming_hw.ThreadPool.Counts.{total}
use system_programming_hw.ThreadPool.Live.{
  is_gone, ClientLive, IsLive, Reachable-IsLive, wake_stays,
}
use system_programming_hw.ThreadPool.Opens.{push_begin-Opens}
use system_programming_hw.ThreadPool.Signals.{
  Signalled, Signal, wakes_one, wakes_none, IsAwake, Wakes, moves, sleeps, client_sleeps, wakes,
  client_wakes, Reachable, fresh, after,
}

-- A worker that has not ended, and does not sleep.
pub record Ready (workers : List Worker) (asleep : ℕ → Bool) : Type 0 where
  pub place : ℕ
  pub worker : Worker
  pub at : get_elem? workers place ≡ some worker
  pub stays : is_gone worker ≡ 0
  pub awake : asleep place ≡ false

-- Only workers in their wait sleep, and where a task is pending one does not.
pub record IsWakeful (pool : Pool) (workers : List Worker) (asleep : ℕ → Bool) : Type 0 where
  pub sleepers : (i : ℕ) → asleep i ≡ true → (idx : ℕ) × (get_elem? workers i ≡ some (waiting idx))
  pub ready : 0 < pool.pending_task_count → Ready workers asleep

get_elem?-set_here :
    (ws : List Worker) (i : ℕ) (new : Worker) {old : Worker}
    → get_elem? ws i ≡ some old
    → get_elem? (set ws i new) i ≡ some new
get_elem?-set_here [] i new e = absurd (cc e)
get_elem?-set_here (w ∷ ws) zero new e = refl
get_elem?-set_here (w ∷ ws) (suc i) new e = get_elem?-set_here ws i new e

-- A worker that takes a step itself.
own-IsWakeful :
    (pool pool' : Pool) (workers : List Worker) (asleep : ℕ → Bool) (i : ℕ) (old new : Worker)
    → IsWakeful pool workers asleep
    → get_elem? workers i ≡ some old
    → asleep i ≡ false
    → (0 < pool'.pending_task_count → is_gone new ≡ 0)
    → IsWakeful pool' (set workers i new) asleep
own-IsWakeful pool pool' workers asleep i old new h at awake stays = record {
  sleepers = λ k e. elim (ℕ_discrete k i) [
    | yes is ↦ let clash : true ≡ false = sym e ∙ ap asleep is ∙ awake in absurd (cc clash)
    | no ne ↦ (let (idx, w) = h.sleepers k e in (idx, get_elem?-set_other workers i k new ne ∙ w))
  ];
  ready = λ some_task. record {
    place = i;
    worker = new;
    at = get_elem?-set_here workers i new at;
    stays = stays some_task;
    awake = awake;
  };
}

-- A worker that does not wait does not sleep.
awake_of :
    (pool : Pool) (workers : List Worker) (asleep : ℕ → Bool) (i : ℕ) (w : Worker)
    → IsWakeful pool workers asleep
    → get_elem? workers i ≡ some w
    → ((idx : ℕ) → w ≢ waiting idx)
    → asleep i ≡ false
awake_of pool workers asleep i w h at other = by_test (asleep i) refl
  where
    by_test : (b : Bool) → asleep i ≡ b → asleep i ≡ false
    by_test false e = e
    by_test true e = let (idx, at') = h.sleepers i e in absurd (other idx (cc (at, at')))

get_elem?-front :
    (xs ys : List Worker) (i : ℕ) {w : Worker}
    → get_elem? xs i ≡ some w
    → get_elem? (xs ++ ys) i ≡ some w
get_elem?-front [] ys i e = absurd (cc e)
get_elem?-front (x ∷ xs) ys zero e = e
get_elem?-front (x ∷ xs) ys (suc i) e = get_elem?-front xs ys i e

-- Workers that are added behind.
added-IsWakeful :
    (pool pool' : Pool) (workers new : List Worker) (asleep : ℕ → Bool)
    → IsWakeful pool workers asleep
    → pool'.pending_task_count ≡ pool.pending_task_count
    → IsWakeful pool' (workers ++ new) asleep
added-IsWakeful pool pool' workers new asleep h pending = record {
  sleepers = λ k e. let (idx, w) = h.sleepers k e in (idx, get_elem?-front workers new k w);
  ready = λ some_task.
      let r = h.ready (omega (arith, some_task, pending)) in
      record {
        place = r.place;
        worker = r.worker;
        at = get_elem?-front workers new r.place r.at;
        stays = r.stays;
        awake = r.awake;
      };
}

first_of :
    (ws : List Worker)
    → 0 < length ws
    → total is_gone ws ≡ 0
    → (w : Worker) × (get_elem? ws 0 ≡ some w) × (is_gone w ≡ 0)
first_of [] lt none_gone = absurd (omega arith)
first_of (w ∷ ws) lt none_gone = (w, refl, omega (arith, none_gone))

-- A signal behind a push.
Signal-Ready :
    (workers : List Worker) (asleep asleep' : ℕ → Bool)
    → ((i : ℕ) → asleep i ≡ true → (idx : ℕ) × (get_elem? workers i ≡ some (waiting idx)))
    → 0 < length workers
    → total is_gone workers ≡ 0
    → Signal asleep asleep'
    → Ready workers asleep'
Signal-Ready workers asleep asleep' sleepers manned none_gone (wakes_one i e) =
    let (idx, at) = sleepers i e in
    record { place = i; worker = waiting idx; at = at; stays = refl; awake = ground arith }
Signal-Ready workers asleep asleep' sleepers manned none_gone (wakes_none all) =
    let (w, at, stays) = first_of workers manned none_gone in
    record { place = 0; worker = w; at = at; stays = stays; awake = all 0 }

asleep_before :
    (asleep asleep' : ℕ → Bool) (i : ℕ) → Signal asleep asleep' → asleep' i ≡ true → asleep i ≡ true
asleep_before asleep asleep' i (wakes_one k e) is = ground (arith, is)
asleep_before asleep asleep' i (wakes_none all) is = is

-- The worker that leaves does so in a deletion, where no task is pending.
leaves_idle :
    (c : Client) (pool : Pool) (workers : List Worker) (idx : ℕ)
    → ClientLive c pool workers
    → worker_wake idx pool ≡ leaves
    → pool.pending_task_count ≡ 0
leaves_idle free pool workers idx h l = absurd (wake_stays idx pool h.0 l)
leaves_idle (pushing r t) pool workers idx h l = absurd (wake_stays idx pool h.0 l)
leaves_idle (deleting i) pool workers idx h l = h

-- A push has just signalled.
pushed-IsWakeful :
    (s : System) (asleep asleep' : ℕ → Bool) (required task : ℕ)
    → IsLive s
    → IsWakeful s.pool s.workers asleep
    → s.client ≡ pushing required task
    → Signal asleep asleep'
    → IsWakeful (push_end task s.pool) s.workers asleep'
pushed-IsWakeful s asleep asleep' required task live h at signal =
    let (calm, none_gone, has) =
      subst (λ (c : Client). ClientLive c s.pool s.workers) at live.client_live in
    record {
      sleepers = λ k e. h.sleepers k (asleep_before asleep asleep' k signal e);
      ready = λ some_task.
          Signal-Ready s.workers asleep asleep' h.sleepers (live.manned has) none_gone signal;
    }

-- A broadcast.
broadcast-IsWakeful :
    (pool : Pool) (workers : List Worker) (asleep : ℕ → Bool)
    → asleep ≡ (λ i. false)
    → pool.pending_task_count ≡ 0
    → IsWakeful pool workers asleep
broadcast-IsWakeful pool workers asleep e empty = record {
  sleepers =
      λ k is. let clash : true ≡ false = sym is ∙ ap (λ (a : ℕ → Bool). a k) e in absurd (cc clash);
  ready = λ some_task. absurd (omega (arith, empty, some_task));
}

step-IsWakeful :
    {s t : System} (asleep asleep' : ℕ → Bool) (client : Bool) (step : Step s t)
    → IsLive s
    → IsLive t
    → IsWakeful s.pool s.workers asleep
    → IsAwake asleep client step
    → Wakes asleep step asleep'
    → IsWakeful t.pool t.workers asleep'
unfolding worker_start worker_finish
step-IsWakeful asleep asleep' client (starts {s} i idx e) live live' h awake e' =
    subst (IsWakeful (worker_start s.pool) (set s.workers i (waiting idx))) (sym e') (
      own-IsWakeful s.pool (worker_start s.pool) s.workers asleep i (spawned idx) (waiting idx) h e
        (awake_of s.pool s.workers asleep i (spawned idx) h e λ k c. cc c) λ p. refl)
step-IsWakeful asleep asleep' client (exits {s} i idx e l) live live' h awake e' =
    subst (IsWakeful s.pool (set s.workers i (gone idx))) (sym e') (
      own-IsWakeful s.pool s.pool s.workers asleep i (waiting idx) (gone idx) h e awake λ some_task.
        absurd
          (omega (arith, some_task, leaves_idle s.client s.pool s.workers idx live.client_live l)))
step-IsWakeful asleep asleep' client (begins {s} i idx task pool' e w) live live' h awake e' =
    subst (IsWakeful pool' (set s.workers i (running idx task))) (sym e') (
      own-IsWakeful s.pool pool' s.workers asleep i (waiting idx) (running idx task) h e awake
        λ p. refl)
step-IsWakeful asleep asleep' client (finishes {s} i idx task e) live live' h awake e' =
    subst (IsWakeful (worker_finish s.pool) (set s.workers i (waiting idx))) (sym e') (
      own-IsWakeful s.pool (worker_finish s.pool) s.workers asleep i (running idx task)
        (waiting idx) h e (awake_of s.pool s.workers asleep i (running idx task) h e λ k c. cc c)
        λ p. refl)
step-IsWakeful asleep asleep' client (pushes {s} task p e b) live live' h awake e' =
    subst (IsWakeful p.pool (s.workers ++ created_workers p.created)) (sym e') (
      added-IsWakeful s.pool p.pool s.workers (created_workers p.created) asleep h
        (push_begin-Opens s.pool p b).pending_is)
step-IsWakeful asleep asleep' client (pushed {s} required task e ready) live live' h awake signal =
    pushed-IsWakeful s asleep asleep' required task live h e signal
step-IsWakeful asleep asleep' client (deletes {s} e c m) live live' h awake e' =
    broadcast-IsWakeful _ s.workers asleep' e' live'.client_live
step-IsWakeful asleep asleep' client (joins {s} i e g lt) live live' h awake e' =
    broadcast-IsWakeful _ s.workers asleep' e' live'.client_live

-- The steps of the pool alone.
pub Reachable-system : {s : Signalled} → Reachable s → System.Reachable s.system
Reachable-system (fresh max e) = System.fresh max e
Reachable-system (after r (moves step awake w)) = System.after (Reachable-system r) step
Reachable-system (after r (sleeps i idx e awake w)) = Reachable-system r
Reachable-system (after r (client_sleeps required task e ne)) = Reachable-system r
Reachable-system (after r (wakes i)) = Reachable-system r
Reachable-system (after r client_wakes) = Reachable-system r

fresh_idle :
    (max : ℕ) {pool : Pool} → thread_pool_new max ≡ value pool → pool.pending_task_count ≡ 0
unfolding thread_pool_new
fresh_idle max e = go (ltb max 1 || ltb max_threads max) _ refl e
  where
    go :
        (b : Bool) (new : Pool) {pool : Pool}
        → new.pending_task_count ≡ 0
        → (if b then error invalid_argument else value new) ≡ value pool
        → pool.pending_task_count ≡ 0
    go true new empty e' = absurd (cc e')
    go false new {pool = pool} empty e' =
        let same : new ≡ pool = cc e' in sym (ap (λ (q : Pool). q.pending_task_count) same) ∙ empty

-- A worker waits on only where no task is pending.
pub waits_idle :
    (idx : ℕ) (pool : Pool) → worker_wake idx pool ≡ waits → pool.pending_task_count < 1
unfolding worker_wake take_task
waits_idle idx pool e =
    let none_pending =
      go (should_exit pool.thread_idx_that_should_exit idx) (ltb pool.pending_task_count 1)
        pool.pending_task_list e in
    ground (arith, none_pending)
  where
    go :
        (b c : Bool) (tasks : List ℕ)
        → (if b then leaves else if c then waits else take_task pool tasks) ≡ waits
        → c ≡ true
    go true c tasks e' = absurd (cc e')
    go false true tasks e' = refl
    go false false [] e' = absurd (cc e')
    go false false (task ∷ tasks) e' = absurd (cc e')

pub Reachable-IsWakeful :
    {s : Signalled} → Reachable s → IsWakeful s.system.pool s.system.workers s.asleep
Reachable-IsWakeful (fresh max e) = record {
  sleepers = λ i is. absurd (cc is);
  ready = λ some_task. absurd (omega (arith, some_task, fresh_idle max e));
}
Reachable-IsWakeful (after r (moves {asleep = a} {asleep' = b} {client = c} step awake w)) =
    step-IsWakeful a b c step (Reachable-IsLive (Reachable-system r))
      (Reachable-IsLive (System.after (Reachable-system r) step)) (Reachable-IsWakeful r) awake w
Reachable-IsWakeful (after r (sleeps {s} i idx e awake w)) =
    let h = Reachable-IsWakeful r in
    record {
      sleepers = λ k is. elim (ℕ_discrete k i) [
        | yes same ↦ (idx, ap (get_elem? s.system.workers) same ∙ e)
        | no ne ↦ h.sleepers k (ground (arith, is, ne))
      ];
      ready = λ some_task. absurd (omega (arith, some_task, waits_idle idx s.system.pool w));
    }
Reachable-IsWakeful (after r (client_sleeps required task e ne)) = Reachable-IsWakeful r
Reachable-IsWakeful (after r (wakes {s} i)) =
    let h = Reachable-IsWakeful r in
    record {
      sleepers = λ k is. h.sleepers k (ground (arith, is));
      ready = λ some_task.
          let w = h.ready some_task in
          record {
            place = w.place;
            worker = w.worker;
            at = w.at;
            stays = w.stays;
            awake = ground (arith, w.awake);
          };
    }
Reachable-IsWakeful (after r client_wakes) = Reachable-IsWakeful r
