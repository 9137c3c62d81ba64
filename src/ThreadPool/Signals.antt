-- ===== src/ThreadPool/Signals.antt =====
-- hw4/thread_pool.c: the steps of the pool with its condition variables, `cv` for the workers and
-- `spawn_cv` for the client.
pub mod Wakeful
pub mod Awake
use system_programming_hw.Base.{
  ℕ, ◌<◌, ◌≡◌, ◌≢◌, Bool, true, false, some, List, [], get_elem?, ◌==◌, if◌then◌else◌,
}
use system_programming_hw.ThreadPool.{Pool, value, thread_pool_new, waits, worker_wake}
use system_programming_hw.ThreadPool.System.{
  Worker, waiting, Client, free, pushing, System, Step, starts, exits, begins, finishes, pushes,
  pushed, deletes, joins,
}

-- Which workers of the list sleep in their wait, and whether the client does. A worker or a client that
-- does not sleep tests its condition when it has the mutex.
pub record Signalled : Type 0 where
  pub system : System
  pub asleep : ℕ → Bool
  pub client_asleep : Bool

abbrev pub set_asleep : ℕ → Bool → (ℕ → Bool) → ℕ → Bool
set_asleep i b asleep k = if k == i then b else asleep k

-- `pthread_cond_signal(&pool->cv)`: one of the workers that sleep wakes up, if there is one.
pub data Signal (asleep : ℕ → Bool) : (ℕ → Bool) → Type 0 where
  wakes_one : (i : ℕ) → asleep i ≡ true → Signal asleep (set_asleep i false asleep)
  wakes_none : ((i : ℕ) → asleep i ≡ false) → Signal asleep asleep

-- Who takes the step does not sleep.
abbrev pub IsAwake : {s t : System} → (ℕ → Bool) → Bool → Step s t → Type 0
IsAwake asleep client (starts i idx e) = Unit
IsAwake asleep client (exits i idx e l) = asleep i ≡ false
IsAwake asleep client (begins i idx task pool' e w) = asleep i ≡ false
IsAwake asleep client (finishes i idx task e) = Unit
IsAwake asleep client (pushes task p e b) = Unit
IsAwake asleep client (pushed required task e ready) = client ≡ false
IsAwake asleep client (deletes e c m) = Unit
IsAwake asleep client (joins i e g lt) = Unit

-- What the step signals to the workers: a push wakes one, the deletion broadcasts.
abbrev pub Wakes : {s t : System} → (ℕ → Bool) → Step s t → (ℕ → Bool) → Type 0
Wakes asleep (starts i idx e) asleep' = asleep' ≡ asleep
Wakes asleep (exits i idx e l) asleep' = asleep' ≡ asleep
Wakes asleep (begins i idx task pool' e w) asleep' = asleep' ≡ asleep
Wakes asleep (finishes i idx task e) asleep' = asleep' ≡ asleep
Wakes asleep (pushes task p e b) asleep' = asleep' ≡ asleep
Wakes asleep (pushed required task e ready) asleep' = Signal asleep asleep'
Wakes asleep (deletes e c m) asleep' = asleep' ≡ λ i. false
Wakes asleep (joins i e g lt) asleep' = asleep' ≡ λ i. false

-- A worker that starts signals to the client.
abbrev pub client_after : {s t : System} → Step s t → Bool → Bool
client_after (starts i idx e) client = false
client_after _ client = client

-- A step, a wait that begins because its test does not hold, or a wake-up with no signal, which POSIX
-- allows.
pub data Move : Signalled → Signalled → Type 0 where
  moves :
      {s t : System} {asleep asleep' : ℕ → Bool} {client : Bool} (step : Step s t)
      → IsAwake asleep client step
      → Wakes asleep step asleep'
      → Move
          (record { system = s; asleep = asleep; client_asleep = client })
          (record { system = t; asleep = asleep'; client_asleep = client_after step client })
  sleeps :
      {s : Signalled} (i idx : ℕ)
      → get_elem? s.system.workers i ≡ some (waiting idx)
      → s.asleep i ≡ false
      → worker_wake idx s.system.pool ≡ waits
      → Move s (record s { asleep = set_asleep i true s.asleep })
  client_sleeps :
      {s : Signalled} (required task : ℕ)
      → s.system.client ≡ pushing required task
      → s.system.pool.thread_count ≢ required
      → Move s (record s { client_asleep = true })
  wakes : {s : Signalled} (i : ℕ) → Move s (record s { asleep = set_asleep i false s.asleep })
  client_wakes : {s : Signalled} → Move s (record s { client_asleep = false })

pub data Reachable : Signalled → Type 0 where
  fresh :
      {pool : Pool} (max : ℕ)
      → thread_pool_new max ≡ value pool
      → Reachable (record {
        system = record { pool = pool; workers = []; client = free };
        asleep = λ i. false;
        client_asleep = false;
      })
  after : {s t : Signalled} → Reachable s → Move s t → Reachable t
