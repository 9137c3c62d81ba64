-- ===== src/Coroutine/System/Safe.antt =====
-- hw1/libcoro.c: what holds of the scheduler whenever a coroutine runs.
use mathlib.Core.Path.{subst}
use system_programming_hw.Base.{
  ℕ, Bool, true, false, Option, none, some, List, [], ◌∷◌, ◌++◌, ◌≡◌, ◌≢◌, refl, sym, ap, ◌∙◌,
  arith, inr, ℤ, pos, if◌then◌else◌,
}
use system_programming_hw.Coroutine.{
  update, Scheduler, coro_list_add, coro_list_delete, coro_yield_to, next_of, coro_yield, Search,
  found, nothing, no_fuel, first_finished, Turn, returns, switches, stuck, turn_by, turn_on,
  sched_turn, coro_finish, coro_new, coro_is_finished,
}
use system_programming_hw.Coroutine.Links.{
  Fresh, In, Lists, coro_list_add-Lists, coro_list_delete-Lists,
}
use system_programming_hw.Coroutine.Scan.{
  head-In, next-In, alive-In, AreAlive, Says, first_finished-Says,
}
use system_programming_hw.Coroutine.System.{
  arrive_at, arrive, IsEnough, Step, turns, gives, yields, finishes, creates, Reachable, begins,
  step,
}

-- A coroutine that runs is in the list, no coroutine of the list has finished, and the scheduler waits.
abbrev Runs : Option ℕ → List ℕ → Scheduler → Type 0
Runs none ids s = Unit
Runs (some c) ids s = In c ids × AreAlive s.is_finished ids × (s.is_sched_waiting ≡ true)

record IsSound (s : Scheduler) : Type 0 where
  ids : List ℕ
  lists : Lists ids s
  runs : Runs s.coro_this ids s

-- What a round of the scheduler leaves.
TurnIsSound : Turn → Type 0
TurnIsSound (returns c s) = (s.coro_this ≡ none) → IsSound s
TurnIsSound (switches s) = IsSound s
TurnIsSound stuck = ⊥

turn_by-TurnIsSound :
    (s : Scheduler) (ids : List ℕ) (c : ℕ) (r : Search)
    → Lists ids s
    → s.coro_list ≡ some c
    → Says s.is_finished ids r
    → TurnIsSound (turn_by s r)
unfolding TurnIsSound turn_by coro_yield_to Lists coro_list_delete
turn_by-TurnIsSound s ids c nothing (apart, chain) at alive = record {
  ids = ids;
  lists = (apart, chain);
  runs =
      subst
        (λ (q : Option ℕ).
          Runs q ids (coro_yield_to s.coro_list (record s { is_sched_waiting = true })))
        (sym at) (head-In s.next s.prev none ids s.coro_list c chain at, alive, refl);
}
turn_by-TurnIsSound s ids c (found d) lists at (xs, ys, e, alive, over) = λ idle. record {
  ids = xs ++ ys;
  lists = coro_list_delete-Lists d xs ys s (subst (λ (l : List ℕ). Lists l s) e lists);
  runs = subst (λ (q : Option ℕ). Runs q (xs ++ ys) (coro_list_delete d s)) (sym idle) tt;
}
turn_by-TurnIsSound s ids c no_fuel lists at says = says

turn_on-TurnIsSound :
    (fuel : ℕ) (s : Scheduler) (q : Option ℕ)
    → IsSound s
    → s.coro_list ≡ q
    → IsEnough fuel s
    → TurnIsSound (turn_on fuel s q)
unfolding TurnIsSound turn_on Lists
turn_on-TurnIsSound fuel s none sound at enough = λ idle. sound
turn_on-TurnIsSound fuel s (some c) sound at enough =
    turn_by-TurnIsSound s sound.ids c (first_finished fuel (some c) s) sound.lists at (
      subst (λ (q : Option ℕ). Says s.is_finished sound.ids (first_finished fuel q s)) at
        (first_finished-Says fuel s none sound.ids s.coro_list sound.lists.1
          (enough sound.ids sound.lists)))

sched_turn-TurnIsSound :
    (fuel : ℕ) (s : Scheduler) → IsSound s → IsEnough fuel s → TurnIsSound (sched_turn fuel s)
unfolding sched_turn
sched_turn-TurnIsSound fuel s sound enough =
    turn_on-TurnIsSound fuel s s.coro_list sound refl enough

Runs-coro_this :
    (s : Scheduler) (sound : IsSound s) (c : ℕ) → s.coro_this ≡ some c → Runs (some c) sound.ids s
Runs-coro_this s sound c at = subst (λ (q : Option ℕ). Runs q sound.ids s) at sound.runs

yield-Runs :
    (s : Scheduler) (ids : List ℕ) (c : ℕ) (q : Option ℕ)
    → Lists ids s
    → Runs (some c) ids s
    → s.next c ≡ q
    → IsSound (arrive_at q (coro_yield_to q s))
unfolding Lists coro_yield_to
yield-Runs s ids c none lists runs at = record { ids = ids; lists = lists; runs = tt }
yield-Runs s ids c (some d) lists (i, alive, waits) at = record {
  ids = ids;
  lists = lists;
  runs = (next-In s.next s.prev none ids s.coro_list c d lists.1 i at, alive, waits);
}

yields-IsSound :
    (s : Scheduler) (c : ℕ) → IsSound s → s.coro_this ≡ some c → IsSound (arrive (coro_yield s))
unfolding coro_yield coro_yield_to
yields-IsSound s c sound at =
    subst (λ (q : Option ℕ). IsSound (arrive_at (next_of q s) (coro_yield_to (next_of q s) s)))
      (sym at) (yield-Runs s sound.ids c (s.next c) sound.lists (Runs-coro_this s sound c at) refl)

finishes-IsSound :
    (s s' : Scheduler) (c : ℕ) (value : ℤ)
    → IsSound s
    → s.coro_this ≡ some c
    → coro_finish c value s ≡ some s'
    → IsSound s'
unfolding coro_finish Lists
finishes-IsSound s s' c value sound at e = by_test s.is_sched_waiting e
  where
    over : Scheduler
    over = record s {
      ret = update s.ret c value;
      is_finished = update s.is_finished c true;
      coro_this = none;
      is_sched_waiting = false;
    }

    by_test : (b : Bool) → (if b then some over else none) ≡ some s' → IsSound s'
    by_test true e' =
        let same : over ≡ s' = cc e' in
        subst IsSound same (record { ids = sound.ids; lists = sound.lists; runs = tt })
    by_test false e' = absurd (cc e')

alive-update :
    (finished : ℕ → Bool) (c : ℕ) (ids : List ℕ)
    → AreAlive finished ids
    → AreAlive (update finished c false) ids
alive-update finished c [] all = tt
alive-update finished c (x ∷ ids) (alive, all) =
    (ground (arith, alive), alive-update finished c ids all)

created-Runs :
    (s : Scheduler) (ids : List ℕ) (c : ℕ) (q : Option ℕ)
    → Runs q ids s
    → Runs q (c ∷ ids) (coro_new c s)
unfolding coro_new coro_list_add
created-Runs s ids c none runs = tt
created-Runs s ids c (some d) (i, alive, waits) =
    (inr i, (ground arith, alive-update s.is_finished c ids alive), waits)

creates-IsSound :
    (s : Scheduler) (c : ℕ)
    → IsSound s
    → ((ids : List ℕ) → Lists ids s → Fresh c ids)
    → IsSound (coro_new c s)
unfolding coro_new coro_list_add Lists
creates-IsSound s c sound fresh = record {
  ids = c ∷ sound.ids;
  lists =
      coro_list_add-Lists c sound.ids
        (record s {
          ret = update s.ret c (pos 0);
          is_finished = update s.is_finished c false;
          switch_count = update s.switch_count c 0;
        })
        (fresh sound.ids sound.lists) sound.lists;
  runs = created-Runs s sound.ids c s.coro_this sound.runs;
}

ReturnsIdle : Turn → Type 0
ReturnsIdle (returns c s) = s.coro_this ≡ none
ReturnsIdle _ = Unit

turn_by-ReturnsIdle : (s : Scheduler) (r : Search) → s.coro_this ≡ none → ReturnsIdle (turn_by s r)
unfolding ReturnsIdle turn_by coro_list_delete
turn_by-ReturnsIdle s (found c) idle = idle
turn_by-ReturnsIdle s nothing idle = tt
turn_by-ReturnsIdle s no_fuel idle = tt

turn_on-ReturnsIdle :
    (fuel : ℕ) (s : Scheduler) (q : Option ℕ) → s.coro_this ≡ none → ReturnsIdle (turn_on fuel s q)
unfolding ReturnsIdle turn_on
turn_on-ReturnsIdle fuel s none idle = idle
turn_on-ReturnsIdle fuel s (some c) idle =
    turn_by-ReturnsIdle s (first_finished fuel (some c) s) idle

step-IsSound : {s s' : Scheduler} → IsSound s → Step s s' → IsSound s'
unfolding TurnIsSound ReturnsIdle sched_turn
step-IsSound {s = s} sound (turns fuel idle enough e) =
    subst TurnIsSound e (sched_turn-TurnIsSound fuel s sound enough)
step-IsSound {s = s} sound (gives fuel c idle enough e) =
    subst TurnIsSound e (sched_turn-TurnIsSound fuel s sound enough)
      (subst ReturnsIdle e (turn_on-ReturnsIdle fuel s s.coro_list idle))
step-IsSound {s = s} sound (yields c at) = yields-IsSound s c sound at
step-IsSound {s = s} {s' = s'} sound (finishes c value at e) =
    finishes-IsSound s s' c value sound at e
step-IsSound {s = s} sound (creates c fresh) = creates-IsSound s c sound fresh

Reachable-IsSound : {s : Scheduler} → Reachable s → IsSound s
unfolding Lists
Reachable-IsSound (begins s empty idle) = record { ids = []; lists = (tt, empty); runs = tt }
Reachable-IsSound (step r move) = step-IsSound (Reachable-IsSound r) move

not_null : {s : Scheduler} → ◌≡◌ {A = Option Scheduler} (some s) none → ⊥
not_null e = absurd (cc e)

-- Whatever the program and the coroutines do: a coroutine that runs has not finished, the one that its
-- yield switches to has not finished, and at its end the scheduler waits for it, so that the critical
-- error of coro_body never comes up.
pub Reachable-runs :
    {s : Scheduler} (c : ℕ)
    → Reachable s
    → s.coro_this ≡ some c
    → (coro_is_finished c s ≡ false)
      × ((d : ℕ) → (coro_yield s).coro_this ≡ some d → coro_is_finished d s ≡ false)
      × ((value : ℤ) → coro_finish c value s ≢ none)
unfolding coro_yield coro_yield_to coro_finish Lists
Reachable-runs {s = s} c r at =
    let sound = Reachable-IsSound r in
    let (i, alive, waits) = Runs-coro_this s sound c at in
    (
      alive-In s.is_finished sound.ids c alive i,
      λ d to. alive-In s.is_finished sound.ids d alive (
          next-In s.next s.prev none sound.ids s.coro_list c d sound.lists.1 i
            (ap (λ (q : Option ℕ). next_of q s) (sym at) ∙ to)),
      λ value e. not_null (rw waits at e),
    )
