-- ===== src/Coroutine/Rounds.antt =====
-- hw1/libcoro.c: the turns of the coroutines between two rounds of the scheduler.
use mathlib.Core.Path.{subst}
use system_programming_hw.Base.{
  ℕ, zero, suc, Option, none, some, List, [], ◌∷◌, ◌++◌, map, ◌≡◌, sym, ap, ◌∙◌, length,
}
use system_programming_hw.Coroutine.{Scheduler, coro_yield, coro_yield_to, next_of}
use system_programming_hw.Coroutine.Links.{Chain, Lists}

-- Who runs, in a number of turns that all end with a yield, and then.
unfoldable pub turn_order : ℕ → Scheduler → List (Option ℕ)
turn_order zero s = s.coro_this ∷ []
turn_order (suc n) s = s.coro_this ∷ turn_order n (coro_yield s)

pub yield-next :
    (s : Scheduler) (c : ℕ) → s.coro_this ≡ some c → (coro_yield s).coro_this ≡ s.next c
unfolding coro_yield coro_yield_to
yield-next s c at = ap (λ (q : Option ℕ). next_of q s) at

turns-Chain :
    (ids : List ℕ) (before : Option ℕ) (s : Scheduler)
    → Chain s.next s.prev before ids s.coro_this
    → turn_order (length ids) s ≡ map some ids ++ none ∷ []
unfolding turn_order coro_yield coro_yield_to
turns-Chain [] before s h = ap (λ (q : Option ℕ). q ∷ []) h
turns-Chain (c ∷ ids) before s (at, back, h) =
    let rest : turn_order (length ids) (coro_yield s) ≡ map some ids ++ none ∷ [] =
      turns-Chain ids (some c) (coro_yield s)
        (subst (Chain s.next s.prev (some c) ids) (sym (yield-next s c at)) h) in
    ap (λ (q : Option ℕ). q ∷ turn_order (length ids) (coro_yield s)) at
    ∙ ap (λ (l : List (Option ℕ)). some c ∷ l) rest

-- When the scheduler has switched to the first coroutine and every coroutine yields, each coroutine of
-- the list gets exactly one turn, in the order of the list, and then the scheduler runs again.
pub turn_order-Lists :
    (ids : List ℕ) (s : Scheduler)
    → Lists ids s
    → turn_order (length ids) (coro_yield_to s.coro_list s) ≡ map some ids ++ none ∷ []
unfolding Lists coro_yield_to
turn_order-Lists ids s lists = turns-Chain ids none (coro_yield_to s.coro_list s) lists.1
