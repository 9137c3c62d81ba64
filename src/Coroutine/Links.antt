-- ===== src/Coroutine/Links.antt =====
-- hw1/libcoro.c: the linked list of coroutines against a list of addresses.
use mathlib.Core.Path.{subst}
use system_programming_hw.Base.{
  ℕ, Option, none, some, List, [], ◌∷◌, ◌++◌, ◌≡◌, ◌≢◌, refl, sym, ◌∙◌, arith, inl, inr, ◌⊎◌,
}
use system_programming_hw.Coroutine.{
  update, Scheduler, update_at, coro_list_add, list_without, coro_list_delete,
}

abbrev pub Fresh : ℕ → List ℕ → Type 0
Fresh c [] = Unit
Fresh c (x ∷ xs) = (c ≢ x) × Fresh c xs

abbrev pub Distinct : List ℕ → Type 0
Distinct [] = Unit
Distinct (x ∷ xs) = Fresh x xs × Distinct xs

abbrev pub In : ℕ → List ℕ → Type 0
In c [] = ⊥
In c (x ∷ xs) = (c ≡ x) ⊎ In c xs

-- The pointers from a head on, with what stands before it, run through these addresses.
abbrev pub Chain : (ℕ → Option ℕ) → (ℕ → Option ℕ) → Option ℕ → List ℕ → Option ℕ → Type 0
Chain next prev before [] head = head ≡ none
Chain next prev before (c ∷ cs) head =
    (head ≡ some c) × (prev c ≡ before) × Chain next prev (some c) cs (next c)

update_same : (f : ℕ → Option ℕ) (c : ℕ) (x : Option ℕ) → update f c x c ≡ x
update_same f c x = ground arith

update_other : (f : ℕ → Option ℕ) (c k : ℕ) (x : Option ℕ) → k ≢ c → update f c x k ≡ f k
update_other f c k x ne = ground (arith, ne)

-- A chain stays where nothing writes to its addresses.
Chain-update_prev :
    (next prev : ℕ → Option ℕ) (c : ℕ) (x before : Option ℕ) (cs : List ℕ) (head : Option ℕ)
    → Fresh c cs
    → Chain next prev before cs head
    → Chain next (update prev c x) before cs head
Chain-update_prev next prev c x before [] head fresh h = h
Chain-update_prev next prev c x before (d ∷ cs) head (ne, fresh) (at, back, h) = (
  at,
  update_other prev c d x (λ e. ne (sym e)) ∙ back,
  Chain-update_prev next prev c x (some d) cs (next d) fresh h,
)

Chain-update_next :
    (next prev : ℕ → Option ℕ) (c : ℕ) (x before : Option ℕ) (cs : List ℕ) (head : Option ℕ)
    → Fresh c cs
    → Chain next prev before cs head
    → Chain (update next c x) prev before cs head
Chain-update_next next prev c x before [] head fresh h = h
Chain-update_next next prev c x before (d ∷ cs) head (ne, fresh) (at, back, h) =
    let same : next d ≡ update next c x d = sym (update_other next c d x (λ e. ne (sym e))) in
    (
      at,
      back,
      subst (Chain (update next c x) prev (some d) cs) same
          (Chain-update_next next prev c x (some d) cs (next d) fresh h),
    )

-- The first of a chain gets something else before it.
Chain-before :
    (next prev : ℕ → Option ℕ) (before x : Option ℕ) (cs : List ℕ) (head : Option ℕ)
    → Distinct cs
    → Chain next prev before cs head
    → Chain next (update_at prev head x) x cs head
Chain-before next prev before x [] head apart h = h
Chain-before next prev before x (d ∷ cs) head (fresh, apart) (at, back, h) =
    subst (λ (q : Option ℕ). Chain next (update_at prev q x) x (d ∷ cs) q) (sym at)
      (refl, update_same prev d x, Chain-update_prev next prev d x (some d) cs (next d) fresh h)

-- The list of all coroutines, as the scheduler holds it, runs through these addresses.
unfoldable pub Lists : List ℕ → Scheduler → Type 0
Lists ids s = Distinct ids × Chain s.next s.prev none ids s.coro_list

front-null :
    (next prev : ℕ → Option ℕ) (c : ℕ) (x before : Option ℕ) (ids : List ℕ) (head : Option ℕ)
    → Fresh c ids
    → Chain next prev before ids head
    → update_at prev head x c ≡ prev c
front-null next prev c x before [] head fresh h = rw h refl
front-null next prev c x before (d ∷ ids) head (ne, fresh) (at, back, rest) =
    rw at (update_other prev d c x ne)

-- `coro_list_add` puts a coroutine whose address is not in the list in front.
pub coro_list_add-Lists :
    (c : ℕ) (ids : List ℕ) (s : Scheduler)
    → Fresh c ids
    → Lists ids s
    → Lists (c ∷ ids) (coro_list_add c s)
unfolding Lists coro_list_add
coro_list_add-Lists c ids s fresh (apart, h) =
    let cleared = update s.prev c none in
    let h1 = Chain-update_prev s.next s.prev c none none ids s.coro_list fresh h in
    let h2 = Chain-before s.next cleared none (some c) ids s.coro_list apart h1 in
    let h3 =
      Chain-update_next s.next (update_at cleared s.coro_list (some c)) c s.coro_list (some c) ids
        s.coro_list fresh h2 in
    (
      (fresh, apart),
      (
        refl,
        front-null s.next cleared c (some c) none ids s.coro_list fresh h1
            ∙ update_same s.prev c none,
        subst
            (Chain (update s.next c s.coro_list) (update_at cleared s.coro_list (some c)) (some c)
              ids)
            (sym (update_same s.next c s.coro_list)) h3,
      ),
    )

Fresh-after : (c d : ℕ) (xs ys : List ℕ) → Fresh c (xs ++ d ∷ ys) → Fresh c ys
Fresh-after c d [] ys (ne, fresh) = fresh
Fresh-after c d (x ∷ xs) ys (ne, fresh) = Fresh-after c d xs ys fresh

Fresh-without : (c d : ℕ) (xs ys : List ℕ) → Fresh c (xs ++ d ∷ ys) → Fresh c (xs ++ ys)
Fresh-without c d [] ys (ne, fresh) = fresh
Fresh-without c d (x ∷ xs) ys (ne, fresh) = (ne, Fresh-without c d xs ys fresh)

Fresh-In : (c l d : ℕ) (xs ys : List ℕ) → Fresh c (xs ++ d ∷ ys) → In l xs → c ≢ l
Fresh-In c l d [] ys fresh i = absurd i
Fresh-In c l d (x ∷ xs) ys (ne, fresh) (inl e) = λ same. ne (same ∙ e)
Fresh-In c l d (x ∷ xs) ys (ne, fresh) (inr i) = Fresh-In c l d xs ys fresh i

Distinct-without : (c : ℕ) (xs ys : List ℕ) → Distinct (xs ++ c ∷ ys) → Distinct (xs ++ ys)
Distinct-without c [] ys (fresh, apart) = apart
Distinct-without c (x ∷ xs) ys (fresh, apart) =
    (Fresh-without x c xs ys fresh, Distinct-without c xs ys apart)

Distinct-after : (c : ℕ) (xs ys : List ℕ) → Distinct (xs ++ c ∷ ys) → Distinct ys
Distinct-after c [] ys (fresh, apart) = apart
Distinct-after c (x ∷ xs) ys (fresh, apart) = Distinct-after c xs ys apart

-- The part of a chain behind a coroutine.
Chain-after :
    (next prev : ℕ → Option ℕ) (c : ℕ) (before : Option ℕ) (xs ys : List ℕ) (head : Option ℕ)
    → Chain next prev before (xs ++ c ∷ ys) head
    → Chain next prev (some c) ys (next c)
Chain-after next prev c before [] ys head (at, back, h) = h
Chain-after next prev c before (x ∷ xs) ys head (at, back, h) =
    Chain-after next prev c (some x) xs ys (next x) h

-- What stands before a coroutine that is not the first.
before-In :
    (next prev : ℕ → Option ℕ) (c b : ℕ) (before : Option ℕ) (bs ys : List ℕ) (head : Option ℕ)
    → Chain next prev before (b ∷ (bs ++ c ∷ ys)) head
    → (l : ℕ) × (prev c ≡ some l) × In l (b ∷ bs)
before-In next prev c b before [] ys head (at, back, (at', back', h)) = (b, back', inl refl)
before-In next prev c b before (d ∷ bs) ys head (at, back, h) =
    let (l, e, i) = before-In next prev c d (some b) bs ys (next b) h in (l, e, inr i)

-- The part of the list up to the deleted coroutine, which `l` stands before.
Chain-delete :
    (next prev : ℕ → Option ℕ) (c l b : ℕ) (before : Option ℕ) (bs ys : List ℕ) (head : Option ℕ)
    → prev c ≡ some l
    → Distinct (b ∷ (bs ++ c ∷ ys))
    → Chain next prev before (b ∷ (bs ++ c ∷ ys)) head
    → Chain (update next l (next c)) (update_at prev (next c) (some l)) before (b ∷ (bs ++ ys)) head
Chain-delete next prev c l b before [] ys head is_l ((ne, fresh), (fresh', apart))
      (at, back, (at', back', h)) =
    let same : b ≡ l = cc (is_l, back') in
    subst
      (λ (k : ℕ).
        Chain (update next k (next c)) (update_at prev (next c) (some k)) before (b ∷ ys) head)
      same
      (
        at,
        front-null next prev b (some b) (some c) ys (next c) fresh h ∙ back,
        subst (Chain (update next b (next c)) (update_at prev (next c) (some b)) (some b) ys)
            (sym (update_same next b (next c)))
            (Chain-update_next next (update_at prev (next c) (some b)) b (next c) (some b) ys
              (next c) fresh (Chain-before next prev (some c) (some b) ys (next c) apart h)),
      )
Chain-delete next prev c l b before (d ∷ bs) ys head is_l (fresh, apart) (at, back, h) =
    let (m, is_m, inside) = before-In next prev c d (some b) bs ys (next b) h in
    let same : m ≡ l = cc (is_l, is_m) in
    let other : b ≢ l =
      Fresh-In b l c (d ∷ bs) ys fresh (subst (λ (k : ℕ). In k (d ∷ bs)) same inside) in
    (
      at,
      front-null next prev b (some l) (some c) ys (next c) (Fresh-after b c (d ∷ bs) ys fresh)
            (Chain-after next prev c (some b) (d ∷ bs) ys (next b) h)
          ∙ back,
      subst
          (Chain (update next l (next c)) (update_at prev (next c) (some l)) (some b)
            (d ∷ (bs ++ ys)))
          (sym (update_other next l b (next c) other))
          (Chain-delete next prev c l d (some b) bs ys (next b) is_l apart h),
    )

-- `coro_list_delete` takes out exactly this coroutine, wherever it stands in the list, and keeps the
-- order of the others.
pub coro_list_delete-Lists :
    (c : ℕ) (xs ys : List ℕ) (s : Scheduler)
    → Lists (xs ++ c ∷ ys) s
    → Lists (xs ++ ys) (coro_list_delete c s)
unfolding Lists coro_list_delete
coro_list_delete-Lists c [] ys s ((fresh, apart), (at, back, h)) = (
  apart,
  subst
      (λ (q : Option ℕ).
        Chain (update_at s.next q (s.next c)) (update_at s.prev (s.next c) q) none ys
          (list_without q (s.next c) s.coro_list))
      (sym back) (Chain-before s.next s.prev (some c) none ys (s.next c) apart h),
)
coro_list_delete-Lists c (b ∷ bs) ys s (apart, h) =
    let (l, is_l, inside) = before-In s.next s.prev c b none bs ys s.coro_list h in
    (
      Distinct-without c (b ∷ bs) ys apart,
      subst
          (λ (q : Option ℕ).
            Chain (update_at s.next q (s.next c)) (update_at s.prev (s.next c) q) none
              (b ∷ (bs ++ ys)) (list_without q (s.next c) s.coro_list))
          (sym is_l) (Chain-delete s.next s.prev c l b none bs ys s.coro_list is_l apart h),
    )
