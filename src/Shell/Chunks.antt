-- ===== src/Shell/Chunks.antt =====
-- hw2/solution.c and hw2/parser.c: the loop of `main` and the pieces in which its input comes.
use system_programming_hw.Base.{
  ℕ, zero, suc, ◌<◌, none, some, ◌≡◌, ◌≢◌, refl, sym, ap, ◌∙◌, arith, List, [], ◌∷◌, ◌++◌,
  append_assoc, Bytes, inl, inr, length, length-append, length-drop, ok, crash,
}
use system_programming_hw.Parser.Line.{err_none}
use system_programming_hw.Parser.Buffer.{Parser, parser_feed}
use system_programming_hw.Parser.Buffer.Feed.{parser_feed-eq-ok}
use system_programming_hw.Parser.Pop.{parser_pop_next}
use system_programming_hw.Parser.Pop.Laws.{
  Popped, Answers, Consumes, parser_pop_next-Answers, more, parser_pop_next-more, reallocated,
  pop_reallocated, parser_pop_next-reallocated,
}
use system_programming_hw.Shell.{
  Event, refused, executed, Drained, drained, killed, no_fuel, behind, drain_next, drain, drain_all,
}

-- An answer that goes on leaves fewer bytes.
abbrev Shrinks : ℕ → Popped → Type 0
Shrinks n (ok (err_none, none, p')) = Unit
Shrinks n (ok (err_none, some line, p')) = length p'.buffer < n
Shrinks n (ok (error, none, p')) = Unit
Shrinks n (ok (error, some line, p')) = length p'.buffer < n
Shrinks n crash = Unit

Consumes-lt : {p p' : Parser} → Consumes p p' → length p'.buffer < length p.buffer
Consumes-lt {p} {p'} (n, lt, le, e) =
    omega (arith, length-drop n p.buffer, ap (λ (q : Parser). length q.buffer) e)

Answers-Shrinks : (p : Parser) (r : Popped) → Answers p r → Shrinks (length p.buffer) r
Answers-Shrinks p crash a = tt
Answers-Shrinks p (ok (err_none, none, p')) a = tt
Answers-Shrinks p (ok (err_none, some line, p')) a = Consumes-lt a.2
Answers-Shrinks p (ok (error, none, p')) a = tt
Answers-Shrinks p (ok (error, some line, p')) a = Consumes-lt a.2

pop-Shrinks : (p : Parser) → Shrinks (length p.buffer) (parser_pop_next p)
pop-Shrinks p = Answers-Shrinks p (parser_pop_next p) (parser_pop_next-Answers p)

drain_next-cong :
    (n : ℕ) (again again' : Parser → Drained) (r : Popped)
    → Shrinks n r
    → ((q : Parser) → length q.buffer < n → again q ≡ again' q)
    → drain_next again r ≡ drain_next again' r
unfolding drain_next
drain_next-cong n again again' crash s agree = refl
drain_next-cong n again again' (ok (err_none, none, q)) s agree = refl
drain_next-cong n again again' (ok (err_none, some line, q)) s agree = rw (agree q s)
drain_next-cong n again again' (ok (error, none, q)) s agree = refl
drain_next-cong n again again' (ok (error, some line, q)) s agree = rw (agree q s)

-- The loop does the same on any two amounts of fuel above the number of bytes.
drain_fuel :
    (f g : ℕ) (p : Parser) → length p.buffer < f → length p.buffer < g → drain f p ≡ drain g p
unfolding drain
drain_fuel zero g p hf hg = absurd (omega arith)
drain_fuel (suc f) zero p hf hg = absurd (omega arith)
drain_fuel (suc f) (suc g) p hf hg =
    drain_next-cong (length p.buffer) (drain f) (drain g) (parser_pop_next p) (pop-Shrinks p)
      (λ q lt. drain_fuel f g q (omega arith) (omega arith))

abbrev Ends : Drained → Type 0
Ends no_fuel = ⊥
Ends _ = Unit

behind-Ends : (es : List Event) (d : Drained) → Ends d → Ends (behind es d)
behind-Ends es (drained fs p) h = tt
behind-Ends es (killed fs) h = tt
behind-Ends es no_fuel h = h

drain_next-Ends :
    (n : ℕ) (again : Parser → Drained) (r : Popped)
    → Shrinks n r
    → ((q : Parser) → length q.buffer < n → Ends (again q))
    → Ends (drain_next again r)
unfolding drain_next
drain_next-Ends n again crash s ends = tt
drain_next-Ends n again (ok (err_none, none, q)) s ends = tt
drain_next-Ends n again (ok (err_none, some line, q)) s ends =
    behind-Ends (executed line ∷ []) (again q) (ends q s)
drain_next-Ends n again (ok (error, none, q)) s ends = tt
drain_next-Ends n again (ok (error, some line, q)) s ends =
    behind-Ends (refused error ∷ []) (again q) (ends q s)

drain-Ends : (f : ℕ) (p : Parser) → length p.buffer < f → Ends (drain f p)
unfolding drain
drain-Ends zero p h = absurd (omega arith)
drain-Ends (suc f) p h =
    drain_next-Ends (length p.buffer) (drain f) (parser_pop_next p) (pop-Shrinks p)
      (λ q lt. drain-Ends f q (omega arith))

-- The loop over the parser ends, whatever bytes it was fed.
pub drain_all_terminates : (p : Parser) → drain_all p ≢ no_fuel
drain_all_terminates p e = rw e at (drain-Ends (suc (length p.buffer)) p (omega arith))

behind-append : (es fs : List Event) (d : Drained) → behind (es ++ fs) d ≡ behind es (behind fs d)
behind-append es fs (drained gs p) = rw append_assoc
behind-append es fs (killed gs) = rw append_assoc
behind-append es fs no_fuel = refl

behind-nil : (d : Drained) → behind [] d ≡ d
behind-nil (drained es p) = refl
behind-nil (killed es) = refl
behind-nil no_fuel = refl

pub behind-eq-drained :
    (e : Event) (d : Drained) {es : List Event} {p : Parser}
    → behind (e ∷ []) d ≡ drained es p
    → (fs : List Event) × (d ≡ drained fs p) × (e ∷ fs ≡ es)
behind-eq-drained e (drained fs q) h = (fs, cc, cc)
behind-eq-drained e (killed fs) h = cc
behind-eq-drained e no_fuel h = cc

module _ (ys : Bytes) (capacity : ℕ) where
  abbrev fed : Parser → Parser
  fed p = more p ys capacity

  -- What a run over fewer bytes says of a run with `ys` behind them.
  abbrev Resumes : ℕ → Parser → List Event → Parser → Type 0
  Resumes f p es p' =
      drain f p ≡ drained es p'
      → (g h : ℕ) → length (p.buffer ++ ys) < g
      → length (p'.buffer ++ ys) < h
      → drain g (fed p) ≡ behind es (drain h (fed p'))

  -- After one event.
  resume-event :
      (e : Event) (f : ℕ) (p q : Parser) {es : List Event} {p' : Parser}
      → ((fs : List Event) → Resumes f q fs p')
      → behind (e ∷ []) (drain f q) ≡ drained es p'
      → length q.buffer < length p.buffer
      → (g h : ℕ) → length (p.buffer ++ ys) < suc g
      → length (p'.buffer ++ ys) < h
      → behind (e ∷ []) (drain g (fed q)) ≡ behind es (drain h (fed p'))
  resume-event e f p q {es} {p'} ih eq lt g h hg hh =
      let (fs, run, cons) = behind-eq-drained e (drain f q) eq in
      ap (behind (e ∷ []))
        (ih fs run g h (omega (arith, length-append p.buffer ys, length-append q.buffer ys)) hh)
      ∙ sym (behind-append (e ∷ []) fs (drain h (fed p')))
      ∙ ap (λ gs. behind gs (drain h (fed p'))) cons

  resume-next :
      (f : ℕ) (p : Parser) (r : Popped) {es : List Event} {p' : Parser}
      → parser_pop_next p ≡ r
      → Answers p r
      → ((q : Parser) (fs : List Event) → Resumes f q fs p')
      → drain_next (drain f) r ≡ drained es p'
      → (g h : ℕ) → length (p.buffer ++ ys) < suc g
      → length (p'.buffer ++ ys) < h
      → drain (suc g) (fed p) ≡ behind es (drain h (fed p'))
  unfolding drain drain_next
  resume-next f p crash e a ih eq g h hg hh = cc
  resume-next f p (ok (err_none, none, q)) {es} {p'} e a ih eq g h hg hh =
      let unchanged : q ≡ p = elim a [ inl s ↦ s.1 | inr s ↦ absurd (s.0 refl) ] in
      let rest : p ≡ p' = sym unchanged ∙ cc in
      let empty : [] ≡ es = cc in
      drain_fuel (suc g) h (fed p) hg
        (omega (arith, hh, ap (λ (q : Parser). length (q.buffer ++ ys)) rest))
      ∙ ap (λ (q : Parser). drain h (fed q)) rest
      ∙ sym (behind-nil (drain h (fed p')))
      ∙ ap (λ gs. behind gs (drain h (fed p'))) empty
  resume-next f p (ok (err_none, some line, q)) e a ih eq g h hg hh =
      rw (parser_pop_next-more p ys capacity (rw e tt), e)
        (resume-event (executed line) f p q (ih q) eq (Consumes-lt a.2) g h hg hh)
  resume-next f p (ok (error, none, q)) e a ih eq g h hg hh = absurd (cc eq)
  resume-next f p (ok (error, some line, q)) e a ih eq g h hg hh =
      rw (parser_pop_next-more p ys capacity (rw e tt), e)
        (resume-event (refused error) f p q (ih q) eq (Consumes-lt a.2) g h hg hh)

  drain-Resumes : (f : ℕ) (p : Parser) (es : List Event) (p' : Parser) → Resumes f p es p'
  unfolding drain
  drain-Resumes zero p es p' eq g h hg hh = cc
  drain-Resumes (suc f) p es p' eq zero h hg hh = absurd (omega arith)
  drain-Resumes (suc f) p es p' eq (suc g) h hg hh =
      resume-next f p (parser_pop_next p) refl (parser_pop_next-Answers p)
        (λ q fs. drain-Resumes f q fs p') eq g h hg hh

abbrev pub drained_reallocated : ℕ → Drained → Drained
drained_reallocated capacity (drained es p) = drained es (reallocated capacity p)
drained_reallocated capacity (killed es) = killed es
drained_reallocated capacity no_fuel = no_fuel

behind-reallocated :
    (capacity : ℕ) (es : List Event) (d : Drained)
    → behind es (drained_reallocated capacity d) ≡ drained_reallocated capacity (behind es d)
behind-reallocated capacity es (drained fs p) = refl
behind-reallocated capacity es (killed fs) = refl
behind-reallocated capacity es no_fuel = refl

drain_next-reallocated :
    (capacity : ℕ) (again : Parser → Drained) (r : Popped)
    → ((q : Parser) → again (reallocated capacity q) ≡ drained_reallocated capacity (again q))
    → drain_next again (pop_reallocated capacity r)
      ≡ drained_reallocated capacity (drain_next again r)
unfolding drain_next
drain_next-reallocated capacity again crash ih = refl
drain_next-reallocated capacity again (ok (err_none, none, q)) ih = refl
drain_next-reallocated capacity again (ok (err_none, some line, q)) ih =
    ap (behind (executed line ∷ [])) (ih q)
    ∙ behind-reallocated capacity (executed line ∷ []) (again q)
drain_next-reallocated capacity again (ok (error, none, q)) ih = refl
drain_next-reallocated capacity again (ok (error, some line, q)) ih =
    ap (behind (refused error ∷ [])) (ih q)
    ∙ behind-reallocated capacity (refused error ∷ []) (again q)

drain-reallocated :
    (capacity f : ℕ) (p : Parser)
    → drain f (reallocated capacity p) ≡ drained_reallocated capacity (drain f p)
unfolding drain
drain-reallocated capacity zero p = refl
drain-reallocated capacity (suc f) p =
    rw (parser_pop_next-reallocated p capacity)
      (drain_next-reallocated capacity (drain f) (parser_pop_next p) (drain-reallocated capacity f))

-- Feed `xs`, run the loop to where it waits for more, feed `ys` and run it again: that is the same
-- lines in the same order, and the same bytes left or the same error and death of the shell, as to
-- feed all at once and run the loop once. Only the capacities of the allocations may differ.
pub drain_in_chunks :
    (p : Parser) (xs ys : Bytes) (p₁ p₂ p₃ q : Parser) (es : List Event)
    → parser_feed p xs ≡ ok p₁
    → drain_all p₁ ≡ drained es p₂
    → parser_feed p₂ ys ≡ ok p₃
    → parser_feed p (xs ++ ys) ≡ ok q
    → drain_all q ≡ drained_reallocated q.capacity (behind es (drain_all p₃))
drain_in_chunks p xs ys p₁ p₂ p₃ q es fed₁ run fed₂ all =
    ap drain_all (sym same)
    ∙ drain-Resumes ys q.capacity (suc (length p₁.buffer)) p₁ es p₂ run
        (suc (length (p₁.buffer ++ ys))) (suc (length (p₂.buffer ++ ys))) (omega arith)
        (omega arith)
    ∙ ap (λ r. behind es (drain_all r)) (sym rest)
    ∙ ap (behind es) (drain-reallocated q.capacity (suc (length p₃.buffer)) p₃)
    ∙ behind-reallocated q.capacity es (drain_all p₃)
  where
    joined : p₁.buffer ++ ys ≡ q.buffer
    joined =
        ap (λ b. b ++ ys) (parser_feed-eq-ok p xs fed₁)
        ∙ append_assoc p.buffer xs ys
        ∙ sym (parser_feed-eq-ok p (xs ++ ys) all)

    same : more p₁ ys q.capacity ≡ q
    same = λ i. record { buffer = joined i; capacity = q.capacity }

    rest : reallocated q.capacity p₃ ≡ more p₂ ys q.capacity
    rest = λ i. record { buffer = parser_feed-eq-ok p₂ ys fed₂ i; capacity = q.capacity }
