-- ===== src/Parser/Pop/Laws.antt =====
-- hw2/parser.c, `parser_pop_next` as its callers see it.
use system_programming_hw.Base.{
  ℕ, zero, suc, ◌≤◌, ◌<◌, Option, none, some, ◌≡◌, ◌≢◌, refl, ap, ◌∙◌, arith, [], ◌∷◌, ◌++◌, Bytes,
  inl, inr, ◌⊎◌, length, length-append, drop, drop-append, Checked, ok, crash,
}
use system_programming_hw.Parser.Line.{CommandLine, ParserError, err_none, empty_line}
use system_programming_hw.Parser.Buffer.{Parser, parser_consume}
use system_programming_hw.Parser.Pop.Sound.{IsComplete, IsSound, scan-IsSound}
use system_programming_hw.Parser.Pop.Stable.{Final, scan-append}
use system_programming_hw.Parser.Pop.{
  Outcome, no_line, no_fuel, failed, complete, aborted, scan, empty_token, popped, parser_pop_next,
}

abbrev pub Popped : Type 0
Popped = Checked (ParserError × Option CommandLine × Parser)

-- The parser after some of its bytes, and at least one, are consumed.
abbrev pub Consumes : Parser → Parser → Type 0
Consumes p p' =
    (n : ℕ) × (0 < n) × (n ≤ length p.buffer) × (p' ≡ record p { buffer = drop n p.buffer })

-- What a call without an abort may return: nothing yet, an error, or a line.
abbrev pub Answer : Parser → ParserError → Option CommandLine → Parser → Type 0
Answer p error none p' = (error ≡ err_none) × (p' ≡ p) ⊎ (error ≢ err_none) × Consumes p p'
Answer p error (some line) p' = (error ≡ err_none) × IsComplete line × Consumes p p'

abbrev pub Answers : Parser → Popped → Type 0
Answers p crash = Unit
Answers p (ok (error, line, p')) = Answer p error line p'

drop-length : (xs : Bytes) (n : ℕ) → n ≡ length xs → drop n xs ≡ []
drop-length [] zero h = refl
drop-length [] (suc n) h = refl
drop-length (x ∷ xs) zero h = absurd (omega arith)
drop-length (x ∷ xs) (suc n) h = drop-length xs n (omega arith)

-- `parser_consume` of bytes that are there.
pub parser_consume_lem :
    (p : Parser) (n : ℕ)
    → n ≤ length p.buffer
    → parser_consume p n ≡ ok (record p { buffer = drop n p.buffer })
unfolding parser_consume
parser_consume_lem p n h = ground (arith, drop-length p.buffer n)

abbrev started : Parser → Outcome
started p = scan (suc (length p.buffer)) p.buffer empty_line 0 empty_token

started-IsSound : (p : Parser) → IsSound (length p.buffer) (started p)
started-IsSound p =
    scan-IsSound p.buffer (suc (length p.buffer)) empty_line 0 empty_token
      (record { alternating = refl; words = tt }) refl (omega arith) (omega arith)

popped-Answers : (p : Parser) (o : Outcome) → IsSound (length p.buffer) o → Answers p (popped p o)
unfolding popped
popped-Answers p no_line s = inl (refl, refl)
popped-Answers p (failed error n) s =
    rw (parser_consume_lem p n s.2) (inr (s.0, (n, s.1, s.2, refl)))
popped-Answers p (complete line n) s =
    rw (parser_consume_lem p n s.2) (refl, s.0, (n, s.1, s.2, refl))
popped-Answers p aborted s = tt
popped-Answers p no_fuel s = tt

-- The scan that `parser_pop_next` starts never runs out of its fuel.
pub scan_terminates :
    (p : Parser) → scan (suc (length p.buffer)) p.buffer empty_line 0 empty_token ≢ no_fuel
scan_terminates p e = rw e at (started-IsSound p)

-- Without an abort the parser returns one of three answers. There is no line yet, with no error:
-- then the parser is unchanged. There is an error, and no line: then a nonempty part of the buffer
-- is consumed. There is a line and no error: then commands and operators alternate in it from the
-- first command to the last one, no word of it is empty, it names a file exactly if its output is
-- redirected, and a nonempty part of the buffer is consumed.
pub parser_pop_next-Answers : (p : Parser) → Answers p (parser_pop_next p)
unfolding parser_pop_next
parser_pop_next-Answers p = popped-Answers p (started p) (started-IsSound p)

-- The parser with more bytes behind its own, and another allocation.
abbrev pub more : Parser → Bytes → ℕ → Parser
more p ys capacity = record { buffer = p.buffer ++ ys; capacity = capacity }

abbrev pub extended : Bytes → ℕ → Popped → Popped
extended ys capacity (ok (error, line, p')) = ok (error, line, more p' ys capacity)
extended ys capacity crash = crash

-- The call has made up its mind: it has aborted, or returned an error or a line.
abbrev pub IsSettled : Popped → Type 0
IsSettled (ok (err_none, none, p')) = ⊥
IsSettled (ok (err_none, some line, p')) = Unit
IsSettled (ok (error, line, p')) = Unit
IsSettled crash = Unit

popped-Final :
    (p : Parser) (o : Outcome) → IsSound (length p.buffer) o → IsSettled (popped p o) → Final o
unfolding popped
popped-Final p no_line s h = h
popped-Final p no_fuel s h = s
popped-Final p _ s h = tt

popped-more :
    (p : Parser) (ys : Bytes) (capacity : ℕ) (o : Outcome)
    → IsSound (length p.buffer) o
    → Final o
    → popped (more p ys capacity) o ≡ extended ys capacity (popped p o)
unfolding popped
popped-more p ys capacity (failed error n) s h = rw (
  parser_consume_lem p n s.2,
  parser_consume_lem (more p ys capacity) n (omega (arith, length-append p.buffer ys)),
  drop-append n p.buffer ys s.2,
)
popped-more p ys capacity (complete line n) s h = rw (
  parser_consume_lem p n s.2,
  parser_consume_lem (more p ys capacity) n (omega (arith, length-append p.buffer ys)),
  drop-append n p.buffer ys s.2,
)
popped-more p ys capacity aborted s h = refl
popped-more p ys capacity no_line s h = absurd h
popped-more p ys capacity no_fuel s h = absurd h

-- An error, a line or an abort stays the same whatever is fed behind the bytes that are there, and
-- what was fed stands behind the bytes that are left.
pub parser_pop_next-more :
    (p : Parser) (ys : Bytes) (capacity : ℕ)
    → IsSettled (parser_pop_next p)
    → parser_pop_next (more p ys capacity) ≡ extended ys capacity (parser_pop_next p)
unfolding parser_pop_next
parser_pop_next-more p ys capacity h =
    let s = started-IsSound p in
    let final : Final (started p) = popped-Final p (started p) s h in
    ap (popped (more p ys capacity)) (
      scan-append p.buffer ys (suc (length p.buffer)) (suc (length (p.buffer ++ ys))) empty_line 0
        empty_token (omega (arith, length-append p.buffer ys)) (omega arith) final)
    ∙ popped-more p ys capacity (started p) s final

-- The same bytes in another allocation.
abbrev pub reallocated : ℕ → Parser → Parser
reallocated capacity p = record p { capacity = capacity }

abbrev pub pop_reallocated : ℕ → Popped → Popped
pop_reallocated capacity (ok (error, line, p')) = ok (error, line, reallocated capacity p')
pop_reallocated capacity crash = crash

popped-reallocated :
    (p : Parser) (capacity : ℕ) (o : Outcome)
    → popped (reallocated capacity p) o ≡ pop_reallocated capacity (popped p o)
unfolding popped parser_consume
popped-reallocated p capacity (failed error n) = ground arith
popped-reallocated p capacity (complete line n) = ground arith
popped-reallocated p capacity _ = refl

-- The capacity has no part in the answer.
pub parser_pop_next-reallocated :
    (p : Parser) (capacity : ℕ)
    → parser_pop_next (reallocated capacity p) ≡ pop_reallocated capacity (parser_pop_next p)
unfolding parser_pop_next
parser_pop_next-reallocated p capacity = popped-reallocated p capacity (started p)
