-- ===== src/Parser/Pop/Sound.antt =====
-- hw2/parser.c, `parser_pop_next`: what it consumes, what it returns, and its fuel.
use system_programming_hw.Base.{
  ℕ, zero, suc, ◌+◌, ◌-◌, ◌≤◌, ◌<◌, Bool, true, false, Option, none, some, ◌≡◌, ◌≢◌, refl, sym, ap,
  ◌∙◌, arith, Bytes, inl, inr, Bool-cases, length, length-drop, drop, ltb, Checked, ok, crash,
}
use system_programming_hw.Parser.Token.{TokenType, Token, token_strdup}
use system_programming_hw.Parser.Token.TokenType.{str, new_line, out_new, out_append, background}
use system_programming_hw.Parser.Lexer.{parse_token}
use system_programming_hw.Parser.Lexer.Progress.{Fits, parse_token-Fits}
use system_programming_hw.Parser.Line.{
  Expr, command, OutputType, stdout, CommandLine, ParserError, err_none, file_new, file_append,
  too_late_arguments, outout_redirect_bad_arg, tail,
}
use system_programming_hw.Parser.Line.Shape.{IsShaped, EndsWithCommand}
use system_programming_hw.Parser.Pop.StepSound.{StepSound, step-StepSound}
use system_programming_hw.Parser.Pop.{
  Outcome, no_line, no_fuel, failed, complete, aborted, advance, after_token, skip_next, skip_line,
  close_new_line, close_background, with_name, close_file, close_line, Step, go_on, close, refuse,
  scan_next, step, scan, complete_line,
}

abbrev pub to_file : OutputType → Bool
to_file stdout = false
to_file _ = true

abbrev pub is_some : Option Bytes → Bool
is_some none = false
is_some (some s) = true

-- A line that may be executed.
pub record IsComplete (line : CommandLine) : Type 0 where
  pub shaped : IsShaped line.exprs
  pub ends : EndsWithCommand (tail line.exprs)
  pub redirected : to_file line.out_type ≡ is_some line.out_file

-- Over a buffer of `size` bytes: an end that consumes, consumes some of them, an error is an error,
-- a line is complete, and the fuel did not run out.
abbrev pub IsSound : ℕ → Outcome → Type 0
IsSound size no_line = Unit
IsSound size (failed error n) = (error ≢ err_none) × (0 < n) × (n ≤ size)
IsSound size (complete line n) = IsComplete line × (0 < n) × (n ≤ size)
IsSound size aborted = Unit
IsSound size no_fuel = ⊥

-- What follows a token is sound from every later position.
abbrev Later : ℕ → ℕ → (ℕ → Token → Outcome) → Type 0
Later size pos rest = (pos' : ℕ) (t : Token) → pos < pos' → pos' ≤ size → IsSound size (rest pos' t)

advance-IsSound :
    (size pos : ℕ) (rest : ℕ → Token → Outcome) (r : Checked (ℕ × Token))
    → Fits (size - pos) r
    → pos ≤ size
    → Later size pos rest
    → IsSound size (advance pos rest r)
unfolding advance
advance-IsSound size pos rest crash fits le later = tt
advance-IsSound size pos rest (ok (zero, t)) fits le later = tt
advance-IsSound size pos rest (ok (suc u, t)) fits le later =
    later (pos + suc u) t (omega arith) (omega arith)

module _ (buf : Bytes) where
  after_token-IsSound :
      (pos : ℕ) (t : Token) (rest : ℕ → Token → Outcome)
      → pos ≤ length buf
      → Later (length buf) pos rest
      → IsSound (length buf) (after_token buf pos t rest)
  unfolding after_token
  after_token-IsSound pos t rest le later =
      advance-IsSound (length buf) pos rest (parse_token t (drop pos buf))
        (rw (length-drop pos buf) at (parse_token-Fits t (drop pos buf))) le later

  skip_next-IsSound :
      (again : ℕ → Token → Outcome) (error : ParserError) (pos : ℕ) (t : Token) (type : TokenType)
      → error ≢ err_none
      → 0 < pos
      → pos ≤ length buf
      → IsSound (length buf) (again pos t)
      → IsSound (length buf) (skip_next again error pos t type)
  unfolding skip_next
  skip_next-IsSound again error pos t new_line ne lt le s = (ne, lt, le)
  skip_next-IsSound again error pos t _ ne lt le s = s

  skip_line-IsSound :
      (fuel : ℕ) (error : ParserError) (pos : ℕ) (t : Token)
      → error ≢ err_none
      → length buf < pos + fuel
      → pos ≤ length buf
      → IsSound (length buf) (skip_line fuel error buf pos t)
  unfolding skip_line
  skip_line-IsSound zero error pos t ne enough le = absurd (omega arith)
  skip_line-IsSound (suc fuel) error pos t ne enough le = elim (Bool-cases (ltb pos (length buf))) [
    | inl e ↦
        rw (e, skip_line)
          (after_token-IsSound pos t _ le (λ pos' t' lt le'.
            skip_next-IsSound (skip_line fuel error buf) error pos' t' t'.type ne (omega arith) le'
              (skip_line-IsSound fuel error pos' t' ne (omega arith) le')))
    | inr e ↦ rw (e, skip_line) tt
  ]

  complete_line-IsSound :
      (line : CommandLine) (pos : ℕ) (o : Option Expr)
      → tail line.exprs ≡ o
      → IsShaped line.exprs
      → to_file line.out_type ≡ is_some line.out_file
      → 0 < pos
      → pos ≤ length buf
      → IsSound (length buf) (complete_line line pos o)
  unfolding complete_line
  complete_line-IsSound line pos (some (command c)) e s r lt le =
      (record { shaped = s; ends = rw e tt; redirected = r }, lt, le)
  complete_line-IsSound line pos none e s r lt le = tt
  complete_line-IsSound line pos (some _) e s r lt le = ((λ x. cc), lt, le)

  module _ (fuel : ℕ) where
    -- The fuel left is more than the bytes left.
    abbrev Enough : ℕ → Type 0
    Enough pos = (length buf < pos + fuel) × (0 < pos) × (pos ≤ length buf)

    close_new_line-IsSound :
        (line : CommandLine) (pos : ℕ) (t : Token) (type : TokenType)
        → IsShaped line.exprs
        → to_file line.out_type ≡ is_some line.out_file
        → Enough pos
        → IsSound (length buf) (close_new_line fuel buf line pos t type)
    unfolding close_new_line
    close_new_line-IsSound line pos t new_line s r h =
        complete_line-IsSound line pos (tail line.exprs) refl s r h.1 h.2
    close_new_line-IsSound line pos t _ s r h =
        skip_line-IsSound fuel too_late_arguments pos t (λ x. cc) h.0 h.2

    close_background-IsSound :
        (line : CommandLine) (pos : ℕ) (t : Token) (type : TokenType)
        → IsShaped line.exprs
        → to_file line.out_type ≡ is_some line.out_file
        → Enough pos
        → IsSound (length buf) (close_background fuel buf line pos t type)
    unfolding close_background
    close_background-IsSound line pos t background s r h =
        after_token-IsSound pos t _ h.2 (λ pos' t' lt le.
          close_new_line-IsSound (record line { is_background = true }) pos' t' t'.type s r
            (omega arith))
    close_background-IsSound line pos t type s r h = close_new_line-IsSound line pos t type s r h

    with_name-IsSound :
        (line : CommandLine) (pos : ℕ) (t : Token) (name : Checked Bytes)
        → IsShaped line.exprs
        → to_file line.out_type ≡ true
        → Enough pos
        → IsSound (length buf) (with_name fuel buf line pos t name)
    unfolding with_name
    with_name-IsSound line pos t crash s r h = tt
    with_name-IsSound line pos t (ok name) s r h = after_token-IsSound pos t _ h.2 (λ pos' t' lt le.
        close_background-IsSound (record line { out_file = some name }) pos' t' t'.type s r
          (omega arith))

    close_file-IsSound :
        (line : CommandLine) (pos : ℕ) (t : Token) (type : TokenType)
        → IsShaped line.exprs
        → to_file line.out_type ≡ true
        → Enough pos
        → IsSound (length buf) (close_file fuel buf line pos t type)
    unfolding close_file
    close_file-IsSound line pos t str s r h = with_name-IsSound line pos t (token_strdup t) s r h
    close_file-IsSound line pos t _ s r h =
        skip_line-IsSound fuel outout_redirect_bad_arg pos t (λ x. cc) h.0 h.2

    close_line-IsSound :
        (line : CommandLine) (pos : ℕ) (t : Token) (type : TokenType)
        → IsShaped line.exprs
        → to_file line.out_type ≡ is_some line.out_file
        → Enough pos
        → IsSound (length buf) (close_line fuel buf line pos t type)
    unfolding close_line
    close_line-IsSound line pos t out_new s r h = after_token-IsSound pos t _ h.2 (λ pos' t' lt le.
        close_file-IsSound (record line { out_type = file_new }) pos' t' t'.type s refl
          (omega arith))
    close_line-IsSound line pos t out_append s r h =
        after_token-IsSound pos t _ h.2 (λ pos' t' lt le.
          close_file-IsSound (record line { out_type = file_append }) pos' t' t'.type s refl
            (omega arith))
    close_line-IsSound line pos t type s r h = close_background-IsSound line pos t type s r h

    scan_next-IsSound :
        (again : CommandLine → ℕ → Token → Outcome) (line : CommandLine) (pos : ℕ) (t : Token)
        (next : Checked Step)
        → StepSound line next
        → IsShaped line.exprs
        → to_file line.out_type ≡ is_some line.out_file
        → Enough pos
        → ((line' : CommandLine)
            → IsShaped line'.exprs
            → to_file line'.out_type ≡ is_some line'.out_file
            → IsSound (length buf) (again line' pos t))
        → IsSound (length buf) (scan_next fuel again buf line pos t next)
    unfolding scan_next
    scan_next-IsSound again line pos t crash n s r h later = tt
    scan_next-IsSound again line pos t (ok (go_on line')) n s r h later =
        later line' n.0 (ap to_file n.1 ∙ r ∙ sym (ap is_some n.2))
    scan_next-IsSound again line pos t (ok close) n s r h later =
        close_line-IsSound line pos t t.type s r h
    scan_next-IsSound again line pos t (ok (refuse error)) n s r h later =
        skip_line-IsSound fuel error pos t n h.0 h.2

  -- With more fuel than bytes the main loop ends: it consumes a part of the buffer that is not
  -- empty, or nothing; and a line that it returns is complete.
  pub scan-IsSound :
      (fuel : ℕ) (line : CommandLine) (pos : ℕ) (t : Token)
      → IsShaped line.exprs
      → to_file line.out_type ≡ is_some line.out_file
      → length buf < pos + fuel
      → pos ≤ length buf
      → IsSound (length buf) (scan fuel buf line pos t)
  unfolding scan
  scan-IsSound zero line pos t s r enough le = absurd (omega arith)
  scan-IsSound (suc fuel) line pos t s r enough le = elim (Bool-cases (ltb pos (length buf))) [
    | inl e ↦
        rw (e, scan)
          (after_token-IsSound pos t _ le (λ pos' t' lt le'.
            scan_next-IsSound fuel (scan fuel buf) line pos' t' (step line t' t'.type)
              (step-StepSound line t' t'.type s) s r (omega arith)
              (λ line' s' r'. scan-IsSound fuel line' pos' t' s' r' (omega arith) le')))
    | inr e ↦ rw (e, scan) tt
  ]
