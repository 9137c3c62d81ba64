-- ===== src/Parser/Pop/Stable.antt =====
-- hw2/parser.c, `parser_pop_next` with more input behind a line, and with more fuel.
use system_programming_hw.Base.{
  ℕ, zero, suc, ◌+◌, ◌≤◌, ◌<◌, true, some, ◌≡◌, refl, arith, ◌++◌, Bytes, inl, inr, Bool-cases,
  length, length-append, length-drop, drop, drop-append, ltb, Checked, ok, crash,
}
use system_programming_hw.Parser.Token.{TokenType, Token, token_strdup}
use system_programming_hw.Parser.Token.TokenType.{str, new_line, out_new, out_append, background}
use system_programming_hw.Parser.Lexer.{parse_token}
use system_programming_hw.Parser.Lexer.Stable.{Decided, parse_token-append}
use system_programming_hw.Parser.Lexer.Progress.{Fits, parse_token-Fits}
use system_programming_hw.Parser.Line.{
  CommandLine, ParserError, file_new, file_append, too_late_arguments, outout_redirect_bad_arg,
}
use system_programming_hw.Parser.Pop.{
  Outcome, no_line, no_fuel, advance, after_token, skip_next, skip_line, close_new_line,
  close_background, with_name, close_file, close_line, Step, go_on, close, refuse, scan_next, step,
  scan,
}

-- The outcome no longer depends on what is fed next.
abbrev pub Final : Outcome → Type 0
Final no_line = ⊥
Final no_fuel = ⊥
Final _ = Unit

module _ (buf ys : Bytes) where
  -- The rest of the function, from two amounts of fuel, over the longer buffer and the shorter one.
  abbrev Agree : ℕ → (longer shorter : ℕ → Token → Outcome) → Type 0
  Agree pos longer shorter =
      (pos' : ℕ) (t' : Token)
      → pos < pos'
      → pos' ≤ length buf
      → Final (shorter pos' t')
      → longer pos' t' ≡ shorter pos' t'

  advance-append :
      (r : Checked (ℕ × Token)) (pos : ℕ) (longer shorter : ℕ → Token → Outcome)
      → Fits (length (drop pos buf)) r
      → pos ≤ length buf
      → Agree pos longer shorter
      → Final (advance pos shorter r)
      → advance pos longer r ≡ advance pos shorter r
  unfolding advance
  advance-append crash pos longer shorter fits le agree h = refl
  advance-append (ok (zero, t')) pos longer shorter fits le agree h = absurd h
  advance-append (ok (suc u, t')) pos longer shorter fits le agree h =
      agree (pos + suc u) t' (omega arith) (omega (arith, length-drop pos buf)) h

  Final-Decided :
      (r : Checked (ℕ × Token)) (pos : ℕ) (rest : ℕ → Token → Outcome)
      → Final (advance pos rest r)
      → Decided r
  unfolding advance
  Final-Decided crash pos rest h = tt
  Final-Decided (ok (zero, t')) pos rest h = h
  Final-Decided (ok (suc u, t')) pos rest h = tt

  after_token-append :
      (pos : ℕ) (t : Token) (longer shorter : ℕ → Token → Outcome)
      → pos ≤ length buf
      → Agree pos longer shorter
      → Final (after_token buf pos t shorter)
      → after_token (buf ++ ys) pos t longer ≡ after_token buf pos t shorter
  unfolding after_token
  after_token-append pos t longer shorter le agree h =
      let r = parse_token t (drop pos buf) in
      rw
        (
          drop-append pos buf ys le,
          parse_token-append t (drop pos buf) ys (Final-Decided r pos shorter h),
        )
        (advance-append r pos longer shorter (parse_token-Fits t (drop pos buf)) le agree h)

  ltb-append : (pos : ℕ) → ltb pos (length buf) ≡ true → ltb pos (length (buf ++ ys)) ≡ true
  ltb-append pos e = ground (arith, length-append buf ys)

  skip_next-append :
      (longer shorter : ℕ → Token → Outcome) (error : ParserError) (pos : ℕ) (t : Token)
      (type : TokenType)
      → (Final (shorter pos t) → longer pos t ≡ shorter pos t)
      → Final (skip_next shorter error pos t type)
      → skip_next longer error pos t type ≡ skip_next shorter error pos t type
  unfolding skip_next
  skip_next-append longer shorter error pos t new_line agree h = refl
  skip_next-append longer shorter error pos t _ agree h = agree h

  skip_line-append :
      (f g : ℕ) (error : ParserError) (pos : ℕ) (t : Token)
      → f ≤ g
      → pos ≤ length buf
      → Final (skip_line f error buf pos t)
      → skip_line g error (buf ++ ys) pos t ≡ skip_line f error buf pos t
  unfolding skip_line
  skip_line-append zero g error pos t fg le h = absurd h
  skip_line-append (suc f) zero error pos t fg le h = absurd (omega arith)
  skip_line-append (suc f) (suc g) error pos t fg le h = elim (Bool-cases (ltb pos (length buf))) [
    | inl e ↦
        rw (e, ltb-append pos e, skip_line)
          (after_token-append pos t
            (λ pos' t'. skip_next (skip_line g error (buf ++ ys)) error pos' t' t'.type)
            (λ pos' t'. skip_next (skip_line f error buf) error pos' t' t'.type) le
            (λ pos' t' lt le' h'.
              skip_next-append (skip_line g error (buf ++ ys)) (skip_line f error buf) error pos' t'
                t'.type (skip_line-append f g error pos' t' (omega arith) le') h')
            (rw (e, skip_line) at h))
    | inr e ↦ absurd (rw (e, skip_line, Final) at h)
  ]

  module _ (f g : ℕ) (fg : f ≤ g) where
    close_new_line-append :
        (line : CommandLine) (pos : ℕ) (t : Token) (type : TokenType)
        → pos ≤ length buf
        → Final (close_new_line f buf line pos t type)
        → close_new_line g (buf ++ ys) line pos t type ≡ close_new_line f buf line pos t type
    unfolding close_new_line
    close_new_line-append line pos t new_line le h = refl
    close_new_line-append line pos t _ le h = skip_line-append f g too_late_arguments pos t fg le h

    close_background-append :
        (line : CommandLine) (pos : ℕ) (t : Token) (type : TokenType)
        → pos ≤ length buf
        → Final (close_background f buf line pos t type)
        → close_background g (buf ++ ys) line pos t type ≡ close_background f buf line pos t type
    unfolding close_background
    close_background-append line pos t background le h =
        after_token-append pos t _
          (λ pos' t'. close_new_line f buf (record line { is_background = true }) pos' t' t'.type)
          le
          (λ pos' t' lt le' h'.
            close_new_line-append (record line { is_background = true }) pos' t' t'.type le' h')
          h
    close_background-append line pos t new_line le h =
        close_new_line-append line pos t new_line le h
    close_background-append line pos t type le h = close_new_line-append line pos t type le h

    with_name-append :
        (line : CommandLine) (pos : ℕ) (t : Token) (name : Checked Bytes)
        → pos ≤ length buf
        → Final (with_name f buf line pos t name)
        → with_name g (buf ++ ys) line pos t name ≡ with_name f buf line pos t name
    unfolding with_name
    with_name-append line pos t crash le h = refl
    with_name-append line pos t (ok name) le h =
        after_token-append pos t _
          (λ pos' t'. close_background f buf (record line { out_file = some name }) pos' t' t'.type)
          le
          (λ pos' t' lt le' h'.
            close_background-append (record line { out_file = some name }) pos' t' t'.type le' h')
          h

    close_file-append :
        (line : CommandLine) (pos : ℕ) (t : Token) (type : TokenType)
        → pos ≤ length buf
        → Final (close_file f buf line pos t type)
        → close_file g (buf ++ ys) line pos t type ≡ close_file f buf line pos t type
    unfolding close_file
    close_file-append line pos t str le h = with_name-append line pos t (token_strdup t) le h
    close_file-append line pos t _ le h = skip_line-append f g outout_redirect_bad_arg pos t fg le h

    close_line-append :
        (line : CommandLine) (pos : ℕ) (t : Token) (type : TokenType)
        → pos ≤ length buf
        → Final (close_line f buf line pos t type)
        → close_line g (buf ++ ys) line pos t type ≡ close_line f buf line pos t type
    unfolding close_line
    close_line-append line pos t out_new le h =
        after_token-append pos t _
          (λ pos' t'. close_file f buf (record line { out_type = file_new }) pos' t' t'.type) le
          (λ pos' t' lt le' h'.
            close_file-append (record line { out_type = file_new }) pos' t' t'.type le' h')
          h
    close_line-append line pos t out_append le h =
        after_token-append pos t _
          (λ pos' t'. close_file f buf (record line { out_type = file_append }) pos' t' t'.type) le
          (λ pos' t' lt le' h'.
            close_file-append (record line { out_type = file_append }) pos' t' t'.type le' h')
          h
    close_line-append line pos t type le h = close_background-append line pos t type le h

    scan_next-append :
        (longer shorter : CommandLine → ℕ → Token → Outcome) (line : CommandLine) (pos : ℕ)
        (t : Token) (s : Checked Step)
        → pos ≤ length buf
        → ((line' : CommandLine)
            → Final (shorter line' pos t)
            → longer line' pos t ≡ shorter line' pos t)
        → Final (scan_next f shorter buf line pos t s)
        → scan_next g longer (buf ++ ys) line pos t s ≡ scan_next f shorter buf line pos t s
    unfolding scan_next
    scan_next-append longer shorter line pos t crash le agree h = refl
    scan_next-append longer shorter line pos t (ok (go_on line')) le agree h = agree line' h
    scan_next-append longer shorter line pos t (ok close) le agree h =
        close_line-append line pos t t.type le h
    scan_next-append longer shorter line pos t (ok (refuse error)) le agree h =
        skip_line-append f g error pos t fg le h

  -- A final outcome stays, with more fuel and more bytes behind the buffer.
  pub scan-append :
      (f g : ℕ) (line : CommandLine) (pos : ℕ) (t : Token)
      → f ≤ g
      → pos ≤ length buf
      → Final (scan f buf line pos t)
      → scan g (buf ++ ys) line pos t ≡ scan f buf line pos t
  unfolding scan
  scan-append zero g line pos t fg le h = absurd h
  scan-append (suc f) zero line pos t fg le h = absurd (omega arith)
  scan-append (suc f) (suc g) line pos t fg le h = elim (Bool-cases (ltb pos (length buf))) [
    | inl e ↦
        rw (e, ltb-append pos e, scan)
          (after_token-append pos t _
            (λ pos' t'. scan_next f (scan f buf) buf line pos' t' (step line t' t'.type)) le
            (λ pos' t' lt le' h'.
              scan_next-append f g (omega arith) (scan g (buf ++ ys)) (scan f buf) line pos' t'
                (step line t' t'.type) le'
                (λ line' h''. scan-append f g line' pos' t' (omega arith) le' h'') h')
            (rw (e, scan) at h))
    | inr e ↦ absurd (rw (e, scan, Final) at h)
  ]
