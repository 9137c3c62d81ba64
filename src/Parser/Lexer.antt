-- ===== src/Parser/Lexer.antt =====
-- hw2/parser.c, `parse_token`: the lexer over the bytes from `pos` to `end`. Its result is the
-- number of bytes used, 0 when the token is not complete, with the token that it filled.
pub mod Progress
pub mod Quoted
pub mod Stable
use system_programming_hw.Base.{
  ℕ, ◌+◌, Bool, not, ◌&&◌, ◌||◌, Option, none, some, [], ◌∷◌, Bytes, length, look, ltb, leb, ◌==◌,
  if◌then◌else◌, Checked, ok, crash, ◌>>=◌,
}
use system_programming_hw.Parser.Token.{
  TokenType, none_type, str, new_line, pipe, and, or, out_new, out_append, background, Token, grow,
  token_append, token_reset,
}

-- `isspace` in the C locale: blank, \t \n \v \f \r
abbrev pub isspace : ℕ → Bool
isspace c = c == 32 || (leb 9 c && leb c 13)

-- What one pass of the loop decides.
pub data Act : Type 0 where
  finish : TokenType → ℕ → Act  -- set the type; `return pos - begin` this many bytes from here
  stop : Act  -- `return 0`
  next : ℕ → Token → Act  -- go on one byte further, in this quote
  next_two : ℕ → Token → Act  -- go on two bytes further
  comment : Act  -- the inner loop over a comment
  fail : Act  -- a failed assertion

abbrev appended : (Token → Act) → Checked Token → Act
appended go (ok t) = go t
appended go crash = fail

-- `append_and_next`, one byte or two bytes from `pos`
append_next : ℕ → ℕ → Token → Act
append_next quote c t = appended (next quote) (token_append t c)

append_two : ℕ → ℕ → Token → Act
append_two quote c t = appended (next_two quote) (token_append t c)

-- `case '\'': case '"':`
act_quote : ℕ → ℕ → Option ℕ → Token → Act
act_quote quote c ahead t =
    if quote == 0
    then elim ahead [ none ↦ stop | some _ ↦ next c t ]
    else if not (quote == c)
    then append_next quote c t
    else finish str 1

-- the byte after a backslash inside double quotes
escaped_in_quotes : ℕ → ℕ → Token → Act
escaped_in_quotes quote d t =
    if d == b'\\'
    then append_two quote d t
    else if d == b'\n'
    then next_two quote t
    else if d == b'"'
    then append_two quote d t
    else appended (λ t'. append_two quote d t') (token_append t b'\\')

-- the byte after a backslash outside quotes
escaped_plain : ℕ → ℕ → Token → Act
escaped_plain quote d t = if d == b'\n' then next_two quote t else append_two quote d t

-- `case '\\':`
act_backslash : ℕ → ℕ → Option ℕ → Token → Act
act_backslash quote c ahead t =
    if quote == b'\''
    then append_next quote c t
    else if quote == b'"'
    then elim ahead [ none ↦ stop | some d ↦ escaped_in_quotes quote d t ]
    else if quote == 0
    then elim ahead [ none ↦ stop | some d ↦ escaped_plain quote d t ]
    else fail

abbrev doubled : ℕ → TokenType
doubled c = if c == b'&' then and else if c == b'|' then or else out_append

abbrev single : ℕ → TokenType
single c = if c == b'&' then background else if c == b'|' then pipe else out_new

-- `case '&': case '|': case '>':`
act_operator : ℕ → ℕ → Option ℕ → Token → Act
act_operator quote c ahead t =
    if not (quote == 0)
    then append_next quote c t
    else if ltb 0 (length t.text)
    then finish str 0
    else elim ahead [
      | none ↦ stop
      | some d ↦ if d == c then finish (doubled c) 2 else finish (single c) 1
    ]

-- a blank, with 1, or a newline, with 0
act_space : ℕ → ℕ → ℕ → Token → Act
act_space used quote c t =
    if not (quote == 0)
    then append_next quote c t
    else if ltb 0 (length t.text)
    then finish str used
    else fail

-- `case '#':`
act_hash : ℕ → ℕ → Token → Act
act_hash quote c t =
    if not (quote == 0)
    then append_next quote c t
    else if ltb 0 (length t.text)
    then finish str 0
    else comment

-- The `switch` on the byte `c` at `pos`, in the given quote (0 for none); `ahead` is the byte
-- behind it, if that is before `end`.
unfoldable pub act : ℕ → ℕ → Option ℕ → Token → Act
unfolding act_quote act_backslash act_operator act_space act_hash append_next append_two
    escaped_in_quotes escaped_plain
act quote c ahead t =
    if c == b'\'' || c == b'"'
    then act_quote quote c ahead t
    else if c == b'\\'
    then act_backslash quote c ahead t
    else if c == b'&' || c == b'|' || c == b'>'
    then act_operator quote c ahead t
    else if c == b' ' || c == b'\t' || c == b'\r'
    then act_space 1 quote c t
    else if c == b'\n'
    then act_space 0 quote c t
    else if c == b'#'
    then act_hash quote c t
    else append_next quote c t

abbrev pub typed : TokenType → Token → Token
typed type t = record t { type = type }

-- The inner loop over a comment, `n` bytes from `begin`.
unfoldable pub skip_comment : ℕ → Token → Bytes → Checked (ℕ × Token)
skip_comment n t [] = ok (0, t)
skip_comment n t (c ∷ cs) =
    let rest = skip_comment (n + 1) t cs in
    if c == b'\n' then ok (n + 1, typed new_line t) else rest

-- The second loop, `n` bytes from `begin`.
unfoldable pub lex : ℕ → ℕ → Token → Bytes → Checked (ℕ × Token)
lex quote n t [] = ok (0, t)
lex quote n t (c ∷ []) = elim (act quote c none t) [
  | finish type used ↦ ok (n + used, typed type t)
  | fail ↦ crash
  | stop ↦ ok (0, t)
  | next _ t' ↦ ok (0, t')
  | next_two _ t' ↦ ok (0, t')
  | comment ↦ ok (0, t)
]
lex quote n t (c ∷ d ∷ cs) = elim (act quote c (some d) t) [
  | finish type used ↦ ok (n + used, typed type t)
  | fail ↦ crash
  | stop ↦ ok (0, t)
  | next quote' t' ↦ lex quote' (n + 1) t' (d ∷ cs)
  | next_two quote' t' ↦ lex quote' (n + 2) t' cs
  | comment ↦ skip_comment (n + 1) t (d ∷ cs)
]

-- The first loop: leading space, in which a newline is a token.
unfoldable pub lead : ℕ → Token → Bytes → Checked (ℕ × Token)
lead n t [] = ok (0, t)
lead n t (c ∷ cs) =
    let rest = lead (n + 1) t cs in
    let text = lex 0 n t (c ∷ cs) in
    if not (isspace c) then text else if c == b'\n' then ok (n + 1, typed new_line t) else rest

unfoldable pub parse_token : Token → Bytes → Checked (ℕ × Token)
unfolding lead lex act skip_comment token_reset token_append grow
parse_token t bytes = lead 0 (token_reset t) bytes
