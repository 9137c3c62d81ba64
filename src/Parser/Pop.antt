-- ===== src/Parser/Pop.antt =====
-- hw2/parser.c, `parser_pop_next`: the next command line of the buffer. Positions are offsets from
-- `begin`. The loops take fuel, one unit for each token; `pop_next` gives more than there are bytes.
pub mod StepSound
pub mod Laws
pub mod Sound
pub mod Stable
use system_programming_hw.Base.{
  ℕ, zero, suc, ◌+◌, true, false, Option, none, some, [], Bytes, length, drop, ltb, Checked, ok,
  crash, ◌>>=◌,
}
use system_programming_hw.Parser.Token.{TokenType, Token, token_strdup, grow}
use system_programming_hw.Parser.Token.TokenType.{
  none_type, str, new_line, out_new, out_append, background,
}
use system_programming_hw.Parser.Lexer.{parse_token}
use system_programming_hw.Parser.Line.{
  Command, Expr, command, CommandLine, file_new, file_append, empty_line, ParserError, err_none,
  pipe_with_no_left_arg, pipe_with_left_arg_not_a_command, and_with_no_left_arg,
  and_with_left_arg_not_a_command, or_with_no_left_arg, or_with_left_arg_not_a_command,
  outout_redirect_bad_arg, too_late_arguments, ends_not_with_a_command, command_append_arg,
  command_line_append, tail, set_tail,
}
use system_programming_hw.Parser.Buffer.{Parser, parser_consume}

-- What one token does to the line in the main loop.
pub data Step : Type 0 where
  go_on : CommandLine → Step  -- `continue`
  close : Step  -- `goto close_and_return`
  refuse : ParserError → Step  -- `goto return_error`

-- `case TOKEN_TYPE_STR`, by `line->tail`
step_str : CommandLine → Token → Option Expr → Checked Step
step_str line t (some (command cmd)) = do
  arg ← token_strdup t
  cmd' ← command_append_arg cmd arg
  ok (go_on (record line { exprs = set_tail line.exprs (command cmd') }))
step_str line t _ = do
  exe ← token_strdup t
  let cmd : Command = record { exe = exe; args = []; arg_capacity = 0 }
  ok (go_on (command_line_append line (command cmd)))

-- `case TOKEN_TYPE_PIPE`, `_AND` and `_OR`, by `line->tail`
step_operator : CommandLine → Expr → ParserError → ParserError → Option Expr → Checked Step
step_operator line e no_left not_command none = ok (refuse no_left)
step_operator line e no_left not_command (some (command cmd)) =
    ok (go_on (command_line_append line e))
step_operator line e no_left not_command (some _) = ok (refuse not_command)

-- `case TOKEN_TYPE_NEW_LINE`: new lines in front of the command are skipped.
step_new_line : CommandLine → Option Expr → Checked Step
step_new_line line none = ok (go_on line)
step_new_line line (some _) = ok close

-- The `switch` of the main loop.
unfoldable pub step : CommandLine → Token → TokenType → Checked Step
unfolding step_str step_operator step_new_line
step line t str = step_str line t (tail line.exprs)
step line t new_line = step_new_line line (tail line.exprs)
step line t TokenType.pipe =
    step_operator line Expr.pipe pipe_with_no_left_arg pipe_with_left_arg_not_a_command
      (tail line.exprs)
step line t TokenType.and =
    step_operator line Expr.and and_with_no_left_arg and_with_left_arg_not_a_command
      (tail line.exprs)
step line t TokenType.or =
    step_operator line Expr.or or_with_no_left_arg or_with_left_arg_not_a_command (tail line.exprs)
step line t out_new = ok close
step line t out_append = ok close
step line t background = ok close
step line t none_type = crash

-- How the function ends; the numbers are the bytes to consume.
pub data Outcome : Type 0 where
  no_line : Outcome
  failed : ParserError → ℕ → Outcome
  complete : CommandLine → ℕ → Outcome
  aborted no_fuel : Outcome

-- `return_no_line` on 0, and `pos += used` before the rest.
advance : ℕ → (ℕ → Token → Outcome) → Checked (ℕ × Token) → Outcome
advance pos rest crash = aborted
advance pos rest (ok (zero, t)) = no_line
advance pos rest (ok (suc u, t)) = rest (pos + suc u) t

-- `used = parse_token(pos, end, &token)` and what follows it.
unfoldable pub after_token : Bytes → ℕ → Token → (ℕ → Token → Outcome) → Outcome
unfolding advance
after_token buf pos t rest = advance pos rest (parse_token t (drop pos buf))

-- `return_error` stops behind a new line, by the type of the token.
skip_next : (ℕ → Token → Outcome) → ParserError → ℕ → Token → TokenType → Outcome
skip_next again error pos t new_line = failed error pos
skip_next again error pos t _ = again pos t

-- `return_error`: skip to the end of the line; without one, no error is returned yet.
unfoldable pub skip_line : ℕ → ParserError → Bytes → ℕ → Token → Outcome
unfolding skip_next
skip_line zero error buf pos t = no_fuel
skip_line (suc fuel) error buf pos t = elim (ltb pos (length buf)) [
  | false ↦ no_line
  | true ↦
      after_token buf pos t λ pos' t'. skip_next (skip_line fuel error buf) error pos' t' t'.type
]

-- A complete line, by `line->tail`.
complete_line : CommandLine → ℕ → Option Expr → Outcome
complete_line line pos none = aborted
complete_line line pos (some (command cmd)) = complete line pos
complete_line line pos (some _) = failed ends_not_with_a_command pos

-- The last part of `close_and_return`, by the type of the token.
close_new_line : ℕ → Bytes → CommandLine → ℕ → Token → TokenType → Outcome
close_new_line fuel buf line pos t new_line = complete_line line pos (tail line.exprs)
close_new_line fuel buf line pos t _ = skip_line fuel too_late_arguments buf pos t

-- The part of `close_and_return` for `&`.
close_background : ℕ → Bytes → CommandLine → ℕ → Token → TokenType → Outcome
close_background fuel buf line pos t background =
    after_token buf pos t
      λ pos' t'. close_new_line fuel buf (record line { is_background = true }) pos' t' t'.type
close_background fuel buf line pos t type = close_new_line fuel buf line pos t type

-- The copied name of the file, and what stands behind it.
with_name : ℕ → Bytes → CommandLine → ℕ → Token → Checked Bytes → Outcome
with_name fuel buf line pos t crash = aborted
with_name fuel buf line pos t (ok name) =
    after_token buf pos t
      λ pos' t'. close_background fuel buf (record line { out_file = some name }) pos' t' t'.type

-- The file of a redirection: `pos` and `t` are behind the word for it.
close_file : ℕ → Bytes → CommandLine → ℕ → Token → TokenType → Outcome
close_file fuel buf line pos t str = with_name fuel buf line pos t (token_strdup t)
close_file fuel buf line pos t _ = skip_line fuel outout_redirect_bad_arg buf pos t

-- `close_and_return`, by the type of the token.
unfoldable pub close_line : ℕ → Bytes → CommandLine → ℕ → Token → TokenType → Outcome
unfolding close_file with_name close_background close_new_line complete_line
close_line fuel buf line pos t out_new =
    after_token buf pos t
      λ pos' t'. close_file fuel buf (record line { out_type = file_new }) pos' t' t'.type
close_line fuel buf line pos t out_append =
    after_token buf pos t
      λ pos' t'. close_file fuel buf (record line { out_type = file_append }) pos' t' t'.type
close_line fuel buf line pos t type = close_background fuel buf line pos t type

-- The `goto` or `continue` of the main loop.
scan_next :
    ℕ
    → (CommandLine → ℕ → Token → Outcome)
    → Bytes
    → CommandLine
    → ℕ
    → Token
    → Checked Step
    → Outcome
scan_next fuel again buf line pos t crash = aborted
scan_next fuel again buf line pos t (ok (go_on line')) = again line' pos t
scan_next fuel again buf line pos t (ok close) = close_line fuel buf line pos t t.type
scan_next fuel again buf line pos t (ok (refuse error)) = skip_line fuel error buf pos t

-- The main loop.
unfoldable pub scan : ℕ → Bytes → CommandLine → ℕ → Token → Outcome
unfolding scan_next
scan zero buf line pos t = no_fuel
scan (suc fuel) buf line pos t = elim (ltb pos (length buf)) [
  | false ↦ no_line
  | true ↦
      after_token buf pos t
        λ pos' t'. scan_next fuel (scan fuel buf) buf line pos' t' (step line t' t'.type)
]

abbrev pub empty_token : Token
empty_token = record { type = none_type; text = []; capacity = 0 }

abbrev consumed :
    Parser
    → ℕ
    → ParserError
    → Option CommandLine
    → Checked (ParserError × Option CommandLine × Parser)
consumed p n error line = do p' ← parser_consume p n; ok (error, line, p')

unfoldable pub popped : Parser → Outcome → Checked (ParserError × Option CommandLine × Parser)
popped p no_line = ok (err_none, none, p)
popped p (failed error n) = consumed p n error none
popped p (complete line n) = consumed p n err_none (some line)
popped p aborted = crash
popped p no_fuel = crash

-- `parser_pop_next`: the error, the line and the parser afterwards.
unfoldable pub parser_pop_next : Parser → Checked (ParserError × Option CommandLine × Parser)
unfolding popped scan after_token step close_line skip_line parse_token token_strdup
    command_append_arg command_line_append tail set_tail parser_consume grow
parser_pop_next p = popped p (scan (suc (length p.buffer)) p.buffer empty_line 0 empty_token)
