-- ===== src/Shell/Main.antt =====
-- hw2/solution.c: `main`, from the pieces of input that `read` returns to the exit code.
pub mod Serves
pub mod Exits
mod Tests
use system_programming_hw.Base.{
  ℕ, zero, suc, Bool, true, false, not, Option, none, some, List, [], ◌∷◌, ◌++◌, Bytes, length,
  Checked, ok, crash, if◌then◌else◌, ℤ, pos, minus_one, is_minus_one,
}
use system_programming_hw.Parser.Line.{CommandLine, ParserError, err_none}
use system_programming_hw.Parser.Buffer.{Parser, parser_feed, parser_new}
use system_programming_hw.Parser.Pop.{parser_pop_next}
use system_programming_hw.Shell.Exec.{Action, Env, ExecutionResult, my_execute_command_line}

-- The parser and the results so far, with what the kernel has done.
pub record Session : Type 0 where
  pub parser : Parser
  pub result : ExecutionResult
  pub log : List Action

-- A loop waits for more input, or breaks for the exit, or the shell dies in it: of a failed
-- assertion, or of `command_line_delete` on the null line of an error.
pub data Served : Type 0 where
  waiting exits : Session → Served
  died out_of_fuel : Served

abbrev pub is_forced : ExecutionResult → Bool
is_forced result = not (is_minus_one result.force_exit_code)

-- The two codes of `main`, the later test last.
unfoldable pub exit_status : ExecutionResult → ℤ
exit_status result =
    if not (is_minus_one result.exit_code)
    then result.exit_code
    else if is_forced result
    then result.force_exit_code
    else pos 0

abbrev pub no_result : ExecutionResult
no_result = record { exit_code = minus_one; force_exit_code = minus_one }

module _ (env : Env) where
  -- The test behind an execution.
  after_line : (Session → Served) → Session → Served
  after_line again s = let rest = again s in if is_forced s.result then exits s else rest

  execute_line : Session → CommandLine → Parser → Session
  execute_line s line p =
      let (result, log) = my_execute_command_line env line s.result s.log in
      record { parser = p; result = result; log = log }

  serve_next :
      (Session → Served) → Session → Checked (ParserError × Option CommandLine × Parser) → Served
  unfolding after_line execute_line
  serve_next again s crash = died
  serve_next again s (ok (err_none, none, p)) = waiting (record s { parser = p })
  serve_next again s (ok (err_none, some line, p)) = after_line again (execute_line s line p)
  serve_next again s (ok (error, none, p)) = died
  serve_next again s (ok (error, some line, p)) = again (record s { parser = p })

  -- The inner loop, on fuel: one unit for each round.
  unfoldable pub serve : ℕ → Session → Served
  unfolding serve_next
  serve zero s = out_of_fuel
  serve (suc fuel) s = serve_next (serve fuel) s (parser_pop_next s.parser)

  abbrev pub serve_all : Session → Served
  serve_all s = serve (suc (length s.parser.buffer)) s

  serve_fed : Session → Checked Parser → Served
  serve_fed s crash = died
  serve_fed s (ok p) = serve_all (record s { parser = p })

  and_read : (Session → Served) → Served → Served
  and_read next (waiting s) = next s
  and_read next served = served

  -- The outer loop, over what the calls of `read` return; an empty piece ends it.
  unfoldable pub read_loop : List Bytes → Session → Served
  unfolding serve_fed and_read serve
  read_loop [] s = waiting s
  read_loop ([] ∷ pieces) s = waiting s
  read_loop ((b ∷ bytes) ∷ pieces) s =
      and_read (read_loop pieces) (serve_fed s (parser_feed s.parser (b ∷ bytes)))

-- The exit code of `main`; `none` where it does not come to its end.
exit_code_of : Served → Option ℤ
unfolding exit_status
exit_code_of (waiting s) = some (exit_status s.result)
exit_code_of (exits s) = some (exit_status s.result)
exit_code_of _ = none

unfoldable pub main : Env → List Bytes → Option ℤ
unfolding exit_code_of read_loop
main env pieces =
    exit_code_of
      (read_loop env pieces (record { parser = parser_new; result = no_result; log = [] }))
