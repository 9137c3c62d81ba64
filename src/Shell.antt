-- ===== src/Shell.antt =====
-- hw2/solution.c: the inner loop of `main`, which takes what the parser has until it has no more.
pub mod Chunks
pub mod Exec
pub mod Main
mod Tests
use system_programming_hw.Base.{
  ℕ, zero, suc, Option, none, some, List, [], ◌∷◌, ◌++◌, Bytes, length, Checked, ok, crash,
}
use system_programming_hw.Parser.Line.{CommandLine, ParserError, err_none}
use system_programming_hw.Parser.Buffer.{Parser}
use system_programming_hw.Parser.Pop.{parser_pop_next}

-- One round of the loop: an error is printed, a line is executed.
pub data Event : Type 0 where
  refused : ParserError → Event
  executed : CommandLine → Event

-- The rounds in order with the parser left, or the rounds up to the one in which the shell dies: of
-- a failed assertion of the parser, or of `command_line_delete` on no line.
pub data Drained : Type 0 where
  drained : List Event → Parser → Drained
  killed : List Event → Drained
  no_fuel : Drained

abbrev pub behind : List Event → Drained → Drained
behind es (drained fs p) = drained (es ++ fs) p
behind es (killed fs) = killed (es ++ fs)
behind es no_fuel = no_fuel

-- `break`, the execution, or the message and `command_line_delete`, which reads through the line,
-- null or not.
drain_next : (Parser → Drained) → Checked (ParserError × Option CommandLine × Parser) → Drained
drain_next again crash = killed []
drain_next again (ok (err_none, none, p)) = drained [] p
drain_next again (ok (err_none, some line, p)) = behind (executed line ∷ []) (again p)
drain_next again (ok (error, none, p)) = killed (refused error ∷ [])
drain_next again (ok (error, some line, p)) = behind (refused error ∷ []) (again p)

-- The loop, on fuel: one unit for each round. No line here asks the shell to exit.
unfoldable pub drain : ℕ → Parser → Drained
unfolding drain_next parser_pop_next
drain zero p = no_fuel
drain (suc fuel) p = drain_next (drain fuel) (parser_pop_next p)

abbrev pub drain_all : Parser → Drained
drain_all p = drain (suc (length p.buffer)) p
