-- ===== src/Parser/Line.antt =====
-- hw2/parser.h and hw2/parser.c: command lines and their growth. The linked list of expressions is
-- a list in its order, and `tail` its last element; the counts are the lengths of the lists.
pub mod Shape
use system_programming_hw.Base.{
  ℕ, Bool, false, Option, none, some, List, [], ◌∷◌, ◌++◌, Bytes, length, Checked, ok, ◌>>=◌,
}
use system_programming_hw.Parser.Token.{grow}

-- `struct command`
pub record Command : Type 0 where
  pub exe : Bytes
  pub args : List Bytes
  pub arg_capacity : ℕ

-- `struct expr`, with `enum expr_type`
pub data Expr : Type 0 where
  command : Command → Expr
  pipe and or : Expr

-- `enum output_type`
pub data OutputType : Type 0 where
  stdout file_new file_append : OutputType

-- `struct command_line`
pub record CommandLine : Type 0 where
  pub exprs : List Expr
  pub out_type : OutputType
  pub out_file : Option Bytes
  pub is_background : Bool

-- `calloc` of a `struct command_line`
abbrev pub empty_line : CommandLine
empty_line = record { exprs = []; out_type = stdout; out_file = none; is_background = false }

-- `enum parser_error`
pub data ParserError : Type 0 where
  err_none : ParserError
  pipe_with_no_left_arg pipe_with_left_arg_not_a_command : ParserError
  and_with_no_left_arg and_with_left_arg_not_a_command : ParserError
  or_with_no_left_arg or_with_left_arg_not_a_command : ParserError
  outout_redirect_bad_arg too_late_arguments ends_not_with_a_command : ParserError

unfoldable pub command_append_arg : Command → Bytes → Checked Command
command_append_arg cmd arg = do
  capacity ← grow (length cmd.args) cmd.arg_capacity
  ok (record cmd { args = cmd.args ++ arg ∷ []; arg_capacity = capacity })

unfoldable pub command_line_append : CommandLine → Expr → CommandLine
command_line_append line e = record line { exprs = line.exprs ++ e ∷ [] }

-- `line->tail`
unfoldable pub tail : List Expr → Option Expr
tail [] = none
tail (e ∷ []) = some e
tail (e ∷ f ∷ es) = tail (f ∷ es)

-- The list with `line->tail` overwritten.
unfoldable pub set_tail : List Expr → Expr → List Expr
set_tail [] e = []
set_tail (x ∷ []) e = e ∷ []
set_tail (x ∷ y ∷ es) e = x ∷ set_tail (y ∷ es) e
