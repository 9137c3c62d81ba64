-- ===== src/Parser/Pop/StepSound.antt =====
-- hw2/parser.c, `parser_pop_next`: the shape of the line after one token of the main loop.
use system_programming_hw.Base.{
  true, Option, none, some, ◌≡◌, ◌≢◌, refl, arith, [], ◌∷◌, Bytes, Checked, ok, crash, ◌>>=◌,
}
use system_programming_hw.Parser.Token.{TokenType, Token, string_of, token_strdup}
use system_programming_hw.Parser.Token.TokenType.{str, new_line}
use system_programming_hw.Parser.Line.{
  Command, Expr, command, CommandLine, ParserError, err_none, tail, set_tail, command_append_arg,
  command_line_append,
}
use system_programming_hw.Parser.Line.Shape.{
  IsShaped, HasWords, joins, command_line_append-IsShaped, set_tail-IsShaped,
}
use system_programming_hw.Parser.Pop.{
  Step, go_on, close, refuse, step, step_str, step_operator, step_new_line,
}

string_of-ne-nil :
    (type : TokenType) (text : Bytes) {s : Bytes} → string_of type text ≡ ok s → s ≢ []
unfolding string_of
string_of-ne-nil str (c ∷ cs) e = ground arith
string_of-ne-nil _ _ e = cc

token_strdup-ne-nil : (t : Token) (s : Bytes) → token_strdup t ≡ ok s → s ≢ []
unfolding token_strdup
token_strdup-ne-nil t s = string_of-ne-nil t.type t.text

-- The line after a token, and the error that a token may raise.
abbrev pub StepSound : CommandLine → Checked Step → Type 0
StepSound line crash = Unit
StepSound line (ok (go_on line')) =
    IsShaped line'.exprs × (line'.out_type ≡ line.out_type) × (line'.out_file ≡ line.out_file)
StepSound line (ok close) = Unit
StepSound line (ok (refuse error)) = error ≢ err_none

abbrev NonEmpty : Checked Bytes → Type 0
NonEmpty r = (s : Bytes) → r ≡ ok s → s ≢ []

-- A new command, where the tail lets one follow.
start-StepSound :
    (line : CommandLine) (name : Checked Bytes)
    → NonEmpty name
    → IsShaped line.exprs
    → ((c : Command) → joins (tail line.exprs) (command c) ≡ true)
    → StepSound line (do
      exe ← name
      ok (
          go_on (
            command_line_append line
              (command (record { exe = exe; args = []; arg_capacity = 0 })))))
start-StepSound line crash ne s j = tt
start-StepSound line (ok exe) ne s j =
    let cmd : Command = record { exe = exe; args = []; arg_capacity = 0 } in
    (
      command_line_append-IsShaped line (command cmd) s (j cmd) (ne exe refl, tt),
      unfold command_line_append in refl,
      unfold command_line_append in refl,
    )

-- One more argument for the command at the tail.
argue-StepSound :
    (line : CommandLine) (cmd : Command) (arg : Bytes) (r : Checked Command)
    → command_append_arg cmd arg ≡ r
    → arg ≢ []
    → tail line.exprs ≡ some (command cmd)
    → IsShaped line.exprs
    → StepSound line
        (do cmd' ← r; ok (go_on (record line { exprs = set_tail line.exprs (command cmd') })))
argue-StepSound line cmd arg crash e ne t s = tt
argue-StepSound line cmd arg (ok cmd') e ne t s =
    (set_tail-IsShaped line.exprs cmd arg s t e ne, refl, refl)

argument-StepSound :
    (line : CommandLine) (cmd : Command) (name : Checked Bytes)
    → NonEmpty name
    → tail line.exprs ≡ some (command cmd)
    → IsShaped line.exprs
    → StepSound line (do
      arg ← name
      cmd' ← command_append_arg cmd arg
      ok (go_on (record line { exprs = set_tail line.exprs (command cmd') })))
argument-StepSound line cmd crash ne t s = tt
argument-StepSound line cmd (ok arg) ne t s =
    argue-StepSound line cmd arg (command_append_arg cmd arg) refl (ne arg refl) t s

step_str-StepSound :
    (line : CommandLine) (t : Token) (o : Option Expr)
    → tail line.exprs ≡ o
    → IsShaped line.exprs
    → StepSound line (step_str line t o)
unfolding step_str
step_str-StepSound line t (some (command cmd)) e s =
    argument-StepSound line cmd (token_strdup t) (token_strdup-ne-nil t) e s
step_str-StepSound line t none e s =
    start-StepSound line (token_strdup t) (token_strdup-ne-nil t) s (λ c. rw (e, joins))
step_str-StepSound line t (some x) e s =
    start-StepSound line (token_strdup t) (token_strdup-ne-nil t) s (λ c. rw (e, joins))

-- An operator: it may stand behind a command.
abbrev IsOperator : Expr → Type 0
IsOperator e = ((c : Command) → joins (some (command c)) e ≡ true) × HasWords e

step_operator-StepSound :
    (line : CommandLine) (e : Expr) (no_left not_command : ParserError) (o : Option Expr)
    → tail line.exprs ≡ o
    → IsShaped line.exprs
    → IsOperator e
    → no_left ≢ err_none
    → not_command ≢ err_none
    → StepSound line (step_operator line e no_left not_command o)
unfolding step_operator
step_operator-StepSound line e no_left not_command none t s op h k = h
step_operator-StepSound line e no_left not_command (some (command c)) t s op h k = (
  command_line_append-IsShaped line e s (rw (t, joins) (op.0 c)) op.1,
  unfold command_line_append in refl,
  unfold command_line_append in refl,
)
step_operator-StepSound line e no_left not_command (some _) t s op h k = k

step_new_line-StepSound :
    (line : CommandLine) (o : Option Expr)
    → IsShaped line.exprs
    → StepSound line (step_new_line line o)
unfolding step_new_line
step_new_line-StepSound line none s = (s, refl, refl)
step_new_line-StepSound line (some e) s = tt

-- A token keeps the line well formed, and the only refusals are real errors.
pub step-StepSound :
    (line : CommandLine) (t : Token) (type : TokenType)
    → IsShaped line.exprs
    → StepSound line (step line t type)
unfolding step
step-StepSound line t str s = step_str-StepSound line t (tail line.exprs) refl s
step-StepSound line t new_line s = step_new_line-StepSound line (tail line.exprs) s
step-StepSound line t TokenType.pipe s =
    step_operator-StepSound line Expr.pipe _ _ (tail line.exprs) refl s ((λ c. refl), tt) (λ e. cc)
      (λ e. cc)
step-StepSound line t TokenType.and s =
    step_operator-StepSound line Expr.and _ _ (tail line.exprs) refl s ((λ c. refl), tt) (λ e. cc)
      (λ e. cc)
step-StepSound line t TokenType.or s =
    step_operator-StepSound line Expr.or _ _ (tail line.exprs) refl s ((λ c. refl), tt) (λ e. cc)
      (λ e. cc)
step-StepSound line t _ s = tt
