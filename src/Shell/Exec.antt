-- ===== src/Shell/Exec.antt =====
-- hw2/solution.c: the execution of one command line by the shell, and by the children it forks. The
-- kernel is a parameter: it answers each call by what has happened before, which the log tells.
pub mod Child
pub mod Exit
pub mod Pipes
pub mod Descriptors
pub mod Status
use system_programming_hw.Base.{
  ℕ, zero, suc, ◌+◌, ◌-◌, ◌*◌, Bool, true, false, not, ◌&&◌, ◌||◌, Option, none, some, List, [],
  ◌∷◌, Bytes, ltb, leb, ◌==◌, if◌then◌else◌, ℤ, pos, negsuc, minus_one, is_minus_one,
}
use system_programming_hw.Parser.Lexer.{isspace}
use system_programming_hw.Parser.Line.{Command, Expr, command, pipe, and, or, CommandLine}

-- `strcmp(a, b) == 0`, which ends at a byte of 0 in the texts or at the one behind them.
abbrev pub same_text : Bytes → Bytes → Bool
same_text [] [] = true
same_text [] (b ∷ bs) = b == 0
same_text (a ∷ as') [] = a == 0
same_text (a ∷ as') (b ∷ bs) = a == b && (a == 0 || same_text as' bs)

-- `atoi`; a number that does not fit an `int` has no defined value in C, and its own here.
abbrev pub digits : ℕ → Bytes → ℕ
digits n [] = n
digits n (c ∷ cs) =
    let rest = digits (n * 10 + (c - 48)) cs in if leb 48 c && leb c 57 then rest else n

abbrev pub negated : ℕ → ℤ
negated zero = pos 0
negated (suc n) = negsuc n

abbrev pub signed : Bytes → ℤ
signed [] = pos 0
signed (c ∷ cs) =
    if c == b'-'
    then negated (digits 0 cs)
    else if c == b'+'
    then pos (digits 0 cs)
    else pos (digits 0 (c ∷ cs))

unfoldable pub atoi : Bytes → ℤ
atoi [] = pos 0
atoi (c ∷ cs) = let rest = atoi cs in if isspace c then rest else signed (c ∷ cs)

-- What a forked child is to do: a command, and the ends of pipes for its input and output.
pub record Job : Type 0 where
  pub cmd : Command
  pub input : Option ℕ
  pub output : Option ℕ

-- The calls of the kernel that had an effect, the last one first in a log.
pub data Action : Type 0 where
  piped : ℕ → ℕ → Action
  forked : Job → ℕ → Action
  closed : ℕ → Action
  changed_dir : Bytes → Action
  waited : ℕ → Action

-- The answers of the kernel: the two ends of a pipe, the number of a child, the status of a child that
-- has exited, and the home directory; `none` is a failure, or another end of a child.
pub record Env : Type 0 where
  pub pipe : List Action → Option (ℕ × ℕ)
  pub fork : List Action → Job → Option ℕ
  pub waitpid : List Action → ℕ → Option ℕ
  pub home : List Action → Bytes

-- `handle_cd` on a command
unfoldable pub handle_cd : Command → Bool
handle_cd cmd = same_text cmd.exe (b'c' ∷ b'd' ∷ [])

-- `handle_exit`, with what stands behind the command
unfoldable pub exit_argument : List Bytes → ℤ
exit_argument [] = pos 0
exit_argument (a ∷ args) = atoi a

exit_alone : Command → List Expr → ℤ
exit_alone cmd [] = exit_argument cmd.args
exit_alone cmd (e ∷ es) = minus_one

unfoldable pub handle_exit : Command → List Expr → ℤ
unfolding exit_argument exit_alone atoi
handle_exit cmd rest =
    if not (same_text cmd.exe (b'e' ∷ b'x' ∷ b'i' ∷ b't' ∷ []))
    then minus_one
    else exit_alone cmd rest

-- The variables of the loop; a pair of descriptors is `none` for -1. The list of children has the
-- last one first.
pub record Running : Type 0 where
  pub prev_fd : Option (ℕ × ℕ)
  pub curr_fd : Option (ℕ × ℕ)
  pub pids : List ℕ
  pub log : List Action
  pub first : Bool

-- The loop goes on, or it ends with `forceExit` and a code.
pub data Ran : Type 0 where
  going : Running → Ran
  forced : ℤ → Running → Ran

abbrev pub and_then : Ran → (Running → Ran) → Ran
and_then (going st) next = next st
and_then (forced code st) next = forced code st

-- `struct ExecutionResult`
pub record ExecutionResult : Type 0 where
  pub exit_code : ℤ
  pub force_exit_code : ℤ

abbrev pub close_pair : Option (ℕ × ℕ) → List Action → List Action
close_pair none log = log
close_pair (some (r, w)) log = closed w ∷ closed r ∷ log

abbrev pub read_end : Option (ℕ × ℕ) → Option ℕ
read_end none = none
read_end (some (r, w)) = some r

abbrev pub write_end : Option (ℕ × ℕ) → Option ℕ
write_end none = none
write_end (some (r, w)) = some w

abbrev pub next_is_pipe : List Expr → Bool
next_is_pipe (pipe ∷ es) = true
next_is_pipe _ = false

-- What the loop starts with.
abbrev pub start : List Action → Running
start log = record { prev_fd = none; curr_fd = none; pids = []; log = log; first = true }

-- `EXPR_TYPE_PIPE`
unfoldable pub move_pipe : Running → Running
move_pipe st = record st {
  prev_fd = st.curr_fd;
  curr_fd = none;
  log = close_pair st.prev_fd st.log;
}

-- `addChildProcess`
abbrev pub add_child_process : List ℕ → ℕ → List ℕ
add_child_process pids pid = pid ∷ pids

module _ (env : Env) where
  opened : Running → Option (ℕ × ℕ) → Ran
  opened st none = forced (pos 1) st
  opened st (some (r, w)) = going (record st { curr_fd = some (r, w); log = piped r w ∷ st.log })

  -- The pipe to the next command.
  unfoldable pub open_pipe : List Expr → Running → Ran
  unfolding opened
  open_pipe rest st = if next_is_pipe rest then opened st (env.pipe st.log) else going st

  cd_target : List Bytes → List Action → Bytes
  cd_target [] log = env.home log
  cd_target (a ∷ args) log = a

  fork_result : Job → Running → Option ℕ → Ran
  fork_result job st none = forced (pos 1) st
  fork_result job st (some pid) =
      going (record st { pids = add_child_process st.pids pid; log = forked job pid ∷ st.log })

  unfoldable pub job_of : Command → Running → Job
  job_of cmd st = record { cmd = cmd; input = read_end st.prev_fd; output = write_end st.curr_fd }

  -- A command, with what stands behind it.
  unfoldable pub run_command : Command → List Expr → Running → Ran
  unfolding cd_target fork_result job_of handle_exit handle_cd
  run_command cmd rest st =
      if handle_cd cmd
      then going (record st { log = changed_dir (cd_target cmd.args st.log) ∷ st.log })
      else if st.first && not (is_minus_one (handle_exit cmd rest))
      then forced (handle_exit cmd rest) st
      else fork_result (job_of cmd st) st (env.fork st.log (job_of cmd st))

  unfoldable pub run_expr : Expr → List Expr → Running → Ran
  unfolding run_command move_pipe
  run_expr (command cmd) rest st = run_command cmd rest st
  run_expr pipe rest st = going (move_pipe st)
  run_expr and rest st = going st
  run_expr or rest st = going st

  -- The loop over the expressions.
  unfoldable pub run_exprs : List Expr → Running → Ran
  unfolding open_pipe run_expr
  run_exprs [] st = going st
  run_exprs (e ∷ es) st =
      and_then (open_pipe es st)
        λ st'. and_then (run_expr e es st') λ st''. run_exprs es (record st'' { first = false })

  unfoldable pub status_or : ℤ → Option ℕ → ℤ
  status_or last none = last
  status_or last (some status) = pos status

  -- `waitForChildProcesses`
  unfoldable pub wait_for_child_processes : List ℕ → ℤ → List Action → ℤ × List Action
  unfolding status_or
  wait_for_child_processes [] last log = (last, log)
  wait_for_child_processes (pid ∷ pids) last log =
      wait_for_child_processes pids (status_or last (env.waitpid log pid)) (waited pid ∷ log)

  -- `forceExit` and `gracefulExit`
  unfoldable pub force_exit : ExecutionResult → Running → ℤ → ExecutionResult × List Action
  unfolding wait_for_child_processes
  force_exit result st code =
      let (status, log) = wait_for_child_processes st.pids (pos 0) st.log in
      (record result { force_exit_code = code }, log)

  unfoldable pub graceful_exit : ExecutionResult → Running → ExecutionResult × List Action
  unfolding wait_for_child_processes
  graceful_exit result st =
      let (status, log) = wait_for_child_processes st.pids (pos 0) st.log in
      (record result { exit_code = status }, log)

  unfoldable pub settle : ExecutionResult → Ran → ExecutionResult × List Action
  settle result (forced code st) = force_exit result st code
  settle result (going st) = graceful_exit result (record st { log = close_pair st.prev_fd st.log })

  unfoldable pub my_execute_command_line :
      CommandLine → ExecutionResult → List Action → ExecutionResult × List Action
  unfolding settle run_exprs force_exit graceful_exit
  my_execute_command_line line result log = settle result (run_exprs line.exprs (start log))
