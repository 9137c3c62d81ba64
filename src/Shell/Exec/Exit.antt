-- ===== src/Shell/Exec/Exit.antt =====
-- hw2/solution.c: the execution of a line that is `exit` alone.
use system_programming_hw.Base.{
  ℕ, true, false, none, some, List, [], ◌∷◌, Bytes, ◌≡◌, refl, pos, is_minus_one,
}
use system_programming_hw.Parser.Line.{Command, command, CommandLine}
use system_programming_hw.Shell.Exec.{
  Action, forked, waited, Job, Env, ExecutionResult, handle_cd, exit_argument, exit_alone,
  handle_exit, job_of, fork_result, open_pipe, run_command, run_expr, run_exprs, settle, force_exit,
  graceful_exit, status_or, wait_for_child_processes, my_execute_command_line,
}

-- The command `exit` with its arguments.
abbrev pub exit_command : List Bytes → ℕ → Command
exit_command args capacity = record {
  exe = b'e' ∷ b'x' ∷ b'i' ∷ b't' ∷ [];
  args = args;
  arg_capacity = capacity;
}

abbrev pub exit_job : List Bytes → ℕ → Job
exit_job args capacity = record { cmd = exit_command args capacity; input = none; output = none }

module _ (env : Env) where
  pub exit-result :
      (line : CommandLine) (result : ExecutionResult) (log : List Action) (args : List Bytes)
      (capacity : ℕ)
      → line.exprs ≡ command (exit_command args capacity) ∷ []
      → is_minus_one (exit_argument args) ≡ false
      → my_execute_command_line env line result log
        ≡ (record result { force_exit_code = exit_argument args }, log)
  unfolding my_execute_command_line settle force_exit wait_for_child_processes run_exprs run_expr
      open_pipe run_command handle_cd handle_exit exit_alone
  exit-result line result log args capacity shape asked = rw shape (rw asked refl)

  pub exit-child :
      (line : CommandLine) (result : ExecutionResult) (log : List Action) (args : List Bytes)
      (capacity pid : ℕ)
      → line.exprs ≡ command (exit_command args capacity) ∷ []
      → is_minus_one (exit_argument args) ≡ true
      → env.fork log (exit_job args capacity) ≡ some pid
      → my_execute_command_line env line result log ≡ (
        record result {
          exit_code =
              status_or env (pos 0) (env.waitpid (forked (exit_job args capacity) pid ∷ log) pid);
        },
        waited pid ∷ forked (exit_job args capacity) pid ∷ log,
      )
  unfolding my_execute_command_line settle graceful_exit wait_for_child_processes run_exprs run_expr
      open_pipe run_command handle_cd handle_exit exit_alone job_of fork_result
  exit-child line result log args capacity pid shape asked forks = rw shape (rw (asked, forks) refl)
