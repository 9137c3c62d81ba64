-- ===== src/Shell/Exec/Child.antt =====
-- hw2/solution.c: what a forked child of a command line does. The kernel is a parameter, here too: it
-- says whether an open descriptor can be put in place of another, what a file is opened as, and which
-- calls of `execvp` do not return. The table of descriptors is explicit.
pub mod Plumbing
use system_programming_hw.Base.{
  ℕ, ◌==◌, Bool, true, false, Option, none, some, List, [], ◌∷◌, Bytes, if◌then◌else◌, pos,
}
use system_programming_hw.Parser.Line.{
  Command, OutputType, stdout, file_new, file_append, CommandLine,
}
use system_programming_hw.Shell.Exec.{ExecutionResult, atoi}

-- How a file is opened: emptied, or written at its end.
pub data Mode : Type 0 where
  truncate append : Mode

pub record ChildEnv : Type 0 where
  pub dup2 : ℕ → ℕ → Bool
  pub open_file : Option Bytes → Mode → Option ℕ
  pub execvp : Bytes → List Bytes → Bool

-- What a descriptor stands for: what it stood for at the fork, or a file.
pub data Stream : Type 0 where
  inherited : ℕ → Stream
  file : Option Bytes → Mode → Stream

-- The table of descriptors; `none` is one that is not open.
abbrev pub Fds : Type 0
Fds = ℕ → Option Stream

abbrev pub put : ℕ → Option Stream → Fds → Fds
put fd o fds k = if k == fd then o else fds k

abbrev pub close : ℕ → Fds → Fds
close fd fds = put fd none fds

-- The ends of a child: another program runs in it with its descriptors, or it returns into the loop of
-- `main` with a result, or it reads the first argument of a command that has none.
pub data ChildEnd : Type 0 where
  runs : Bytes → List Bytes → Fds → ChildEnd
  returns : ExecutionResult → ChildEnd
  faults : ChildEnd

-- `args`, up to the null pointer
abbrev pub argv : Command → List Bytes
argv cmd = cmd.exe ∷ cmd.args

-- The list of children is that of the parent, none of which the child can wait for.
abbrev pub after_exec : List Bytes → ExecutionResult → ChildEnd
after_exec [] result = faults
after_exec (a ∷ args) result = returns (record result { force_exit_code = atoi a })

-- What comes behind a part that has not failed.
abbrev pub and_next : Option Fds → (Fds → Option Fds) → Option Fds
and_next none next = none
and_next (some fds) next = next fds

module _ (env : ChildEnv) where
  -- `dup2`, which fails on a descriptor that is not open.
  duplicate : ℕ → ℕ → Option Stream → Fds → Option Fds
  duplicate a b none fds = none
  duplicate a b (some st) fds = if env.dup2 a b then some (put b (some st) fds) else none

  -- The duplicate in place of a standard stream, and the close of the descriptor itself.
  moved_to : ℕ → ℕ → Fds → Option Fds
  unfolding duplicate
  moved_to a b fds = and_next (duplicate a b (fds a) fds) λ fds'. some (close a fds')

  -- `prev_fd`
  input_part : Option (ℕ × ℕ) → Fds → Option Fds
  unfolding moved_to
  input_part none fds = some fds
  input_part (some (r, w)) fds = moved_to r 0 (close w fds)

  -- An opened file, unless it is standard output itself.
  opened_as : Option Bytes → Mode → Option ℕ → Fds → Option Fds
  unfolding moved_to
  opened_as name m none fds = none
  opened_as name m (some fd) fds =
      if fd == 1
      then some (put fd (some (file name m)) fds)
      else moved_to fd 1 (put fd (some (file name m)) fds)

  redirect : OutputType → Option Bytes → Fds → Option Fds
  unfolding opened_as
  redirect stdout name fds = some fds
  redirect file_new name fds = opened_as name truncate (env.open_file name truncate) fds
  redirect file_append name fds = opened_as name append (env.open_file name append) fds

  -- `curr_fd`
  output_part : CommandLine → Option (ℕ × ℕ) → Fds → Option Fds
  unfolding moved_to redirect
  output_part line none fds = redirect line.out_type line.out_file fds
  output_part line (some (r, w)) fds = moved_to w 1 (close r fds)

  -- `execvp` and what follows it, or the return where a call before has failed.
  execute : Command → ExecutionResult → Option Fds → ChildEnd
  execute cmd result none = returns (record result { force_exit_code = pos 1 })
  execute cmd result (some fds) =
      if env.execvp cmd.exe (argv cmd)
      then runs cmd.exe (argv cmd) fds
      else after_exec cmd.args result

  -- The case of 0 in the loop of `my_execute_command_line`
  unfoldable pub run_child :
      CommandLine → Command → ExecutionResult → Option (ℕ × ℕ) → Option (ℕ × ℕ) → Fds → ChildEnd
  unfolding input_part output_part execute
  run_child line cmd result prev_fd curr_fd fds =
      execute cmd result (and_next (input_part prev_fd fds) (output_part line curr_fd))
