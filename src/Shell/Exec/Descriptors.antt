-- ===== src/Shell/Exec/Descriptors.antt =====
-- hw2/solution.c: the descriptors of the pipes of a line.
use system_programming_hw.Base.{
  ℕ, ◌+◌, ◌==◌, Option, none, some, List, [], ◌∷◌, ◌≡◌, refl, arith, ap, if◌then◌else◌, ℤ, pos,
}
use system_programming_hw.Shell.Exec.Pipes.{
  pipeline, ArePlain, Wired, final_child, next_child, HasRoom, my_execute_command_line-Wired,
}
use system_programming_hw.Parser.Line.{Command, CommandLine}
use system_programming_hw.Shell.Exec.{
  Action, closed, forked, piped, waited, Env, ExecutionResult, close_pair, read_end, status_or,
  wait_for_child_processes, my_execute_command_line,
}

-- The number of times that a descriptor came out of a pipe, and that it was closed.
abbrev pub same_fd : ℕ → ℕ → ℕ
same_fd a b = if a == b then 1 else 0

abbrev pub held : ℕ → Option (ℕ × ℕ) → ℕ
held fd none = 0
held fd (some (r, w)) = same_fd fd r + same_fd fd w

abbrev pub times_opened : ℕ → List Action → ℕ
times_opened fd [] = 0
times_opened fd (piped r w ∷ log) = held fd (some (r, w)) + times_opened fd log
times_opened fd (_ ∷ log) = times_opened fd log

abbrev pub times_closed : ℕ → List Action → ℕ
times_closed fd [] = 0
times_closed fd (closed n ∷ log) = same_fd fd n + times_closed fd log
times_closed fd (_ ∷ log) = times_closed fd log

close_pair-closed :
    (fd : ℕ) (p : Option (ℕ × ℕ)) (log : List Action)
    → times_closed fd (close_pair p log) ≡ held fd p + times_closed fd log
close_pair-closed fd none log = omega arith
close_pair-closed fd (some (r, w)) log = omega arith

close_pair-opened :
    (fd : ℕ) (p : Option (ℕ × ℕ)) (log : List Action)
    → times_opened fd (close_pair p log) ≡ times_opened fd log
close_pair-opened fd none log = refl
close_pair-opened fd (some (r, w)) log = refl

-- A pipeline closes every end of a pipe that it opens, and the pipe that it began with.
Wired-closes :
    (fd : ℕ) {before : Option (ℕ × ℕ)} {cs : List Command} {log log' : List Action}
    {pids pids' : List ℕ}
    → Wired before cs log pids log' pids'
    → times_closed fd log' + times_opened fd log
      ≡ held fd before + times_closed fd log + times_opened fd log'
Wired-closes fd {before = before} {log = log} (final_child {c = c} pid) = omega (
  arith,
  close_pair-closed fd before
      (forked (record { cmd = c; input = read_end before; output = none }) pid ∷ log),
  close_pair-opened fd before
      (forked (record { cmd = c; input = read_end before; output = none }) pid ∷ log),
)
Wired-closes fd {before = before} {log = log} (next_child {c = c} r w pid wired) =
    let child : Action =
      forked (record { cmd = c; input = read_end before; output = some w }) pid in
    omega (
      arith,
      Wired-closes fd wired,
      close_pair-closed fd before (child ∷ piped r w ∷ log),
      close_pair-opened fd before (child ∷ piped r w ∷ log),
    )

wait-counts :
    (env : Env) (fd : ℕ) (pids : List ℕ) (last : ℤ) (log : List Action)
    → (times_closed fd (wait_for_child_processes env pids last log).1 ≡ times_closed fd log)
      × (times_opened fd (wait_for_child_processes env pids last log).1 ≡ times_opened fd log)
unfolding wait_for_child_processes
wait-counts env fd [] last log = (refl, refl)
wait-counts env fd (pid ∷ pids) last log =
    wait-counts env fd pids (status_or env last (env.waitpid log pid)) (waited pid ∷ log)

-- With pipes and processes left, a line of plain commands between pipes closes every descriptor as
-- often as it gets it from a pipe.
pub my_execute_command_line-closes :
    (env : Env) (line : CommandLine) (c : Command) (cs : List Command) (result : ExecutionResult)
    (log : List Action) (fd : ℕ)
    → HasRoom env
    → line.exprs ≡ pipeline (c ∷ cs)
    → ArePlain (c ∷ cs)
    → times_closed fd (my_execute_command_line env line result log).1 + times_opened fd log
      ≡ times_closed fd log + times_opened fd (my_execute_command_line env line result log).1
my_execute_command_line-closes env line c cs result log fd room shape plain =
    let (pids, log', wired, e) =
      my_execute_command_line-Wired env line c cs result log room shape plain in
    let (closes, opens) = wait-counts env fd pids (pos 0) log' in
    let after = ap (λ (r : ExecutionResult × List Action). times_closed fd r.1) e in
    let before = ap (λ (r : ExecutionResult × List Action). times_opened fd r.1) e in
    omega (arith, Wired-closes fd wired, closes, opens, after, before)
