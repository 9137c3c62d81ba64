-- ===== src/Shell/Main/Tests.antt =====
-- hw2/solution.c: the theorems on the execution at concrete inputs.
use system_programming_hw.Base.{
  ℕ, ◌+◌, ◌==◌, true, false, none, some, List, [], ◌∷◌, ◌++◌, Bytes, arith, ◌≡◌, ◌≢◌, refl, pos,
  if◌then◌else◌,
}
use system_programming_hw.Parser.Line.{Command, command, pipe, empty_line, CommandLine, file_new}
use system_programming_hw.Parser.Buffer.{Parser}
use system_programming_hw.Parser.Pop.{parser_pop_next}
use system_programming_hw.Shell.{executed, drain}
use system_programming_hw.Shell.Exec.{
  Action, forked, waited, Env, atoi, status_or, exit_argument, handle_cd, handle_exit, job_of,
  open_pipe, run_exprs, my_execute_command_line, wait_for_child_processes,
}
use system_programming_hw.Shell.Exec.Status.{my_execute_command_line-first_child}
use system_programming_hw.Shell.Exec.Pipes.{pipeline, HasRoom, Wired, my_execute_command_line-Wired}
use system_programming_hw.Shell.Exec.Exit.{exit_job}
use system_programming_hw.Shell.Exec.Child.{ChildEnv, inherited, Fds, run_child}
use system_programming_hw.Shell.Exec.Child.Plumbing.{Plumbed, run_child_lem}
use system_programming_hw.Shell.Main.{Session, out_of_fuel, serve, read_loop, no_result}
use system_programming_hw.Shell.Main.Serves.{
  outcome, carry_out, serve-Carries, read_loop_terminates,
}
use system_programming_hw.Shell.Main.Exits.{serve-exit}

abbrev exe : Bytes → List Bytes → Command
exe name args = record { exe = name; args = args; arg_capacity = 2 }

abbrev a_b : List Command
a_b = exe (b'a' ∷ []) [] ∷ exe (b'b' ∷ []) ((b'x' ∷ []) ∷ []) ∷ []

abbrev piped_line : CommandLine
piped_line = record empty_line { exprs = pipeline a_b }

abbrev size : List Action → ℕ
size [] = 0
size (action ∷ log) = size log + 1

-- Every call succeeds; the log's length gives the numbers. The child 11 exits with 3, others with 0.
abbrev kernel : Env
kernel = record {
  pipe = λ log. some (size log + 3, size log + 4);
  fork = λ log job. some (size log + 10);
  waitpid = λ log pid. if pid == 11 then some 3 else some 0;
  home = λ log. b'/' ∷ [];
}

kernel-HasRoom : HasRoom kernel
kernel-HasRoom = record {
  pipes = λ log. (size log + 3, size log + 4, refl);
  forks = λ log job. (size log + 10, refl);
}

my_execute_command_line-Wired_example :
    (pids : List ℕ) × (log' : List Action) × Wired none a_b [] [] log' pids
    × (my_execute_command_line kernel piped_line no_result [] ≡ (
      record no_result { exit_code = (wait_for_child_processes kernel pids (pos 0) log').0 },
      (wait_for_child_processes kernel pids (pos 0) log').1,
    ))
unfolding handle_cd
my_execute_command_line-Wired_example =
    my_execute_command_line-Wired kernel piped_line (exe (b'a' ∷ []) [])
      (exe (b'b' ∷ []) ((b'x' ∷ []) ∷ []) ∷ []) no_result [] kernel-HasRoom refl
      ((refl, refl), ((refl, refl), tt))

abbrev failing : Env
failing = record kernel { waitpid = λ log pid. some 3 }

-- `a | b x`, where `a` exits with 3.
my_execute_command_line-first_child_example :
    (my_execute_command_line failing piped_line no_result []).0
    ≡ record no_result { exit_code = pos 3 }
unfolding handle_cd handle_exit open_pipe run_exprs job_of
my_execute_command_line-first_child_example =
    my_execute_command_line-first_child failing piped_line no_result [] (exe (b'a' ∷ []) [])
      (pipe ∷ command (exe (b'b' ∷ []) ((b'x' ∷ []) ∷ [])) ∷ []) _ _ 11 3 refl refl refl refl refl
      refl (λ log. refl)

-- The text `exit 5` and `exit -1`, as a line, in a session where a line has ended with 0 before.
abbrev exit_session : Bytes → Session
exit_session number = record {
  parser = record {
    buffer = b'e' ∷ b'x' ∷ b'i' ∷ b't' ∷ b' ' ∷ (number ++ 10 ∷ []);
    capacity = 16;
  };
  result = record no_result { exit_code = pos 0 };
  log = [];
}

abbrev nothing_left : Parser
nothing_left = record { buffer = []; capacity = 16 }

runs_exit_minus_one :
    serve kernel 4 (exit_session (b'-' ∷ b'1' ∷ []))
    ≡ serve kernel 3 (record {
      parser = nothing_left;
      result = record no_result { exit_code = pos 0 };
      log = waited 10 ∷ forked (exit_job ((b'-' ∷ b'1' ∷ []) ∷ []) 2) 10 ∷ [];
    })
unfolding parser_pop_next exit_argument atoi status_or serve
runs_exit_minus_one =
    serve-exit kernel 3 (exit_session (b'-' ∷ b'1' ∷ [])) _ nothing_left ((b'-' ∷ b'1' ∷ []) ∷ []) 2
      10 refl refl refl refl

abbrev child_kernel : ChildEnv
child_kernel = record {
  dup2 = λ a b. true;
  open_file = λ name m. some 7;
  execvp = λ name args. false;
}

abbrev at_fork : Fds
at_fork k = some (inherited k)

-- The last command of a pipeline with its output in a file.
run_child_example :
    Plumbed child_kernel
      (record empty_line { out_type = file_new; out_file = some (b'f' ∷ []) })
      (exe (b'b' ∷ []) ((b'x' ∷ []) ∷ []))
      no_result
      (some (3, 4))
      none
      at_fork
      (run_child child_kernel
        (record empty_line { out_type = file_new; out_file = some (b'f' ∷ []) })
        (exe (b'b' ∷ []) ((b'x' ∷ []) ∷ []))
        no_result
        (some (3, 4))
        none
        at_fork)
run_child_example =
    run_child_lem child_kernel
      (record { places = λ a b. refl; opens = λ name m. (7, refl, omega arith) })
      (record empty_line { out_type = file_new; out_file = some (b'f' ∷ []) })
      (exe (b'b' ∷ []) ((b'x' ∷ []) ∷ [])) no_result (some (3, 4)) none at_fork
      (omega arith, omega arith, omega arith, (inherited 3, refl), (inherited 4, refl)) tt
      (λ k e e'. e')

abbrev two_words : Session
two_words = record {
  parser = record { buffer = b'a' ∷ 10 ∷ b'b' ∷ []; capacity = 8 };
  result = no_result;
  log = [];
}

serve-Carries_example :
    outcome (serve kernel 4 two_words)
    ≡ some (
        carry_out kernel
          (executed (record empty_line {
            exprs = command (record { exe = b'a' ∷ []; args = []; arg_capacity = 0 }) ∷ [];
          })
            ∷ [])
          no_result
          [])
unfolding drain parser_pop_next
serve-Carries_example =
    serve-Carries kernel 4 two_words _ (record { buffer = b'b' ∷ []; capacity = 8 }) refl

read_loop_terminates_example : read_loop kernel ((b'a' ∷ 10 ∷ []) ∷ []) two_words ≢ out_of_fuel
read_loop_terminates_example = read_loop_terminates kernel ((b'a' ∷ 10 ∷ []) ∷ []) two_words
