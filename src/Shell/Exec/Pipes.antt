-- ===== src/Shell/Exec/Pipes.antt =====
-- hw2/solution.c: the execution of `c1 | c2 | … | cn` against what a pipeline is.
use system_programming_hw.Base.{
  ℕ, false, Option, none, some, List, [], ◌∷◌, ◌≡◌, refl, arith, ap, ◌∙◌, pos, minus_one,
}
use system_programming_hw.Parser.Line.{Command, Expr, command, pipe, CommandLine}
use system_programming_hw.Shell.Exec.{
  same_text, Job, Action, forked, piped, Env, handle_cd, handle_exit, Running, going,
  ExecutionResult, close_pair, read_end, write_end, next_is_pipe, move_pipe, start, opened,
  open_pipe, fork_result, job_of, run_command, run_expr, run_exprs, wait_for_child_processes,
  graceful_exit, settle, my_execute_command_line,
}

-- The expressions of `c1 | c2 | … | cn`.
abbrev pub pipeline : List Command → List Expr
pipeline [] = []
pipeline (c ∷ []) = command c ∷ []
pipeline (c ∷ d ∷ cs) = command c ∷ pipe ∷ pipeline (d ∷ cs)

-- A command that is neither `cd` nor `exit`.
abbrev pub IsPlain : Command → Type 0
IsPlain c = (handle_cd c ≡ false) × (same_text c.exe (b'e' ∷ b'x' ∷ b'i' ∷ b't' ∷ []) ≡ false)

abbrev pub ArePlain : List Command → Type 0
ArePlain [] = Unit
ArePlain (c ∷ cs) = IsPlain c × ArePlain cs

-- What a pipeline is: every command but the last is a child that writes to a new pipe, the next one
-- reads from this pipe, and both ends of it are closed once both children are there.
pub data Wired
    : Option (ℕ × ℕ) → List Command → List Action → List ℕ → List Action → List ℕ → Type 0 where
  final_child :
      {before : Option (ℕ × ℕ)} {c : Command} {log : List Action} {pids : List ℕ} (pid : ℕ)
      → Wired before
          (c ∷ [])
          log
          pids
          (close_pair before
            (forked (record { cmd = c; input = read_end before; output = none }) pid ∷ log))
          (pid ∷ pids)
  next_child :
      {before : Option (ℕ × ℕ)} {c d : Command} {cs : List Command} {log log' : List Action}
      {pids pids' : List ℕ} (r w pid : ℕ)
      → Wired
          (some (r, w))
          (d ∷ cs)
          (close_pair before (
            forked (record { cmd = c; input = read_end before; output = some w }) pid
            ∷ piped r w
            ∷ log))
          (pid ∷ pids)
          log'
          pids'
      → Wired before (c ∷ d ∷ cs) log pids log' pids'

-- A kernel that has pipes and processes left.
pub record HasRoom (env : Env) : Type 0 where
  pub pipes : (log : List Action) → (r w : ℕ) × (env.pipe log ≡ some (r, w))
  pub forks : (log : List Action) (job : Job) → (pid : ℕ) × (env.fork log job ≡ some pid)

plain-exit : (c : Command) (es : List Expr) → IsPlain c → handle_exit c es ≡ minus_one
unfolding handle_exit
plain-exit c es plain = rw plain.1 refl

module _ (env : Env) where
  -- A plain command becomes a child with the ends that are there.
  run_command-plain :
      (c : Command) (es : List Expr) (st : Running) (pid : ℕ)
      → IsPlain c
      → env.fork st.log (job_of env c st) ≡ some pid
      → run_command env c es st
        ≡ going (record st { pids = pid ∷ st.pids; log = forked (job_of env c st) pid ∷ st.log })
  unfolding run_command fork_result
  run_command-plain c es st pid plain forks = ground (arith, plain.0, plain-exit c es plain, forks)

  -- The state behind a command and the pipe that follows it.
  behind_pipe : Command → Running → ℕ → ℕ → ℕ → Running
  behind_pipe c st r w pid = record {
    prev_fd = some (r, w);
    curr_fd = none;
    pids = pid ∷ st.pids;
    log = close_pair st.prev_fd (
        forked (record { cmd = c; input = read_end st.prev_fd; output = some w }) pid
        ∷ piped r w
        ∷ st.log);
    first = false;
  }

  run_exprs-pipe :
      (c : Command) (es : List Expr) (st : Running) (r w pid : ℕ)
      → IsPlain c
      → next_is_pipe es ≡ false
      → env.pipe st.log ≡ some (r, w)
      → env.fork
          (piped r w ∷ st.log)
          (record { cmd = c; input = read_end st.prev_fd; output = some w })
        ≡ some pid
      → run_exprs env (command c ∷ pipe ∷ es) st ≡ run_exprs env es (behind_pipe c st r w pid)
  unfolding run_exprs run_expr open_pipe opened job_of move_pipe behind_pipe
  run_exprs-pipe c es st r w pid plain no_pipe pipes forks = rw pipes (
      rw
        (run_command-plain c (pipe ∷ es)
          (record st { curr_fd = some (r, w); log = piped r w ∷ st.log }) pid plain forks)
        (rw no_pipe refl))

  no_pipe : (c : Command) (cs : List Command) → next_is_pipe (pipeline (c ∷ cs)) ≡ false
  no_pipe c [] = refl
  no_pipe c (d ∷ cs) = refl

  -- What the loop makes of the pipeline from a state on.
  Wires : List Command → Running → Type 0
  Wires cs st =
      (st' : Running) × (run_exprs env (pipeline cs) st ≡ going st')
      × Wired st.prev_fd cs st.log st.pids (close_pair st'.prev_fd st'.log) st'.pids

  last-Wires :
      (room : HasRoom env) (c : Command) (st : Running)
      → IsPlain c
      → st.curr_fd ≡ none
      → Wires (c ∷ []) st
  unfolding Wires run_exprs run_expr open_pipe job_of
  last-Wires room c st plain idle =
      let job : Job = record { cmd = c; input = read_end st.prev_fd; output = none } in
      let (pid, e) = room.forks st.log job in
      let same : job_of env c st ≡ job =
        ap
          (λ (f : Option (ℕ × ℕ)). record {
            cmd = c;
            input = read_end st.prev_fd;
            output = write_end f;
          })
          idle in
      (
        record st { pids = pid ∷ st.pids; log = forked job pid ∷ st.log; first = false },
        rw (run_command-plain c [] st pid plain (ap (λ (j : Job). env.fork st.log j) same ∙ e))
            (rw same refl),
        final_child pid,
      )

  run_exprs-Wires :
      (room : HasRoom env) (c : Command) (cs : List Command) (st : Running)
      → ArePlain (c ∷ cs)
      → st.curr_fd ≡ none
      → Wires (c ∷ cs) st
  unfolding Wires behind_pipe
  run_exprs-Wires room c [] st (plain, plains) idle = last-Wires room c st plain idle
  run_exprs-Wires room c (d ∷ cs) st (plain, plains) idle =
      let (r, w, p) = room.pipes st.log in
      let (pid, f) =
        room.forks (piped r w ∷ st.log)
          (record { cmd = c; input = read_end st.prev_fd; output = some w }) in
      let (st', ran, wired) = run_exprs-Wires room d cs (behind_pipe c st r w pid) plains refl in
      (
        st',
        run_exprs-pipe c (pipeline (d ∷ cs)) st r w pid plain (no_pipe d cs) p f ∙ ran,
        next_child r w pid wired,
      )

  -- With pipes and processes left, a line of plain commands between pipes starts exactly the children
  -- of a pipeline, in order, each with the ends of the right pipes; it has then closed these, and waits
  -- for all of the children.
  pub my_execute_command_line-Wired :
      (line : CommandLine) (c : Command) (cs : List Command) (result : ExecutionResult)
      (log : List Action)
      → HasRoom env
      → line.exprs ≡ pipeline (c ∷ cs)
      → ArePlain (c ∷ cs)
      → (pids : List ℕ) × (log' : List Action) × Wired none (c ∷ cs) log [] log' pids
        × (my_execute_command_line env line result log ≡ (
          record result { exit_code = (wait_for_child_processes env pids (pos 0) log').0 },
          (wait_for_child_processes env pids (pos 0) log').1,
        ))
  unfolding my_execute_command_line settle graceful_exit Wires
  my_execute_command_line-Wired line c cs result log room shape plain =
      let (st, ran, wired) = run_exprs-Wires room c cs (start log) plain refl in
      (st.pids, close_pair st.prev_fd st.log, wired, rw (shape, ran) refl)
