-- ===== src/Shell/Exec/Status.antt =====
-- hw2/solution.c: the list of children of a line, and the status that the line leaves.
use mathlib.Core.Path.{subst}
use system_programming_hw.Base.{
  ℕ, Bool, true, false, not, ◌&&◌, Option, none, some, List, [], ◌∷◌, ◌++◌, ◌≡◌, refl, arith, sym,
  ap, ◌∙◌, append_assoc, if◌then◌else◌, ℤ, pos, minus_one, is_minus_one,
}
use system_programming_hw.Parser.Line.{Command, Expr, command, pipe, and, or, CommandLine}
use system_programming_hw.Shell.Exec.{
  start, opened, fork_result, job_of, status_or, settle, close_pair, Job, Action, forked, Env,
  handle_cd, handle_exit, Running, Ran, going, forced, and_then, ExecutionResult, next_is_pipe,
  move_pipe, open_pipe, run_command, run_expr, run_exprs, wait_for_child_processes, graceful_exit,
  my_execute_command_line,
}

-- The children of one state are those of another with more in front.
Grows : List ℕ → Ran → Type 0
Grows pids (going st) = (front : List ℕ) × (st.pids ≡ front ++ pids)
Grows pids (forced code st) = (front : List ℕ) × (st.pids ≡ front ++ pids)

and_then-Grows :
    (pids : List ℕ) (r : Ran) (next : Running → Ran)
    → Grows pids r
    → ((st : Running) → Grows st.pids (next st))
    → Grows pids (and_then r next)
unfolding Grows
and_then-Grows pids (forced code st) next g h = g
and_then-Grows pids (going st) next (front, e) h = widen (next st) (h st)
  where
    widen : (r : Ran) → Grows st.pids r → Grows pids r
    widen (going st') (more, e') = (more ++ front, (rw (e', e, append_assoc)))
    widen (forced code st') (more, e') = (more ++ front, (rw (e', e, append_assoc)))

if-Grows :
    (pids : List ℕ) (b : Bool) (x y : Ran)
    → Grows pids x
    → Grows pids y
    → Grows pids (if b then x else y)
if-Grows pids true x y gx gy = gx
if-Grows pids false x y gx gy = gy

module _ (env : Env) where
  opened-Grows : (st : Running) (p : Option (ℕ × ℕ)) → Grows st.pids (opened env st p)
  unfolding Grows opened
  opened-Grows st none = ([], refl)
  opened-Grows st (some (r, w)) = ([], refl)

  open_pipe-Grows : (rest : List Expr) (st : Running) → Grows st.pids (open_pipe env rest st)
  unfolding Grows open_pipe
  open_pipe-Grows rest st =
      if-Grows st.pids (next_is_pipe rest) (opened env st (env.pipe st.log)) (going st)
        (opened-Grows st (env.pipe st.log)) ([], refl)

  fork_result-Grows :
      (job : Job) (st : Running) (pid : Option ℕ) → Grows st.pids (fork_result env job st pid)
  unfolding Grows fork_result
  fork_result-Grows job st none = ([], refl)
  fork_result-Grows job st (some pid) = (pid ∷ [], refl)

  run_command-Grows :
      (cmd : Command) (rest : List Expr) (st : Running)
      → Grows st.pids (run_command env cmd rest st)
  unfolding Grows run_command
  run_command-Grows cmd rest st =
      if-Grows st.pids (handle_cd cmd) _ _ ([], refl)
        (if-Grows st.pids (st.first && not (is_minus_one (handle_exit cmd rest))) _ _ ([], refl)
          (fork_result-Grows (job_of env cmd st) st (env.fork st.log (job_of env cmd st))))

  run_expr-Grows :
      (e : Expr) (rest : List Expr) (st : Running) → Grows st.pids (run_expr env e rest st)
  unfolding Grows run_expr move_pipe
  run_expr-Grows (command cmd) rest st = run_command-Grows cmd rest st
  run_expr-Grows pipe rest st = ([], refl)
  run_expr-Grows and rest st = ([], refl)
  run_expr-Grows or rest st = ([], refl)

  run_exprs-Grows : (es : List Expr) (st : Running) → Grows st.pids (run_exprs env es st)
  unfolding Grows run_exprs
  run_exprs-Grows [] st = ([], refl)
  run_exprs-Grows (e ∷ es) st =
      and_then-Grows st.pids (open_pipe env es st) _ (open_pipe-Grows es st) λ st'.
        and_then-Grows st'.pids (run_expr env e es st') _ (run_expr-Grows e es st')
          λ st''. run_exprs-Grows es (record st'' { first = false })

  -- The child that is waited for last gives the status.
  wait-last :
      (pids : List ℕ) (pid : ℕ) (status : ℕ) (last : ℤ) (log : List Action)
      → ((l : List Action) → env.waitpid l pid ≡ some status)
      → (wait_for_child_processes env (pids ++ pid ∷ []) last log).0 ≡ pos status
  unfolding wait_for_child_processes status_or
  wait-last [] pid status last log answers = rw (answers log) refl
  wait-last (p ∷ pids) pid status last log answers = wait-last pids pid status _ _ answers

  settle-going :
      (result : ExecutionResult) (st : Running) (pid status : ℕ)
      → ((front : List ℕ) × (st.pids ≡ front ++ pid ∷ []))
      → ((l : List Action) → env.waitpid l pid ≡ some status)
      → (settle env result (going st)).0 ≡ record result { exit_code = pos status }
  unfolding settle graceful_exit
  settle-going result st pid status (front, e) answers =
      ap (λ (code : ℤ). record result { exit_code = code })
        (rw e (wait-last front pid status (pos 0) (close_pair st.prev_fd st.log) answers))

  -- The rest of a line leaves a child that is there at the end of the list.
  run_exprs-going :
      (es : List Expr) (st st' : Running) (pid : ℕ)
      → st.pids ≡ pid ∷ []
      → run_exprs env es st ≡ going st'
      → (front : List ℕ) × (st'.pids ≡ front ++ pid ∷ [])
  unfolding Grows
  run_exprs-going es st st' pid one ran =
      let grown = run_exprs-Grows es st in
      let (front, e) = subst (Grows st.pids) ran grown in
      (front, e ∙ ap (λ (ps : List ℕ). front ++ ps) one)

  run_command-child :
      (cmd : Command) (es : List Expr) (st : Running) (pid : ℕ)
      → handle_cd cmd ≡ false
      → handle_exit cmd es ≡ minus_one
      → env.fork st.log (job_of env cmd st) ≡ some pid
      → run_command env cmd es st
        ≡ going (record st { pids = pid ∷ st.pids; log = forked (job_of env cmd st) pid ∷ st.log })
  unfolding run_command fork_result
  run_command-child cmd es st pid no_cd no_exit forks = ground (arith, no_cd, no_exit, forks)

  open_pipe-pids :
      (rest : List Expr) (st st' : Running) → open_pipe env rest st ≡ going st' → st'.pids ≡ st.pids
  unfolding open_pipe opened
  open_pipe-pids rest st st' e = ground (arith, e)

  -- The loop behind a first command that has become a child.
  run_exprs-child :
      (cmd : Command) (es : List Expr) (log : List Action) (ready : Running) (pid : ℕ)
      → handle_cd cmd ≡ false
      → handle_exit cmd es ≡ minus_one
      → open_pipe env es (start log) ≡ going ready
      → env.fork ready.log (job_of env cmd ready) ≡ some pid
      → run_exprs env (command cmd ∷ es) (start log)
        ≡ run_exprs env es (record ready {
          pids = pid ∷ ready.pids;
          log = forked (job_of env cmd ready) pid ∷ ready.log;
          first = false;
        })
  unfolding run_exprs run_expr
  run_exprs-child cmd es log ready pid no_cd no_exit opens forks =
      rw opens (rw (run_command-child cmd es ready pid no_cd no_exit forks) refl)

  -- Where no call of the kernel fails, the status of a line that begins with a child is that of
  -- this first child, if it exits, whatever children follow it.
  pub my_execute_command_line-first_child :
      (line : CommandLine) (result : ExecutionResult) (log : List Action) (cmd : Command)
      (es : List Expr) (ready st : Running) (pid status : ℕ)
      → line.exprs ≡ command cmd ∷ es
      → handle_cd cmd ≡ false
      → handle_exit cmd es ≡ minus_one
      → open_pipe env es (start log) ≡ going ready
      → env.fork ready.log (job_of env cmd ready) ≡ some pid
      → run_exprs env line.exprs (start log) ≡ going st
      → ((l : List Action) → env.waitpid l pid ≡ some status)
      → (my_execute_command_line env line result log).0 ≡ record result { exit_code = pos status }
  unfolding my_execute_command_line
  my_execute_command_line-first_child line result log cmd es ready st pid status shape no_cd no_exit
        opens forks ran answers =
      let child = run_exprs-child cmd es log ready pid no_cd no_exit opens forks in
      let same = ap (λ (l : List Expr). run_exprs env l (start log)) shape in
      let none_before = open_pipe-pids es (start log) ready opens in
      let front =
        run_exprs-going es _ st pid (ap (λ (ps : List ℕ). pid ∷ ps) none_before)
          (sym child ∙ sym same ∙ ran) in
      rw ran (settle-going result st pid status front answers)
