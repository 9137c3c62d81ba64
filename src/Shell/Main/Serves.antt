-- ===== src/Shell/Main/Serves.antt =====
-- hw2/solution.c: the loops of `main` with the execution of lines, against the loop over the parser
-- alone.
use mathlib.Core.Path.{subst}
use system_programming_hw.Base.{
  ℕ, zero, suc, Bool, true, false, Option, none, some, List, [], ◌∷◌, ◌≡◌, ◌≢◌, refl, ap, arith,
  Bytes, length, Checked, ok, crash, if◌then◌else◌,
}
use system_programming_hw.Parser.Line.{CommandLine, ParserError, err_none}
use system_programming_hw.Parser.Buffer.{Parser, parser_feed}
use system_programming_hw.Parser.Pop.{parser_pop_next}
use system_programming_hw.Shell.{
  Event, refused, executed, Drained, drained, no_fuel, behind, drain_next, drain,
}
use system_programming_hw.Shell.Chunks.{behind-eq-drained, drain_all_terminates}
use system_programming_hw.Shell.Exec.{Action, Env, ExecutionResult, my_execute_command_line}
use system_programming_hw.Shell.Main.{
  Session, Served, waiting, exits, died, out_of_fuel, is_forced, after_line, execute_line,
  serve_next, serve, serve_fed, and_read, read_loop,
}

abbrev pub Popped : Type 0
Popped = Checked (ParserError × Option CommandLine × Parser)

-- What a loop leaves besides the parser: whether it waits for more, the results, and the log.
abbrev pub Carried : Type 0
Carried = Bool × ExecutionResult × List Action

abbrev pub outcome : Served → Option Carried
outcome (waiting s) = some (true, s.result, s.log)
outcome (exits s) = some (false, s.result, s.log)
outcome died = none
outcome out_of_fuel = none

module _ (env : Env) where
  -- The lines among the events, executed one after another up to the first that asks for the exit.
  unfoldable pub carry_out : List Event → ExecutionResult → List Action → Carried
  carry_out [] result log = (true, result, log)
  carry_out (refused error ∷ es) result log = carry_out es result log
  carry_out (executed line ∷ es) result log =
      let (result', log') = my_execute_command_line env line result log in
      let rest = carry_out es result' log' in
      if is_forced result' then (false, result', log') else rest

  Carries : Served → List Event → Session → Type 0
  Carries served es s = outcome served ≡ some (carry_out es s.result s.log)

  after_line-Carries :
      (again : Session → Served) (s s' : Session) (line : CommandLine) (es : List Event)
      → (s'.result, s'.log) ≡ my_execute_command_line env line s.result s.log
      → Carries (again s') es s'
      → Carries (after_line env again s') (executed line ∷ es) s
  unfolding Carries carry_out after_line
  after_line-Carries again s s' line es same h =
      subst
        (λ (r : ExecutionResult × List Action).
          outcome (if is_forced s'.result then exits s' else again s')
          ≡ some (if is_forced r.0 then (false, r.0, r.1) else carry_out es r.0 r.1))
        same (by_test (is_forced s'.result))
    where
      by_test :
          (b : Bool)
          → outcome (if b then exits s' else again s')
            ≡ some (if b then (false, s'.result, s'.log) else carry_out es s'.result s'.log)
      by_test true = refl
      by_test false = h

  serve_next-Carries :
      (f : ℕ) (s : Session) (r : Popped) (es : List Event) (q : Parser)
      → ((s' : Session) (fs : List Event)
          → drain f s'.parser ≡ drained fs q
          → Carries (serve env f s') fs s')
      → drain_next (drain f) r ≡ drained es q
      → Carries (serve_next env (serve env f) s r) es s
  unfolding Carries drain_next serve_next execute_line carry_out
  serve_next-Carries f s crash es q again e = absurd (cc e)
  serve_next-Carries f s (ok (err_none, none, p)) es q again e =
      let nil : [] ≡ es = cc e in ap (λ (l : List Event). some (carry_out l s.result s.log)) nil
  serve_next-Carries f s (ok (err_none, some line, p)) es q again e =
      let (fs, d, shape) = behind-eq-drained (executed line) (drain f p) e in
      subst
        (λ (l : List Event).
          Carries (serve_next env (serve env f) s (ok (err_none, some line, p))) l s)
        shape
        (after_line-Carries (serve env f) s (execute_line env s line p) line fs refl
          (again (execute_line env s line p) fs d))
  serve_next-Carries f s (ok (error, none, p)) es q again e = absurd (cc e)
  serve_next-Carries f s (ok (error, some line, p)) es q again e =
      let (fs, d, shape) = behind-eq-drained (refused error) (drain f p) e in
      subst
        (λ (l : List Event).
          Carries (serve_next env (serve env f) s (ok (error, some line, p))) l s)
        shape (again (record s { parser = p }) fs d)

  -- Where the loop over the parser alone comes to where it waits for more, the inner loop of main
  -- with the execution does what the lines of its rounds do one after another, up to the first that
  -- asks for the exit: it waits for input or exits as they say, with their results and their calls of
  -- the kernel.
  pub serve-Carries :
      (f : ℕ) (s : Session) (es : List Event) (q : Parser)
      → drain f s.parser ≡ drained es q
      → outcome (serve env f s) ≡ some (carry_out es s.result s.log)
  unfolding Carries drain serve
  serve-Carries zero s es q e = absurd (cc e)
  serve-Carries (suc f) s es q e =
      serve_next-Carries f s (parser_pop_next s.parser) es q (λ s' fs d. serve-Carries f s' fs q d)
        e

  -- The loop with the execution has enough fuel where the loop over the parser alone has.
  behind-no_fuel : (es : List Event) (d : Drained) → d ≡ no_fuel → behind es d ≡ no_fuel
  behind-no_fuel es d e = rw e refl

  after_line-fuel :
      (again : Session → Served) (s : Session)
      → after_line env again s ≡ out_of_fuel
      → again s ≡ out_of_fuel
  unfolding after_line
  after_line-fuel again s e = ground (arith, e)

  serve_next-fuel :
      (f : ℕ) (s : Session) (r : Popped)
      → ((s' : Session) → serve env f s' ≡ out_of_fuel → drain f s'.parser ≡ no_fuel)
      → serve_next env (serve env f) s r ≡ out_of_fuel
      → drain_next (drain f) r ≡ no_fuel
  unfolding serve_next execute_line drain_next
  serve_next-fuel f s crash again e = absurd (cc e)
  serve_next-fuel f s (ok (err_none, none, p)) again e = absurd (cc e)
  serve_next-fuel f s (ok (err_none, some line, p)) again e =
      behind-no_fuel (executed line ∷ []) (drain f p) (
        again (execute_line env s line p)
          (after_line-fuel (serve env f) (execute_line env s line p) e))
  serve_next-fuel f s (ok (error, none, p)) again e = absurd (cc e)
  serve_next-fuel f s (ok (error, some line, p)) again e =
      behind-no_fuel (refused error ∷ []) (drain f p) (again (record s { parser = p }) e)

  serve-fuel : (f : ℕ) (s : Session) → serve env f s ≡ out_of_fuel → drain f s.parser ≡ no_fuel
  unfolding serve drain
  serve-fuel zero s e = refl
  serve-fuel (suc f) s e = serve_next-fuel f s (parser_pop_next s.parser) (serve-fuel f) e

  serve_fed-ends : (s : Session) (p : Checked Parser) → serve_fed env s p ≢ out_of_fuel
  unfolding serve_fed
  serve_fed-ends s crash e = absurd (cc e)
  serve_fed-ends s (ok p) e =
      drain_all_terminates p (serve-fuel (suc (length p.buffer)) (record s { parser = p }) e)

  and_read-ends :
      (next : Session → Served) (served : Served)
      → ((s : Session) → next s ≢ out_of_fuel)
      → served ≢ out_of_fuel
      → and_read env next served ≢ out_of_fuel
  unfolding and_read
  and_read-ends next (waiting s) h ends e = h s e
  and_read-ends next (exits s) h ends e = absurd (cc e)
  and_read-ends next died h ends e = absurd (cc e)
  and_read-ends next out_of_fuel h ends e = ends refl

  -- Whatever pieces of input come, and whatever the kernel answers, the loops of main end within the
  -- fuel of one round more than there are bytes in the parser.
  pub read_loop_terminates :
      (pieces : List Bytes) (s : Session) → read_loop env pieces s ≢ out_of_fuel
  unfolding read_loop
  read_loop_terminates [] s e = absurd (cc e)
  read_loop_terminates ([] ∷ pieces) s e = absurd (cc e)
  read_loop_terminates ((b ∷ bytes) ∷ pieces) s e =
      and_read-ends (read_loop env pieces) (serve_fed env s (parser_feed s.parser (b ∷ bytes)))
        (read_loop_terminates pieces) (serve_fed-ends s (parser_feed s.parser (b ∷ bytes))) e
