-- ===== src/Shell/Main/Exits.antt =====
-- hw2/solution.c: the line `exit` in the loop of `main`, and the exit code after it.
use system_programming_hw.Base.{
  ℕ, suc, Bool, true, false, not, some, List, [], ◌∷◌, Bytes, ◌≡◌, refl, ap, ◌∙◌, ok, if◌then◌else◌,
  ℤ, pos, is_minus_one,
}
use system_programming_hw.Parser.Line.{command, CommandLine, err_none}
use system_programming_hw.Parser.Buffer.{Parser}
use system_programming_hw.Parser.Pop.{parser_pop_next}
use system_programming_hw.Shell.Exec.{
  Action, forked, waited, Env, ExecutionResult, exit_argument, status_or, my_execute_command_line,
}
use system_programming_hw.Shell.Exec.Exit.{exit_command, exit_job, exit-result, exit-child}
use system_programming_hw.Shell.Main.{
  Session, Served, exits, is_forced, exit_status, after_line, execute_line, serve_next, serve,
}

-- What the inner loop of main does with a line that is `exit` alone, by whether its argument is -1, where
-- `pid` is the number of the next child.
abbrev pub AfterExit : Env → ℕ → Session → Parser → List Bytes → ℕ → ℕ → Bool → Type 0
AfterExit env fuel s p args capacity pid false =
    (serve env (suc fuel) s
      ≡ exits (record {
        parser = p;
        result = record s.result { force_exit_code = exit_argument args };
        log = s.log;
      }))
    × (exit_status (record s.result { force_exit_code = exit_argument args })
        ≡ (if is_minus_one s.result.exit_code then exit_argument args else s.result.exit_code))
AfterExit env fuel s p args capacity pid true =
    serve env (suc fuel) s
    ≡ serve env fuel (record {
      parser = p;
      result = record s.result {
        exit_code =
            status_or env (pos 0) (env.waitpid (forked (exit_job args capacity) pid ∷ s.log) pid);
      };
      log = waited pid ∷ forked (exit_job args capacity) pid ∷ s.log;
    })

module _ (env : Env) where
  -- A line of one command, through the loop.
  serve-line :
      (fuel : ℕ) (s : Session) (line : CommandLine) (p : Parser) (result : ExecutionResult)
      (log : List Action)
      → parser_pop_next s.parser ≡ ok (err_none, some line, p)
      → my_execute_command_line env line s.result s.log ≡ (result, log)
      → serve env (suc fuel) s
        ≡ after_line env (serve env fuel) (record { parser = p; result = result; log = log })
  unfolding serve serve_next execute_line
  serve-line fuel s line p result log pops runs =
      ap (serve_next env (serve env fuel) s) pops
      ∙ ap
          (λ (r : ExecutionResult × List Action).
            after_line env (serve env fuel) (record { parser = p; result = r.0; log = r.1 }))
          runs

  stops :
      (again : Session → Served) (p : Parser) (code : ℤ) (s : Session)
      → is_minus_one code ≡ false
      → after_line env again
          (record { parser = p; result = record s.result { force_exit_code = code }; log = s.log })
        ≡ exits (record {
          parser = p;
          result = record s.result { force_exit_code = code };
          log = s.log;
        })
  unfolding after_line
  stops again p code s asked = rw asked refl

  goes_on :
      (again : Session → Served) (s : Session)
      → is_forced s.result ≡ false
      → after_line env again s ≡ again s
  unfolding after_line
  goes_on again s calm = rw calm refl

  code :
      (result : ExecutionResult) (asked : ℤ)
      → is_minus_one asked ≡ false
      → exit_status (record result { force_exit_code = asked })
        ≡ (if is_minus_one result.exit_code then asked else result.exit_code)
  unfolding exit_status
  code result asked e = rw e (by_test (is_minus_one result.exit_code))
    where
      by_test :
          (b : Bool)
          → (if not b then result.exit_code else asked) ≡ (if b then asked else result.exit_code)
      by_test true = refl
      by_test false = refl

  pub serve-exit :
      (fuel : ℕ) (s : Session) (line : CommandLine) (p : Parser) (args : List Bytes)
      (capacity pid : ℕ)
      → parser_pop_next s.parser ≡ ok (err_none, some line, p)
      → line.exprs ≡ command (exit_command args capacity) ∷ []
      → is_forced s.result ≡ false
      → env.fork s.log (exit_job args capacity) ≡ some pid
      → AfterExit env fuel s p args capacity pid (is_minus_one (exit_argument args))
  serve-exit fuel s line p args capacity pid pops shape calm forks =
      by_argument (is_minus_one (exit_argument args)) refl
    where
      by_argument :
          (b : Bool)
          → is_minus_one (exit_argument args) ≡ b
          → AfterExit env fuel s p args capacity pid b
      by_argument false asked = (
        serve-line fuel s line p _ _ pops
              (exit-result env line s.result s.log args capacity shape asked)
            ∙ stops (serve env fuel) p (exit_argument args) s asked,
        code s.result (exit_argument args) asked,
      )
      by_argument true asked =
          serve-line fuel s line p _ _ pops
            (exit-child env line s.result s.log args capacity pid shape asked forks)
          ∙ goes_on (serve env fuel) _ calm
