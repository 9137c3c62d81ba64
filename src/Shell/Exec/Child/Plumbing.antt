-- ===== src/Shell/Exec/Child/Plumbing.antt =====
-- hw2/solution.c: the descriptors with which the program of a child starts.
use system_programming_hw.Base.{
  inl, inr, ◌⊎◌, ℕ_discrete, ℕ, ◌<◌, ◌==◌, true, Option, none, some, Bytes, ◌≡◌, ◌≢◌, refl, ap, ◌∙◌,
  arith, if◌then◌else◌,
}
use system_programming_hw.Parser.Line.{
  Command, OutputType, stdout, file_new, file_append, CommandLine,
}
use system_programming_hw.Shell.Exec.{ExecutionResult}
use system_programming_hw.Shell.Exec.Child.{
  Mode, truncate, append, ChildEnv, Stream, file, Fds, put, close, and_next, ChildEnd, runs, argv,
  after_exec, duplicate, moved_to, input_part, opened_as, redirect, output_part, execute, run_child,
}

-- A kernel where descriptors can be put in place, and files be opened, behind the standard streams.
pub record Works (env : ChildEnv) : Type 0 where
  pub places : (a b : ℕ) → env.dup2 a b ≡ true
  pub opens :
      (name : Option Bytes) (m : Mode) → (fd : ℕ) × (env.open_file name m ≡ some fd) × (2 < fd)

-- The ends of a pipe are open, apart, and behind the standard streams.
abbrev pub IsPipe : Option (ℕ × ℕ) → Fds → Type 0
IsPipe none fds = Unit
IsPipe (some (r, w)) fds =
    (2 < r)
    × (2 < w)
    × (r ≢ w)
    × ((st : Stream) × (fds r ≡ some st))
    × ((st : Stream) × (fds w ≡ some st))

-- A descriptor is one of the two ends, if there is a pipe.
abbrev pub IsEnd : ℕ → Option (ℕ × ℕ) → Type 0
IsEnd k none = ⊥
IsEnd k (some (r, w)) = (k ≡ r) ⊎ (k ≡ w)

abbrev pub wanted_input : Option (ℕ × ℕ) → Fds → Option Stream
wanted_input none fds = fds 0
wanted_input (some (r, w)) fds = fds r

abbrev pub wanted_file : OutputType → Option Bytes → Fds → Option Stream
wanted_file stdout name fds = fds 1
wanted_file file_new name fds = some (file name truncate)
wanted_file file_append name fds = some (file name append)

abbrev pub wanted_output : CommandLine → Option (ℕ × ℕ) → Fds → Option Stream
wanted_output line none fds = wanted_file line.out_type line.out_file fds
wanted_output line (some (r, w)) fds = fds w

-- The descriptors behind the first part: the standard input is in place, both ends are closed, and
-- nothing else has changed.
record InputSet (prev_fd : Option (ℕ × ℕ)) (fds : Fds) (r : Option Fds) : Type 0 where
  after : Fds
  result : r ≡ some after
  input : after 0 ≡ wanted_input prev_fd fds
  closed : (k : ℕ) → IsEnd k prev_fd → after k ≡ none
  others : (k : ℕ) → 0 < k → (IsEnd k prev_fd → ⊥) → after k ≡ fds k

-- And behind the second part.
record OutputSet (line : CommandLine) (curr_fd : Option (ℕ × ℕ)) (fds : Fds) (r : Option Fds)
    : Type 0 where
  after : Fds
  result : r ≡ some after
  input : after 0 ≡ fds 0
  output : after 1 ≡ wanted_output line curr_fd fds
  errors : after 2 ≡ fds 2
  closed : (k : ℕ) → IsEnd k curr_fd → after k ≡ none
  stay_closed : (k : ℕ) → 2 < k → fds k ≡ none → after k ≡ none

-- The end of a child whose calls before `execvp` have not failed, by the descriptors it has then.
pub record Plumbed (env : ChildEnv) (line : CommandLine) (cmd : Command) (result : ExecutionResult)
    (prev_fd curr_fd : Option (ℕ × ℕ)) (fds : Fds) (r : ChildEnd) : Type 0 where
  pub after : Fds
  pub returned : r ≡ (
      if env.execvp cmd.exe (argv cmd)
      then runs cmd.exe (argv cmd) after
      else after_exec cmd.args result)
  pub input : after 0 ≡ wanted_input prev_fd fds
  pub output : after 1 ≡ wanted_output line curr_fd fds
  pub errors : after 2 ≡ fds 2
  pub closed : (k : ℕ) → IsEnd k prev_fd ⊎ IsEnd k curr_fd → after k ≡ none

IsEnd-behind : (k : ℕ) (ends : Option (ℕ × ℕ)) (fds : Fds) → IsPipe ends fds → IsEnd k ends → 2 < k
IsEnd-behind k none fds h e = absurd e
IsEnd-behind k (some (r, w)) fds (above, above', apart, at, at') (inl e) = omega (arith, above, e)
IsEnd-behind k (some (r, w)) fds (above, above', apart, at, at') (inr e) = omega (arith, above', e)

-- A pipe, and what is wanted of it, where its ends stand for the same.
IsPipe-same :
    (ends : Option (ℕ × ℕ)) (fds fds' : Fds)
    → IsPipe ends fds
    → ((k : ℕ) → IsEnd k ends → fds' k ≡ fds k)
    → IsPipe ends fds'
IsPipe-same none fds fds' h same = tt
IsPipe-same (some (r, w)) fds fds' (above, above', apart, (st, at), (st', at')) same =
    (above, above', apart, (st, same r (inl refl) ∙ at), (st', same w (inr refl) ∙ at'))

wanted_output-same :
    (line : CommandLine) (ends : Option (ℕ × ℕ)) (fds fds' : Fds)
    → fds' 1 ≡ fds 1
    → ((k : ℕ) → IsEnd k ends → fds' k ≡ fds k)
    → wanted_output line ends fds' ≡ wanted_output line ends fds
wanted_output-same line (some (r, w)) fds fds' one same = same w (inr refl)
wanted_output-same line none fds fds' one same = by_type line.out_type
  where
    by_type : (t : OutputType) → wanted_file t line.out_file fds' ≡ wanted_file t line.out_file fds
    by_type stdout = one
    by_type file_new = refl
    by_type file_append = refl

module _ (env : ChildEnv) (works : Works env) where
  -- A descriptor moved in place of a standard stream.
  moved_to_lem :
      (a b : ℕ) (fds : Fds) (st : Stream)
      → fds a ≡ some st
      → moved_to env a b fds ≡ some (close a (put b (some st) fds))
  unfolding moved_to duplicate
  moved_to_lem a b fds st here = rw (here, works.places a b) refl

  input_part_lem :
      (prev_fd : Option (ℕ × ℕ)) (fds : Fds)
      → IsPipe prev_fd fds
      → InputSet prev_fd fds (input_part env prev_fd fds)
  unfolding input_part
  input_part_lem none fds h = record {
    after = fds;
    result = refl;
    input = refl;
    closed = λ k e. absurd e;
    others = λ k behind_zero ne. refl;
  }
  input_part_lem (some (r, w)) fds (above, above', apart, (st, at), at') = record {
    after = close r (put 0 (some st) (close w fds));
    result = moved_to_lem r 0 (close w fds) st (ground (arith, apart, at));
    input = ground (arith, above, at);
    closed = λ k e. ground (arith, above, above', e);
    others = λ k behind_zero ne. elim (ℕ_discrete k r) [
      | yes e ↦ absurd (ne (inl e))
      | no n ↦ elim (ℕ_discrete k w) [
        | yes e ↦ absurd (ne (inr e))
        | no n' ↦ ground (arith, behind_zero, n, n')
      ]
    ];
  }

  opened_as_lem :
      (line : CommandLine) (name : Option Bytes) (m : Mode) (fds : Fds)
      → wanted_output line none fds ≡ some (file name m)
      → OutputSet line none fds (opened_as env name m (env.open_file name m) fds)
  unfolding opened_as
  opened_as_lem line name m fds wants =
      let (fd, e, above) = works.opens name m in
      let opened = put fd (some (file name m)) fds in
      record {
        after = close fd (put 1 (some (file name m)) opened);
        result =
            ap (λ (o : Option ℕ). opened_as env name m o fds) e
            ∙ behind fd above (moved_to_lem fd 1 opened (file name m) (ground arith));
        input = ground (arith, above);
        output = ground (arith, above, wants);
        errors = ground (arith, above);
        closed = λ k is. absurd is;
        stay_closed = λ k behind_two none_there. ground (arith, behind_two, none_there);
      }
    where
      behind :
          (fd : ℕ) {r : Option Fds}
          → 2 < fd
          → moved_to env fd 1 (put fd (some (file name m)) fds) ≡ r
          → (if fd == 1
              then some (put fd (some (file name m)) fds)
              else moved_to env fd 1 (put fd (some (file name m)) fds))
            ≡ r
      behind fd above e = ground (arith, above, e)

  redirect_lem :
      (line : CommandLine) (fds : Fds)
      → OutputSet line none fds (redirect env line.out_type line.out_file fds)
  unfolding redirect
  redirect_lem line fds = by_type line.out_type refl
    where
      by_type :
          (t : OutputType)
          → line.out_type ≡ t
          → OutputSet line none fds (redirect env t line.out_file fds)
      by_type stdout e = record {
        after = fds;
        result = refl;
        input = refl;
        output = rw e refl;
        errors = refl;
        closed = λ k is. absurd is;
        stay_closed = λ k behind_two none_there. none_there;
      }
      by_type file_new e = opened_as_lem line line.out_file truncate fds (rw e refl)
      by_type file_append e = opened_as_lem line line.out_file append fds (rw e refl)

  output_part_lem :
      (line : CommandLine) (curr_fd : Option (ℕ × ℕ)) (fds : Fds)
      → IsPipe curr_fd fds
      → OutputSet line curr_fd fds (output_part env line curr_fd fds)
  unfolding output_part
  output_part_lem line none fds h = redirect_lem line fds
  output_part_lem line (some (r, w)) fds (above, above', apart, at', (st, at)) = record {
    after = close w (put 1 (some st) (close r fds));
    result = moved_to_lem w 1 (close r fds) st (ground (arith, apart, at));
    input = ground (arith, above, above');
    output = ground (arith, above', at);
    errors = ground (arith, above, above');
    closed = λ k e. ground (arith, above, above', e);
    stay_closed = λ k behind_two none_there. ground (arith, behind_two, none_there);
  }

  -- Where descriptors can be put in place and files be opened, and the ends of the pipes are open, apart
  -- and behind the standard streams: a child comes to `execvp` with the read end of the pipe before it or
  -- else its own input as its standard input, with the write end of the pipe behind it, or else the file
  -- of the line, or else its own output as its standard output, its own standard error, and all ends of
  -- both pipes closed. If the program cannot be started, it returns into the loop of main with its first
  -- argument, read as a number, as the code to exit with, and with no argument it reads a null pointer.
  pub run_child_lem :
      (line : CommandLine) (cmd : Command) (result : ExecutionResult)
      (prev_fd curr_fd : Option (ℕ × ℕ)) (fds : Fds)
      → IsPipe prev_fd fds
      → IsPipe curr_fd fds
      → ((k : ℕ) → IsEnd k prev_fd → IsEnd k curr_fd → ⊥)
      → Plumbed env line cmd result prev_fd curr_fd fds
          (run_child env line cmd result prev_fd curr_fd fds)
  unfolding run_child execute
  run_child_lem line cmd result prev_fd curr_fd fds before behind apart =
      let i = input_part_lem prev_fd fds before in
      let same = λ (k : ℕ) (e : IsEnd k curr_fd).
        i.others k (omega (arith, IsEnd-behind k curr_fd fds behind e)) λ e'. apart k e' e in
      let o = output_part_lem line curr_fd i.after (IsPipe-same curr_fd fds i.after behind same) in
      let stays = λ (k : ℕ) (lt : k < 3) (pos_k : 0 < k).
        i.others k pos_k λ e. absurd (omega (arith, lt, IsEnd-behind k prev_fd fds before e)) in
      record {
        after = o.after;
        returned =
            ap
              (λ (r : Option Fds).
                execute env cmd result (and_next r (output_part env line curr_fd)))
              i.result
            ∙ ap (execute env cmd result) o.result;
        input = o.input ∙ i.input;
        output =
            o.output
            ∙ wanted_output-same line curr_fd fds i.after (stays 1 (omega arith) (omega arith))
                same;
        errors = o.errors ∙ stays 2 (omega arith) (omega arith);
        closed = λ k e. elim e [
          | inl e' ↦ o.stay_closed k (IsEnd-behind k prev_fd fds before e') (i.closed k e')
          | inr e' ↦ o.closed k e'
        ];
      }
