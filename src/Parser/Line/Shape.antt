-- ===== src/Parser/Line/Shape.antt =====
-- hw2/parser.c: which command lines are well formed, and appending to them.
use mathlib.Core.Path.{subst}
use mathlib.Core.Option.{some-injective}
use system_programming_hw.Base.{
  Bool, true, false, Option, none, some, ◌≡◌, ◌≢◌, arith, List, [], ◌∷◌, ◌++◌, Bytes, ok,
}
use system_programming_hw.Parser.Token.{grow}
use system_programming_hw.Parser.Line.{
  Command, Expr, command, CommandLine, command_append_arg, tail, set_tail, command_line_append,
}

-- Commands and operators take turns, from a command if the flag is set.
abbrev pub alternates : Bool → List Expr → Bool
alternates want [] = true
alternates true (command c ∷ es) = alternates false es
alternates true (e ∷ es) = false
alternates false (command c ∷ es) = false
alternates false (e ∷ es) = alternates true es

-- An expression may stand behind this tail.
abbrev pub joins : Option Expr → Expr → Bool
joins none (command c) = true
joins none e = false
joins (some (command c)) (command c') = false
joins (some (command c)) e = true
joins (some e) (command c) = true
joins (some e) e' = false

abbrev pub EndsWithCommand : Option Expr → Type 0
EndsWithCommand (some (command c)) = Unit
EndsWithCommand _ = ⊥

abbrev pub AllNonEmpty : List Bytes → Type 0
AllNonEmpty [] = Unit
AllNonEmpty (s ∷ ss) = (s ≢ []) × AllNonEmpty ss

abbrev pub HasWords : Expr → Type 0
HasWords (command c) = (c.exe ≢ []) × AllNonEmpty c.args
HasWords _ = Unit

abbrev pub AllHaveWords : List Expr → Type 0
AllHaveWords [] = Unit
AllHaveWords (e ∷ es) = HasWords e × AllHaveWords es

-- What holds of a line while it is read.
pub record IsShaped (es : List Expr) : Type 0 where
  pub alternating : alternates true es ≡ true
  pub words : AllHaveWords es

alternates-append :
    (es : List Expr) (e : Expr)
    → alternates true es ≡ true
    → joins (tail es) e ≡ true
    → alternates true (es ++ e ∷ []) ≡ true
unfolding tail
alternates-append [] e h j = ground arith
alternates-append (x ∷ []) e h j = ground arith
alternates-append (x ∷ y ∷ []) e h j = ground arith
alternates-append (x ∷ y ∷ z ∷ es) e h j = ground (arith, alternates-append (z ∷ es) e)

alternates-set_tail :
    (es : List Expr) (c d : Command)
    → alternates true es ≡ true
    → tail es ≡ some (command c)
    → alternates true (set_tail es (command d)) ≡ true
unfolding tail set_tail
alternates-set_tail [] c d h e = cc
alternates-set_tail (x ∷ []) c d h e = ground arith
alternates-set_tail (x ∷ y ∷ []) c d h e = ground arith
alternates-set_tail (x ∷ y ∷ z ∷ es) c d h e = ground (arith, alternates-set_tail (z ∷ es) c d)

AllHaveWords-append :
    (es : List Expr) (e : Expr) → AllHaveWords es → HasWords e → AllHaveWords (es ++ e ∷ [])
AllHaveWords-append [] e h w = (w, tt)
AllHaveWords-append (x ∷ es) e h w = (h.0, AllHaveWords-append es e h.1 w)

AllHaveWords-set_tail :
    (es : List Expr) (e : Expr) → AllHaveWords es → HasWords e → AllHaveWords (set_tail es e)
unfolding set_tail
AllHaveWords-set_tail [] e h w = tt
AllHaveWords-set_tail (x ∷ []) e h w = (w, tt)
AllHaveWords-set_tail (x ∷ y ∷ es) e h w = (h.0, AllHaveWords-set_tail (y ∷ es) e h.1 w)

AllHaveWords-tail :
    (es : List Expr) (c : Command)
    → AllHaveWords es
    → tail es ≡ some (command c)
    → HasWords (command c)
unfolding tail
AllHaveWords-tail [] c h e = cc
AllHaveWords-tail (x ∷ []) c h e = subst HasWords (some-injective x (command c) e) h.0
AllHaveWords-tail (x ∷ y ∷ es) c h e = AllHaveWords-tail (y ∷ es) c h.1 e

AllNonEmpty-append :
    (ss : List Bytes) (s : Bytes) → AllNonEmpty ss → s ≢ [] → AllNonEmpty (ss ++ s ∷ [])
AllNonEmpty-append [] s h w = (w, tt)
AllNonEmpty-append (x ∷ ss) s h w = (h.0, AllNonEmpty-append ss s h.1 w)

pub command_append_arg-HasWords :
    (c : Command) (s : Bytes) {d : Command}
    → command_append_arg c s ≡ ok d
    → HasWords (command c)
    → s ≢ []
    → HasWords (command d)
unfolding command_append_arg grow
command_append_arg-HasWords c s e h w = ground (arith, AllNonEmpty-append c.args s h.1 w)

pub command_line_append-IsShaped :
    (line : CommandLine) (e : Expr)
    → IsShaped line.exprs
    → joins (tail line.exprs) e ≡ true
    → HasWords e
    → IsShaped (command_line_append line e).exprs
unfolding command_line_append
command_line_append-IsShaped line e s j w = record {
  alternating = alternates-append line.exprs e s.alternating j;
  words = AllHaveWords-append line.exprs e s.words w;
}

-- Another argument for the command at the tail.
pub set_tail-IsShaped :
    (es : List Expr) (c : Command) (s : Bytes) {d : Command}
    → IsShaped es
    → tail es ≡ some (command c)
    → command_append_arg c s ≡ ok d
    → s ≢ []
    → IsShaped (set_tail es (command d))
set_tail-IsShaped es c s {d} h e a w = record {
  alternating = alternates-set_tail es c d h.alternating e;
  words =
      AllHaveWords-set_tail es (command d) h.words
        (command_append_arg-HasWords c s a (AllHaveWords-tail es c h.words e) w);
}
