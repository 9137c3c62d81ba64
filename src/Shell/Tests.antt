-- ===== src/Shell/Tests.antt =====
-- hw2/solution.c: the theorems at concrete inputs.
use Prim.Native.Char.{code}
use Prim.Native.String.{String}
use system_programming_hw.Base.{[], ◌∷◌, Bytes, ◌≡◌, refl}
use system_programming_hw.Parser.Line.{command, empty_line, CommandLine}
use system_programming_hw.Parser.Buffer.{Parser, parser_feed}
use system_programming_hw.Shell.{executed, behind, drain, drain_all}
use system_programming_hw.Shell.Chunks.{drained_reallocated, drain_in_chunks}

abbrev codes : String → Bytes
codes String.[] = []
codes (String.◌∷◌ c s) = code c ∷ codes s

abbrev holding : String → Parser
holding s = record { buffer = codes s; capacity = 8 }

abbrev word : String → CommandLine
word s = record empty_line {
  exprs = command (record { exe = codes s; args = []; arg_capacity = 0 }) ∷ [];
}

-- The input "a\nbc\n" in two pieces, cut inside a word.
drain_in_chunks_example :
    drain_all (holding "a\nbc\n")
    ≡ drained_reallocated 8 (behind (executed (word "a") ∷ []) (drain_all (holding "bc\n")))
unfolding drain parser_feed
drain_in_chunks_example =
    drain_in_chunks (holding "") (codes "a\nb") (codes "c\n") (holding "a\nb") (holding "b")
      (holding "bc\n") (holding "a\nbc\n") (executed (word "a") ∷ []) refl refl refl refl
