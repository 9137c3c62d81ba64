-- ===== src/Parser/Tests.antt =====
-- hw2/parser.c: runs at small inputs, and the theorems at concrete ones.
use Prim.Native.Char.{code}
use Prim.Native.String.{String}
use system_programming_hw.Base.{
  ℕ, zero, suc, ap, ◌-◌, ◌^◌, ◌≤◌, true, none, some, [], ◌∷◌, Bytes, length, ok, crash, ◌≡◌, ◌≢◌,
  refl, arith,
}
use system_programming_hw.Parser.Lexer.{parse_token}
use system_programming_hw.Parser.Lexer.Quoted.{ReadsWord, parse_token-quoted}
use system_programming_hw.Parser.Line.{
  Expr, command, file_append, err_none, outout_redirect_bad_arg, empty_line,
}
use system_programming_hw.Parser.Buffer.{Parser, parser_feed}
use system_programming_hw.Parser.Buffer.Feed.{IsRoomy, parser_feed_lem, parser_feed_overflow}
use system_programming_hw.Parser.Pop.Laws.{
  Answers, parser_pop_next-Answers, more, extended, parser_pop_next-more, scan_terminates,
}
use system_programming_hw.Parser.Pop.{parser_pop_next, scan, no_fuel, empty_token}

abbrev codes : String → Bytes
codes String.[] = []
codes (String.◌∷◌ c s) = code c ∷ codes s

abbrev fed : String → Parser
fed s = record { buffer = codes s; capacity = 100 }

abbrev word : String → Expr
word s = command (record { exe = codes s; args = []; arg_capacity = 0 })

runs_line :
    parser_pop_next (fed "a \"b c\" | d >> e &\nx")
    ≡ ok (
      err_none,
      some (record {
        exprs =
            command (record { exe = codes "a"; args = codes "b c" ∷ []; arg_capacity = 2 })
            ∷ Expr.pipe
            ∷ word "d"
            ∷ [];
        out_type = file_append;
        out_file = some (codes "e");
        is_background = true;
      }),
      fed "x",
    )
unfolding parser_pop_next
runs_line = refl

runs_incomplete : parser_pop_next (fed "a 'b") ≡ ok (err_none, none, fed "a 'b")
unfolding parser_pop_next
runs_incomplete = refl

runs_empty_word : parser_pop_next (fed "a ''\n") ≡ crash
unfolding parser_pop_next
runs_empty_word = refl

runs_no_command : parser_pop_next (fed "> a\n") ≡ crash
unfolding parser_pop_next
runs_no_command = refl

runs_continued : parser_pop_next (fed "\\\n a\n") ≡ crash
unfolding parser_pop_next
runs_continued = refl

parse_token-quoted_example : ReadsWord (codes "a |") 5 (parse_token empty_token (codes "'a |' b"))
parse_token-quoted_example =
    parse_token-quoted empty_token (codes "a |") (codes " b") (omega arith) (omega arith)

parser_feed_lem_example :
    (q : Parser) × (parser_feed (fed "ab") (codes "c") ≡ ok q)
    × (q.buffer ≡ codes "abc")
    × IsRoomy q
    × (100 ≤ q.capacity)
parser_feed_lem_example =
    parser_feed_lem (fed "ab") (codes "c") (omega arith) (omega arith) (omega arith)

scan_terminates_example : scan 4 (codes "a|b") empty_line 0 empty_token ≢ no_fuel
scan_terminates_example = scan_terminates (fed "a|b")

parser_pop_next-Answers_example : Answers (fed "a > b\n") (parser_pop_next (fed "a > b\n"))
parser_pop_next-Answers_example = parser_pop_next-Answers (fed "a > b\n")

parser_pop_next-more_example :
    parser_pop_next (more (fed "a\nb") (codes "c") 200)
    ≡ extended (codes "c") 200 (parser_pop_next (fed "a\nb"))
unfolding parser_pop_next
parser_pop_next-more_example = parser_pop_next-more (fed "a\nb") (codes "c") 200 tt

-- The assertions that fail: on an empty quoted word, a continued line and a blank, `&` alone, and a
-- redirection with no command.
runs_aborts :
    (parser_pop_next (fed "'' b") ≡ crash)
    × (parser_pop_next (fed "\"\" b") ≡ crash)
    × (parser_pop_next (fed "\\\n  b") ≡ crash)
    × (parser_pop_next (fed "&\n b") ≡ crash)
    × (parser_pop_next (fed ">f\n b") ≡ crash)
unfolding parser_pop_next
runs_aborts = (refl, refl, refl, refl, refl)

-- The error of a redirection with no file takes the next line with it.
runs_skips_line : parser_pop_next (fed "a >\nb\nc") ≡ ok (outout_redirect_bad_arg, none, fed "c")
unfolding parser_pop_next
runs_skips_line = refl

zeros : ℕ → Bytes
zeros zero = []
zeros (suc n) = 0 ∷ zeros n

length-zeros : (n : ℕ) → length (zeros n) ≡ n
unfolding zeros
length-zeros zero = refl
length-zeros (suc n) = ap suc (length-zeros n)

parser_feed_overflow_example :
    parser_feed (record { buffer = 0 ∷ []; capacity = 2 ^ 31 - 1 }) (zeros (2 ^ 31)) ≡ crash
parser_feed_overflow_example =
    parser_feed_overflow (record { buffer = 0 ∷ []; capacity = 2 ^ 31 - 1 }) (zeros (2 ^ 31))
      (omega arith) (omega arith) (omega (arith, length-zeros)) (omega (arith, length-zeros))
      (omega arith) (omega arith)
