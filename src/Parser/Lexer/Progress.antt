-- ===== src/Parser/Lexer/Progress.antt =====
-- hw2/parser.c, `parse_token`: the number of bytes it uses, and its result.
use system_programming_hw.Base.{
  ℕ, ◌+◌, ◌≤◌, ◌<◌, Option, none, some, ◌≡◌, ◌≢◌, refl, arith, [], ◌∷◌, ◌++◌, Bytes, length,
  length-append, Checked, ok, crash, ◌⊎◌, inl, inr,
}
use system_programming_hw.Parser.Token.{none_type, Token, grow, token_append, token_reset}
use system_programming_hw.Parser.Lexer.{
  Act, finish, stop, next, next_two, comment, fail, act, skip_comment, lex, lead, parse_token,
}

-- The result uses at most `m` bytes, and has a type if and only if it uses any.
abbrev pub Fits : ℕ → Checked (ℕ × Token) → Type 0
Fits m (ok (used, t)) =
    (used ≤ m) × ((used ≡ 0) × (t.type ≡ none_type) ⊎ (0 < used) × (t.type ≢ none_type))
Fits m crash = Unit

-- The token so far: untyped, and not longer than the bytes read.
record IsOpen (n : ℕ) (t : Token) : Type 0 where
  untyped : t.type ≡ none_type
  short : length t.text ≤ n

token_append-IsOpen :
    (n : ℕ) (t : Token) (c : ℕ) {t' : Token}
    → IsOpen n t
    → token_append t c ≡ ok t'
    → IsOpen (n + 1) t'
unfolding token_append grow
token_append-IsOpen n t c o e = ground (arith, length-append t.text (c ∷ []))

-- How far an act reaches: `room` bytes are left.
abbrev Reaches : ℕ → ℕ → Act → Type 0
Reaches n room (finish type used) = (used ≤ room) × (type ≢ none_type) × (0 < n + used)
Reaches n room (next quote t) = IsOpen (n + 1) t
Reaches n room (next_two quote t) = (2 ≤ room) × IsOpen (n + 2) t
Reaches n room _ = Unit

abbrev room : Option ℕ → ℕ
room none = 1
room (some d) = 2

act-Reaches :
    (n quote c : ℕ) (ahead : Option ℕ) (t : Token)
    → IsOpen n t
    → Reaches n (room ahead) (act quote c ahead t)
unfolding act token_append grow
act-Reaches n quote c none t o = ground (arith, length-append t.text (c ∷ []))
act-Reaches n quote c (some d) t o = ground (
  arith,
  length-append t.text (c ∷ []),
  length-append t.text (d ∷ []),
  length-append t.text (92 ∷ []),
  length-append (t.text ++ 92 ∷ []) (d ∷ []),
)

skip_comment-Fits :
    (n : ℕ) (t : Token) (xs : Bytes)
    → t.type ≡ none_type
    → Fits (n + length xs) (skip_comment n t xs)
unfolding skip_comment
skip_comment-Fits n t [] o = ground arith
skip_comment-Fits n t (c ∷ cs) o = ground (arith, skip_comment-Fits (n + 1) t cs o)

-- The bound for the lexer started in any quote and state on these bytes.
abbrev AllFit : Bytes → Type 0
AllFit xs = (quote n : ℕ) (t : Token) → IsOpen n t → Fits (n + length xs) (lex quote n t xs)

lex-Fits_last :
    (a : Act) (quote n c : ℕ) (t : Token)
    → act quote c none t ≡ a
    → IsOpen n t
    → Reaches n 1 a
    → Fits (n + 1) (lex quote n t (c ∷ []))
unfolding lex
lex-Fits_last (finish type used) quote n c t e o r =
    rw (e, lex) (omega arith, inr (omega arith, r.1))
lex-Fits_last (next q t') quote n c t e o r = rw (e, lex) (omega arith, inl (refl, r.untyped))
lex-Fits_last (next_two q t') quote n c t e o r = rw (e, lex) (omega arith, inl (refl, r.1.untyped))
lex-Fits_last fail quote n c t e o r = rw (e, lex) tt
lex-Fits_last _ quote n c t e o r = rw (e, lex) (omega arith, inl (refl, o.untyped))

Fits-le : {m k : ℕ} (r : Checked (ℕ × Token)) → Fits m r → m ≤ k → Fits k r
Fits-le (ok (used, t)) (le, f) h = (omega arith, f)
Fits-le crash f h = tt

lex-Fits_step :
    (a : Act) (quote n c d : ℕ) (t : Token) (cs : Bytes)
    → act quote c (some d) t ≡ a
    → IsOpen n t
    → Reaches n 2 a
    → AllFit (d ∷ cs)
    → AllFit cs
    → Fits (n + length (c ∷ d ∷ cs)) (lex quote n t (c ∷ d ∷ cs))
unfolding lex
lex-Fits_step (finish type used) quote n c d t cs e o r one two =
    rw (e, lex) (omega arith, inr (omega arith, r.1))
lex-Fits_step (next q t') quote n c d t cs e o r one two =
    rw (e, lex) (Fits-le (lex q (n + 1) t' (d ∷ cs)) (one q (n + 1) t' r) (omega arith))
lex-Fits_step (next_two q t') quote n c d t cs e o r one two =
    rw (e, lex) (Fits-le (lex q (n + 2) t' cs) (two q (n + 2) t' r.1) (omega arith))
lex-Fits_step fail quote n c d t cs e o r one two = rw (e, lex) tt
lex-Fits_step stop quote n c d t cs e o r one two = rw (e, lex) (omega arith, inl (refl, o.untyped))
lex-Fits_step comment quote n c d t cs e o r one two =
    rw (e, lex)
      (Fits-le (skip_comment (n + 1) t (d ∷ cs)) (skip_comment-Fits (n + 1) t (d ∷ cs) o.untyped)
        (omega arith))

lex-Fits : (xs : Bytes) → AllFit xs
lex-Fits [] quote n t o = unfold lex in (omega arith, inl (refl, o.untyped))
lex-Fits (c ∷ []) quote n t o =
    lex-Fits_last (act quote c none t) quote n c t refl o (act-Reaches n quote c none t o)
lex-Fits (c ∷ d ∷ cs) quote n t o =
    lex-Fits_step (act quote c (some d) t) quote n c d t cs refl o
      (act-Reaches n quote c (some d) t o) (lex-Fits (d ∷ cs)) (lex-Fits cs)

lead-Fits :
    (n : ℕ) (t : Token) (xs : Bytes)
    → t.type ≡ none_type
    → t.text ≡ []
    → Fits (n + length xs) (lead n t xs)
unfolding lead
lead-Fits n t [] u e = (omega arith, inl (refl, u))
lead-Fits n t (c ∷ cs) u e = ground (
  arith,
  lead-Fits (n + 1) t cs u e,
  lex-Fits (c ∷ cs) 0 n t (record { untyped = u; short = rw e (omega arith) }),
)

-- The lexer never claims more bytes than there are, and it returns 0 exactly when it leaves the
-- token without a type, so every other result moves the parser forward.
pub parse_token-Fits : (t : Token) (xs : Bytes) → Fits (length xs) (parse_token t xs)
unfolding parse_token
parse_token-Fits t xs =
    Fits-le (lead 0 (token_reset t) xs) (lead-Fits 0 (token_reset t) xs refl refl) (omega arith)
