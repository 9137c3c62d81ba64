-- ===== src/Parser/Lexer/Stable.antt =====
-- hw2/parser.c, `parse_token`: how much it uses, and what more input behind the token changes.
use system_programming_hw.Base.{
  ℕ, zero, suc, ◌+◌, none, some, ◌≡◌, refl, arith, [], ◌∷◌, ◌++◌, Bytes, Checked, ok, crash,
}
use system_programming_hw.Parser.Token.{Token}
use system_programming_hw.Parser.Lexer.{
  Act, finish, next, next_two, comment, fail, act, skip_comment, lex, lead, parse_token,
}

-- The lexer has made up its mind: a token, or an abort.
abbrev pub Decided : Checked (ℕ × Token) → Type 0
Decided (ok (zero, t)) = ⊥
Decided (ok (suc n, t)) = Unit
Decided crash = Unit

abbrev Settled : Act → Type 0
Settled (finish type used) = Unit
Settled fail = Unit
Settled _ = ⊥

act-ahead :
    (quote c d : ℕ) (t : Token)
    → Settled (act quote c none t)
    → act quote c (some d) t ≡ act quote c none t
unfolding act
act-ahead quote c d t h = ground arith

skip_comment-append :
    (n : ℕ) (t : Token) (xs ys : Bytes)
    → Decided (skip_comment n t xs)
    → skip_comment n t (xs ++ ys) ≡ skip_comment n t xs
unfolding skip_comment
skip_comment-append n t [] ys h = absurd h
skip_comment-append n t (c ∷ cs) ys h = ground (arith, skip_comment-append (n + 1) t cs ys)

-- `P` of the lexer started in any state on these bytes.
abbrev Always : Bytes → Bytes → Type 0
Always xs ys =
    (quote n : ℕ) (t : Token)
    → Decided (lex quote n t xs)
    → lex quote n t (xs ++ ys) ≡ lex quote n t xs

lex-append_last :
    (a : Act) (quote n c : ℕ) (t : Token) (y : ℕ) (ys : Bytes)
    → act quote c none t ≡ a
    → Decided (lex quote n t (c ∷ []))
    → lex quote n t (c ∷ y ∷ ys) ≡ lex quote n t (c ∷ [])
unfolding lex
lex-append_last (finish type used) quote n c t y ys e h =
    rw (act-ahead quote c y t (rw e tt), e, lex)
lex-append_last fail quote n c t y ys e h = rw (act-ahead quote c y t (rw e tt), e, lex)
lex-append_last _ quote n c t y ys e h = absurd (rw (e, lex) at h)

lex-append_step :
    (a : Act) (quote n c d : ℕ) (t : Token) (cs ys : Bytes)
    → act quote c (some d) t ≡ a
    → Always (d ∷ cs) ys
    → Always cs ys
    → Decided (lex quote n t (c ∷ d ∷ cs))
    → lex quote n t (c ∷ d ∷ cs ++ ys) ≡ lex quote n t (c ∷ d ∷ cs)
unfolding lex
lex-append_step (next q t') quote n c d t cs ys e one two h =
    rw (e, lex) (one q (n + 1) t' (rw (e, lex) at h))
lex-append_step (next_two q t') quote n c d t cs ys e one two h =
    rw (e, lex) (two q (n + 2) t' (rw (e, lex) at h))
lex-append_step comment quote n c d t cs ys e one two h =
    rw (e, lex) (skip_comment-append (n + 1) t (d ∷ cs) ys (rw (e, lex) at h))
lex-append_step _ quote n c d t cs ys e one two h = rw (e, lex)

lex-append : (xs ys : Bytes) → Always xs ys
lex-append [] ys quote n t h = absurd (unfold lex in h)
lex-append (c ∷ []) [] quote n t h = refl
lex-append (c ∷ []) (y ∷ ys) quote n t h =
    lex-append_last (act quote c none t) quote n c t y ys refl h
lex-append (c ∷ d ∷ cs) ys quote n t h =
    lex-append_step (act quote c (some d) t) quote n c d t cs ys refl (lex-append (d ∷ cs) ys)
      (lex-append cs ys) h

lead-append :
    (n : ℕ) (t : Token) (xs ys : Bytes) → Decided (lead n t xs) → lead n t (xs ++ ys) ≡ lead n t xs
unfolding lead
lead-append n t [] ys h = absurd h
lead-append n t (c ∷ cs) ys h =
    ground (arith, lead-append (n + 1) t cs ys, lex-append (c ∷ cs) ys 0 n t)

-- A token that the lexer has found, or the assertion that it has failed, stays the same whatever
-- bytes are fed behind the input.
pub parse_token-append :
    (t : Token) (xs ys : Bytes)
    → Decided (parse_token t xs)
    → parse_token t (xs ++ ys) ≡ parse_token t xs
unfolding parse_token
parse_token-append t xs ys h = lead-append 0 _ xs ys h
