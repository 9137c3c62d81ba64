-- ===== src/Parser/Lexer/Quoted.antt =====
-- hw2/parser.c, `parse_token` on a word in single quotes.
use system_programming_hw.Base.{
  ℕ, suc, ◌+◌, ◌-◌, ◌*◌, ◌≤◌, ◌<◌, ◌^◌, Option, some, ◌≡◌, ◌≢◌, refl, sym, ap, ◌∙◌, arith, [], ◌∷◌,
  ◌++◌, append_assoc, append-nil, Bytes, length, length-append, Checked, ok, dec_lt,
}
use system_programming_hw.Parser.Token.{str, Token, grow, token_append, token_reset}
use system_programming_hw.Parser.Lexer.{next, act, lex, parse_token, typed}

-- The longest text for which the capacity of a token does not overflow.
abbrev pub max_text : ℕ
max_text = 2 ^ 31 - 1

-- The text fits into the allocation.
abbrev pub IsRoomy : Token → Type 0
IsRoomy t = length t.text ≤ t.capacity

token_append_lem :
    (t : Token) (c : ℕ)
    → IsRoomy t
    → length t.text < max_text
    → (t' : Token) × (token_append t c ≡ ok t') × IsRoomy t' × (t'.text ≡ t.text ++ c ∷ [])
unfolding token_append grow
token_append_lem t c h k = elim (dec_lt (length t.text) t.capacity) [
  | yes lt ↦ (
    record t { text = t.text ++ c ∷ [] },
    ground arith,
    omega (arith, length-append t.text (c ∷ [])),
    refl,
  )
  | no full ↦ (
    record t { text = t.text ++ c ∷ []; capacity = (t.capacity + 1) * 2 },
    ground arith,
    omega (arith, length-append t.text (c ∷ [])),
    refl,
  )
]

-- Every byte but the quote is appended.
act_in_quotes :
    (c : ℕ) (ahead : Option ℕ) (t t' : Token)
    → c ≢ b'\''
    → token_append t c ≡ ok t'
    → act b'\'' c ahead t ≡ next b'\'' t'
unfolding act
act_in_quotes c ahead t t' h e = ground arith

-- No byte of the word is a single quote.
abbrev pub NoQuote : Bytes → Type 0
NoQuote [] = Unit
NoQuote (c ∷ cs) = (c ≢ b'\'') × NoQuote cs

-- The lexer stops with this text after `used` bytes.
abbrev pub ReadsWord : Bytes → ℕ → Checked (ℕ × Token) → Type 0
ReadsWord text used r = (t : Token) × (r ≡ ok (used, t)) × (t.type ≡ str) × (t.text ≡ text)

lex_close :
    (n : ℕ) (t : Token) (rest : Bytes) → ReadsWord t.text (n + 1) (lex b'\'' n t (b'\'' ∷ rest))
unfolding lex act
lex_close n t [] = (typed str t, refl, refl, refl)
lex_close n t (d ∷ rest) = (typed str t, refl, refl, refl)

lex_next :
    (n c : ℕ) (t t' : Token) (cs : Bytes)
    → cs ≢ []
    → c ≢ b'\''
    → token_append t c ≡ ok t'
    → lex b'\'' n t (c ∷ cs) ≡ lex b'\'' (n + 1) t' cs
unfolding lex
lex_next n c t t' [] ne h e = absurd (ne refl)
lex_next n c t t' (d ∷ cs) ne h e = rw (act_in_quotes c (some d) t t' h e, lex)

ends-ne-nil : (w rest : Bytes) → w ++ b'\'' ∷ rest ≢ []
ends-ne-nil [] rest e = cc
ends-ne-nil (c ∷ w) rest e = cc

used_path : (m k : ℕ) (t : Token) → m ≡ k → ◌≡◌ {A = Checked (ℕ × Token)} (ok (m, t)) (ok (k, t))
used_path m k t e = rw e

lex_word :
    (w rest : Bytes) (n : ℕ) (t : Token)
    → NoQuote w
    → IsRoomy t
    → length t.text + length w ≤ max_text
    → ReadsWord (t.text ++ w) (n + length w + 1) (lex b'\'' n t (w ++ b'\'' ∷ rest))
lex_word [] rest n t q room small =
    let (t', e, s, x) = lex_close n t rest in
    (t', e ∙ used_path (n + 1) (n + 0 + 1) t' (omega arith), s, x ∙ sym (append-nil t.text))
lex_word (c ∷ w) rest n t q room small =
    let (t₁, appended, room₁, text₁) = token_append_lem t c room (omega arith) in
    let (t', e, s, x) =
      lex_word w rest (n + 1) t₁ q.1 room₁
        (omega (arith, ap length text₁, length-append t.text (c ∷ []))) in
    (
      t',
      lex_next n c t t₁ (w ++ b'\'' ∷ rest) (ends-ne-nil w rest) q.0 appended
          ∙ e
          ∙ used_path (n + 1 + length w + 1) (n + suc (length w) + 1) t' (omega arith),
      s,
      x ∙ ap (λ b. b ++ w) text₁ ∙ append_assoc t.text (c ∷ []) w,
    )

lex_open :
    (n : ℕ) (t : Token) (cs : Bytes) → cs ≢ [] → lex 0 n t (b'\'' ∷ cs) ≡ lex b'\'' (n + 1) t cs
unfolding lex act
lex_open n t [] ne = absurd (ne refl)
lex_open n t (d ∷ cs) ne = refl

-- A word in single quotes is one token with exactly the bytes between them, whatever they are
-- (blanks, operators, backslashes, new lines) and whatever follows.
pub parse_token-quoted :
    (t : Token) (w rest : Bytes)
    → NoQuote w
    → length w < max_text
    → ReadsWord w (length w + 2) (parse_token t (b'\'' ∷ (w ++ b'\'' ∷ rest)))
unfolding parse_token
parse_token-quoted t w rest q small =
    let (t', e, s, x) = lex_word w rest 1 (token_reset t) q (omega arith) (omega arith) in
    (
      t',
      lex_open 0 (token_reset t) (w ++ b'\'' ∷ rest) (ends-ne-nil w rest)
          ∙ e
          ∙ used_path (1 + length w + 1) (length w + 2) t' (omega arith),
      s,
      x,
    )
