-- ===== src/Parser/Token.antt =====
-- hw2/parser.c, `struct token` and the growing arrays: a token holds its text as a list (`data`
-- with `size`), and the capacity of the allocation with its 32-bit wrap-around.
use system_programming_hw.Base.{
  ℕ, ◌+◌, ◌*◌, [], ◌∷◌, ◌++◌, Bytes, length, ltb, ◌==◌, if◌then◌else◌, u32, Checked, ok, crash,
  ◌>>=◌,
}

-- `enum token_type`
pub data TokenType : Type 0 where
  none_type str new_line pipe and or out_new out_append background : TokenType

pub record Token : Type 0 where
  pub type : TokenType
  pub text : Bytes
  pub capacity : ℕ

-- The allocation grows when it is full; a size past the capacity fails the assertion.
unfoldable pub grow : ℕ → ℕ → Checked ℕ
grow size capacity =
    if size == capacity
    then ok (u32 ((capacity + 1) * 2))
    else if ltb size capacity
    then ok capacity
    else crash

unfoldable pub token_append : Token → ℕ → Checked Token
token_append t c = do
  capacity ← grow (length t.text) t.capacity
  ok (record t { text = t.text ++ c ∷ []; capacity = capacity })

unfoldable pub token_reset : Token → Token
token_reset t = record t { text = []; type = none_type }

unfoldable pub string_of : TokenType → Bytes → Checked Bytes
string_of str (c ∷ cs) = ok (c ∷ cs)
string_of _ _ = crash

-- An empty token, or one of another type, fails an assertion.
unfoldable pub token_strdup : Token → Checked Bytes
unfolding string_of
token_strdup t = string_of t.type t.text
