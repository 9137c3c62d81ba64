-- ===== src/Base/Result.antt =====
-- Code with assertions: a value, or the abort of a failed `assert`.
pub data Checked {ℓ} (A : Type ℓ) : Type ℓ where
  ok : A → Checked A
  crash : Checked A

infixl 5 ◌>>=◌
abbrev pub ◌>>=◌ {ℓ κ} : {A : Type ℓ} {B : Type κ} → Checked A → (A → Checked B) → Checked B
crash >>= next = crash
ok value >>= next = next value
