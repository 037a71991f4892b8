-- ===== src/Prelude/Int.antt =====
-- Integers over the native numbers; `negsuc n` is -(n + 1).
use Prim.Native.Nat.{ℕ, suc, ◌+◌, ◌-◌}
use sama_server.Prelude.Tests.{leb, if◌then◌else◌}

pub data ℤ : Type 0 where
  pos : ℕ → ℤ
  negsuc : ℕ → ℤ

-- a - b, as an integer.
abbrev pub sub_ℕ : ℕ → ℕ → ℤ
sub_ℕ a b = if leb b a then pos (a - b) else negsuc (b - a - 1)

infixl 65 ◌+ℕ◌ ◌-ℕ◌
abbrev pub ◌+ℕ◌ : ℤ → ℕ → ℤ
pos a +ℕ n = pos (a + n)
negsuc a +ℕ n = sub_ℕ n (suc a)

abbrev pub ◌-ℕ◌ : ℤ → ℕ → ℤ
pos a -ℕ n = sub_ℕ a n
negsuc a -ℕ n = negsuc (a + n)
