-- ===== src/Prelude/Int.antt =====
-- Differences of native numbers, as comparators return them.
use Prim.Native.Nat.{ℕ, ◌-◌}
use mathlib.Core.Bool.{Bool, true, false}
use nats_explorer.Prelude.Tests.{leb, nat_beq, if◌then◌else◌}

-- `negsuc n` is -(n + 1).
pub data ℤ : Type 0 where
  pos : ℕ → ℤ
  negsuc : ℕ → ℤ

-- a - b, as an integer.
abbrev pub sub_ℕ : ℕ → ℕ → ℤ
sub_ℕ a b = if leb b a then pos (a - b) else negsuc (b - a - 1)

abbrev pub is_negative : ℤ → Bool
is_negative (pos n) = false
is_negative (negsuc n) = true

abbrev pub is_positive : ℤ → Bool
is_positive (pos n) = if nat_beq n 0 then false else true
is_positive (negsuc n) = false

-- `x || y` on numbers: the second where the first is zero.
abbrev pub or_else : ℤ → ℤ → ℤ
or_else (pos n) y = if nat_beq n 0 then y else pos n
or_else (negsuc n) y = negsuc n
