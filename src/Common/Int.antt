-- ===== src/Common/Int.antt =====
-- Python integers that are counted up and down, and that may pass below zero.
use Prim.Native.Nat.{ℕ, zero, suc, ◌+◌, ◌-◌, ◌%◌}
use mathlib.Core.Bool.{Bool, true, false}
use dpark.Common.Tests.{leb}

-- `negsuc n` is -(n + 1).
pub data ℤ : Type 0 where
  pos : ℕ → ℤ
  negsuc : ℕ → ℤ

-- `x < y`
abbrev pub int_ltb : ℤ → ℤ → Bool
int_ltb (pos a) (pos b) = leb (suc a) b
int_ltb (pos a) (negsuc b) = false
int_ltb (negsuc a) (pos b) = true
int_ltb (negsuc a) (negsuc b) = leb (suc b) a

-- `x % m`, which Python rounds down: it is not negative for a positive `m`
abbrev pub int_mod : ℤ → ℕ → ℕ
int_mod (pos n) m = n % m
int_mod (negsuc n) m = m - 1 - n % m

-- `x += 1`
abbrev pub inc : ℤ → ℤ
inc (pos n) = pos (n + 1)
inc (negsuc zero) = pos 0
inc (negsuc (suc n)) = negsuc n

-- `x -= 1`
abbrev pub dec : ℤ → ℤ
dec (pos zero) = negsuc 0
dec (pos (suc n)) = pos n
dec (negsuc n) = negsuc (suc n)
