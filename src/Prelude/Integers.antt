-- ===== src/Prelude/Integers.antt =====
-- Go's int and time.Duration where they may be negative: integers over the native numbers.
use Prim.Native.Nat.{ℕ, ◌≤◌}
use mathlib.Core.Path.{◌≡◌}
use mathlib.Core.Logic.{◌↔◌}
use mathlib.Core.Bool.{Bool, true, false}
use native.Mathlib.Omega.{arith}
use forge_operator.Prelude.Tests.{if◌then◌else◌, ltb}

pub data ℤ : Type 0 where
  pos : ℕ → ℤ
  negsuc : ℕ → ℤ

-- 0 < z
abbrev pub is_positive : ℤ → Bool
is_positive (pos n) = ltb 0 n
is_positive (negsuc n) = false

-- 1 ≤ z
abbrev pub IsPositive : ℤ → Type 0
IsPositive (pos n) = 1 ≤ n
IsPositive (negsuc n) = ⊥

pub IsPositive-iff : (z : ℤ) → (is_positive z ≡ true) ↔ IsPositive z
IsPositive-iff (pos n) = ground arith
IsPositive-iff (negsuc n) = ground arith

-- max(1, z)
abbrev pub at_least_one : ℤ → ℤ
at_least_one z = if is_positive z then z else pos 1

pub at_least_one-IsPositive : (z : ℤ) → IsPositive (at_least_one z)
at_least_one-IsPositive z = ground (arith, IsPositive-iff z)
