-- ===== src/Prelude/Int.antt =====
-- Signed integers, for the values of `i64` that the program tests for their sign.
use Prim.Native.Nat.{ℕ, zero, suc, ◌+◌, ◌*◌, ◌^◌, ◌%◌, ◌-◌}
use mathlib.Core.Bool.{Bool, true, false}
use mathlib.Core.Option.{Option, none, some}
use mathlib.Core.Path.{◌≡◌}
use mathlib.Core.Logic.{◌↔◌}
use native.Mathlib.Omega.{arith}
use proofplane.Prelude.Tests.{◌==◌, ltb, leb, if◌then◌else◌}

-- `negsuc n` is -(n + 1).
pub data ℤ : Type 0 where
  pos : ℕ → ℤ
  negsuc : ℕ → ℤ

abbrev pub is_negative : ℤ → Bool
is_negative (pos _) = false
is_negative (negsuc _) = true

-- `==`, `<=` and `> 0` on `i64`.
abbrev pub int_eq : ℤ → ℤ → Bool
int_eq (pos m) (pos n) = m == n
int_eq (pos m) (negsuc n) = false
int_eq (negsuc m) (pos n) = false
int_eq (negsuc m) (negsuc n) = m == n

abbrev pub int_le : ℤ → ℤ → Bool
int_le (pos m) (pos n) = leb m n
int_le (pos m) (negsuc n) = false
int_le (negsuc m) (pos n) = true
int_le (negsuc m) (negsuc n) = leb n m

abbrev pub is_positive : ℤ → Bool
is_positive (pos n) = ltb 0 n
is_positive (negsuc _) = false

-- `i64::MAX`
abbrev pub i64_max : ℕ
i64_max = 0x7FFF_FFFF_FFFF_FFFF

-- `checked_add(1)` on `i64`.
abbrev pub checked_suc : ℤ → Option ℤ
checked_suc (pos n) = if ltb n i64_max then some (pos (n + 1)) else none
checked_suc (negsuc zero) = some (pos 0)
checked_suc (negsuc (suc n)) = some (negsuc n)

-- `==` on `Option<i64>`.
abbrev pub int_option_eq : Option ℤ → Option ℤ → Bool
int_option_eq none none = true
int_option_eq none (some _) = false
int_option_eq (some _) none = false
int_option_eq (some a) (some b) = int_eq a b

pub int_eq_iff : (a b : ℤ) → (int_eq a b ≡ true) ↔ (a ≡ b)
int_eq_iff (pos m) (pos n) = ground arith
int_eq_iff (pos m) (negsuc n) = ground arith
int_eq_iff (negsuc m) (pos n) = ground arith
int_eq_iff (negsuc m) (negsuc n) = ground arith

-- Minus a number.
abbrev pub negate : ℕ → ℤ
negate zero = pos 0
negate (suc n) = negsuc n

abbrev pub int_times : ℤ → ℤ → ℤ
int_times (pos a) (pos b) = pos (a * b)
int_times (pos a) (negsuc b) = negate (a * suc b)
int_times (negsuc a) (pos b) = negate (suc a * b)
int_times (negsuc a) (negsuc b) = pos (suc a * suc b)

-- An `i32`, as its low 32 bits say.
abbrev pub wrap_i32 : ℕ → ℤ
wrap_i32 n = if ltb (n % 2 ^ 32) (2 ^ 31) then pos (n % 2 ^ 32) else negate (2 ^ 32 - n % 2 ^ 32)
