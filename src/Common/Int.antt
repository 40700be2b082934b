-- ===== src/Common/Int.antt =====
-- The type int of the source, as a whole number.
use Prim.Native.Nat.{ℕ, zero, suc, ◌-◌, ◌%◌, ◌^◌}
use mathlib.Core.Bool.{Bool, true, false}
use ssr_pre.Common.Tests.{leb, ltb, if◌then◌else◌}

-- `negsuc n` is -(n + 1).
pub data ℤ : Type 0 where
  pos : ℕ → ℤ
  negsuc : ℕ → ℤ

-- `n <= a` and `a < n` for a number n of the source that is not negative.
abbrev pub at_least : ℕ → ℤ → Bool
at_least n (pos a) = leb n a
at_least n (negsuc a) = false

abbrev pub less_than : ℕ → ℤ → Bool
less_than n (pos a) = ltb a n
less_than n (negsuc a) = true

-- The rounds of `for (int i = 0; i < a; ++i)`.
abbrev pub rounds : ℤ → ℕ
rounds (pos a) = a
rounds (negsuc a) = 0

-- An int that was 0 and was counted up n times; after 2^31 - 1 it goes on with -2^31.
unfoldable pub as_int : ℕ → ℤ
as_int n = let r = n % 2 ^ 32 in if ltb r (2 ^ 31) then pos r else negsuc (2 ^ 32 - 1 - r)

-- ++a
abbrev pub increment : ℤ → ℤ
increment (pos a) = pos (suc a)
increment (negsuc zero) = pos 0
increment (negsuc (suc a)) = negsuc a
