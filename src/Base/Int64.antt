-- ===== src/Base/Int64.antt =====
-- Go's int64 as its bit pattern, a number below 2 ^ 64, with the signed order.
use Prim.Native.Nat.{ℕ, ◌+◌, ◌%◌, ◌^◌, ◌<◌}
use mathlib.Core.Path.{◌≡◌}
use mathlib.Core.Logic.{◌⊎◌}
use mathlib.Core.Bool.{Bool, true, false}
use native.Mathlib.Omega.{arith}
use local_web.Base.Tests.{ltb}

abbrev pub IsInt64 : ℕ → Type 0
IsInt64 n = n < 2 ^ 64

-- `a < b`: adding 2 ^ 63 carries the signed order over to the order of the patterns.
unfoldable pub lt_int64 : ℕ → ℕ → Bool
lt_int64 a b = ltb ((a + 2 ^ 63) % 2 ^ 64) ((b + 2 ^ 63) % 2 ^ 64)

-- `a + 1`, which wraps around.
unfoldable pub inc_int64 : ℕ → ℕ
inc_int64 a = (a + 1) % 2 ^ 64

pub inc_int64-IsInt64 : (a : ℕ) → IsInt64 (inc_int64 a)
unfolding inc_int64
inc_int64-IsInt64 a = omega arith

pub lt_int64_irrefl : (a : ℕ) → lt_int64 a a ≡ false
unfolding lt_int64
lt_int64_irrefl a = ground arith

pub lt_int64_trans : (a b c : ℕ) → lt_int64 a b ≡ true → lt_int64 b c ≡ true → lt_int64 a c ≡ true
unfolding lt_int64
lt_int64_trans a b c p q = ground arith

pub lt_int64_total :
    (a b : ℕ) → IsInt64 a → IsInt64 b → (lt_int64 a b ≡ true) ⊎ ((a ≡ b) ⊎ (lt_int64 b a ≡ true))
unfolding lt_int64
lt_int64_total a b h k = ground arith

pub lt_int64_asymm : (a b : ℕ) → lt_int64 a b ≡ true → lt_int64 b a ≡ false
unfolding lt_int64
lt_int64_asymm a b h = ground arith

-- Below 2 ^ 63 the signed order is the order of the numbers.
pub lt_int64_pos : (a b : ℕ) → a < 2 ^ 63 → b < 2 ^ 63 → lt_int64 a b ≡ ltb a b
unfolding lt_int64
lt_int64_pos a b h k = ground arith
