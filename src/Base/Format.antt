-- ===== src/Base/Format.antt =====
-- `fmt.Sprintf` of integers.
use Prim.Native.Nat.{ℕ, zero, suc, ◌+◌, ◌-◌, ◌/◌, ◌%◌, ◌^◌}
use mathlib.Core.List.{[], ◌∷◌, ◌++◌}
use local_web.Base.Tests.{ltb, if◌then◌else◌}
use local_web.Base.Strings.{Bytes}

-- The decimal digits, at most `fuel + 1` of them, highest first.
unfoldable pub decimal_fuel : ℕ → ℕ → Bytes
decimal_fuel zero n = (48 + n % 10) ∷ []
decimal_fuel (suc fuel) n =
    let rest = decimal_fuel fuel (n / 10) ++ (48 + n % 10) ∷ [] in
    if ltb n 10 then (48 + n) ∷ [] else rest

-- A number below 2 ^ 64 has at most 20 digits.
unfoldable pub decimal : ℕ → Bytes
unfolding decimal_fuel
decimal n = decimal_fuel 19 n

-- `%d` of an int64, by its bit pattern.
unfoldable pub format_int64 : ℕ → Bytes
unfolding decimal
format_int64 n = if ltb n (2 ^ 63) then decimal n else b'-' ∷ decimal (2 ^ 64 - n)

abbrev pub hex_digit : ℕ → ℕ
hex_digit d = if ltb d 10 then 48 + d else 87 + d

-- `hex.EncodeToString`
abbrev pub encode_hex : Bytes → Bytes
encode_hex [] = []
encode_hex (b ∷ s) = hex_digit (b / 16) ∷ hex_digit (b % 16) ∷ encode_hex s
