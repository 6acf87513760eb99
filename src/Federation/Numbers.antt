-- ===== src/Federation/Numbers.antt =====
-- pkg/federation/rendezvous_limits.go, `itoa`.
use native.Mathlib.Nat.{pow-suc}
use mathlib.Core.List.{append-nil, append_assoc}
use local_web.Base.{
  ℕ, zero, suc, ◌+◌, ◌*◌, ◌/◌, ◌%◌, ◌^◌, ◌≤◌, ◌<◌, ◌≡◌, refl, sym, ap, ◌∙◌, inl, inr, true, false,
  [], ◌∷◌, ◌++◌, arith, ltb, ◌==◌, ==_iff, if◌then◌else◌, Bool-cases, Bytes, codes,
}
use local_web.Base.Format.{decimal, decimal_fuel}

-- The loop of `itoa`, with a unit of fuel for each digit.
unfoldable itoa_digits : ℕ → ℕ → Bytes → Bytes
itoa_digits zero n b = b
itoa_digits (suc fuel) n b =
    let rest = itoa_digits fuel (n / 10) ((48 + n % 10) ∷ b) in if n == 0 then b else rest

-- `itoa` of a number that is not negative; an int has at most 19 digits.
unfoldable pub itoa : ℕ → Bytes
unfolding itoa_digits
itoa n = if n == 0 then codes "0" else itoa_digits 20 n []

itoa_digits_zero : (fuel : ℕ) (b : Bytes) → itoa_digits fuel 0 b ≡ b
unfolding itoa_digits
itoa_digits_zero zero b = refl
itoa_digits_zero (suc fuel) b = refl

small : (n : ℕ) → ltb n 10 ≡ true → n < 10
small n e = ground (arith, e)

large : (n : ℕ) → ltb n 10 ≡ false → 10 ≤ n
large n e = ground (arith, e)

ten_power : (k : ℕ) → 10 ^ (suc k + 1) ≡ 10 * 10 ^ (k + 1)
ten_power k =
    let next : suc k + 1 ≡ suc (k + 1) = omega arith in
    ap (λ j. 10 ^ j) next ∙ omega (arith, pow-suc 10 (k + 1))

-- `itoa` of a number that is not 0.
itoa_lem : (n : ℕ) → (n == 0) ≡ false → itoa n ≡ itoa_digits 20 n []
unfolding itoa
itoa_lem n e = rw e refl

decimal_lem : (n : ℕ) → decimal_fuel 19 n ≡ decimal n
unfolding decimal
decimal_lem n = refl

not_zero : (n : ℕ) → 0 < n → (n == 0) ≡ false
not_zero n h = ground arith

itoa_digits_lem :
    (fuel n : ℕ) (b : Bytes)
    → 0 < n
    → n < 10 ^ (fuel + 1)
    → itoa_digits (suc fuel) n b ≡ decimal_fuel fuel n ++ b
unfolding itoa_digits decimal_fuel
itoa_digits_lem zero n b pos h = ground arith
itoa_digits_lem (suc fuel) n b pos h = elim (Bool-cases (ltb n 10)) [
  | inl e ↦
      let last : n / 10 ≡ 0 = omega (arith, e, small n e) in
      ground (arith, itoa_digits_zero fuel ((48 + n % 10) ∷ b), last, small n e)
  | inr e ↦
      let more : 10 ≤ n = large n e in
      let digit = (48 + n % 10) ∷ [] in
      rw (decimal_fuel, e, not_zero n pos)
        (itoa_digits_lem fuel (n / 10) ((48 + n % 10) ∷ b) (omega (arith, more))
            (omega (arith, h, ten_power fuel))
          ∙ sym (append_assoc (decimal_fuel fuel (n / 10)) digit b))
]

-- `itoa` writes a number as `%d` does.
pub itoa-decimal : (n : ℕ) → n < 2 ^ 63 → itoa n ≡ decimal n
itoa-decimal n h = elim (Bool-cases (n == 0)) [
  | inl e ↦ rw ((==_iff n 0).0 e) (unfold itoa decimal in refl)
  | inr e ↦
      itoa_lem n e
      ∙ (itoa_digits_lem 19 n [] (ground (arith, e)) (omega (arith, h))
          ∙ (append-nil (decimal_fuel 19 n) ∙ decimal_lem n))
]
