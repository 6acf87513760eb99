-- ===== src/Email/Antispam/Work.antt =====
-- pkg/services/email/antispam.go, `PoWChecker`: a nonce counts once in five minutes.
use local_web.Base.{
  ℕ, zero, suc, ◌+◌, ◌<◌, ◌≡◌, refl, sym, ◌∙◌, inl, inr, true, false, ◌++◌, some, arith, leb,
  Bool-cases, Bytes, same_refl, lookup, delete, lookup-put,
}
use local_web.Email.Antispam.{
  PowChecker, nonce_window, is_used, verify_pow, candidate, generate_from,
}
use local_web.Security.Pow.{leading_zero_bits}

taken_nonce :
    (sha3 : Bytes → Bytes) (now : ℕ) (email nonce : Bytes) (p : PowChecker)
    → (verify_pow sha3 now email nonce p).1 ≡ true
    → lookup nonce (verify_pow sha3 now email nonce p).0.nonces ≡ some now
unfolding verify_pow
taken_nonce sha3 now email nonce p h = elim (Bool-cases (is_used now nonce p)) [
  | inl e ↦ absurd (ground (arith, h, e))
  | inr e ↦ elim (Bool-cases (leb p.difficulty (leading_zero_bits (sha3 (email ++ nonce))))) [
    | inr f ↦ absurd (ground (arith, h, e, f))
    | inl f ↦
        rw (e, f) (lookup-put nonce nonce now (delete nonce p.nonces) ∙ rw (same_refl nonce) refl)
  ]
]

used_nonce :
    (sha3 : Bytes → Bytes) (now : ℕ) (email nonce : Bytes) (p : PowChecker)
    → is_used now nonce p ≡ true
    → (verify_pow sha3 now email nonce p).1 ≡ false
unfolding verify_pow
used_nonce sha3 now email nonce p h = rw h refl

-- A nonce that `VerifyPoW` has taken is refused for five minutes, whatever the message it comes with.
pub verify_pow_twice :
    (sha3 : Bytes → Bytes) (now later : ℕ) (email other nonce : Bytes) (p : PowChecker)
    → (verify_pow sha3 now email nonce p).1 ≡ true
    → later < now + nonce_window
    → (verify_pow sha3 later other nonce (verify_pow sha3 now email nonce p).0).1 ≡ false
verify_pow_twice sha3 now later email other nonce p h soon =
    used_nonce sha3 later other nonce (verify_pow sha3 now email nonce p).0
      (ground (arith, taken_nonce sha3 now email nonce p h, soon))

-- A nonce that `GeneratePoW` finds passes `VerifyPoW` of a checker that has not seen it.
pub generate-verify :
    (sha3 : Bytes → Bytes) (fuel i now : ℕ) (random email found : Bytes) (p : PowChecker)
    → generate_from sha3 fuel i random email p ≡ some found
    → is_used now found p ≡ false
    → (verify_pow sha3 now email found p).1 ≡ true
unfolding generate_from verify_pow
generate-verify sha3 zero i now random email found p h fresh = absurd (cc h)
generate-verify sha3 (suc fuel) i now random email found p h fresh =
    elim (Bool-cases (leb p.difficulty (leading_zero_bits (sha3 (email ++ candidate random i))))) [
      | inl e ↦
          let this : candidate random i ≡ found = ground (arith, h, e) in
          rw (fresh, sym this, e) refl
      | inr e ↦
          generate-verify sha3 fuel (i + 1) now random email found p (ground (arith, h, e)) fresh
    ]
