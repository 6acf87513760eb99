-- ===== src/Security/Pow/Work.antt =====
-- pkg/security/pow.go: the caps on the cost, the count of leading zeros, and the search against the
-- verifier.
use local_web.Base.{
  ℕ, zero, suc, ◌+◌, ◌*◌, ◌≤◌, ◌<◌, ◌≡◌, refl, ap, ◌∙◌, inl, inr, Bool, true, false, ◌||◌, [], ◌∷◌,
  none, some, arith, leb, ◌==◌, Bool-cases, Bytes, same_refl, length, All, check_range,
  test_in_range,
}
use local_web.Dht.NodeId.{prefix_len, prefix_from, first_set_bit}
use local_web.Security.Pow.{
  PowChallenge, PowSolution, solved, clamp, zero_bits, zero_bits_from, leading_zero_bits,
  max_pow_memory_kib, max_pow_time_cost, max_pow_parallelism, max_difficulty,
  pow_nonce_search_limit, candidate_hash, solve_from, solve_pow_context, verify_pow, work_seed,
}

-- Whatever the challenge asks for, the memory, the time cost and the parallelism that are used are within
-- the caps and positive, and the memory is the 8 blocks for each lane that Argon2 needs.
pub clamp_bounds :
    (c : PowChallenge)
    → ((clamp c).0 ≤ max_pow_memory_kib)
      × ((clamp c).1 ≤ max_pow_time_cost)
      × ((clamp c).2 ≤ max_pow_parallelism)
      × (0 < (clamp c).1)
      × (0 < (clamp c).2)
      × (8 * (clamp c).2 ≤ (clamp c).0)
unfolding clamp
clamp_bounds c = ground arith

-- The two loops over a byte count alike, checked on every byte that is not zero.
abbrev same_count : ℕ → Bool
same_count b = b == 0 || (elim (first_set_bit 8 b) [ none ↦ false | some k ↦ k == zero_bits 8 b ])

same_counts : check_range same_count 256 ≡ true
unfolding first_set_bit zero_bits check_range
same_counts = refl

first_set_bit-eq-zero_bits : (b : ℕ) → 0 < b → b < 256 → first_set_bit 8 b ≡ some (zero_bits 8 b)
first_set_bit-eq-zero_bits b pos small =
    ground (arith, test_in_range same_count 256 b same_counts small)

zero_bits_from-eq-prefix_from :
    (i : ℕ) (bs : Bytes)
    → All (λ b. b < 256) bs
    → i + length bs ≡ 32
    → zero_bits_from (i * 8) bs ≡ prefix_from i bs
unfolding zero_bits_from prefix_from
zero_bits_from-eq-prefix_from i [] h e = omega arith
zero_bits_from-eq-prefix_from i (b ∷ bs) h e = elim (Bool-cases (b == 0)) [
  | inl z ↦ rw z (
      ap (λ (n : ℕ). zero_bits_from n bs) (omega arith)
      ∙ zero_bits_from-eq-prefix_from (i + 1) bs h.1 (omega arith))
  | inr nz ↦ rw (nz, first_set_bit-eq-zero_bits b (ground arith) h.0) refl
]

-- On 32 bytes the count of leading zero bits is the prefix length of the table's ids.
pub leading_zero_bits-eq-prefix_len :
    (hash : Bytes)
    → All (λ b. b < 256) hash
    → length hash ≡ 32
    → leading_zero_bits hash ≡ prefix_len hash
unfolding leading_zero_bits prefix_len
leading_zero_bits-eq-prefix_len hash h e = zero_bits_from-eq-prefix_from 0 hash h (omega arith)

module _ (sha3_hash : Bytes → Bytes) (argon2_id_key : Bytes → Bytes → ℕ → ℕ → ℕ → Bytes) where
  solve_from-solved :
      (ctx_err : ℕ → Bool) (left nonce : ℕ) (seed : Bytes) (difficulty finished took : ℕ)
      (s : PowSolution)
      → solve_from sha3_hash argon2_id_key ctx_err left nonce seed difficulty finished took
        ≡ solved s
      → (s.hash ≡ candidate_hash sha3_hash argon2_id_key seed s.nonce)
        × (leb difficulty (leading_zero_bits s.hash) ≡ true)
  unfolding solve_from
  solve_from-solved ctx_err zero nonce seed difficulty finished took s h = absurd (cc h)
  solve_from-solved ctx_err (suc left) nonce seed difficulty finished took s h =
      ground (arith, solve_from-solved ctx_err left (nonce + 1) seed difficulty finished took s)

  -- `VerifyPoW` accepts what the search returns, with or without a context that can be cancelled, for a
  -- challenge of any difficulty up to the maximum.
  pub verify-solve_context :
      (is_cancelled : Bool) (ctx_err : ℕ → Bool) (challenge : PowChallenge) (finished took : ℕ)
      (s : PowSolution)
      → solve_pow_context sha3_hash argon2_id_key is_cancelled ctx_err challenge finished took
        ≡ solved s
      → (verify_pow sha3_hash argon2_id_key challenge s ≡ true)
        × (challenge.difficulty ≤ max_difficulty)
  unfolding solve_pow_context verify_pow
  verify-solve_context is_cancelled ctx_err challenge finished took s h = ground (
    arith,
    solve_from-solved ctx_err pow_nonce_search_limit 0 (work_seed sha3_hash argon2_id_key challenge)
        challenge.difficulty finished took s,
    same_refl s.hash,
  )

  -- A challenge of difficulty 0 is solved by every nonce, with no search: the verifier does not look at
  -- the difficulty that it would itself ask for.
  pub verify_free :
      (challenge : PowChallenge) (nonce : Bytes) (time duration : ℕ)
      → challenge.difficulty ≡ 0
      → verify_pow sha3_hash argon2_id_key challenge (record {
        nonce = nonce;
        hash =
            candidate_hash sha3_hash argon2_id_key
              (work_seed sha3_hash argon2_id_key challenge)
              nonce;
        time = time;
        duration = duration;
      })
        ≡ true
  unfolding verify_pow
  verify_free challenge nonce time duration h = ground (
    arith,
    same_refl (
        candidate_hash sha3_hash argon2_id_key (work_seed sha3_hash argon2_id_key challenge) nonce),
  )
