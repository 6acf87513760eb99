-- ===== src/Dht/Pow.antt =====
-- pkg/dht/dht.go, `SolvePoW` and `VerifyPoW`. The hash, SHA3-256, is a parameter.
use local_web.Base.{
  ℕ, zero, suc, ◌+◌, ◌-◌, ◌^◌, ◌<◌, ◌≤◌, ◌≡◌, inl, inr, Bool, true, false, not, ◌&&◌, ◌++◌, Option,
  none, some, some_inj, arith, Bytes, length, ◌==◌, ltb, leb, if◌then◌else◌, Bool-cases, ==_iff,
}
use local_web.Base.Wire.{put_uint, uint, length-put_uint}

abbrev pub min_pow_difficulty : ℕ
min_pow_difficulty = 8

abbrev pub max_pow_difficulty : ℕ
max_pow_difficulty = 24

unfoldable pub pow_nonce_ceiling : ℕ
pow_nonce_ceiling = 2 ^ 32

module _ (sha3_hash : Bytes → Bytes) where
  -- The comparison of the digest with 1 << (256 - difficulty).
  unfoldable pub meets : Bytes → Bytes → ℕ → Bool
  meets payload nonce difficulty =
      ltb (uint 0 (sha3_hash (payload ++ nonce))) (2 ^ (256 - difficulty))

  abbrev pub in_range : ℕ → Bool
  in_range difficulty = leb min_pow_difficulty difficulty && leb difficulty max_pow_difficulty

  unfoldable pub verify_pow : Bytes → Bytes → ℕ → Bool
  verify_pow payload nonce difficulty =
      if not (length nonce == 8)
      then false
      else if not (in_range difficulty)
      then false
      else meets payload nonce difficulty

  -- The search, with the nonces that are left as fuel.
  unfoldable pub solve_from : ℕ → ℕ → Bytes → ℕ → Option Bytes
  solve_from zero nonce payload difficulty = none
  solve_from (suc left) nonce payload difficulty =
      let rest = solve_from left (nonce + 1) payload difficulty in
      if meets payload (put_uint 8 nonce) difficulty then some (put_uint 8 nonce) else rest

  -- `none` is either error.
  unfoldable pub solve_pow : Bytes → ℕ → Option Bytes
  solve_pow payload difficulty =
      if in_range difficulty then solve_from pow_nonce_ceiling 0 payload difficulty else none

  solve_from-some :
      (left nonce : ℕ) (payload : Bytes) (difficulty : ℕ) (found : Bytes)
      → solve_from left nonce payload difficulty ≡ some found
      → (meets payload found difficulty ≡ true) × (length found ≡ 8)
  unfolding solve_from
  solve_from-some zero nonce payload difficulty found h = cc
  solve_from-some (suc left) nonce payload difficulty found h =
      elim (Bool-cases (meets payload (put_uint 8 nonce) difficulty)) [
        | inl e ↦
            let same_nonce : put_uint 8 nonce ≡ found = some_inj (rw e at h) in
            rw (← same_nonce) (e, length-put_uint 8 nonce)
        | inr e ↦ solve_from-some left (nonce + 1) payload difficulty found (rw e at h)
      ]

  -- What `SolvePoW` returns `VerifyPoW` accepts, for the same challenge and difficulty.
  pub verify-solve :
      (payload : Bytes) (difficulty : ℕ) (found : Bytes)
      → solve_pow payload difficulty ≡ some found
      → verify_pow payload found difficulty ≡ true
  unfolding solve_pow verify_pow
  verify-solve payload difficulty found h = elim (Bool-cases (in_range difficulty)) [
    | inl e ↦
        let (m, l) = solve_from-some pow_nonce_ceiling 0 payload difficulty found (rw e at h) in
        ground arith
    | inr e ↦ absurd (cc (rw e at h))
  ]

  solve_from-none :
      (left nonce : ℕ) (payload : Bytes) (difficulty n : ℕ)
      → solve_from left nonce payload difficulty ≡ none
      → nonce ≤ n
      → n < nonce + left
      → meets payload (put_uint 8 n) difficulty ≡ false
  unfolding solve_from
  solve_from-none zero nonce payload difficulty n h low high = absurd (omega arith)
  solve_from-none (suc left) nonce payload difficulty n h low high =
      elim (Bool-cases (meets payload (put_uint 8 nonce) difficulty)) [
        | inl e ↦ absurd (cc (rw e at h))
        | inr e ↦ elim (Bool-cases (n == nonce)) [
          | inl q ↦ rw ((==_iff n nonce).0 q) e
          | inr q ↦
              solve_from-none left (nonce + 1) payload difficulty n (rw e at h) (ground arith)
                (omega arith)
        ]
      ]

  -- `SolvePoW` fails for a supported difficulty only if none of its 2 ^ 32 nonces meets the target.
  pub solve_pow_exhausted :
      (payload : Bytes) (difficulty n : ℕ)
      → in_range difficulty ≡ true
      → solve_pow payload difficulty ≡ none
      → n < pow_nonce_ceiling
      → verify_pow payload (put_uint 8 n) difficulty ≡ false
  unfolding solve_pow verify_pow
  solve_pow_exhausted payload difficulty n e h high =
      let m =
        solve_from-none pow_nonce_ceiling 0 payload difficulty n (rw e at h) (omega arith)
          (omega arith) in
      ground arith
