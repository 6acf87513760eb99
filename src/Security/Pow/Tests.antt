-- ===== src/Security/Pow/Tests.antt =====
-- pkg/security/pow.go: the theorems on the replay cache, under a hash of 32 zero bytes and with natural
-- numbers for the float64s.
use local_web.Base.{ℕ, ◌/◌, ◌+◌, ◌≡◌, ◌≢◌, refl, List, [], ◌∷◌, none, arith, codes, Bytes, ltb}
use local_web.Base.Wire.{zeros}
use local_web.Security.Pow.{
  PowChallenge, PowSolution, verify_pow_with_time, verify_pow, leading_zero_bits, candidate_hash,
  work_seed,
}
use local_web.Security.Pow.Difficulty.{Float64, default_pow_config, new_difficulty_adjuster}
use local_web.Security.Pow.Replay.{PowValidator, new_pow_validator, validate}
use local_web.Security.Pow.Replay.Once.{Attempt, run, no_replay}

abbrev numbers : Float64
numbers = record {
  F = ℕ;
  of_int = λ n. n;
  lt = ltb;
  add = λ x y. x + y;
  div = λ x y. x / y;
  log2 = λ x. 0;
  round_uint8 = λ x. x;
  IsNumber = λ x. Unit;
  of_int_pos = λ n h. ground arith;
  of_int-IsNumber = λ n. tt;
  lt_pos = λ x h. (tt, ground arith);
  div_nonneg = λ n x h. (tt, ground arith);
  log2-IsNumber = λ x h k. tt;
  add-IsNumber = λ n x h. tt;
  round_between = λ lo hi x h k l u. (ground (arith, l), ground (arith, u));
  lt_of_int = λ m n h k. refl;
}

abbrev sha3 : Bytes → Bytes
sha3 s = zeros 32

abbrev argon : Bytes → Bytes → ℕ → ℕ → ℕ → Bytes
argon payload salt time_cost memory parallelism = zeros 32

abbrev challenge : PowChallenge
challenge = record {
  algorithm = codes "argon2id-sha3";
  difficulty = 8;
  memory = 1;
  time_cost = 1;
  parallelism = 1;
  timestamp = 10;
  service = codes "dns";
  salt = zeros 16;
}

abbrev solution : PowSolution
solution = record { nonce = zeros 8; hash = zeros 32; time = 11; duration = 1 }

abbrev validator : PowValidator numbers
validator = new_pow_validator numbers (new_difficulty_adjuster numbers (default_pow_config numbers))

sha3-some : (payload : Bytes) → sha3 payload ≢ []
sha3-some payload e = cc e

abbrev after : PowValidator numbers
after = (validate numbers sha3 argon 20 challenge solution validator).1

first_time : validate numbers sha3 argon 20 challenge solution validator ≡ (none, after)
unfolding validate verify_pow_with_time verify_pow leading_zero_bits candidate_hash work_seed
first_time = refl

-- Another solution of another challenge is validated in between.
abbrev between : List Attempt
between =
    record { now = 30; challenge = record challenge { service = codes "chat" }; sol = solution }
    ∷ []

no_replay_example :
    (validate numbers sha3 argon 40 challenge solution (run numbers sha3 argon between after)).0
    ≢ none
no_replay_example =
    no_replay numbers sha3 argon 20 40 challenge solution solution between validator after
      first_time (omega arith) (omega arith, tt) (omega arith)
