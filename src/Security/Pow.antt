-- ===== src/Security/Pow.antt =====
-- pkg/security/pow.go: challenges, solutions and the search. SHA3-256 and Argon2id are parameters; a time
-- is counted in nanoseconds from the zero time, a duration is the bit pattern of its int64.
pub mod Work
pub mod Difficulty
pub mod Replay
mod Tests
use local_web.Base.{
  ℕ, zero, suc, ◌+◌, ◌-◌, ◌*◌, ◌/◌, ◌%◌, ◌^◌, ◌≤◌, ◌<◌, ◌≡◌, ◌≢◌, refl, sym, ap, ◌∙◌, ◌↔◌, ◌⊎◌, inl,
  inr, Bool, true, false, not, ◌&&◌, ◌||◌, List, [], ◌∷◌, ◌++◌, map, Option, none, some, some_inj,
  arith, ltb, leb, ◌==◌, ==_iff, if◌then◌else◌, Bool-cases, Bool-ext, Option-cases, Bytes, codes,
  same, same_iff, same_refl, member, length, length-append, take, drop, All, any, keep,
  length-keep-le, Dict, lookup, put, delete, lookup-put, lookup-delete, check_range, test_in_range,
}
use local_web.Base.Wire.{put_uint, uint, zeros}

abbrev pub max_pow_memory_kib : ℕ
max_pow_memory_kib = 65536

abbrev pub max_pow_time_cost : ℕ
max_pow_time_cost = 4

abbrev pub max_pow_parallelism : ℕ
max_pow_parallelism = 4

abbrev pub min_difficulty : ℕ
min_difficulty = 8

abbrev pub max_difficulty : ℕ
max_difficulty = 24

-- Five minutes.
abbrev pub pow_replay_window : ℕ
pow_replay_window = 300000000000

unfoldable pub pow_nonce_search_limit : ℕ
pow_nonce_search_limit = 2 ^ 32

pub record PowChallenge : Type 0 where
  pub algorithm : Bytes
  pub difficulty : ℕ
  pub memory : ℕ
  pub time_cost : ℕ
  pub parallelism : ℕ
  pub timestamp : ℕ
  pub service : Bytes
  pub salt : Bytes

pub record PowSolution : Type 0 where
  pub nonce : Bytes
  pub hash : Bytes
  pub time : ℕ
  pub duration : ℕ

-- `Time.UnixNano`, which wraps around: the Unix epoch is 62135596800 s after the zero time.
abbrev pub unix_nano : ℕ → ℕ
unix_nano t = (t + (4 * 2 ^ 64 - 62135596800 * 1000000000)) % 2 ^ 64

unfoldable pub marshal_challenge : PowChallenge → Bytes
marshal_challenge c =
    c.algorithm
    ++ (c.difficulty
        ∷ (put_uint 4 c.memory
            ++ (put_uint 4 c.time_cost
                ++ (c.parallelism
                    ∷ (put_uint 8 (unix_nano c.timestamp) ++ (c.service ++ c.salt))))))

abbrev pub cap_cost : ℕ → ℕ → ℕ
cap_cost limit n = if n == 0 || ltb limit n then limit else n

-- The memory, the time cost and the parallelism that are used.
unfoldable pub clamp : PowChallenge → ℕ × ℕ × ℕ
clamp c =
    let memory = cap_cost max_pow_memory_kib c.memory in
    let parallelism = cap_cost max_pow_parallelism c.parallelism in
    (
      if ltb memory (8 * parallelism) then 8 * parallelism else memory,
      cap_cost max_pow_time_cost c.time_cost,
      parallelism,
    )

-- The inner loop of `leadingZeroBits`, from bit `j - 1` down: the clear bits ahead of the first set one.
unfoldable pub zero_bits : ℕ → ℕ → ℕ
zero_bits zero b = 0
zero_bits (suc j) b = let rest = zero_bits j b + 1 in if b / 2 ^ j % 2 == 0 then rest else 0

unfoldable pub zero_bits_from : ℕ → Bytes → ℕ
unfolding zero_bits
zero_bits_from n [] = n
zero_bits_from n (b ∷ bs) =
    let rest = zero_bits_from (n + 8) bs in if b == 0 then rest else n + zero_bits 8 b

unfoldable pub leading_zero_bits : Bytes → ℕ
unfolding zero_bits_from
leading_zero_bits hash = zero_bits_from 0 hash

abbrev pub generate_challenge : ℕ → Bytes → ℕ → Bytes → PowChallenge
generate_challenge difficulty svc now salt = record {
  algorithm = codes "argon2id-sha3";
  difficulty =
      (let raised = if ltb difficulty min_difficulty then min_difficulty else difficulty in
        if ltb max_difficulty raised then max_difficulty else raised);
  memory = 65536;
  time_cost = 1;
  parallelism = 1;
  timestamp = now;
  service = svc;
  salt = salt;
}

-- The errors of `SolvePoWContext`.
pub data SolveError : Type 0 where
  cancelled : SolveError
  too_difficult : SolveError
  exhausted : SolveError

pub data SolveResult : Type 0 where
  solved : PowSolution → SolveResult
  failed : SolveError → SolveResult

module _ (sha3_hash : Bytes → Bytes) (argon2_id_key : Bytes → Bytes → ℕ → ℕ → ℕ → Bytes) where
  unfoldable pub work_seed : PowChallenge → Bytes
  work_seed c =
      let (memory, time_cost, parallelism) = clamp c in
      take 32 (argon2_id_key (marshal_challenge c) c.salt time_cost memory parallelism ++ zeros 32)

  unfoldable pub candidate_hash : Bytes → Bytes → Bytes
  candidate_hash seed nonce = sha3_hash (seed ++ put_uint 8 (uint 0 nonce))

  -- The search from a nonce on, with the nonces that are left as fuel. `ctx_err` says whether the
  -- context is found cancelled when it is asked at a nonce.
  unfoldable pub solve_from : (ℕ → Bool) → ℕ → ℕ → Bytes → ℕ → ℕ → ℕ → SolveResult
  unfolding candidate_hash
  solve_from ctx_err zero nonce seed difficulty finished took = failed exhausted
  solve_from ctx_err (suc left) nonce seed difficulty finished took =
      let n = put_uint 8 nonce in
      let hash = candidate_hash seed n in
      let rest = solve_from ctx_err left (nonce + 1) seed difficulty finished took in
      if nonce % 65536 == 0 && ctx_err nonce
      then failed cancelled
      else if leb difficulty (leading_zero_bits hash)
      then solved (record { nonce = n; hash = hash; time = finished; duration = took })
      else rest

  unfoldable pub solve_pow_context : Bool → (ℕ → Bool) → PowChallenge → ℕ → ℕ → SolveResult
  solve_pow_context is_cancelled ctx_err challenge finished took =
      if is_cancelled
      then failed cancelled
      else if ltb max_difficulty challenge.difficulty
      then failed too_difficult
      else solve_from ctx_err pow_nonce_search_limit 0 (work_seed challenge) challenge.difficulty
          finished took

  unfoldable pub verify_pow : PowChallenge → PowSolution → Bool
  verify_pow challenge sol =
      let computed = candidate_hash (work_seed challenge) sol.nonce in
      if not (same computed sol.hash)
      then false
      else leb challenge.difficulty (leading_zero_bits computed)

  -- The age is at most the window, in either direction.
  unfoldable pub verify_pow_with_time : PowChallenge → PowSolution → ℕ → Bool
  verify_pow_with_time challenge sol now =
      if not (verify_pow challenge sol)
      then false
      else leb now (challenge.timestamp + pow_replay_window)
        && leb challenge.timestamp (now + pow_replay_window)
