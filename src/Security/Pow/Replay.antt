-- ===== src/Security/Pow/Replay.antt =====
-- pkg/security/pow.go, `PoWValidator`. The map of the digests is an association list; where two entries
-- are equally old, the range over the map decides which one goes, here the order of the list.
pub mod Cache
pub mod Once
use local_web.Base.{
  ℕ, zero, suc, ◌+◌, ◌-◌, ◌*◌, ◌/◌, ◌%◌, ◌^◌, ◌≤◌, ◌<◌, ◌≡◌, ◌≢◌, refl, sym, ap, ◌∙◌, ◌↔◌, ◌⊎◌, inl,
  inr, Bool, true, false, not, ◌&&◌, ◌||◌, List, [], ◌∷◌, ◌++◌, map, Option, none, some, some_inj,
  arith, ltb, leb, ◌==◌, ==_iff, if◌then◌else◌, Bool-cases, Bool-ext, Option-cases, Bytes, codes,
  same, same_iff, same_refl, member, length, length-append, take, drop, All, any, keep,
  length-keep-le, Dict, lookup, put, delete, lookup-put, lookup-delete, check_range, test_in_range,
}
use local_web.Security.Pow.{
  PowChallenge, PowSolution, marshal_challenge, verify_pow, verify_pow_with_time, pow_replay_window,
}
use local_web.Security.Pow.Difficulty.{Float64, DifficultyAdjuster, record_solve}

abbrev pub max_seen : ℕ
max_seen = 1024

-- The loop that finds the oldest entry; the empty key stands for none.
unfoldable pub oldest_from : Bytes → ℕ → Dict ℕ → Bytes
oldest_from oldest_key oldest [] = oldest_key
oldest_from oldest_key oldest ((k, t) ∷ m) =
    let older = oldest_from k t m in
    let same_one = oldest_from oldest_key oldest m in
    if same oldest_key [] || ltb t oldest then older else same_one

-- The loop that drops the oldest entry; it runs at most once for each entry.
unfoldable pub drop_oldest : ℕ → Dict ℕ → Dict ℕ
unfolding oldest_from
drop_oldest zero m = m
drop_oldest (suc fuel) m =
    let key = oldest_from [] 0 m in
    let rest = drop_oldest fuel (delete key m) in
    if ltb max_seen (length m) then (if same key [] then m else rest) else m

abbrev pub fresh_entries : ℕ → Dict ℕ → Dict ℕ
fresh_entries now m = keep (λ (e : Bytes × ℕ). not (ltb (e.1 + pow_replay_window) now)) m

unfoldable pub remember : Bytes → ℕ → Dict ℕ → Dict ℕ
remember key now seen =
    let m = put key now seen in
    if ltb max_seen (length m)
    then drop_oldest (length (fresh_entries now m)) (fresh_entries now m)
    else m

abbrev pub is_replay : Bytes → ℕ → Dict ℕ → Bool
is_replay key now seen = elim (lookup key seen) [
  | none ↦ false
  | some last ↦ ltb now (last + pow_replay_window)
]

pub data ValidateError : Type 0 where
  invalid_pow : ValidateError
  replayed : ValidateError

module _ (fl : Float64) where
  pub record PowValidator : Type 0 where
    pub adjuster : DifficultyAdjuster fl
    pub seen : Dict ℕ

  abbrev pub new_pow_validator : DifficultyAdjuster fl → PowValidator
  new_pow_validator adjuster = record { adjuster = adjuster; seen = [] }

  module _ (sha3_hash : Bytes → Bytes) (argon2_id_key : Bytes → Bytes → ℕ → ℕ → ℕ → Bytes) where
    -- The digest under which a challenge is remembered.
    abbrev pub digest : PowChallenge → Bytes
    digest challenge = sha3_hash (marshal_challenge challenge)

    -- `none` is the nil error.
    unfoldable pub validate :
        ℕ → PowChallenge → PowSolution → PowValidator → Option ValidateError × PowValidator
    unfolding remember
    validate now challenge sol v =
        if not (verify_pow_with_time sha3_hash argon2_id_key challenge sol now)
        then (some invalid_pow, v)
        else if is_replay (digest challenge) now v.seen
        then (some replayed, v)
        else (
          none,
          record {
            adjuster = record_solve fl now sol.duration v.adjuster;
            seen = remember (digest challenge) now v.seen;
          },
        )
