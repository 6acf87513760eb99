-- ===== src/Security/Pow/Replay/Once.antt =====
-- pkg/security/pow.go, `PoWValidator.Validate`: a challenge is accepted once in a window.
use local_web.Base.{
  ℕ, ◌+◌, ◌≤◌, ◌<◌, ◌≡◌, ◌≢◌, ap, ◌∙◌, inl, inr, false, not, List, [], ◌∷◌, none, some, arith,
  Bool-cases, Bytes, same_iff, same_refl, length, All, Dict, lookup, put, lookup-put,
}
use local_web.Security.Pow.{PowChallenge, PowSolution, verify_pow_with_time, pow_replay_window}
use local_web.Security.Pow.Difficulty.{Float64}
use local_web.Security.Pow.Replay.{max_seen, remember, is_replay, PowValidator, validate, digest}

-- A call of `Validate`.
pub record Attempt : Type 0 where
  pub now : ℕ
  pub challenge : PowChallenge
  pub sol : PowSolution

length-put-le : (k : Bytes) (t : ℕ) (m : Dict ℕ) → length (put k t m) ≤ length m + 1
length-put-le k t [] = omega arith
length-put-le k t ((j, u) ∷ m) = ground (arith, length-put-le k t m)

remember_few :
    (key : Bytes) (now : ℕ) (seen : Dict ℕ)
    → length seen < max_seen
    → remember key now seen ≡ put key now seen
unfolding remember
remember_few key now seen h = ground (arith, length-put-le key now seen)

module _ (fl : Float64) (sha3_hash : Bytes → Bytes)
    (argon2_id_key : Bytes → Bytes → ℕ → ℕ → ℕ → Bytes) where
  pub run : List Attempt → PowValidator fl → PowValidator fl
  run [] v = v
  run (a ∷ as') v = run as' (validate fl sha3_hash argon2_id_key a.now a.challenge a.sol v).1

  -- An entry that is still in its window survives an attempt that leaves the map below its cap.
  kept :
      (key : Bytes) (t : ℕ) (a : Attempt) (v : PowValidator fl)
      → lookup key v.seen ≡ some t
      → a.now < t + pow_replay_window
      → length v.seen < max_seen
      → (lookup key (validate fl sha3_hash argon2_id_key a.now a.challenge a.sol v).1.seen ≡ some t)
        × (length (validate fl sha3_hash argon2_id_key a.now a.challenge a.sol v).1.seen
            ≤ length v.seen + 1)
  unfolding validate
  kept key t a v e early few =
      elim (Bool-cases
        (not (verify_pow_with_time sha3_hash argon2_id_key a.challenge a.sol a.now))) [
          | inl bad ↦ rw (bad, validate) (e, omega arith)
          | inr good ↦
              elim (Bool-cases
                (is_replay (digest fl sha3_hash argon2_id_key a.challenge) a.now v.seen)) [
                  | inl old ↦ rw (good, old, validate) (e, omega arith)
                  | inr new ↦
                      rw (good, new, validate)
                        (rw
                          (remember_few (digest fl sha3_hash argon2_id_key a.challenge) a.now v.seen
                            few)
                          (stays new, length-put-le _ a.now v.seen))
                ]
        ]
    where
      stays :
          is_replay (digest fl sha3_hash argon2_id_key a.challenge) a.now v.seen ≡ false
          → lookup key (put (digest fl sha3_hash argon2_id_key a.challenge) a.now v.seen) ≡ some t
      stays new = ground (
        arith,
        lookup-put (digest fl sha3_hash argon2_id_key a.challenge) key a.now v.seen,
        same_iff (digest fl sha3_hash argon2_id_key a.challenge) key,
        e,
      )

  kept_through :
      (key : Bytes) (t : ℕ) (as' : List Attempt) (v : PowValidator fl)
      → lookup key v.seen ≡ some t
      → All (λ a. a.now < t + pow_replay_window) as'
      → length v.seen + length as' ≤ max_seen
      → lookup key (run as' v).seen ≡ some t
  unfolding run
  kept_through key t [] v e early few = e
  kept_through key t (a ∷ as') v e early few =
      let (e', l) = kept key t a v e early.0 (omega arith) in
      kept_through key t as' _ e' early.1 (omega arith)

  accepted :
      (now : ℕ) (challenge : PowChallenge) (sol : PowSolution) (v after : PowValidator fl)
      → validate fl sha3_hash argon2_id_key now challenge sol v ≡ (none, after)
      → after.seen ≡ remember (digest fl sha3_hash argon2_id_key challenge) now v.seen
  unfolding validate
  accepted now challenge sol v after h = ground arith

  refused :
      (later t : ℕ) (challenge : PowChallenge) (sol : PowSolution) (v : PowValidator fl)
      → lookup (digest fl sha3_hash argon2_id_key challenge) v.seen ≡ some t
      → later < t + pow_replay_window
      → (validate fl sha3_hash argon2_id_key later challenge sol v).0 ≢ none
  unfolding validate
  refused later t challenge sol v e soon = ground arith

  -- Once a challenge has been accepted, no solution of it is accepted within the replay window, whatever
  -- is validated in between within that window, as long as the digests that the validator held before and
  -- the attempts in between are together fewer than the 1024 digests that it holds at most, so that it
  -- has not had to drop one.
  pub no_replay :
      (now later : ℕ) (challenge : PowChallenge) (first second : PowSolution) (as' : List Attempt)
      (v after : PowValidator fl)
      → validate fl sha3_hash argon2_id_key now challenge first v ≡ (none, after)
      → length v.seen + length as' < max_seen
      → All (λ a. a.now < now + pow_replay_window) as'
      → later < now + pow_replay_window
      → (validate fl sha3_hash argon2_id_key later challenge second (run as' after)).0 ≢ none
  no_replay now later challenge first second as' v after h few early soon =
      let key = digest fl sha3_hash argon2_id_key challenge in
      let e : after.seen ≡ put key now v.seen =
        accepted now challenge first v after h ∙ remember_few key now v.seen (omega arith) in
      let held : lookup key after.seen ≡ some now =
        rw e (ground (arith, lookup-put key key now v.seen, same_refl key)) in
      refused later now challenge second (run as' after)
        (kept_through key now as' after held early
          (omega (arith, ap length e, length-put-le key now v.seen)))
        soon
