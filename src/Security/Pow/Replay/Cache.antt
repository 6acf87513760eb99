-- ===== src/Security/Pow/Replay/Cache.antt =====
-- pkg/security/pow.go, `PoWValidator.Validate`: the map of the digests stays bounded.
use local_web.Base.{
  ℕ, zero, suc, ◌≤◌, ◌<◌, ◌≡◌, ◌≢◌, refl, ◌⊎◌, inl, inr, Bool, true, false, not, [], ◌∷◌, arith,
  ltb, Bool-cases, Bytes, same, same_iff, same_refl, length, All, any, keep, Dict, put, delete,
}
use local_web.Security.Pow.{PowChallenge, PowSolution, verify_pow_with_time}
use local_web.Security.Pow.Difficulty.{Float64}
use local_web.Security.Pow.Replay.{
  max_seen, oldest_from, drop_oldest, fresh_entries, remember, is_replay, PowValidator, validate,
  digest,
}

abbrev pub has_key : Bytes → Dict ℕ → Bool
has_key k m = any (λ (e : Bytes × ℕ). same e.0 k) m

-- No key is the empty string.
abbrev pub NamedKeys : Dict ℕ → Type 0
NamedKeys m = All (λ (e : Bytes × ℕ). e.0 ≢ []) m

length-delete-le : (k : Bytes) (m : Dict ℕ) → length (delete k m) ≤ length m
length-delete-le k [] = omega arith
length-delete-le k ((j, t) ∷ m) = ground (arith, length-delete-le k m)

length-delete-lt : (k : Bytes) (m : Dict ℕ) → has_key k m ≡ true → length (delete k m) < length m
length-delete-lt k [] h = cc
length-delete-lt k ((j, t) ∷ m) h = ground (arith, length-delete-lt k m, length-delete-le k m)

NamedKeys-delete : (k : Bytes) (m : Dict ℕ) → NamedKeys m → NamedKeys (delete k m)
NamedKeys-delete k [] h = tt
NamedKeys-delete k ((j, t) ∷ m) h = ground (arith, NamedKeys-delete k m h.1)

NamedKeys-put : (k : Bytes) (t : ℕ) (m : Dict ℕ) → k ≢ [] → NamedKeys m → NamedKeys (put k t m)
NamedKeys-put k t [] n h = (n, tt)
NamedKeys-put k t ((j, u) ∷ m) n h = elim (Bool-cases (same j k)) [
  | inl e ↦ rw e (n, h.1)
  | inr e ↦ rw e (h.0, NamedKeys-put k t m n h.1)
]

NamedKeys-keep : (p : Bytes × ℕ → Bool) (m : Dict ℕ) → NamedKeys m → NamedKeys (keep p m)
NamedKeys-keep p [] h = tt
NamedKeys-keep p (e ∷ m) h = elim (Bool-cases (p e)) [
  | inl q ↦ rw (q, keep) (h.0, NamedKeys-keep p m h.1)
  | inr q ↦ rw (q, keep) (NamedKeys-keep p m h.1)
]

oldest_from_in :
    (k : Bytes) (t : ℕ) (m : Dict ℕ)
    → (oldest_from k t m ≡ k) ⊎ (has_key (oldest_from k t m) m ≡ true)
unfolding oldest_from
oldest_from_in k t [] = inl refl
oldest_from_in k t ((j, u) ∷ m) =
    ground (arith, oldest_from_in j u m, oldest_from_in k t m, same_refl j)

has_key-oldest : (e : Bytes × ℕ) (m : Dict ℕ) → has_key (oldest_from [] 0 (e ∷ m)) (e ∷ m) ≡ true
unfolding oldest_from
has_key-oldest (k, t) m = ground (arith, oldest_from_in k t m, same_refl k)

not_empty : (k : Bytes) (m : Dict ℕ) → NamedKeys m → has_key k m ≡ true → same k [] ≡ false
not_empty k [] h e = cc
not_empty k ((j, t) ∷ m) h e = ground (arith, not_empty k m h.1, same_iff j k, same_iff k [], h.0)

drop_oldest_bound :
    (fuel : ℕ) (m : Dict ℕ)
    → NamedKeys m
    → length m ≤ fuel
    → NamedKeys (drop_oldest fuel m) × (length (drop_oldest fuel m) ≤ max_seen)
unfolding drop_oldest
drop_oldest_bound zero m h l = (h, omega arith)
drop_oldest_bound (suc fuel) [] h l = (tt, omega arith)
drop_oldest_bound (suc fuel) (e ∷ m) h l = elim (Bool-cases (ltb max_seen (length (e ∷ m)))) [
  | inr few ↦ rw few (h, ground arith)
  | inl many ↦
      let found = has_key-oldest e m in
      rw (many, not_empty _ (e ∷ m) h found)
        (drop_oldest_bound fuel _ (NamedKeys-delete _ (e ∷ m) h)
          (omega (arith, length-delete-lt _ (e ∷ m) found)))
]

-- The digests are within the cap, and none is the empty string.
pub record IsCache (seen : Dict ℕ) : Type 0 where
  pub named : NamedKeys seen
  pub capped : length seen ≤ max_seen

remember-IsCache :
    (key : Bytes) (now : ℕ) (seen : Dict ℕ)
    → key ≢ []
    → IsCache seen
    → IsCache (remember key now seen)
unfolding remember
remember-IsCache key now seen n k = elim (Bool-cases (ltb max_seen (length (put key now seen)))) [
  | inr few ↦ rw (few, remember) (record { named = put_named; capped = ground arith })
  | inl many ↦
      let (a, b) =
        drop_oldest_bound _ (fresh_entries now (put key now seen))
          (NamedKeys-keep _ (put key now seen) put_named) (omega arith) in
      rw (many, remember) (record { named = a; capped = b })
]
  where
    put_named : NamedKeys (put key now seen)
    put_named = NamedKeys-put key now seen n k.named

module _ (fl : Float64) (sha3_hash : Bytes → Bytes)
    (argon2_id_key : Bytes → Bytes → ℕ → ℕ → ℕ → Bytes) where
  -- Whatever is validated, the validator still remembers at most 1024 digests and none that is empty, if
  -- that was so before and the hash is never empty.
  pub validate-IsCache :
      (now : ℕ) (challenge : PowChallenge) (sol : PowSolution) (v : PowValidator fl)
      → ((payload : Bytes) → sha3_hash payload ≢ [])
      → IsCache v.seen
      → IsCache (validate fl sha3_hash argon2_id_key now challenge sol v).1.seen
  unfolding validate
  validate-IsCache now challenge sol v named k =
      elim (Bool-cases (not (verify_pow_with_time sha3_hash argon2_id_key challenge sol now))) [
        | inl bad ↦ rw (bad, validate) k
        | inr good ↦
            elim (Bool-cases (is_replay (digest fl sha3_hash argon2_id_key challenge) now v.seen)) [
              | inl old ↦ rw (good, old, validate) k
              | inr new ↦
                  rw (good, new, validate)
                    (remember-IsCache (digest fl sha3_hash argon2_id_key challenge) now v.seen
                      (named _) k)
            ]
      ]
