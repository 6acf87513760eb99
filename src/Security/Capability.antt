-- ===== src/Security/Capability.antt =====
-- pkg/security/capability.go. A time is counted in nanoseconds from the zero time, a duration is the bit
-- pattern of its int64, and the clock and the random nonce are arguments. The JSON encoder and the
-- signatures of pkg/crypto are parameters.
pub mod Laws
pub mod Services
use local_web.Base.{
  ℕ, zero, suc, ◌+◌, ◌-◌, ◌/◌, ◌%◌, ◌^◌, ◌≡◌, Bool, true, false, not, ◌&&◌, ◌||◌, List, [], ◌∷◌,
  ◌++◌, Option, none, some, ◌==◌, ltb, Bytes, same, length, member, include, any, keep, Dict,
  lookup, put, delete, if◌then◌else◌,
}
use local_web.Base.Int64.{lt_int64}
use local_web.Base.Wire.{zeros}

pub record CapabilityToken : Type 0 where
  pub peer_id : Bytes
  pub services : List Bytes
  pub issued_at : ℕ
  pub expires_at : ℕ
  pub nonce : Bytes
  pub signature : Bytes

-- The struct that `CanonicalForm` hands to the encoder; the times are int64 patterns.
pub record Raw : Type 0 where
  pub peer_id : Bytes
  pub services : List Bytes
  pub issued_at : ℕ
  pub expires_at : ℕ
  pub nonce : Bytes

-- `Time.Unix`: seconds, from 62135596800 s after the zero time.
abbrev pub unix : ℕ → ℕ
unix t = (t / 1000000000 + (2 ^ 64 - 62135596800)) % 2 ^ 64

abbrev pub raw : CapabilityToken → Raw
raw t = record {
  peer_id = t.peer_id;
  services = t.services;
  issued_at = unix t.issued_at;
  expires_at = unix t.expires_at;
  nonce = t.nonce;
}

-- The errors of `Verify`.
pub data TokenError : Type 0 where
  bad_length : TokenError
  zero_peer : TokenError
  not_marshalled : TokenError
  bad_signature : TokenError
  token_expired : TokenError

abbrev pub is_expired : ℕ → CapabilityToken → Bool
is_expired now t = not (t.expires_at == 0) && ltb t.expires_at now

pub record CapabilityManager : Type 0 where
  pub priv_key : Bytes
  pub pub_key : Bytes
  pub tokens : Dict (List CapabilityToken)
  pub revoked : List Bytes
  pub services : List Bytes

abbrev pub new_capability_manager : Bytes → Bytes → CapabilityManager
new_capability_manager public priv = record {
  priv_key = priv;
  pub_key = public;
  tokens = [];
  revoked = [];
  services = [];
}

unfoldable pub register_service : Bytes → CapabilityManager → CapabilityManager
register_service svc m = record m { services = include svc m.services }

-- Reading a missing key gives the nil slice.
abbrev pub tokens_of : Bytes → CapabilityManager → List CapabilityToken
tokens_of peer_id m = elim (lookup peer_id m.tokens) [ none ↦ [] | some tokens ↦ tokens ]

abbrev pub all_registered : List Bytes → CapabilityManager → Bool
all_registered [] m = true
all_registered (svc ∷ svcs) m = member svc m.services && all_registered svcs m

abbrev pub new_token : Bytes → List Bytes → ℕ → ℕ → Bytes → CapabilityToken
new_token peer_id services ttl now nonce = record {
  peer_id = peer_id;
  services = services;
  issued_at = now;
  expires_at = if lt_int64 0 ttl then now + ttl else 0;
  nonce = nonce;
  signature = [];
}

unfoldable pub revoke_capability : Bytes → CapabilityManager → CapabilityManager
revoke_capability peer_id m = record m {
  revoked = include peer_id m.revoked;
  tokens = delete peer_id m.tokens;
}

unfoldable pub check_access : ℕ → Bytes → Bytes → CapabilityManager → Bool
check_access now peer_id svc m =
    if member peer_id m.revoked
    then false
    else any (λ t. not (is_expired now t) && member svc t.services) (tokens_of peer_id m)

unfoldable pub peer_tokens : ℕ → Bytes → CapabilityManager → List CapabilityToken
peer_tokens now peer_id m = keep (λ t. not (is_expired now t)) (tokens_of peer_id m)

module _ (marshal_json : Raw → Option Bytes) where
  abbrev pub canonical_form : CapabilityToken → Option Bytes
  canonical_form t = marshal_json (raw t)

  -- `none` is the nil error.
  unfoldable pub verify :
      (Bytes → Bytes → Bytes → Bool) → Bytes → ℕ → CapabilityToken → Option TokenError
  verify verify_bytes issuer_pub now t =
      if not (length t.signature == 64)
      then some bad_length
      else if same t.peer_id (zeros 32)
      then some zero_peer
      else elim (canonical_form t) [
        | none ↦ some not_marshalled
        | some canonical ↦
            if not (verify_bytes issuer_pub canonical t.signature)
            then some bad_signature
            else if is_expired now t
            then some token_expired
            else none
      ]

  -- `none` is the error.
  unfoldable pub sign :
      (Bytes → Bytes → Option Bytes) → Bytes → CapabilityToken → Option CapabilityToken
  sign sign_bytes priv t = elim (canonical_form t) [
    | none ↦ none
    | some canonical ↦ elim (sign_bytes priv canonical) [
      | none ↦ none
      | some sig ↦ some (record t { signature = sig })
    ]
  ]

  -- The nonce is `none` where the random source fails; `none` as a result is an error, which leaves the
  -- manager as it was.
  unfoldable pub grant_capability :
      (Bytes → Bytes → Option Bytes)
      → Bytes
      → List Bytes
      → ℕ
      → ℕ
      → Option Bytes
      → CapabilityManager
      → Option (CapabilityToken × CapabilityManager)
  unfolding sign
  grant_capability sign_bytes peer_id services ttl now random m =
      if length services == 0 || not (all_registered services m) then none else elim random [
        | none ↦ none
        | some bytes ↦
            elim (sign sign_bytes m.priv_key (new_token peer_id services ttl now bytes)) [
              | none ↦ none
              | some tok ↦ some (
                tok,
                record m { tokens = put peer_id (tokens_of peer_id m ++ (tok ∷ [])) m.tokens },
              )
            ]
      ]
