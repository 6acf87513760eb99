-- ===== src/Federation/Limits.antt =====
-- pkg/federation/rendezvous_limits.go: what a registration may hold.
-- `net.SplitHostPort` is a parameter, by whether it succeeds.
use local_web.Base.{
  ℕ, ◌≤◌, ◌<◌, ◌≡◌, inl, inr, Bool, true, false, not, List, [], ◌∷◌, Option, none, some, arith, ltb,
  ◌==◌, if◌then◌else◌, Option-cases, Bytes, same, length, All,
}

abbrev pub max_register_body : ℕ
max_register_body = 65536

abbrev pub max_addrs_per_peer : ℕ
max_addrs_per_peer = 16

abbrev pub max_addr_len : ℕ
max_addr_len = 256

abbrev pub max_name_len : ℕ
max_name_len = 64

abbrev pub max_services_per_peer : ℕ
max_services_per_peer = 32

pub data ErrMalformedPeer : Type 0 where
  name_required : ErrMalformedPeer
  name_too_long : ErrMalformedPeer
  addr_required : ErrMalformedPeer
  too_many_addrs : ErrMalformedPeer
  addr_empty : ErrMalformedPeer
  addr_too_long : ErrMalformedPeer
  addr_not_host_port : ErrMalformedPeer
  too_many_services : ErrMalformedPeer

-- The loop over the addresses; `none` when it comes to its end.
abbrev pub check_addrs : (Bytes → Bool) → List Bytes → Option ErrMalformedPeer
check_addrs splits [] = none
check_addrs splits (a ∷ addrs) =
    let others = check_addrs splits addrs in
    if length a == 0
    then some addr_empty
    else if ltb max_addr_len (length a)
    then some addr_too_long
    else if not (splits a)
    then some addr_not_host_port
    else others

-- `none` is the nil error.
unfoldable pub validate_peer : (Bytes → Bool) → List Bytes → Bytes → ℕ → Option ErrMalformedPeer
validate_peer splits addrs name services =
    if same name []
    then some name_required
    else if ltb max_name_len (length name)
    then some name_too_long
    else if length addrs == 0
    then some addr_required
    else if ltb max_addrs_per_peer (length addrs)
    then some too_many_addrs
    else elim (check_addrs splits addrs) [
      | some e ↦ some e
      | none ↦ if ltb max_services_per_peer services then some too_many_services else none
    ]

-- What a peer that is stored looks like.
pub record IsPeer (splits : Bytes → Bool) (addrs : List Bytes) (name : Bytes) (services : ℕ)
    : Type 0 where
  pub named : 0 < length name
  pub short_name : length name ≤ max_name_len
  pub some_addrs : 0 < length addrs
  pub few_addrs : length addrs ≤ max_addrs_per_peer
  pub dialable : All (λ a. (0 < length a) × (length a ≤ max_addr_len) × (splits a ≡ true)) addrs
  pub few_services : services ≤ max_services_per_peer

check_addrs_lem :
    (splits : Bytes → Bool) (addrs : List Bytes)
    → check_addrs splits addrs ≡ none
    → All (λ a. (0 < length a) × (length a ≤ max_addr_len) × (splits a ≡ true)) addrs
check_addrs_lem splits [] h = tt
check_addrs_lem splits (a ∷ addrs) h = ground (arith, check_addrs_lem splits addrs)

length_pos : (name : Bytes) → same name [] ≡ false → 0 < length name
length_pos [] h = absurd (cc h)
length_pos (b ∷ name) h = omega arith

pub validate_peer-IsPeer :
    (splits : Bytes → Bool) (addrs : List Bytes) (name : Bytes) (services : ℕ)
    → validate_peer splits addrs name services ≡ none
    → IsPeer splits addrs name services
unfolding validate_peer
validate_peer-IsPeer splits addrs name services h = elim (Option-cases (check_addrs splits addrs)) [
  | inr (e, f) ↦ absurd (ground (arith, h, f))
  | inl f ↦
      let tests : (0 < length name)
          × (length name ≤ max_name_len)
          × (0 < length addrs)
          × (length addrs ≤ max_addrs_per_peer)
          × (services ≤ max_services_per_peer) =
        ground (arith, h, f, length_pos name) in
      record {
        named = tests.0;
        short_name = tests.1;
        some_addrs = tests.2;
        few_addrs = tests.3;
        dialable = check_addrs_lem splits addrs f;
        few_services = tests.4;
      }
]
