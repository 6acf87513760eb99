-- ===== src/Federation/Handler.antt =====
-- pkg/federation/federation.go, `HTTPHandler`. The JSON codecs, SHA3-256 and `net.SplitHostPort` are
-- parameters, and the clock is an argument; it does not go back.
pub mod Laws
use local_web.Base.{
  ℕ, zero, suc, ◌+◌, ◌-◌, ◌*◌, ◌/◌, ◌%◌, ◌^◌, ◌≤◌, ◌<◌, ◌≡◌, ◌≢◌, refl, sym, ap, ◌∙◌, ◌↔◌, ◌⊎◌, inl,
  inr, Bool, true, false, not, ◌&&◌, ◌||◌, List, [], ◌∷◌, ◌++◌, map, Option, none, some, some_inj,
  arith, ltb, leb, ◌==◌, ==_iff, if◌then◌else◌, Bool-cases, Bool-ext, Option-cases, Bytes, codes,
  same, same_iff, same_refl, member, length, length-append, take, drop, All, any, keep,
  length-keep-le, Dict, lookup, put, delete, lookup-put, lookup-delete, check_range, test_in_range,
}
use local_web.Federation.Numbers.{itoa}
use local_web.Dht.Pow.{verify_pow, min_pow_difficulty, max_pow_difficulty}
use local_web.Federation.Store.{PeerInfo, MemoryStore, StoreEntry, get, put_peer, gc, all_peers}
use local_web.Federation.Limits.{validate_peer, max_register_body}
use local_web.Federation.NodeIds.{parse_node_id}

pub record Registration : Type 0 where
  pub peer : PeerInfo
  pub nonce : Bytes

pub record HttpHandler : Type 0 where
  pub store : MemoryStore
  pub difficulty : ℕ
  pub last_register : Dict ℕ

-- `NewHTTPHandler` with `WithDifficulty`.
abbrev pub new_http_handler : ℕ → HttpHandler
new_http_handler d = record {
  store = [];
  difficulty =
      (if ltb d min_pow_difficulty
        then min_pow_difficulty
        else if ltb max_pow_difficulty d
        then max_pow_difficulty
        else d);
  last_register = [];
}

-- The status, the header that goes with it and the body. The texts of the errors are left out.
pub record Response : Type 0 where
  pub status : ℕ
  pub header : Option (Bytes × Bytes)
  pub body : Bytes

abbrev status : ℕ → Response
status n = record { status = n; header = none; body = [] }

abbrev pub entry_ttl : ℕ
entry_ttl = 300000000000

abbrev pub min_register_interval : ℕ
min_register_interval = 10000000000

pub data Method : Type 0 where
  get_method : Method
  post_method : Method
  other_method : Method

abbrev pub is_post : Method → Bool
is_post get_method = false
is_post post_method = true
is_post other_method = false

abbrev pub is_get : Method → Bool
is_get get_method = true
is_get post_method = false
is_get other_method = false

-- The node has registered less than the interval ago.
abbrev pub is_early : ℕ → Bytes → HttpHandler → Bool
is_early now id h = elim (lookup id h.last_register) [
  | none ↦ false
  | some last ↦ ltb now (last + min_register_interval)
]

abbrev retry_after : ℕ → Bytes → HttpHandler → Bytes
retry_after now id h =
    let last : ℕ = elim (lookup id h.last_register) [ none ↦ 0 | some last ↦ last ] in
    let retry = (min_register_interval - (now - last)) / 1000000000 in
    itoa (if ltb retry 1 then 1 else retry)

abbrev pub stamp : ℕ → PeerInfo → PeerInfo
stamp now peer = record peer { source = codes "rendezvous"; last_seen = now }

abbrev pub is_valid : (Bytes → Bool) → PeerInfo → Bool
is_valid splits peer = elim (validate_peer splits peer.addrs peer.name (length peer.services)) [
  | none ↦ true
  | some e ↦ false
]

module _ (sha3 : Bytes → Bytes) (decode_json : Bytes → Option Registration)
    (encode_json : PeerInfo → Option Bytes) (splits : Bytes → Bool) where
  unfoldable pub handle_register : ℕ → Method → Bytes → HttpHandler → HttpHandler × Response
  handle_register now method body h =
      if not (is_post method)
      then (h, status 405)
      else if ltb max_register_body (length body)
      then (h, status 400)
      else elim (decode_json body) [
        | none ↦ (h, status 400)
        | some env ↦ elim (encode_json env.peer) [
          | none ↦ (h, status 400)
          | some signed ↦
              if not (verify_pow sha3 signed env.nonce h.difficulty)
              then (
                h,
                record (status 403) { header = some (codes "X-PoW-Difficulty", itoa h.difficulty) },
              )
              else if not (is_valid splits env.peer)
              then (h, status 400)
              else if is_early now env.peer.id h
              then (
                h,
                record (status 429) {
                  header = some (codes "Retry-After", retry_after now env.peer.id h);
                },
              )
              else (
                record h {
                  last_register = put env.peer.id now h.last_register;
                  store = put_peer now (stamp now env.peer) entry_ttl h.store;
                },
                status 200,
              )
        ]
      ]

  unfoldable pub handle_lookup : ℕ → Method → Bytes → HttpHandler → Response
  handle_lookup now method node_id h =
      if not (is_get method) then status 405 else elim (parse_node_id node_id) [
        | none ↦ status 400
        | some id ↦ elim (get now id h.store) [
          | none ↦ status 404
          | some peer ↦ elim (encode_json peer) [
            | none ↦ status 500
            | some text ↦ record (status 200) { body = text }
          ]
        ]
      ]

  unfoldable pub handle_list_peers :
      (List PeerInfo → Option Bytes) → ℕ → Method → HttpHandler → HttpHandler × Response
  handle_list_peers encode_all now method h =
      if not (is_get method)
      then (h, status 405)
      else let kept = (gc now h.store).0 in
        let after = record h { store = kept } in
        elim (encode_all (all_peers kept)) [
          | none ↦ (after, status 500)
          | some text ↦ (after, record (status 200) { body = text })
        ]
