-- ===== src/Dht/Node.antt =====
-- pkg/dht/server.go, `Node.handleMessage`, with `selfInfo`, `localValue` and `setListenAddr` of
-- pkg/dht/dht.go. The hash, SHA3-256, and the gob encoder of a peer list are parameters.
--
-- The table and the map `peers` share a `*Peer` for each id: the handler makes one for an id that the
-- map lacks, and puts it into both. A write through the map's pointer is a write to the table's entry of
-- that id too, and the time that `KBucket.Add` stamps shows in the map.
pub mod Gate
pub mod Held
pub mod Values
use local_web.Base.{
  ℕ, ◌+◌, ◌≡◌, Bool, true, false, not, List, [], ◌∷◌, ◌++◌, Option, none, some, Bytes, same, ◌==◌,
  take, map, Dict, lookup, put, if◌then◌else◌,
}
use local_web.Base.Wire.{zeros}
use local_web.Dht.Bucket.{PeerInfo, KBucket, k_bucket_size}
use local_web.Dht.Table.{RoutingTable, find_closest}
use local_web.Dht.Table
use local_web.Dht.Wire.{
  encode_store, decode_store, registration_challenge, Registration, decode_register,
}
use local_web.Dht.Pow.{verify_pow}

pub record Node : Type 0 where
  pub id : Bytes
  pub pub_key : Bytes
  pub name : Bytes
  pub table : RoutingTable
  pub peers : Dict PeerInfo
  pub store : Dict Bytes
  pub listen_addr : Bytes

-- The type byte of a message: `iota + 1` in the order of the constants.
abbrev pub msg_ping : ℕ
msg_ping = 1

abbrev pub msg_pong : ℕ
msg_pong = 2

abbrev pub msg_find_node : ℕ
msg_find_node = 3

abbrev pub msg_found_node : ℕ
msg_found_node = 4

abbrev pub msg_store : ℕ
msg_store = 5

abbrev pub msg_find_value : ℕ
msg_find_value = 6

abbrev pub msg_found_value : ℕ
msg_found_value = 7

abbrev pub msg_register_node : ℕ
msg_register_node = 8

pub record Message : Type 0 where
  pub msg_type : ℕ
  pub src : Bytes
  pub dst : Bytes
  pub payload : Bytes

-- The fields that `encodePeerList` hands to gob.
pub record SimplePeer : Type 0 where
  pub id : Bytes
  pub public_key : Bytes
  pub name : Bytes
  pub addrs : List Bytes
  pub services : List Bytes
  pub score : ℕ
  pub version : Bytes

abbrev pub simple_peer : PeerInfo → SimplePeer
simple_peer p = record {
  id = p.id;
  public_key = p.public_key;
  name = p.name;
  addrs = p.addrs;
  services = p.services;
  score = p.score;
  version = p.version;
}

unfoldable pub self_info : ℕ → Node → PeerInfo
self_info now n = record {
  id = n.id;
  public_key = n.pub_key;
  name = n.name;
  addrs = if same n.listen_addr [] then [] else n.listen_addr ∷ [];
  services = [];
  score = 0;
  last_seen = 0;
  first_seen = now;
  version = [];
}

unfoldable pub local_value : Bytes → Node → Option Bytes
local_value key n = lookup key n.store

unfoldable pub set_listen_addr : Bytes → Node → Node
set_listen_addr addr n = record n { listen_addr = addr }

-- A write through the pointer that the table holds for an id.
abbrev pub write_bucket : Bytes → PeerInfo → KBucket → KBucket
write_bucket id info [] = []
write_bucket id info (p ∷ b) = (if same p.id id then info else p) ∷ write_bucket id info b

unfoldable pub write_info : Bytes → PeerInfo → RoutingTable → RoutingTable
write_info id info rt = record rt { buckets = map (write_bucket id info) rt.buckets }

-- 0.5 as a float64.
abbrev pub half_score : ℕ
half_score = 0x3fe0000000000000

-- The peer of an accepted registration; its `LastSeen` is the zero time.
unfoldable pub registered : ℕ → Bytes → Registration → PeerInfo
registered now src r = record {
  id = src;
  public_key = r.pub_key;
  name = r.name;
  addrs = r.addrs;
  services = [];
  score = half_score;
  last_seen = 0;
  first_seen = now;
  version = [];
}

-- `existing.Info = pi`, or a new peer for the map and for the table.
unfoldable pub admit : ℕ → PeerInfo → Node → Node
admit now pi n = elim (lookup pi.id n.peers) [
  | some existing ↦ record n { peers = put pi.id pi n.peers; table = write_info pi.id pi n.table }
  | none ↦
      let (table, added) = Table.add now pi n.table in
      let entry = if added then record pi { last_seen = now } else pi in
      record n { peers = put pi.id entry n.peers; table = table }
]

abbrev pub reply : ℕ → Message → Node → Bytes → Message
reply msg_type msg n payload = record {
  msg_type = msg_type;
  src = n.id;
  dst = msg.src;
  payload = payload;
}

module _ (sha3_hash : Bytes → Bytes) (marshal_gob : List SimplePeer → Bytes) where
  abbrev pub encode_peer_list : List PeerInfo → Bytes
  encode_peer_list peers = marshal_gob (map simple_peer peers)

  abbrev pub node_id_from_pub : Bytes → Bytes
  node_id_from_pub pub_key = sha3_hash pub_key

  -- The three tests of the case `MsgRegisterNode`.
  unfoldable pub accepts : Message → Registration → Bool
  accepts msg r =
      if not (
        verify_pow sha3_hash (registration_challenge r.pub_key r.name r.addrs) r.nonce r.difficulty)
      then false
      else same msg.src (node_id_from_pub r.pub_key)

  unfoldable pub register_node : ℕ → Message → Node → Node
  register_node now msg n = elim (decode_register msg.payload) [
    | none ↦ n
    | some r ↦ if accepts msg r then admit now (registered now msg.src r) n else n
  ]

  unfoldable pub store_value : Message → Node → Node
  store_value msg n =
      let (key, value) = decode_store msg.payload in
      if same key [] then n else record n { store = put key value n.store }

  unfoldable pub find_value : Message → Node → Message
  find_value msg n =
      let (key, rest) = decode_store msg.payload in
      elim (lookup key n.store) [
        | some val ↦ reply msg_found_value msg n (encode_store key val)
        | none ↦ reply msg_found_node msg n (encode_peer_list [])
      ]

  unfoldable pub find_node : ℕ → Message → Node → Message
  find_node now msg n =
      let target = take 32 (msg.payload ++ zeros 32) in
      reply msg_found_node msg n
        (encode_peer_list (self_info now n ∷ find_closest target k_bucket_size n.table))

  unfoldable pub handle_message : ℕ → Message → Node → Message × Node
  handle_message now msg n =
      if msg.msg_type == msg_ping
      then (reply msg_pong msg n [], n)
      else if msg.msg_type == msg_find_node
      then (find_node now msg n, n)
      else if msg.msg_type == msg_store
      then (reply msg_pong msg n [], store_value msg n)
      else if msg.msg_type == msg_find_value
      then (find_value msg n, n)
      else if msg.msg_type == msg_register_node
      then (reply msg_pong msg n [], register_node now msg n)
      else (reply msg_pong msg n [], n)
