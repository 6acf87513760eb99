-- ===== src/Dht/Tests.antt =====
-- pkg/dht/dht.go and pkg/dht/server.go: the theorems on a small table and a node, under a hash that
-- gives 32 zero bytes and an encoder that gives none.
use mathlib.Core.List.{Permᴰ}
use Prim.Native.Nat.{min}
use local_web.Base.{
  ℕ, ◌≡◌, ◌⊎◌, refl, false, not, ◌&&◌, ◌||◌, List, [], ◌∷◌, ◌++◌, some, arith, Bytes, codes, All,
  length, same, leb,
}
use local_web.Base.Sort.{IsSorted}
use local_web.Base.Wire.{zeros, put_uint, uint}
use local_web.Dht.NodeId.{bucket_index}
use local_web.Dht.Bucket.{PeerInfo, has_id, closer, k_bucket_size}
use local_web.Dht.Table.{RoutingTable, new_routing_table, add, all_peers, find_closest, nth}
use local_web.Dht.Table.Laws.{IsTable, IsTable-new, add_lem}
use local_web.Dht.Table.Closest.{find_closest_lem}
use local_web.Dht.Table.Stale.{AllUnique}
use local_web.Dht.Wire.{Registration, decode_store}
use local_web.Dht.Pow.{solve_pow, solve_from, meets, pow_nonce_ceiling}
use local_web.Dht.Node.{
  Node, Message, SimplePeer, handle_message, msg_store, msg_find_value, msg_register_node,
}
use local_web.Dht.Node.Held.{held}
use local_web.Dht.Node.Gate.{Announces, gate}

abbrev zero_hash : Bytes → Bytes
zero_hash payload = zeros 32

abbrev no_gob : List SimplePeer → Bytes
no_gob peers = []

abbrev id_of : ℕ → Bytes
id_of b = b ∷ zeros 31

abbrev peer : ℕ → ℕ → PeerInfo
peer b seen = record {
  id = id_of b;
  public_key = [];
  name = [];
  addrs = [];
  services = [];
  score = 0;
  last_seen = seen;
  first_seen = 0;
  version = [];
}

abbrev table : RoutingTable
table = new_routing_table (id_of 0)

add_lem_example :
    IsTable (add 9 (peer 5 0) table).0
    × ((j : Bytes)
        → has_id j (all_peers (add 9 (peer 5 0) table).0)
          ≡ (has_id j (all_peers table) || ((add 9 (peer 5 0) table).1 && same (peer 5 0).id j)))
    × ((add 9 (peer 5 0) table).1 ≡ (
        not (has_id (peer 5 0).id (all_peers table))
        && not (leb k_bucket_size (length (nth table.buckets (bucket_index (peer 5 0).id))))))
add_lem_example = add_lem 9 (peer 5 0) table (IsTable-new (id_of 0))

abbrev full_table : RoutingTable
full_table = record {
  local_id = id_of 0;
  buckets = (peer 200 4 ∷ peer 130 9 ∷ []) ∷ (peer 70 5 ∷ []) ∷ [];
}

find_closest_lem_example :
    (others : List PeerInfo) × Permᴰ
      (find_closest (id_of 128) 2 full_table ++ others)
      (all_peers full_table)
    × All
        (λ d. All (λ r. closer (id_of 128) d r ≡ false) (find_closest (id_of 128) 2 full_table))
        others
    × IsSorted (closer (id_of 128)) (find_closest (id_of 128) 2 full_table)
    × (length (find_closest (id_of 128) 2 full_table) ≡ min 2 (length (all_peers full_table)))
find_closest_lem_example = find_closest_lem (id_of 128) 2 full_table

full_table_AllUnique : AllUnique full_table.buckets
full_table_AllUnique = ground arith

solve_pow-zero : solve_pow zero_hash (codes "p") 8 ≡ some (zeros 8)
unfolding solve_pow solve_from meets pow_nonce_ceiling put_uint uint
solve_pow-zero = refl

abbrev node : Node
node = record {
  id = id_of 1;
  pub_key = zeros 32;
  name = codes "me";
  table = table;
  peers = [];
  store = [];
  listen_addr = codes "h:1";
}

-- A registration of a peer under its first address, by that peer.
abbrev register_msg : Message
register_msg = record {
  msg_type = msg_register_node;
  src = zeros 32;
  dst = id_of 1;
  payload = zeros 40 ++ (8 ∷ 0 ∷ 1 ∷ 110 ∷ 0 ∷ 5 ∷ 0 ∷ 3 ∷ codes "a:1");
}

gate_example :
    (held (zeros 32) (handle_message zero_hash no_gob 7 register_msg node).1 ≡ held (zeros 32) node)
    ⊎ ((register_msg.msg_type ≡ msg_register_node)
        × Announces zero_hash no_gob register_msg (zeros 32))
gate_example = gate zero_hash no_gob 7 register_msg node (zeros 32)

abbrev registration : Registration
registration = record {
  pub_key = zeros 32;
  nonce = zeros 8;
  difficulty = 8;
  name = codes "n";
  addrs = [];
}

abbrev put_msg : Message
put_msg = record {
  msg_type = msg_store;
  src = id_of 3;
  dst = id_of 1;
  payload = 0 ∷ 1 ∷ codes "kv";
}

abbrev get_msg : Message
get_msg = record {
  msg_type = msg_find_value;
  src = id_of 4;
  dst = id_of 1;
  payload = 0 ∷ 1 ∷ codes "k";
}

put_key : (decode_store put_msg.payload).0 ≡ codes "k"
unfolding decode_store uint
put_key = refl
