-- ===== src/Crdt/Rga/Codec.antt =====
-- pkg/crdt/crdt.go, `RGA.Marshal`, `RGA.Unmarshal`, `encodeRGAList` and `decodeRGAList`.
use mathlib.Core.List.{append_assoc}
use local_web.Base.{
  ℕ, ◌<◌, ◌^◌, ◌≡◌, ◌≢◌, refl, ◌∙◌, Bool, true, false, List, [], ◌∷◌, ◌++◌, Option, none, some,
  arith, Bytes, All, length, ◌==◌, same, if◌then◌else◌, same_iff,
}
use local_web.Base.Wire.{
  Reader, ◌>>=◌, bind_of_some, done, put_uint, read_uint, read_uint-append, read, read-append,
  put_string, read_string, read_string-append, put_list, read_list, read_list-append,
}
use local_web.Crdt.Rga.{RgaNode, Rga, head_id, live_nodes, count_nodes}

pub put_deleted : Bool → Bytes
put_deleted true = 1 ∷ []
put_deleted false = 0 ∷ []

-- The origin is written only if it is not empty.
pub put_origin : Bytes → Bytes
put_origin [] = []
put_origin (b ∷ bs) = put_string (b ∷ bs)

pub put_node : RgaNode → Bytes
put_node n =
    put_string n.id
    ++ (put_string n.value
        ++ (put_uint 8 n.timestamp
            ++ (put_string n.author ++ (put_deleted n.deleted ++ put_origin n.origin_id))))

-- `buf.ReadByte()` with its error dropped.
pub read_deleted : Reader Bool
read_deleted [] = some (false, [])
read_deleted (b ∷ bs) = some (b == 1, bs)

-- What `buf.Read` into a slice of length `n` makes of the origin; its error leaves it empty.
pub read_origin_of : ℕ → Reader Bytes
unfolding read
read_origin_of n buf = elim (read n buf) [
  | none ↦ some ([], [])
  | some (origin, rest) ↦ some (origin, rest)
]

-- The optional origin: any bytes that follow are taken for it. A single one is consumed, and is no
-- length.
pub read_origin : Reader Bytes
unfolding read_origin_of
read_origin [] = some ([], [])
read_origin (b ∷ []) = some ([], [])
read_origin (b ∷ c ∷ bs) = elim (read_uint 2 (b ∷ c ∷ bs)) [
  | none ↦ some ([], [])
  | some (n, rest) ↦ if n == 0 then some ([], rest) else read_origin_of n rest
]

pub read_node : Reader RgaNode
read_node = do
  id ← read_string
  value ← read_string
  timestamp ← read_uint 8
  author ← read_string
  deleted ← read_deleted
  origin_id ← read_origin
  done (record {
    id = id;
    value = value;
    timestamp = timestamp;
    author = author;
    deleted = deleted;
    origin_id = origin_id;
  })

unfoldable pub marshal : Rga → Bytes
unfolding put_node
marshal r = put_list 2 put_node r.nodes

-- The loop of `Unmarshal`: a node without an origin gets the id of the node ahead of it.
pub rebuild : Bytes → List RgaNode → List RgaNode
rebuild prev [] = []
rebuild prev (n ∷ ns) =
    record n { origin_id = if same n.origin_id [] then prev else n.origin_id } ∷ rebuild n.id ns

pub unmarshal : Bytes → Rga → Option Rga
unfolding rebuild
unmarshal payload r = elim (read_list 2 read_node payload) [
  | none ↦ none
  | some (nodes, rest) ↦
      some (record r { nodes = rebuild head_id nodes; length = count_nodes (live_nodes nodes) })
]

-- The lengths of the fields fit their prefixes, and the node has an origin.
pub record FitsNode (n : RgaNode) : Type 0 where
  pub id : length n.id < 256 ^ 2
  pub value : length n.value < 256 ^ 2
  pub timestamp : n.timestamp < 256 ^ 8
  pub author : length n.author < 256 ^ 2
  pub origin_id : length n.origin_id < 256 ^ 2
  pub has_origin : n.origin_id ≢ []

read_deleted-put_deleted :
    (d : Bool) (rest : Bytes) → read_deleted (put_deleted d ++ rest) ≡ some (d, rest)
unfolding read_deleted put_deleted
read_deleted-put_deleted true rest = refl
read_deleted-put_deleted false rest = refl

read_origin-put_string :
    (s rest : Bytes)
    → length s < 256 ^ 2
    → s ≢ []
    → read_origin (put_string s ++ rest) ≡ some (s, rest)
unfolding read_origin put_string put_uint read_origin_of
read_origin-put_string [] rest h n = absurd (n refl)
read_origin-put_string (b ∷ bs) rest h n =
    ground
      (arith, read_uint-append 2 (length (b ∷ bs)) ((b ∷ bs) ++ rest) h, read-append (b ∷ bs) rest)

read_origin-put_origin :
    (s rest : Bytes)
    → length s < 256 ^ 2
    → s ≢ []
    → read_origin (put_origin s ++ rest) ≡ some (s, rest)
unfolding put_origin
read_origin-put_origin [] rest h n = absurd (n refl)
read_origin-put_origin (b ∷ bs) rest h n = read_origin-put_string (b ∷ bs) rest h n

read_node-put_node :
    (n : RgaNode) (rest : Bytes) → FitsNode n → read_node (put_node n ++ rest) ≡ some (n, rest)
unfolding read_node put_node
read_node-put_node n rest h = simp append_assoc (
    bind_of_some read_string _ (read_string-append n.id _ h.id)
    ∙ bind_of_some read_string _ (read_string-append n.value _ h.value)
    ∙ bind_of_some (read_uint 8) _ (read_uint-append 8 n.timestamp _ h.timestamp)
    ∙ bind_of_some read_string _ (read_string-append n.author _ h.author)
    ∙ bind_of_some read_deleted _ (read_deleted-put_deleted n.deleted _)
    ∙ bind_of_some read_origin _ (read_origin-put_origin n.origin_id rest h.origin_id h.has_origin))

nodes_back :
    (ns : List RgaNode)
    → All FitsNode ns
    → All (λ n. (after : Bytes) → read_node (put_node n ++ after) ≡ some (n, after)) ns
nodes_back [] h = tt
nodes_back (n ∷ ns) h = (λ after. read_node-put_node n after h.0, nodes_back ns h.1)

rebuild_same : (prev : Bytes) (ns : List RgaNode) → All FitsNode ns → rebuild prev ns ≡ ns
unfolding rebuild
rebuild_same prev [] h = refl
rebuild_same prev (n ∷ ns) h =
    ground (arith, rebuild_same n.id ns h.1, same_iff n.origin_id [], h.0.has_origin)

-- A document whose nodes have origins, and whose lengths fit the format, is read back whole, whatever
-- follows it; the clock and the name are the receiver's, and the length counts the live nodes only.
pub unmarshal-marshal_nodes :
    (r u : Rga) (rest : Bytes)
    → All FitsNode r.nodes
    → length r.nodes < 256 ^ 2
    → unmarshal (marshal r ++ rest) u
      ≡ some (record u { nodes = r.nodes; length = count_nodes (live_nodes r.nodes) })
unfolding unmarshal marshal
unmarshal-marshal_nodes r u rest h k =
    rw (read_list-append 2 read_node put_node r.nodes rest k (nodes_back r.nodes h), unmarshal)
      (rw (rebuild_same head_id r.nodes h))
