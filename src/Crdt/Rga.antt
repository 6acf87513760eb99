-- ===== src/Crdt/Rga.antt =====
-- pkg/crdt/crdt.go, `RGA`. The doubly linked list between the sentinels is a list of nodes; a node
-- of it is named by its position, 0 for the head sentinel and i + 1 for the i-th node, so that `Prev`
-- and `Next` are its neighbours. A timestamp is the bit pattern of its int64.
pub mod Order
pub mod Edits
pub mod Merge
pub mod Codec
mod Tests
use local_web.Base.{
  ℕ, zero, suc, ◌+◌, ◌-◌, ◌≡◌, Bool, true, false, not, ◌&&◌, ◌||◌, List, [], ◌∷◌, ◌++◌, Option,
  none, some, ◌==◌, Bytes, same, before, codes, member, get_elem?, take, drop, keep, if◌then◌else◌,
  map,
}
use local_web.Base.Int64.{lt_int64, inc_int64}
use local_web.Base.Format.{format_int64}

pub record RgaNode : Type 0 where
  pub id : Bytes
  pub value : Bytes
  pub timestamp : ℕ
  pub author : Bytes
  pub deleted : Bool
  pub origin_id : Bytes

pub record Rga : Type 0 where
  pub nodes : List RgaNode
  pub length : ℕ
  pub clock : ℕ
  pub node_id : Bytes

abbrev pub head_id : Bytes
head_id = codes "head"

abbrev pub tail_id : Bytes
tail_id = codes "tail"

abbrev pub new_rga : Bytes → Rga
new_rga node_id = record { nodes = []; length = 0; clock = 0; node_id = node_id }

unfoldable pub before_node : RgaNode → RgaNode → Bool
before_node a b =
    if a.timestamp == b.timestamp
    then before a.author b.author
    else lt_int64 a.timestamp b.timestamp

-- The position of the first node with the id after the first `pos` ones.
unfoldable pub position : Bytes → ℕ → List RgaNode → Option ℕ
position id pos [] = none
position id pos (n ∷ ns) = if same n.id id then some (pos + 1) else position id (pos + 1) ns

unfoldable pub find_node : Bytes → List RgaNode → Option ℕ
unfolding position
find_node id nodes = if same id head_id then some 0 else position id 0 nodes

-- The id of the node at a position.
unfoldable pub id_at : ℕ → List RgaNode → Bytes
id_at zero nodes = head_id
id_at (suc i) nodes = elim (get_elem? nodes i) [ none ↦ [] | some n ↦ n.id ]

-- The loop of `insertOrdered` from a skipped sibling on: its subtree is passed over, and then the
-- next sibling is compared.
unfoldable pub skip : Bytes → RgaNode → List RgaNode → List RgaNode
skip after node [] = node ∷ []
skip after node (c ∷ cs) =
    let further = c ∷ skip after node cs in
    if same c.origin_id after && not (before_node c node) then node ∷ c ∷ cs else further

-- `insertOrdered`, on the nodes behind `afterNode`.
unfoldable pub splice : Bytes → RgaNode → List RgaNode → List RgaNode
unfolding skip
splice after node [] = node ∷ []
splice after node (c ∷ cs) =
    if same c.origin_id after && before_node c node then c ∷ skip after node cs else node ∷ c ∷ cs

unfoldable pub insert_ordered : ℕ → RgaNode → List RgaNode → List RgaNode
unfolding splice id_at
insert_ordered pos node nodes = take pos nodes ++ splice (id_at pos nodes) node (drop pos nodes)

-- `fmt.Sprintf("%d:%s:%s", r.clock, r.nodeID, value)`.
unfoldable pub format_id : ℕ → Bytes → Bytes → Bytes
unfolding format_int64
format_id clock node_id value = format_int64 clock ++ (b':' ∷ node_id ++ (b':' ∷ value))

abbrev pub count_nodes : List RgaNode → ℕ
count_nodes [] = 0
count_nodes (n ∷ ns) = suc (count_nodes ns)

-- `afterNode`: the node with the id, or else the last one.
unfoldable pub anchor : Bytes → List RgaNode → ℕ
unfolding find_node
anchor after_id nodes = elim (find_node after_id nodes) [
  | none ↦ count_nodes nodes
  | some pos ↦ pos
]

abbrev pub local_node : Bytes → Rga → RgaNode
local_node value r = record {
  id = format_id (inc_int64 r.clock) r.node_id value;
  value = value;
  timestamp = inc_int64 r.clock;
  author = r.node_id;
  deleted = false;
  origin_id = [];
}

unfoldable pub insert : Bytes → Bytes → Rga → Rga
unfolding anchor insert_ordered
insert after_id value r =
    let pos = anchor after_id r.nodes in
    let node = record (local_node value r) { origin_id = id_at pos r.nodes } in
    record r {
      nodes = insert_ordered pos node r.nodes;
      length = r.length + 1;
      clock = inc_int64 r.clock;
    }

-- The first node with the id gets its tombstone.
unfoldable pub mark_deleted : Bytes → List RgaNode → List RgaNode
mark_deleted id [] = []
mark_deleted id (n ∷ ns) =
    if same n.id id then record n { deleted = true } ∷ ns else n ∷ mark_deleted id ns

-- `Delete`. A tombstone on the head sentinel is read by nothing.
unfoldable pub delete_node : Bytes → Rga → Rga
unfolding mark_deleted
delete_node id r = if same id head_id then r else record r { nodes = mark_deleted id r.nodes }

-- `Get`, by the bit pattern of the index; `none` is the error.
unfoldable pub get : ℕ → Rga → Option Bytes
get index r =
    if lt_int64 index 0 || not (lt_int64 index r.length)
    then none
    else elim (get_elem? r.nodes index) [ none ↦ none | some n ↦ some n.value ]

abbrev pub live_nodes : List RgaNode → List RgaNode
live_nodes ns = keep (λ n. not n.deleted) ns

abbrev pub concat_values : List RgaNode → Bytes
concat_values [] = []
concat_values (n ∷ ns) = n.value ++ concat_values ns

-- `String`.
unfoldable pub text : Rga → Bytes
text r = concat_values (live_nodes r.nodes)

unfoldable pub head_next_id : Rga → Bytes
head_next_id r = elim r.nodes [ [] ↦ [] | n ∷ ns ↦ n.id ]

unfoldable pub ids : Rga → List Bytes
ids r = map (λ n. n.id) (live_nodes r.nodes)
