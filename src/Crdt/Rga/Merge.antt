-- ===== src/Crdt/Rga/Merge.antt =====
-- pkg/crdt/crdt.go, `RGA.Merge` with `indexIDs`, `isDeleted` and `applyDeleteLocked`. The two arguments
-- are distinct replicas: `Merge` returns at once for a nil argument and for the receiver itself.
pub mod Sweeps
pub mod Keeps
pub mod Tombstones
pub mod Diverges
use local_web.Base.{
  ℕ, zero, suc, ◌+◌, ◌≡◌, Bool, true, false, not, ◌&&◌, ◌||◌, List, [], ◌∷◌, ◌++◌, Option, none,
  some, Bytes, same, member, if◌then◌else◌, map, length,
}
use local_web.Crdt.Rga.{RgaNode, Rga, head_id, tail_id, find_node, insert_ordered, mark_deleted}

pub record Pending : Type 0 where
  pub node : RgaNode
  pub prev_id : Bytes

-- `indexIDs`: the ids of the list, the sentinels included.
abbrev pub index_ids : List RgaNode → List Bytes
index_ids nodes = head_id ∷ map (λ n. n.id) nodes ++ (tail_id ∷ [])

-- A node that `findNode` finds and that has a tombstone; the head sentinel never matters.
unfoldable pub is_deleted : Bytes → List RgaNode → Bool
is_deleted id [] = false
is_deleted id (n ∷ ns) = if same n.id id then n.deleted else is_deleted id ns

unfoldable pub apply_delete : Bytes → List RgaNode → List RgaNode
unfolding mark_deleted is_deleted
apply_delete id nodes =
    if same id head_id || is_deleted id nodes then nodes else mark_deleted id nodes

unfoldable pub sync_one : List Bytes → RgaNode → List RgaNode → List RgaNode
unfolding apply_delete
sync_one known c nodes =
    if member c.id known && (c.deleted && not (is_deleted c.id nodes))
    then apply_delete c.id nodes
    else nodes

-- The walk over `other`, for the nodes that are known here.
unfoldable pub sync_deletes : List Bytes → List RgaNode → List RgaNode → List RgaNode
unfolding sync_one
sync_deletes known [] nodes = nodes
sync_deletes known (c ∷ cs) nodes = sync_deletes known cs (sync_one known c nodes)

-- The walk over `other`, for the nodes that are not; `prev` is the id of `curr.Prev`.
unfoldable pub missing : List Bytes → Bytes → List RgaNode → List Pending
missing known prev [] = []
missing known prev (c ∷ cs) =
    let rest = missing known c.id cs in
    if member c.id known
    then rest
    else record { node = c; prev_id = if same prev [] then head_id else prev } ∷ rest

-- The variables of the sweeps.
pub record Sweep : Type 0 where
  pub nodes : List RgaNode
  pub length : ℕ
  pub placed : List Bytes
  pub deferred : List Pending
  pub progress : Bool

-- The body of the inner loop.
unfoldable pub place : Pending → Sweep → Sweep
place p st = if member p.node.id st.placed then st else elim (find_node p.prev_id st.nodes) [
  | none ↦ record st { deferred = st.deferred ++ (p ∷ []) }
  | some pos ↦ record st {
    nodes = insert_ordered pos (record p.node { origin_id = p.prev_id }) st.nodes;
    length = st.length + 1;
    placed = p.node.id ∷ st.placed;
    progress = true;
  }
]

unfoldable pub sweep : List Pending → Sweep → Sweep
unfolding place
sweep [] st = st
sweep (p ∷ ps) st = sweep ps (place p st)

abbrev pub start_pass : Sweep → Sweep
start_pass st = record st { deferred = []; progress = false }

abbrev pub is_empty : List Pending → Bool
is_empty [] = true
is_empty (p ∷ ps) = false

-- The outer loop; `none` means that the fuel ran out.
unfoldable pub sweeps : ℕ → List Pending → Sweep → Option Sweep
unfolding sweep
sweeps zero remaining st = none
sweeps (suc fuel) remaining st =
    let out = sweep remaining (start_pass st) in
    let again = sweeps fuel out.deferred out in
    if is_empty out.deferred || not out.progress then some out else again

abbrev pub with_sweep : Rga → Sweep → Rga
with_sweep r st = record r { nodes = st.nodes; length = st.length }

abbrev pub first_sweep : Rga → List RgaNode → Sweep
first_sweep r nodes = record {
  nodes = nodes;
  length = r.length;
  placed = [];
  deferred = [];
  progress = false;
}

-- r.Merge(other), with the receiver last.
unfoldable pub merge : Rga → Rga → Option Rga
unfolding sync_deletes missing sweeps
merge other r =
    let known = index_ids r.nodes in
    let nodes = sync_deletes known other.nodes r.nodes in
    let lacking = missing known head_id other.nodes in
    elim (sweeps (suc (length lacking)) lacking (first_sweep r nodes)) [
      | none ↦ none
      | some st ↦ some (with_sweep r st)
    ]
