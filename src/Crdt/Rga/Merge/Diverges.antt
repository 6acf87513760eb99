-- ===== src/Crdt/Rga/Merge/Diverges.antt =====
-- pkg/crdt/crdt.go, `RGA.Merge`: a missing node is placed after the node that stands ahead of it in the
-- other list, which need not be its origin.
use local_web.Base.Int64.{lt_int64}
use local_web.Base.{
  none, ℕ, ◌≡◌, true, false, some, List, [], ◌∷◌, arith, Bytes, codes, before, Option, before_asymm,
}
use local_web.Crdt.Rga.{
  RgaNode, Rga, head_id, before_node, find_node, insert_ordered, lt_int64, ids,
}
use local_web.Crdt.Rga.Merge.{merge}

-- A live node that was inserted at the head.
abbrev pub at_head : Bytes → Bytes → ℕ → Bytes → RgaNode
at_head id value timestamp author = record {
  id = id;
  value = value;
  timestamp = timestamp;
  author = author;
  deleted = false;
  origin_id = head_id;
}

-- A replica with two nodes at the head.
abbrev pub two_nodes : RgaNode → RgaNode → Rga
two_nodes x w = record { nodes = x ∷ w ∷ []; length = 2; clock = 2; node_id = x.author }

-- The live ids after a merge.
pub ids_after : Rga → Rga → Option (List Bytes)
unfolding merge ids
ids_after other r = elim (merge other r) [ none ↦ none | some u ↦ some (ids u) ]

-- Two replicas have each inserted two nodes at the head, with clocks 1 and 2, and the author of the
-- first sorts ahead; then each merges the other. They hold the same four nodes in two orders,
-- whatever the values are.
pub merge_diverges :
    (vx vw vy vz a b : Bytes)
    → before a b ≡ true
    → (ids_after
          (two_nodes (at_head (codes "y") vy 1 b) (at_head (codes "z") vz 2 b))
          (two_nodes (at_head (codes "x") vx 1 a) (at_head (codes "w") vw 2 a))
        ≡ some (codes "x" ∷ codes "y" ∷ codes "z" ∷ codes "w" ∷ []))
      × (ids_after
            (two_nodes (at_head (codes "x") vx 1 a) (at_head (codes "w") vw 2 a))
            (two_nodes (at_head (codes "y") vy 1 b) (at_head (codes "z") vz 2 b))
          ≡ some (codes "x" ∷ codes "w" ∷ codes "y" ∷ codes "z" ∷ []))
unfolding ids_after find_node insert_ordered before_node lt_int64
merge_diverges vx vw vy vz a b h = ground (arith, before_asymm a b h)
