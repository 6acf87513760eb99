-- ===== src/Crdt/Rga/Edits.antt =====
-- pkg/crdt/crdt.go, `RGA.Insert` and `RGA.Delete`: what an edit does to the document.
use mathlib.Core.Path.{subst}
use mathlib.Core.List.{append_assoc}
use local_web.Base.{
  ℕ, ◌+◌, ◌≡◌, ◌≢◌, refl, ap, inl, inr, true, not, List, [], ◌∷◌, ◌++◌, arith, Bytes, All, same,
  same_iff, if◌then◌else◌, Bool-cases, take, drop, take-append-drop, keep, map,
}
use local_web.Crdt.Rga.{
  RgaNode, Rga, before_node, splice, insert_ordered, id_at, anchor, insert, delete_node,
  mark_deleted, ids, live_nodes, local_node, count_nodes, head_id,
}
use local_web.Crdt.Rga.Order.{Inserted, splice-Inserted, splice_newest}

Inserted-append :
    (node : RgaNode) (ws xs ys : List RgaNode)
    → Inserted node xs ys
    → Inserted node (ws ++ xs) (ws ++ ys)
Inserted-append node ws xs ys (l, r, p, q) = (
  ws ++ l,
  r,
  rw (append_assoc ws l r) (ap (◌++◌ ws) p),
  rw (append_assoc ws l (node ∷ r)) (ap (◌++◌ ws) q),
)

-- `insertOrdered` puts the node somewhere into the list and moves no other.
pub insert_ordered-Inserted :
    (pos : ℕ) (node : RgaNode) (nodes : List RgaNode)
    → Inserted node nodes (insert_ordered pos node nodes)
unfolding insert_ordered
insert_ordered-Inserted pos node nodes =
    subst
      (λ xs. Inserted node xs (take pos nodes ++ splice (id_at pos nodes) node (drop pos nodes)))
      (take-append-drop pos nodes)
      (Inserted-append node (take pos nodes) (drop pos nodes) _
        (splice-Inserted _ node (drop pos nodes)))

-- The node that a local insert makes, with the origin that it is given.
unfoldable pub new_node : Bytes → Bytes → Rga → RgaNode
new_node after_id value r = record (local_node value r) {
  origin_id = id_at (anchor after_id r.nodes) r.nodes;
}

-- A local insert adds one live node with the value, under the author and the next clock, and leaves
-- the other nodes in their order.
pub insert-Inserted :
    (after_id value : Bytes) (r : Rga)
    → Inserted (new_node after_id value r) r.nodes (insert after_id value r).nodes
unfolding insert new_node
insert-Inserted after_id value r = insert_ordered-Inserted _ _ r.nodes

-- Every node behind the anchor sorts ahead of the one that the insert makes.
abbrev pub IsAhead : Bytes → Bytes → Rga → Type 0
IsAhead after_id value r =
    All (λ x. before_node x (new_node after_id value r) ≡ true)
      (drop (anchor after_id r.nodes) r.nodes)

insert_ordered_newest :
    (pos : ℕ) (node : RgaNode) (nodes : List RgaNode) (c : RgaNode) (cs : List RgaNode)
    → All (λ x. before_node x node ≡ true) (drop pos nodes)
    → drop pos nodes ≡ c ∷ cs
    → insert_ordered pos node nodes ≡ (
        if same c.origin_id (id_at pos nodes)
        then nodes ++ (node ∷ [])
        else take pos nodes ++ (node ∷ c ∷ cs))
unfolding insert_ordered
insert_ordered_newest pos node nodes c cs ahead e = ground (
  arith,
  e,
  splice_newest (id_at pos nodes) node c cs (rw e at ahead),
  take-append-drop pos nodes,
  append_assoc (take pos nodes) (c ∷ cs) (node ∷ []),
)

-- Where a node stands behind the anchor and every such node sorts ahead of the new one, a local insert
-- lands right behind its anchor if the next node is no child of the anchor, and at the end of the
-- document if it is one, whatever stands in between.
pub insert_newest :
    (after_id value : Bytes) (r : Rga) (c : RgaNode) (cs : List RgaNode)
    → IsAhead after_id value r
    → drop (anchor after_id r.nodes) r.nodes ≡ c ∷ cs
    → (insert after_id value r).nodes ≡ (
        if same c.origin_id (id_at (anchor after_id r.nodes) r.nodes)
        then r.nodes ++ (new_node after_id value r ∷ [])
        else take (anchor after_id r.nodes) r.nodes ++ (new_node after_id value r ∷ c ∷ cs))
unfolding insert new_node
insert_newest after_id value r c cs ahead e = insert_ordered_newest _ _ r.nodes c cs ahead e

-- The length counts every node, tombstoned ones included.
abbrev pub IsCounted : Rga → Type 0
IsCounted r = r.length ≡ count_nodes r.nodes

count_nodes-append :
    (xs ys : List RgaNode) → count_nodes (xs ++ ys) ≡ count_nodes xs + count_nodes ys
count_nodes-append [] ys = omega arith
count_nodes-append (x ∷ xs) ys = omega (arith, count_nodes-append xs ys)

pub count_nodes-Inserted :
    (node : RgaNode) (xs ys : List RgaNode)
    → Inserted node xs ys
    → count_nodes ys ≡ count_nodes xs + 1
count_nodes-Inserted node xs ys (l, r, p, q) = omega (
  arith,
  ap count_nodes p,
  ap count_nodes q,
  count_nodes-append l r,
  count_nodes-append l (node ∷ r),
)

pub count_nodes-mark_deleted :
    (id : Bytes) (xs : List RgaNode) → count_nodes (mark_deleted id xs) ≡ count_nodes xs
unfolding mark_deleted
count_nodes-mark_deleted id [] = refl
count_nodes-mark_deleted id (x ∷ xs) = ground (arith, count_nodes-mark_deleted id xs)

length-insert : (after_id value : Bytes) (r : Rga) → (insert after_id value r).length ≡ r.length + 1
unfolding insert
length-insert after_id value r = refl

pub insert-IsCounted :
    (after_id value : Bytes) (r : Rga) → IsCounted r → IsCounted (insert after_id value r)
insert-IsCounted after_id value r h = omega (
  arith,
  length-insert after_id value r,
  count_nodes-Inserted _ _ _ (insert-Inserted after_id value r),
)

pub delete_node-IsCounted : (id : Bytes) (r : Rga) → IsCounted r → IsCounted (delete_node id r)
unfolding delete_node
delete_node-IsCounted id r h = ground (arith, count_nodes-mark_deleted id r.nodes)

-- No two nodes have one id.
abbrev pub UniqueIds : List RgaNode → Type 0
UniqueIds [] = Unit
UniqueIds (n ∷ ns) = All (λ m. m.id ≢ n.id) ns × UniqueIds ns

ids_without :
    (id : Bytes) (ns : List RgaNode)
    → All (λ m. m.id ≢ id) ns
    → keep (λ i. not (same i id)) (map (λ n. n.id) (live_nodes ns))
      ≡ map (λ n. n.id) (live_nodes ns)
ids_without id [] h = refl
ids_without id (n ∷ ns) h = ground (arith, ids_without id ns h.1, same_iff n.id id)

ids-mark_deleted :
    (id : Bytes) (ns : List RgaNode)
    → UniqueIds ns
    → map (λ n. n.id) (live_nodes (mark_deleted id ns))
      ≡ keep (λ i. not (same i id)) (map (λ n. n.id) (live_nodes ns))
unfolding mark_deleted
ids-mark_deleted id [] h = refl
ids-mark_deleted id (n ∷ ns) h = elim (Bool-cases (same n.id id)) [
  | inl found ↦
      let e : n.id ≡ id = (same_iff n.id id).0 found in
      ground (arith, e, ids_without id ns (rw e at h.0))
  | inr other ↦ ground (arith, ids-mark_deleted id ns h.1)
]

-- `Delete` of an id that is not the head's takes it out of the live ids and keeps the order of the
-- others, if no two nodes have one id.
pub ids-delete_node :
    (id : Bytes) (r : Rga)
    → id ≢ head_id
    → UniqueIds r.nodes
    → ids (delete_node id r) ≡ keep (λ i. not (same i id)) (ids r)
unfolding ids delete_node
ids-delete_node id r h unique =
    ground (arith, same_iff id head_id, ids-mark_deleted id r.nodes unique)
