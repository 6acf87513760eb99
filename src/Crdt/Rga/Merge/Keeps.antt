-- ===== src/Crdt/Rga/Merge/Keeps.antt =====
-- pkg/crdt/crdt.go, `RGA.Merge`: what it keeps of the receiver, and the tombstones that it carries over.
use mathlib.Core.List.{Sublist, map-append}
use mathlib.Core.List.Sublist
use local_web.Base.{
  ℕ, ◌+◌, ◌≡◌, refl, inl, inr, true, List, [], ◌∷◌, some, arith, Bool-cases, Option-cases, member,
  Bytes, map, All,
}
use local_web.Crdt.Rga.{Rga, RgaNode, find_node, head_id, insert_ordered, mark_deleted, count_nodes}
use local_web.Crdt.Rga.Order.{Inserted}
use local_web.Crdt.Rga.Edits.{
  insert_ordered-Inserted, count_nodes-Inserted, count_nodes-mark_deleted, IsCounted,
}
use local_web.Crdt.Rga.Merge.Sweeps.{sweeps_inv, merge_inv}
use local_web.Crdt.Rga.Merge.{
  Pending, Sweep, place, merge, missing, sync_deletes, index_ids, first_sweep, apply_delete,
  sync_one,
}

abbrev pub ids_of : List RgaNode → List Bytes
ids_of nodes = map (λ n. n.id) nodes

Sublist-Inserted :
    (node : RgaNode) (xs ys : List RgaNode) → Inserted node xs ys → Sublist (ids_of xs) (ids_of ys)
Sublist-Inserted node xs ys (l, r, p, q) =
    rw
      (
        p,
        q,
        map-append (λ (n : RgaNode). n.id) l r,
        map-append (λ (n : RgaNode). n.id) l (node ∷ r),
      )
      (Sublist.append (Sublist.refl (ids_of l)) (Sublist.cons node.id (Sublist.refl (ids_of r))))

pub ids_of-mark_deleted : (id : Bytes) (xs : List RgaNode) → ids_of (mark_deleted id xs) ≡ ids_of xs
unfolding mark_deleted
ids_of-mark_deleted id [] = refl
ids_of-mark_deleted id (x ∷ xs) = ground (arith, ids_of-mark_deleted id xs)

ids_of-sync_deletes :
    (known : List Bytes) (cs nodes : List RgaNode)
    → (ids_of (sync_deletes known cs nodes) ≡ ids_of nodes)
      × (count_nodes (sync_deletes known cs nodes) ≡ count_nodes nodes)
unfolding sync_deletes sync_one apply_delete
ids_of-sync_deletes known [] nodes = (refl, refl)
ids_of-sync_deletes known (c ∷ cs) nodes = ground (
  arith,
  ids_of-sync_deletes known cs nodes,
  ids_of-sync_deletes known cs (mark_deleted c.id nodes),
  ids_of-mark_deleted c.id nodes,
  count_nodes-mark_deleted c.id nodes,
)

-- What every step of a sweep keeps: the ids of a list as a sublist, and the count of the nodes.
pub record Kept (ids : List Bytes) (st : Sweep) : Type 0 where
  pub in_order : Sublist ids (ids_of st.nodes)
  pub counted : st.length ≡ count_nodes st.nodes

place-Kept : (ids : List Bytes) (p : Pending) (st : Sweep) → Kept ids st → Kept ids (place p st)
unfolding place
place-Kept ids p st k = elim (Bool-cases (member p.node.id st.placed)) [
  | inl old ↦ rw old k
  | inr new ↦ elim (Option-cases (find_node p.prev_id st.nodes)) [
    | inl e ↦ rw (new, e, place) (record { in_order = k.in_order; counted = k.counted })
    | inr (pos, e) ↦ rw (new, e, place) (placed_at pos)
  ]
]
  where
    node : RgaNode
    node = record p.node { origin_id = p.prev_id }

    placed_at :
        (pos : ℕ)
        → Kept ids (record st {
          nodes = insert_ordered pos node st.nodes;
          length = st.length + 1;
          placed = p.node.id ∷ st.placed;
          progress = true;
        })
    placed_at pos = record {
      in_order =
          Sublist.trans k.in_order
            (Sublist-Inserted _ _ _ (insert_ordered-Inserted pos node st.nodes));
      counted = omega (
        arith,
        count_nodes-Inserted _ _ _ (insert_ordered-Inserted pos node st.nodes),
        k.counted,
      );
    }

-- After `Merge` every node of the receiver is there, in its order, and the length counts the nodes,
-- tombstoned ones included, if it did before.
pub merge-Kept :
    (other r u : Rga)
    → IsCounted r
    → merge other r ≡ some u
    → Sublist (ids_of r.nodes) (ids_of u.nodes) × IsCounted u
merge-Kept other r u h e =
    let (st, ran, is_u) = merge_inv other r u e in
    let k =
      sweeps_inv (Kept (ids_of r.nodes)) (λ p. Unit {0})
        (λ s k. record { in_order = k.in_order; counted = k.counted })
        (λ p s q k. place-Kept (ids_of r.nodes) p s k) (λ s k. every s.deferred) _ _ _ st
        (every (missing (index_ids r.nodes) head_id other.nodes)) start ran in
    rw is_u (k.in_order, k.counted)
  where
    every : (ps : List Pending) → All (λ p. Unit {0}) ps
    every [] = tt
    every (p ∷ ps) = (tt, every ps)

    start :
        Kept (ids_of r.nodes) (first_sweep r (sync_deletes (index_ids r.nodes) other.nodes r.nodes))
    start =
        let (same_ids, same_count) = ids_of-sync_deletes (index_ids r.nodes) other.nodes r.nodes in
        record { in_order = rw same_ids (Sublist.refl (ids_of r.nodes)); counted = omega arith }
