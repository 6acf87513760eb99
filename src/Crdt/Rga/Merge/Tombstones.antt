-- ===== src/Crdt/Rga/Merge/Tombstones.antt =====
-- pkg/crdt/crdt.go, `RGA.Merge`: a tombstone of the other replica is carried over.
use local_web.Base.{
  ◌≡◌, ◌≢◌, inl, inr, Bool, true, ◌&&◌, List, [], ◌∷◌, ◌++◌, some, arith, Bool-cases, Option-cases,
  member, Bytes, map, same, same_iff, any, All, any-append,
}
use local_web.Crdt.Rga.{Rga, RgaNode, find_node, head_id, tail_id, mark_deleted}
use local_web.Crdt.Rga.Order.{Inserted}
use local_web.Crdt.Rga.Edits.{insert_ordered-Inserted}
use local_web.Crdt.Rga.Merge.Keeps.{ids_of, ids_of-mark_deleted}
use local_web.Crdt.Rga.Merge.Sweeps.{sweeps_inv, merge_inv}
use local_web.Crdt.Rga.Merge.{
  Pending, Sweep, place, merge, missing, sync_deletes, index_ids, first_sweep, is_deleted,
  apply_delete, sync_one,
}

is_deleted-mark_deleted :
    (id j : Bytes) (xs : List RgaNode)
    → is_deleted id xs ≡ true
    → is_deleted id (mark_deleted j xs) ≡ true
unfolding is_deleted mark_deleted
is_deleted-mark_deleted id j [] h = h
is_deleted-mark_deleted id j (x ∷ xs) h =
    ground (arith, is_deleted-mark_deleted id j xs, same_iff x.id j, same_iff x.id id)

is_deleted-mark_self :
    (id : Bytes) (xs : List RgaNode)
    → member id (ids_of xs) ≡ true
    → is_deleted id (mark_deleted id xs) ≡ true
unfolding is_deleted mark_deleted
is_deleted-mark_self id [] h = cc
is_deleted-mark_self id (x ∷ xs) h =
    ground (arith, is_deleted-mark_self id xs, same_iff x.id id, same_iff id x.id)

is_deleted-sync_one :
    (id : Bytes) (known : List Bytes) (c : RgaNode) (nodes : List RgaNode)
    → is_deleted id nodes ≡ true
    → is_deleted id (sync_one known c nodes) ≡ true
unfolding sync_one apply_delete
is_deleted-sync_one id known c nodes h = ground (arith, is_deleted-mark_deleted id c.id nodes)

is_deleted-sync_keep :
    (id : Bytes) (known : List Bytes) (cs nodes : List RgaNode)
    → is_deleted id nodes ≡ true
    → is_deleted id (sync_deletes known cs nodes) ≡ true
unfolding sync_deletes
is_deleted-sync_keep id known [] nodes h = h
is_deleted-sync_keep id known (c ∷ cs) nodes h =
    is_deleted-sync_keep id known cs _ (is_deleted-sync_one id known c nodes h)

ids_of-sync_one :
    (known : List Bytes) (c : RgaNode) (nodes : List RgaNode)
    → ids_of (sync_one known c nodes) ≡ ids_of nodes
unfolding sync_one apply_delete
ids_of-sync_one known c nodes = ground (arith, ids_of-mark_deleted c.id nodes)

-- `other` holds a node with the id and a tombstone.
abbrev pub has_tombstone : Bytes → List RgaNode → Bool
has_tombstone id cs = any (λ c. same c.id id && c.deleted) cs

is_deleted-sync_now :
    (known : List Bytes) (c : RgaNode) (nodes : List RgaNode)
    → c.id ≢ head_id
    → member c.id known ≡ true
    → member c.id (ids_of nodes) ≡ true
    → c.deleted ≡ true
    → is_deleted c.id (sync_one known c nodes) ≡ true
unfolding sync_one apply_delete
is_deleted-sync_now known c nodes n k m d =
    ground (arith, same_iff c.id head_id, is_deleted-mark_self c.id nodes m)

is_deleted-sync :
    (id : Bytes) (known : List Bytes) (cs nodes : List RgaNode)
    → id ≢ head_id
    → member id known ≡ true
    → member id (ids_of nodes) ≡ true
    → has_tombstone id cs ≡ true
    → is_deleted id (sync_deletes known cs nodes) ≡ true
unfolding sync_deletes
is_deleted-sync id known [] nodes n k m h = cc
is_deleted-sync id known (c ∷ cs) nodes n k m h = elim (Bool-cases (same c.id id && c.deleted)) [
  | inl e ↦ is_deleted-sync_keep id known cs _ (now e)
  | inr e ↦ is_deleted-sync id known cs _ n k (rw ids_of-sync_one m) (ground arith)
]
  where
    now : (same c.id id && c.deleted) ≡ true → is_deleted id (sync_one known c nodes) ≡ true
    now e =
        let p : id ≡ c.id = ground (arith, same_iff c.id id) in
        rw p (is_deleted-sync_now known c nodes (rw p at n) (rw p at k) (rw p at m) (ground arith))

-- A node with another id changes nothing for this one.
is_deleted-middle :
    (id : Bytes) (node : RgaNode) (l r : List RgaNode)
    → node.id ≢ id
    → is_deleted id (l ++ (node ∷ r)) ≡ is_deleted id (l ++ r)
unfolding is_deleted
is_deleted-middle id node [] r h = ground (arith, same_iff node.id id)
is_deleted-middle id node (x ∷ l) r h = ground (arith, is_deleted-middle id node l r h)

is_deleted-Inserted :
    (id : Bytes) (node : RgaNode) (xs ys : List RgaNode)
    → node.id ≢ id
    → Inserted node xs ys
    → is_deleted id xs ≡ true
    → is_deleted id ys ≡ true
is_deleted-Inserted id node xs ys h (l, r, p, q) d =
    rw (q, is_deleted-middle id node l r h) (rw p at d)

-- The node keeps its tombstone, and no deferred node has its id.
record Dead (id : Bytes) (st : Sweep) : Type 0 where
  dead : is_deleted id st.nodes ≡ true
  others : All (λ p. p.node.id ≢ id) st.deferred

All-snoc :
    (id : Bytes) (p : Pending) (ps : List Pending)
    → p.node.id ≢ id
    → All (λ p. p.node.id ≢ id) ps
    → All (λ p. p.node.id ≢ id) (ps ++ (p ∷ []))
All-snoc id p [] h k = (h, tt)
All-snoc id p (q ∷ ps) h k = (k.0, All-snoc id p ps h k.1)

place-Dead :
    (id : Bytes) (p : Pending) (st : Sweep) → p.node.id ≢ id → Dead id st → Dead id (place p st)
unfolding place
place-Dead id p st h k = elim (Bool-cases (member p.node.id st.placed)) [
  | inl old ↦ rw old k
  | inr new ↦ elim (Option-cases (find_node p.prev_id st.nodes)) [
    | inl e ↦
        rw (new, e, place) (record { dead = k.dead; others = All-snoc id p st.deferred h k.others })
    | inr (pos, e) ↦
        rw (new, e, place)
          (record {
            dead =
                is_deleted-Inserted id _ st.nodes _ h
                  (insert_ordered-Inserted pos (record p.node { origin_id = p.prev_id }) st.nodes)
                  k.dead;
            others = k.others;
          })
  ]
]

missing_others :
    (id : Bytes) (known : List Bytes) (prev : Bytes) (cs : List RgaNode)
    → member id known ≡ true
    → All (λ p. p.node.id ≢ id) (missing known prev cs)
unfolding missing
missing_others id known prev [] h = tt
missing_others id known prev (c ∷ cs) h = elim (Bool-cases (member c.id known)) [
  | inl e ↦ rw e (missing_others id known c.id cs h)
  | inr e ↦ rw e (λ q. cc, missing_others id known c.id cs h)
]

-- A node, not the head, that both replicas hold and of which the other has a tombstone is deleted after
-- `Merge`.
pub merge_tombstones :
    (id : Bytes) (other r u : Rga)
    → id ≢ head_id
    → member id (ids_of r.nodes) ≡ true
    → has_tombstone id other.nodes ≡ true
    → merge other r ≡ some u
    → is_deleted id u.nodes ≡ true
merge_tombstones id other r u n m t e =
    let (st, ran, is_u) = merge_inv other r u e in
    let k =
      sweeps_inv (Dead id) (λ p. p.node.id ≢ id) (λ s k. record { dead = k.dead; others = tt })
        (place-Dead id) (λ s k. k.others) _ _ _ st (missing_others id _ head_id other.nodes known)
        start ran in
    rw is_u k.dead
  where
    known : member id (index_ids r.nodes) ≡ true
    known =
        ground (arith, any-append (same id) (map (λ (n : RgaNode). n.id) r.nodes) (tail_id ∷ []))

    start : Dead id (first_sweep r (sync_deletes (index_ids r.nodes) other.nodes r.nodes))
    start = record { dead = is_deleted-sync id _ other.nodes r.nodes n known m t; others = tt }
