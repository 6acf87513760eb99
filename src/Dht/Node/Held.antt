-- ===== src/Dht/Node/Held.antt =====
-- pkg/dht/dht.go and pkg/dht/server.go: what a node holds of an id, and what a write under another id leaves.
use local_web.Base.{
  ℕ, zero, suc, ◌≡◌, refl, inl, inr, false, List, [], ◌∷◌, ◌++◌, map, Option, arith, Bytes, same,
  same_iff, leb, length, keep, keep-append, lookup, lookup-put, Option-cases, Bool-cases,
}
use local_web.Dht.NodeId.{bucket_index}
use local_web.Dht.Bucket.{PeerInfo, KBucket, has_id, k_bucket_size, refresh}
use local_web.Dht.Bucket
use local_web.Dht.Table.{RoutingTable, nth, update_at, flatten, all_peers}
use local_web.Dht.Table
use local_web.Dht.Node.{Node, admit, write_bucket, write_info}

-- The entries of an id, in the order of a list.
abbrev entries : Bytes → List PeerInfo → List PeerInfo
entries j ps = keep (λ p. same p.id j) ps

-- What a node holds of an id: the peer that its map has, and the entries of its routing table.
abbrev pub held : Bytes → Node → Option PeerInfo × List PeerInfo
held j n = (lookup j n.peers, entries j (all_peers n.table))

entries-flatten :
    (j : Bytes) (b : KBucket) (bs : List KBucket)
    → entries j (flatten (b ∷ bs)) ≡ entries j b ++ entries j (flatten bs)
entries-flatten j b bs = keep-append (λ (p : PeerInfo). same p.id j) b (flatten bs)

entries-update_at :
    (j : Bytes) (k : ℕ) (c : KBucket) (bs : List KBucket)
    → entries j c ≡ entries j (nth bs k)
    → entries j (flatten (update_at k c bs)) ≡ entries j (flatten bs)
entries-update_at j k c [] h = refl
entries-update_at j zero c (b ∷ bs) h = rw (entries-flatten j c bs, entries-flatten j b bs, h) refl
entries-update_at j (suc k) c (b ∷ bs) h =
    rw
      (entries-flatten j b (update_at k c bs), entries-flatten j b bs, entries-update_at j k c bs h)
      refl

entries-refresh :
    (j : Bytes) (now : ℕ) (p : PeerInfo) (b : KBucket)
    → same p.id j ≡ false
    → entries j (refresh now p b) ≡ entries j b
unfolding refresh
entries-refresh j now p [] h = refl
entries-refresh j now p (q ∷ b) h =
    ground
      (arith, entries-refresh j now p b h, same_iff q.id p.id, same_iff q.id j, same_iff p.id j)

entries-snoc :
    (j : Bytes) (p : PeerInfo) (b : KBucket)
    → same p.id j ≡ false
    → entries j (b ++ (p ∷ [])) ≡ entries j b
entries-snoc j p [] h = ground arith
entries-snoc j p (q ∷ b) h = ground (arith, entries-snoc j p b h)

entries-add_bucket :
    (j : Bytes) (now : ℕ) (p : PeerInfo) (b : KBucket)
    → same p.id j ≡ false
    → entries j (Bucket.add now p b).0 ≡ entries j b
unfolding Bucket.add
entries-add_bucket j now p b h = elim (Bool-cases (has_id p.id b)) [
  | inl old ↦ rw (old, Bucket.add) (entries-refresh j now p b h)
  | inr new ↦ elim (Bool-cases (leb k_bucket_size (length b))) [
    | inl full ↦ rw (new, full, Bucket.add) refl
    | inr room ↦ rw (new, room, Bucket.add) (entries-snoc j (record p { last_seen = now }) b h)
  ]
]

entries-add :
    (j : Bytes) (now : ℕ) (p : PeerInfo) (rt : RoutingTable)
    → same p.id j ≡ false
    → entries j (all_peers (Table.add now p rt).0) ≡ entries j (all_peers rt)
unfolding Table.add
entries-add j now p rt h =
    entries-update_at j (bucket_index p.id)
      (Bucket.add now p (nth rt.buckets (bucket_index p.id))).0 rt.buckets
      (entries-add_bucket j now p (nth rt.buckets (bucket_index p.id)) h)

entries-write_bucket :
    (j id : Bytes) (info : PeerInfo) (b : KBucket)
    → same id j ≡ false
    → same info.id j ≡ false
    → entries j (write_bucket id info b) ≡ entries j b
entries-write_bucket j id info [] h k = refl
entries-write_bucket j id info (p ∷ b) h k =
    ground (
      arith,
      entries-write_bucket j id info b h k,
      same_iff p.id id,
      same_iff p.id j,
      same_iff id j,
    )

entries-write_buckets :
    (j id : Bytes) (info : PeerInfo) (bs : List KBucket)
    → same id j ≡ false
    → same info.id j ≡ false
    → entries j (flatten (map (write_bucket id info) bs)) ≡ entries j (flatten bs)
entries-write_buckets j id info [] h k = refl
entries-write_buckets j id info (b ∷ bs) h k =
    rw
      (
        entries-flatten j (write_bucket id info b) (map (write_bucket id info) bs),
        entries-flatten j b bs,
        entries-write_bucket j id info b h k,
        entries-write_buckets j id info bs h k,
      )
      refl

-- A peer that is admitted changes nothing that is held of another id.
pub held-admit :
    (now : ℕ) (pi : PeerInfo) (n : Node) (j : Bytes)
    → same pi.id j ≡ false
    → held j (admit now pi n) ≡ held j n
unfolding admit write_info
held-admit now pi n j h = elim (Option-cases (lookup pi.id n.peers)) [
  | inl e ↦ rw (e, admit, lookup-put pi.id j, h, entries-add j now pi n.table h) refl
  | inr (q, e) ↦
      rw (e, admit, lookup-put pi.id j, h, entries-write_buckets j pi.id pi n.table.buckets h h)
        refl
]
