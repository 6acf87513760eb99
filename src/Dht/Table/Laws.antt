-- ===== src/Dht/Table/Laws.antt =====
-- pkg/dht/dht.go, `RoutingTable`: every peer is in the bucket of its id, and only there.
use local_web.Base.{
  ℕ, zero, suc, ◌+◌, ◌<◌, ◌≡◌, ◌≢◌, refl, ap, false, not, ◌||◌, ◌&&◌, List, [], ◌∷◌, arith, Bytes,
  All, same, same_iff, leb, ◌==◌, length, any-append, if◌then◌else◌, Bool-cases, inl, inr,
  All-append, ◌∙◌, All-imp,
}
use local_web.Dht.NodeId.{bucket_index, bucket_index-lt}
use local_web.Dht.Bucket.{PeerInfo, KBucket, has_id, k_bucket_size}
use local_web.Dht.Bucket
use local_web.Dht.Bucket.Laws.{IsBucket, add-IsBucket, has_id-add, remove_lem as bucket_remove_lem}
use local_web.Dht.Table.{
  RoutingTable, nth, update_at, flatten, all_peers, add, remove, empty_buckets, new_routing_table,
}

-- The buckets from index `i` on are well formed and hold the peers that belong there.
abbrev pub Placed : ℕ → List KBucket → Type 0
Placed i [] = Unit
Placed i (b ∷ bs) = IsBucket b × All (λ p. bucket_index p.id ≡ i) b × Placed (suc i) bs

pub record IsTable (rt : RoutingTable) : Type 0 where
  pub size : length rt.buckets ≡ 256
  pub placed : Placed 0 rt.buckets

Placed-empty : (i n : ℕ) → Placed i (empty_buckets n)
Placed-empty i zero = tt
Placed-empty i (suc n) = (record { bounded = omega arith; unique = tt }, tt, Placed-empty (suc i) n)

pub IsTable-new : (local_id : Bytes) → IsTable (new_routing_table local_id)
IsTable-new local_id = record { size = refl; placed = Placed-empty 0 256 }

has_id-elsewhere :
    (j : Bytes) (i : ℕ) (b : KBucket)
    → All (λ p. bucket_index p.id ≡ i) b
    → bucket_index j ≢ i
    → has_id j b ≡ false
has_id-elsewhere j i [] h n = refl
has_id-elsewhere j i (p ∷ b) h n =
    ground
      (arith, same_iff p.id j, ap bucket_index {x = p.id} {y = j}, has_id-elsewhere j i b h.1 n)

has_id-before :
    (j : Bytes) (i : ℕ) (bs : List KBucket)
    → Placed i bs
    → bucket_index j < i
    → has_id j (flatten bs) ≡ false
has_id-before j i [] h n = refl
has_id-before j i (b ∷ bs) h n = rw (any-append (λ (p : PeerInfo). same p.id j) b (flatten bs)) (
    ground (
      arith,
      has_id-elsewhere j i b h.1 (omega arith),
      has_id-before j (suc i) bs h.2 (omega arith),
    ))

-- A peer is in the table exactly if it is in the bucket of its id.
has_id-flatten :
    (j : Bytes) (i k : ℕ) (bs : List KBucket)
    → Placed i bs
    → bucket_index j ≡ i + k
    → has_id j (flatten bs) ≡ has_id j (nth bs k)
has_id-flatten j i k [] h e = refl
has_id-flatten j i zero (b ∷ bs) h e =
    rw (any-append (λ (p : PeerInfo). same p.id j) b (flatten bs))
      (ground (arith, has_id-before j (suc i) bs h.2 (omega arith)))
has_id-flatten j i (suc k) (b ∷ bs) h e =
    rw (any-append (λ (p : PeerInfo). same p.id j) b (flatten bs)) (
      ground (
        arith,
        has_id-elsewhere j i b h.1 (omega arith),
        has_id-flatten j (suc i) k bs h.2 (omega arith),
      ))

nth-update_at :
    (k m : ℕ) (c : KBucket) (bs : List KBucket)
    → k < length bs
    → nth (update_at k c bs) m ≡ (if k == m then c else nth bs m)
nth-update_at k m c [] h = absurd (omega arith)
nth-update_at zero zero c (b ∷ bs) h = ground arith
nth-update_at zero (suc m) c (b ∷ bs) h = ground arith
nth-update_at (suc k) zero c (b ∷ bs) h = ground arith
nth-update_at (suc k) (suc m) c (b ∷ bs) h = ground (arith, nth-update_at k m c bs (omega arith))

length-update_at : (k : ℕ) (c : KBucket) (bs : List KBucket) → length (update_at k c bs) ≡ length bs
length-update_at k c [] = refl
length-update_at zero c (b ∷ bs) = refl
length-update_at (suc k) c (b ∷ bs) = ap suc (length-update_at k c bs)

Placed-nth :
    (i k : ℕ) (bs : List KBucket)
    → Placed i bs
    → IsBucket (nth bs k) × All (λ p. bucket_index p.id ≡ i + k) (nth bs k)
Placed-nth i k [] h = (record { bounded = omega arith; unique = tt }, tt)
Placed-nth i zero (b ∷ bs) h = (h.0, All-imp _ _ (λ p e. omega arith) b h.1)
Placed-nth i (suc k) (b ∷ bs) h =
    let (v, a) = Placed-nth (suc i) k bs h.2 in (v, All-imp _ _ (λ p e. omega arith) (nth bs k) a)

Placed-update_at :
    (i k : ℕ) (c : KBucket) (bs : List KBucket)
    → IsBucket c
    → All (λ p. bucket_index p.id ≡ i + k) c
    → Placed i bs
    → Placed i (update_at k c bs)
Placed-update_at i k c [] v a h = tt
Placed-update_at i zero c (b ∷ bs) v a h = (v, All-imp _ _ (λ p e. omega arith) c a, h.2)
Placed-update_at i (suc k) c (b ∷ bs) v a h =
    (h.0, h.1, Placed-update_at (suc i) k c bs v (All-imp _ _ (λ p e. omega arith) c a) h.2)

-- What a change of the one bucket of `id` does to the whole table.
module _ (id : Bytes) (c : KBucket) (rt : RoutingTable) (t : IsTable rt) (v : IsBucket c)
    (belongs : All (λ p. bucket_index p.id ≡ bucket_index id) c) where
  changed : RoutingTable
  changed = record rt { buckets = update_at (bucket_index id) c rt.buckets }

  changed-IsTable : IsTable changed
  unfolding changed
  changed-IsTable = record {
    size = length-update_at (bucket_index id) c rt.buckets ∙ t.size;
    placed =
        Placed-update_at 0 (bucket_index id) c rt.buckets v
          (All-imp _ _ (λ p e. omega arith) c belongs) t.placed;
  }

  has_id-changed :
      (j : Bytes)
      → has_id j (all_peers changed)
        ≡ (if bucket_index id == bucket_index j then has_id j c else has_id j (all_peers rt))
  unfolding changed
  has_id-changed j = ground (
    arith,
    has_id-flatten j 0 (bucket_index j) rt.buckets t.placed (omega arith),
    has_id-flatten j 0 (bucket_index j) (update_at (bucket_index id) c rt.buckets)
        changed-IsTable.placed (omega arith),
    nth-update_at (bucket_index id) (bucket_index j) c rt.buckets
        (omega (arith, bucket_index-lt id, t.size)),
  )

belongs-refresh :
    (now i : ℕ) (p : PeerInfo) (b : KBucket)
    → All (λ q. bucket_index q.id ≡ i) b
    → All (λ q. bucket_index q.id ≡ i) (Bucket.refresh now p b)
unfolding Bucket.refresh
belongs-refresh now i p [] h = h
belongs-refresh now i p (q ∷ b) h = ground (arith, belongs-refresh now i p b h.1)

belongs-add :
    (now i : ℕ) (p : PeerInfo) (b : KBucket)
    → bucket_index p.id ≡ i
    → All (λ q. bucket_index q.id ≡ i) b
    → All (λ q. bucket_index q.id ≡ i) (Bucket.add now p b).0
unfolding Bucket.add
belongs-add now i p b e h = elim (Bool-cases (has_id p.id b)) [
  | inl old ↦ rw (old, Bucket.add) (belongs-refresh now i p b h)
  | inr new ↦ elim (Bool-cases (leb k_bucket_size (length b))) [
    | inl full ↦ rw (new, full, Bucket.add) h
    | inr room ↦
        rw (new, room, Bucket.add)
          (All-append (λ (q : PeerInfo). bucket_index q.id ≡ i) b
            (record p { last_seen = now } ∷ []) h (e, tt))
  ]
]

belongs-remove :
    (id : Bytes) (i : ℕ) (b : KBucket)
    → All (λ q. bucket_index q.id ≡ i) b
    → All (λ q. bucket_index q.id ≡ i) (Bucket.remove id b)
unfolding Bucket.remove
belongs-remove id i [] h = h
belongs-remove id i (p ∷ b) h = ground (arith, belongs-remove id i b h.1)

-- `Add` keeps a well-formed table well formed. It adds the id if that is new and its bucket has room, says so,
-- and keeps every other id.
pub add_lem :
    (now : ℕ) (p : PeerInfo) (rt : RoutingTable)
    → IsTable rt
    → IsTable (add now p rt).0
      × ((j : Bytes)
          → has_id j (all_peers (add now p rt).0)
            ≡ (has_id j (all_peers rt) || ((add now p rt).1 && same p.id j)))
      × ((add now p rt).1 ≡ (
          not (has_id p.id (all_peers rt))
          && not (leb k_bucket_size (length (nth rt.buckets (bucket_index p.id))))))
unfolding add changed
add_lem now p rt t = (
  changed-IsTable p.id c rt t valid belongs,
  λ j. ground (
    arith,
    has_id-changed p.id c rt t valid belongs j,
    has_id-add now p b j,
    has_id-flatten j 0 (bucket_index j) rt.buckets t.placed (omega arith),
    same_iff p.id j,
    ap bucket_index {x = p.id} {y = j},
  ),
  (has_id-add now p b p.id).1
      ∙ rw (has_id-flatten p.id 0 (bucket_index p.id) rt.buckets t.placed (omega arith)) refl,
)
  where
    b : KBucket
    b = nth rt.buckets (bucket_index p.id)

    c : KBucket
    c = (Bucket.add now p b).0

    valid : IsBucket c
    valid = add-IsBucket now p b (Placed-nth 0 (bucket_index p.id) rt.buckets t.placed).0

    belongs : All (λ q. bucket_index q.id ≡ bucket_index p.id) c
    belongs = belongs-add now (bucket_index p.id) p b refl (
        All-imp _ _ (λ q e. omega arith) b (Placed-nth 0 (bucket_index p.id) rt.buckets t.placed).1)

-- `Remove` keeps the table well formed, takes out the id and keeps every other.
pub remove_lem :
    (id : Bytes) (rt : RoutingTable)
    → IsTable rt
    → IsTable (remove id rt)
      × ((j : Bytes)
          → has_id j (all_peers (remove id rt)) ≡ (not (same id j) && has_id j (all_peers rt)))
unfolding remove changed
remove_lem id rt t = (
  changed-IsTable id c rt t removed.0 belongs,
  λ j. ground (
    arith,
    has_id-changed id c rt t removed.0 belongs j,
    removed.1 j,
    has_id-flatten j 0 (bucket_index j) rt.buckets t.placed (omega arith),
    same_iff id j,
    ap bucket_index {x = id} {y = j},
  ),
)
  where
    b : KBucket
    b = nth rt.buckets (bucket_index id)

    c : KBucket
    c = Bucket.remove id b

    removed : IsBucket c × ((j : Bytes) → has_id j c ≡ (not (same id j) && has_id j b))
    removed = bucket_remove_lem id b (Placed-nth 0 (bucket_index id) rt.buckets t.placed).0

    belongs : All (λ q. bucket_index q.id ≡ bucket_index id) c
    belongs =
        belongs-remove id (bucket_index id) b (
          All-imp _ _ (λ q e. omega arith) b (Placed-nth 0 (bucket_index id) rt.buckets t.placed).1)
