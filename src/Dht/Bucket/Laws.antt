-- ===== src/Dht/Bucket/Laws.antt =====
-- pkg/dht/dht.go, `KBucket`: what its methods keep.
use local_web.Base.{
  ℕ, ◌≤◌, ◌≡◌, refl, false, not, ◌||◌, ◌&&◌, [], ◌∷◌, ◌++◌, arith, Bytes, same, same_iff, leb,
  length, length-append, any-append,
}
use local_web.Dht.Bucket.{PeerInfo, KBucket, k_bucket_size, has_id, refresh, add, remove}

-- No two peers have one id.
abbrev pub UniqueIds : KBucket → Type 0
UniqueIds [] = Unit
UniqueIds (p ∷ b) = (has_id p.id b ≡ false) × UniqueIds b

pub record IsBucket (b : KBucket) : Type 0 where
  pub bounded : length b ≤ k_bucket_size
  pub unique : UniqueIds b

length-refresh : (now : ℕ) (p : PeerInfo) (b : KBucket) → length (refresh now p b) ≡ length b
unfolding refresh
length-refresh now p [] = refl
length-refresh now p (q ∷ b) = ground (arith, length-refresh now p b)

has_id-refresh :
    (now : ℕ) (p : PeerInfo) (b : KBucket) (id : Bytes) → has_id id (refresh now p b) ≡ has_id id b
unfolding refresh
has_id-refresh now p [] id = refl
has_id-refresh now p (q ∷ b) id = ground (arith, has_id-refresh now p b id)

UniqueIds-refresh :
    (now : ℕ) (p : PeerInfo) (b : KBucket) → UniqueIds b → UniqueIds (refresh now p b)
unfolding refresh
UniqueIds-refresh now p [] h = h
UniqueIds-refresh now p (q ∷ b) h =
    ground (arith, has_id-refresh now p b q.id, UniqueIds-refresh now p b h.1)

UniqueIds-snoc :
    (p : PeerInfo) (b : KBucket) → has_id p.id b ≡ false → UniqueIds b → UniqueIds (b ++ (p ∷ []))
UniqueIds-snoc p [] h k = (refl, tt)
UniqueIds-snoc p (q ∷ b) h k = (
  rw (any-append (λ (r : PeerInfo). same r.id q.id) b (p ∷ []))
      (ground (arith, same_iff p.id q.id, same_iff q.id p.id, k.0)),
  UniqueIds-snoc p b (ground arith) k.1,
)

-- `Add` keeps the bucket within its size, with one peer for an id.
pub add-IsBucket : (now : ℕ) (p : PeerInfo) (b : KBucket) → IsBucket b → IsBucket (add now p b).0
unfolding add
add-IsBucket now p b v = record { bounded = size; unique = unique }
  where
    size : length (add now p b).0 ≤ k_bucket_size
    size =
        ground (arith, length-refresh now p b, length-append b (record p { last_seen = now } ∷ []))

    unique : UniqueIds (add now p b).0
    unique =
        ground (
          arith,
          UniqueIds-refresh now p b v.unique,
          UniqueIds-snoc (record p { last_seen = now }) b,
        )

-- After `Add` the bucket holds the ids that it held, and the new one if there was room for it.
pub has_id-add :
    (now : ℕ) (p : PeerInfo) (b : KBucket) (id : Bytes)
    → (has_id id (add now p b).0 ≡ (has_id id b || ((add now p b).1 && same p.id id)))
      × ((add now p b).1 ≡ (not (has_id p.id b) && not (leb k_bucket_size (length b))))
unfolding add
has_id-add now p b id = ground (
  arith,
  has_id-refresh now p b id,
  any-append (λ (r : PeerInfo). same r.id id) b (record p { last_seen = now } ∷ []),
)

has_id-remove :
    (id j : Bytes) (b : KBucket)
    → UniqueIds b
    → has_id j (remove id b) ≡ (not (same id j) && has_id j b)
unfolding remove
has_id-remove id j [] h = ground arith
has_id-remove id j (p ∷ b) h =
    ground (arith, has_id-remove id j b h.1, same_iff p.id id, same_iff p.id j, same_iff id j, h.0)

length-remove : (id : Bytes) (b : KBucket) → length (remove id b) ≤ length b
unfolding remove
length-remove id [] = omega arith
length-remove id (p ∷ b) = ground (arith, length-remove id b)

UniqueIds-remove : (id : Bytes) (b : KBucket) → UniqueIds b → UniqueIds (remove id b)
unfolding remove
UniqueIds-remove id [] h = h
UniqueIds-remove id (p ∷ b) h =
    ground (arith, UniqueIds-remove id b h.1, has_id-remove id p.id b h.1)

-- `Remove` takes out the one peer with the id, and keeps the bucket well formed.
pub remove_lem :
    (id : Bytes) (b : KBucket)
    → IsBucket b
    → IsBucket (remove id b)
      × ((j : Bytes) → has_id j (remove id b) ≡ (not (same id j) && has_id j b))
remove_lem id b v = (
  record {
    bounded = omega (arith, length-remove id b, v.bounded);
    unique = UniqueIds-remove id b v.unique;
  },
  λ j. has_id-remove id j b v.unique,
)
