-- ===== src/Dht/Table.antt =====
-- pkg/dht/dht.go and pkg/dht/server.go, `RoutingTable`: one bucket for each prefix length.
pub mod Laws
pub mod Closest
pub mod Stale
use local_web.Base.{
  ℕ, zero, suc, ◌+◌, ◌-◌, ◌≡◌, Bool, true, false, List, [], ◌∷◌, ◌++◌, Bytes, same, ltb, length,
  take, if◌then◌else◌, member, ◌==◌,
}
use local_web.Base.Sort.{sort}
use local_web.Dht.NodeId.{bucket_index}
use local_web.Dht.Bucket.{PeerInfo, KBucket, closer}
use local_web.Dht.Bucket

pub record RoutingTable : Type 0 where
  pub local_id : Bytes
  pub buckets : List KBucket

abbrev pub empty_buckets : ℕ → List KBucket
empty_buckets zero = []
empty_buckets (suc n) = [] ∷ empty_buckets n

abbrev pub new_routing_table : Bytes → RoutingTable
new_routing_table local_id = record { local_id = local_id; buckets = empty_buckets 256 }

-- `rt.buckets[i]`.
abbrev pub nth : List KBucket → ℕ → KBucket
nth [] k = []
nth (b ∷ bs) zero = b
nth (b ∷ bs) (suc k) = nth bs k

abbrev pub update_at : ℕ → KBucket → List KBucket → List KBucket
update_at k c [] = []
update_at zero c (b ∷ bs) = c ∷ bs
update_at (suc k) c (b ∷ bs) = b ∷ update_at k c bs

unfoldable pub add : ℕ → PeerInfo → RoutingTable → RoutingTable × Bool
add now p rt =
    let i = bucket_index p.id in
    let (b, added) = Bucket.add now p (nth rt.buckets i) in
    (record rt { buckets = update_at i b rt.buckets }, added)

unfoldable pub remove : Bytes → RoutingTable → RoutingTable
remove id rt =
    let i = bucket_index id in
    record rt { buckets = update_at i (Bucket.remove id (nth rt.buckets i)) rt.buckets }

abbrev pub flatten : List KBucket → List PeerInfo
flatten [] = []
flatten (b ∷ bs) = b ++ flatten bs

abbrev pub all_peers : RoutingTable → List PeerInfo
all_peers rt = flatten rt.buckets

-- `Len`.
unfoldable pub sum_len : List KBucket → ℕ
sum_len [] = 0
sum_len (b ∷ bs) = length b + sum_len bs

unfoldable pub len : RoutingTable → ℕ
unfolding sum_len
len rt = sum_len rt.buckets

unfoldable pub find_closest : Bytes → ℕ → RoutingTable → List PeerInfo
unfolding sort
find_closest target n rt = take n (sort (closer target) (all_peers rt))

-- The loop of `PruneStale` over the copy of a bucket, with the number of the peers removed.
unfoldable pub prune_bucket : ℕ → List PeerInfo → KBucket → KBucket × ℕ
prune_bucket cutoff [] b = (b, 0)
prune_bucket cutoff (p ∷ ps) b =
    let stale = ltb p.last_seen cutoff in
    let (c, removed) = prune_bucket cutoff ps (if stale then Bucket.remove p.id b else b) in
    (c, if stale then removed + 1 else removed)

unfoldable pub prune_buckets : ℕ → List KBucket → List KBucket × ℕ
unfolding prune_bucket
prune_buckets cutoff [] = ([], 0)
prune_buckets cutoff (b ∷ bs) =
    let (c, n) = prune_bucket cutoff b b in let (cs, m) = prune_buckets cutoff bs in (c ∷ cs, n + m)

unfoldable pub prune_stale : ℕ → ℕ → RoutingTable → RoutingTable × ℕ
unfolding prune_buckets
prune_stale now ttl rt =
    let (bs, removed) = prune_buckets (now - ttl) rt.buckets in
    (record rt { buckets = bs }, removed)

-- `dedupeAndPrune`: the loop over the sorted peers, with the ids seen so far. `left` is `n` less the
-- length of the output; the loop stops when an append makes the length equal to `n`.
unfoldable pub dedupe : List Bytes → ℕ → List PeerInfo → List PeerInfo
dedupe seen left [] = []
dedupe seen left (p ∷ ps) =
    let skipped = dedupe seen left ps in
    let more = dedupe (p.id ∷ seen) (left - 1) ps in
    if member p.id seen then skipped else p ∷ (if left == 1 then [] else more)

unfoldable pub dedupe_and_prune : List PeerInfo → Bytes → ℕ → List PeerInfo
unfolding dedupe sort
dedupe_and_prune peers target n = dedupe [] n (sort (closer target) peers)
