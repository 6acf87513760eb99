-- ===== src/Dht/Bucket.antt =====
-- pkg/dht/dht.go, `PeerInfo` and `KBucket`. A score is the bit pattern of its float64, which is only
-- copied; times are counted from the zero time; the clock is an argument.
pub mod Laws
use local_web.Base.{
  ℕ, zero, suc, ◌+◌, ◌≤◌, ◌≡◌, Bool, true, false, not, List, [], ◌∷◌, ◌++◌, Bytes, same, before,
  leb, length, take, any, if◌then◌else◌,
}
use local_web.Base.Sort.{sort}
use local_web.Dht.NodeId.{xor_dist}

pub record PeerInfo : Type 0 where
  pub id : Bytes
  pub public_key : Bytes
  pub name : Bytes
  pub addrs : List Bytes
  pub services : List Bytes
  pub score : ℕ
  pub last_seen : ℕ
  pub first_seen : ℕ
  pub version : Bytes

abbrev pub k_bucket_size : ℕ
k_bucket_size = 20

abbrev pub KBucket : Type 0
KBucket = List PeerInfo

abbrev pub has_id : Bytes → KBucket → Bool
has_id id b = any (λ p. same p.id id) b

-- The loop of `Add` over the peers, where one has the id: only its time and its score are renewed.
unfoldable pub refresh : ℕ → PeerInfo → KBucket → KBucket
refresh now p [] = []
refresh now p (q ∷ b) =
    if same q.id p.id
    then record q { last_seen = now; score = p.score } ∷ b
    else q ∷ refresh now p b

-- `Add`, with the result that says whether the peer is new in the bucket.
unfoldable pub add : ℕ → PeerInfo → KBucket → KBucket × Bool
unfolding refresh
add now p b =
    if has_id p.id b
    then (refresh now p b, false)
    else if leb k_bucket_size (length b)
    then (b, false)
    else (b ++ (record p { last_seen = now } ∷ []), true)

unfoldable pub remove : Bytes → KBucket → KBucket
remove id [] = []
remove id (p ∷ b) = if same p.id id then b else p ∷ remove id b

-- The test of the sorts: nearer to the target.
abbrev pub closer : Bytes → PeerInfo → PeerInfo → Bool
closer target p q = before (xor_dist p.id target) (xor_dist q.id target)

unfoldable pub get_closest : ℕ → Bytes → KBucket → KBucket
unfolding sort
get_closest n target b = take n (sort (closer target) b)
