-- ===== src/Dht/Table/Stale.antt =====
-- pkg/dht/server.go, `RoutingTable.PruneStale`.
use mathlib.Core.List.{append_assoc}
use local_web.Base.{
  ℕ, ◌+◌, ◌-◌, ◌≡◌, refl, Bool, false, not, List, [], ◌∷◌, ◌++◌, arith, All, length, ltb,
  any-append, same, same_iff, same_refl, keep,
}
use local_web.Dht.Bucket.{PeerInfo, KBucket, has_id, remove}
use local_web.Dht.Bucket.Laws.{UniqueIds}
use local_web.Dht.Table.{RoutingTable, prune_bucket, prune_buckets, prune_stale}

abbrev pub is_fresh : ℕ → PeerInfo → Bool
is_fresh cutoff p = not (ltb p.last_seen cutoff)

remove-middle :
    (p : PeerInfo) (ks ps : KBucket)
    → has_id p.id ks ≡ false
    → remove p.id (ks ++ (p ∷ ps)) ≡ ks ++ ps
unfolding remove
remove-middle p [] ps h = rw (same_refl p.id)
remove-middle p (k ∷ ks) ps h = ground (arith, remove-middle p ks ps)

has_id-front :
    (p : PeerInfo) (ks ps : KBucket) → UniqueIds (ks ++ (p ∷ ps)) → has_id p.id ks ≡ false
has_id-front p [] ps h = refl
has_id-front p (k ∷ ks) ps h = ground (
  arith,
  has_id-front p ks ps h.1,
  any-append (λ (r : PeerInfo). same r.id k.id) ks (p ∷ ps),
  same_iff k.id p.id,
  same_iff p.id k.id,
  h.0,
)

UniqueIds-drop :
    (p : PeerInfo) (ks ps : KBucket) → UniqueIds (ks ++ (p ∷ ps)) → UniqueIds (ks ++ ps)
UniqueIds-drop p [] ps h = h.1
UniqueIds-drop p (k ∷ ks) ps h = (
  rw (any-append (λ (r : PeerInfo). same r.id k.id) ks ps)
      (ground (arith, any-append (λ (r : PeerInfo). same r.id k.id) ks (p ∷ ps), h.0)),
  UniqueIds-drop p ks ps h.1,
)

prune_from :
    (cutoff : ℕ) (ks ps : KBucket)
    → UniqueIds (ks ++ ps)
    → ((prune_bucket cutoff ps (ks ++ ps)).0 ≡ ks ++ keep (is_fresh cutoff) ps)
      × ((prune_bucket cutoff ps (ks ++ ps)).1 + length (keep (is_fresh cutoff) ps) ≡ length ps)
unfolding prune_bucket
prune_from cutoff ks [] h = (refl, refl)
prune_from cutoff ks (p ∷ ps) h = ground (
  arith,
  prune_from cutoff ks ps (UniqueIds-drop p ks ps h),
  remove-middle p ks ps (has_id-front p ks ps h),
  prune_from cutoff (ks ++ (p ∷ [])) ps (rw (append_assoc ks (p ∷ []) ps) h),
  append_assoc ks (p ∷ []) ps,
  append_assoc ks (p ∷ []) (keep (is_fresh cutoff) ps),
)

-- The buckets hold no id twice.
abbrev pub AllUnique : List KBucket → Type 0
AllUnique bs = All UniqueIds bs

abbrev pub keep_fresh : ℕ → List KBucket → List KBucket
keep_fresh cutoff [] = []
keep_fresh cutoff (b ∷ bs) = keep (is_fresh cutoff) b ∷ keep_fresh cutoff bs

prune_buckets_lem :
    (cutoff : ℕ) (bs : List KBucket)
    → AllUnique bs
    → (prune_buckets cutoff bs).0 ≡ keep_fresh cutoff bs
unfolding prune_buckets
prune_buckets_lem cutoff [] h = refl
prune_buckets_lem cutoff (b ∷ bs) h =
    ground (arith, prune_from cutoff [] b h.0, prune_buckets_lem cutoff bs h.1)

-- `PruneStale` keeps of every bucket exactly the peers that were seen within `ttl`, in their order, if
-- no bucket holds an id twice.
pub prune_stale_lem :
    (now ttl : ℕ) (rt : RoutingTable)
    → AllUnique rt.buckets
    → (prune_stale now ttl rt).0 ≡ record rt { buckets = keep_fresh (now - ttl) rt.buckets }
unfolding prune_stale
prune_stale_lem now ttl rt h = ground (arith, prune_buckets_lem (now - ttl) rt.buckets h)
