-- ===== src/Dht/Table/Closest.antt =====
-- pkg/dht/dht.go, `RoutingTable.FindClosest` and `dedupeAndPrune`.
use Prim.Native.Nat.{min, ◌<◌, ◌-◌}
use mathlib.Core.List.{Permᴰ}
use local_web.Base.{◌∙◌, All-take, ◌==◌}
use local_web.Base.{
  ℕ, zero, suc, ◌≤◌, ◌≡◌, refl, ap, false, List, [], ◌∷◌, ◌++◌, arith, Bytes, All, length, take,
  drop, take-append-drop, length-take, member, Bool-cases, inl, inr,
}
use local_web.Base.Sort.{
  sort, sort-perm, sort-IsSorted, IsSorted, cut-IsSorted, before_by_order, IsStrictOrder,
}
use local_web.Dht.NodeId.{xor_dist}
use local_web.Dht.Bucket.{PeerInfo, closer}
use local_web.Dht.Table.{RoutingTable, all_peers, find_closest, dedupe, dedupe_and_prune}

closer_order : (target : Bytes) → IsStrictOrder (closer target)
closer_order target = before_by_order (λ (p : PeerInfo). xor_dist p.id target)

length-perm : {xs ys : List PeerInfo} → Permᴰ xs ys → length xs ≡ length ys
length-perm Permᴰ.nil = refl
length-perm (Permᴰ.cons e t) = ap suc (length-perm t)
length-perm (Permᴰ.swap e f) = refl
length-perm (Permᴰ.trans q r) = length-perm q ∙ length-perm r

-- `FindClosest` splits the peers of the table into those that it returns, at most `n` and all of them
-- if there are no more than `n`, in order of their distance, and others of which none is closer to the
-- target than a returned one.
pub find_closest_lem :
    (target : Bytes) (n : ℕ) (rt : RoutingTable)
    → (others : List PeerInfo) × Permᴰ (find_closest target n rt ++ others) (all_peers rt)
      × All (λ d. All (λ r. closer target d r ≡ false) (find_closest target n rt)) others
      × IsSorted (closer target) (find_closest target n rt)
      × (length (find_closest target n rt) ≡ min n (length (all_peers rt)))
unfolding find_closest
find_closest_lem target n rt = (
  drop n sorted,
  rw (take-append-drop n sorted) (sort-perm (closer target) (all_peers rt)),
  cut-IsSorted (closer target) n sorted in_order,
  IsSorted-take n sorted in_order,
  omega (arith, length-take n sorted, length-perm (sort-perm (closer target) (all_peers rt))),
)
  where
    sorted : List PeerInfo
    sorted = sort (closer target) (all_peers rt)

    in_order : IsSorted (closer target) sorted
    in_order = sort-IsSorted (closer target) (closer_order target) (all_peers rt)

    IsSorted-take :
        (k : ℕ) (xs : List PeerInfo)
        → IsSorted (closer target) xs
        → IsSorted (closer target) (take k xs)
    IsSorted-take zero xs h = tt
    IsSorted-take (suc k) [] h = tt
    IsSorted-take (suc k) (x ∷ xs) h = (All-take _ k xs h.0, IsSorted-take k xs h.1)

-- No id of the list stands twice, or is among those seen before.
abbrev pub Fresh : List Bytes → List PeerInfo → Type 0
Fresh seen [] = Unit
Fresh seen (p ∷ ps) = (member p.id seen ≡ false) × Fresh (p.id ∷ seen) ps

Fresh-dedupe :
    (seen : List Bytes) (left : ℕ) (ps : List PeerInfo) → Fresh seen (dedupe seen left ps)
unfolding dedupe
Fresh-dedupe seen left [] = tt
Fresh-dedupe seen left (p ∷ ps) = elim (Bool-cases (member p.id seen)) [
  | inl old ↦ rw old (Fresh-dedupe seen left ps)
  | inr new ↦ elim (Bool-cases (left == 1)) [
    | inl last ↦ rw (new, last) (new, tt)
    | inr more ↦ rw (new, more) (new, Fresh-dedupe (p.id ∷ seen) (left - 1) ps)
  ]
]

length-dedupe :
    (seen : List Bytes) (left : ℕ) (ps : List PeerInfo)
    → 0 < left
    → length (dedupe seen left ps) ≤ left
unfolding dedupe
length-dedupe seen left [] h = omega arith
length-dedupe seen left (p ∷ ps) h =
    ground (arith, length-dedupe seen left ps h, length-dedupe (p.id ∷ seen) (left - 1) ps)

-- The shortlist of a lookup has at most `n` entries, and no id twice.
pub dedupe_and_prune_lem :
    (peers : List PeerInfo) (target : Bytes) (n : ℕ)
    → 0 < n
    → Fresh [] (dedupe_and_prune peers target n) × (length (dedupe_and_prune peers target n) ≤ n)
unfolding dedupe_and_prune
dedupe_and_prune_lem peers target n h = (
  Fresh-dedupe [] n (sort (closer target) peers),
  length-dedupe [] n (sort (closer target) peers) h,
)
