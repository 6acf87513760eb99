-- ===== src/Crdt/Merkle.antt =====
-- pkg/crdt/crdt.go, `MerkleTree`. The hash, SHA3-256, is a parameter.
use local_web.Base.{
  ℕ, zero, suc, ◌+◌, ◌<◌, ◌≤◌, ◌≡◌, ◌≢◌, refl, not, ◌&&◌, List, [], ◌∷◌, ◌++◌, Option, none, some,
  arith, Bytes, length, same, same_iff, before, before_total, before_asymm, member, include_all,
  member-include_all, if◌then◌else◌, keep, map, member-keep,
}

pub record MerkleTree : Type 0 where
  pub leaves : List Bytes
  pub root : Bytes

abbrev pub zeros_hash : ℕ → Bytes
zeros_hash zero = []
zeros_hash (suc n) = 0 ∷ zeros_hash n

module _ (sha3_hash : Bytes → Bytes) where
  unfoldable pub hash_pair : Bytes → Bytes → Bytes
  hash_pair a b = if before a b then sha3_hash (a ++ b) else sha3_hash (b ++ a)

  -- One level of the tree; a last leaf without a partner goes up as it is.
  unfoldable pub next_level : List Bytes → List Bytes
  unfolding hash_pair
  next_level [] = []
  next_level (a ∷ []) = a ∷ []
  next_level (a ∷ b ∷ leaves) = hash_pair a b ∷ next_level leaves

  -- The recursion of `computeRoot`; `none` means that the fuel ran out.
  unfoldable pub compute_root : ℕ → List Bytes → Option Bytes
  unfolding next_level
  compute_root zero leaves = none
  compute_root (suc fuel) [] = some (zeros_hash 32)
  compute_root (suc fuel) (a ∷ []) = some a
  compute_root (suc fuel) (a ∷ b ∷ leaves) = compute_root fuel (next_level (a ∷ b ∷ leaves))

  length-next_level :
      (leaves : List Bytes)
      → (length (next_level leaves) ≤ length leaves)
        × (length (next_level leaves) + length (next_level leaves) ≤ length leaves + 1)
  unfolding next_level
  length-next_level [] = omega arith
  length-next_level (a ∷ []) = omega arith
  length-next_level (a ∷ b ∷ leaves) = omega (arith, length-next_level leaves)

  -- One unit of fuel for each leaf, and one more, is enough.
  pub compute_root_total :
      (fuel : ℕ) (leaves : List Bytes)
      → length leaves < fuel
      → (root : Bytes) × (compute_root fuel leaves ≡ some root)
  unfolding compute_root
  compute_root_total zero leaves h = absurd (omega arith)
  compute_root_total (suc fuel) [] h = (zeros_hash 32, refl)
  compute_root_total (suc fuel) (a ∷ []) h = (a, refl)
  compute_root_total (suc fuel) (a ∷ b ∷ leaves) h =
      compute_root_total fuel (next_level (a ∷ b ∷ leaves))
        (omega (arith, length-next_level (a ∷ b ∷ leaves)))

  -- `NewMerkleTree`.
  unfoldable pub new_merkle_tree : List Bytes → Option MerkleTree
  unfolding compute_root
  new_merkle_tree items =
      let leaves = map sha3_hash items in
      elim (compute_root (suc (length leaves)) leaves) [
        | none ↦ none
        | some root ↦ some (record { leaves = leaves; root = root })
      ]

  -- Every list of items has a tree, whose leaves are the hashes of the items.
  pub new_merkle_tree_total :
      (items : List Bytes)
      → (t : MerkleTree) × (new_merkle_tree items ≡ some t) × (t.leaves ≡ map sha3_hash items)
  unfolding new_merkle_tree
  new_merkle_tree_total items =
      let leaves = map sha3_hash items in
      let (root, e) = compute_root_total (suc (length leaves)) leaves (omega arith) in
      (record { leaves = leaves; root = root }, rw (e, new_merkle_tree) refl, refl)

  -- The order of a pair does not show in its hash.
  pub hash_pair_comm : (a b : Bytes) → hash_pair a b ≡ hash_pair b a
  unfolding hash_pair
  hash_pair_comm a b = ground (arith, before_total a b, before_asymm a b, before_asymm b a)

-- The leaves of the first tree that the second lacks. A range over the set of the leaves.
abbrev pub only_in : List Bytes → List Bytes → List Bytes
only_in a b = keep (λ leaf. not (member leaf (include_all b []))) (include_all a [])

unfoldable pub diff_merkle : MerkleTree → MerkleTree → List Bytes × List Bytes
diff_merkle a b =
    if same a.root b.root then ([], []) else (only_in a.leaves b.leaves, only_in b.leaves a.leaves)

member-only_in :
    (x : Bytes) (a b : List Bytes) → member x (only_in a b) ≡ (member x a && not (member x b))
member-only_in x a b = ground (
  arith,
  member-keep x (λ leaf. not (member leaf (include_all b []))) (include_all a []),
  member-include_all x a [],
  member-include_all x b [],
)

-- Where the roots differ, the two results hold exactly the leaves of one tree that the other lacks.
pub member-diff_merkle :
    (a b : MerkleTree) (x : Bytes)
    → a.root ≢ b.root
    → (member x (diff_merkle a b).0 ≡ (member x a.leaves && not (member x b.leaves)))
      × (member x (diff_merkle a b).1 ≡ (member x b.leaves && not (member x a.leaves)))
unfolding diff_merkle
member-diff_merkle a b x h = ground (
  arith,
  same_iff a.root b.root,
  member-only_in x a.leaves b.leaves,
  member-only_in x b.leaves a.leaves,
)
