-- ===== src/Crdt/Tests.antt =====
-- pkg/crdt/crdt.go, `DiffMerkle`: the theorem on two trees, under a hash that keeps its argument.
use local_web.Base.{◌≡◌, refl, [], ◌∷◌, some, codes}
use local_web.Crdt.Merkle.{MerkleTree, new_merkle_tree}

abbrev left_tree : MerkleTree
left_tree = record { leaves = codes "a" ∷ codes "b" ∷ codes "c" ∷ []; root = codes "abc" }

abbrev right_tree : MerkleTree
right_tree = record { leaves = codes "b" ∷ []; root = codes "b" }

new_merkle_tree-left : new_merkle_tree (λ x. x) left_tree.leaves ≡ some left_tree
unfolding new_merkle_tree
new_merkle_tree-left = refl
