-- ===== src/Crdt/Rga/Tests.antt =====
-- pkg/crdt/crdt.go, `RGA`: the theorems on short documents.
use mathlib.Core.List.{Sublist}
use local_web.Base.{◌≡◌, refl, true, [], ◌∷◌, some, arith, codes}
use local_web.Base.Int64.{inc_int64, lt_int64}
use local_web.Crdt.Rga.{
  RgaNode, Rga, splice, before_node, insert, text, new_rga, find_node, insert_ordered, format_id,
}
use local_web.Crdt.Rga.Order.{splice_comm}
use local_web.Crdt.Rga.Edits.{IsCounted}
use local_web.Crdt.Rga.Merge.{merge, is_deleted}
use local_web.Crdt.Rga.Merge.Sweeps.{merge_total}
use local_web.Crdt.Rga.Merge.Keeps.{ids_of, merge-Kept}
use local_web.Crdt.Rga.Merge.Tombstones.{merge_tombstones}
use local_web.Crdt.Rga.Merge.Diverges.{ids_after, two_nodes, at_head, merge_diverges}
use local_web.Crdt.Rga.Codec.{FitsNode}

abbrev first : RgaNode
first = at_head (codes "1:ann:H") (codes "H") 1 (codes "ann")

abbrev second : RgaNode
second = record first {
  id = codes "2:ann:i";
  value = codes "i";
  timestamp = 2;
  origin_id = codes "1:ann:H";
}

abbrev bobs : RgaNode
bobs = at_head (codes "1:bob:X") (codes "X") 1 (codes "bob")

abbrev doc : Rga
doc = record { nodes = first ∷ second ∷ []; length = 2; clock = 2; node_id = codes "ann" }

-- A replica of it in which the first node has its tombstone, with one node more.
abbrev other_doc : Rga
other_doc = record {
  nodes = record first { deleted = true } ∷ second ∷ bobs ∷ [];
  length = 3;
  clock = 1;
  node_id = codes "bob";
}

abbrev merged : Rga
merged = record doc {
  nodes =
      record first { deleted = true } ∷ second ∷ record bobs { origin_id = codes "2:ann:i" } ∷ [];
  length = 3;
}

text-typed :
    text (
      insert
        (codes "1:ann:H")
        (codes "i")
        (insert (codes "head") (codes "H") (new_rga (codes "ann"))))
    ≡ codes "Hi"
unfolding text insert format_id inc_int64
text-typed = refl

merge-docs : merge other_doc doc ≡ some merged
unfolding merge find_node insert_ordered
merge-docs = refl

merge_total_example : (u : Rga) × (merge other_doc doc ≡ some u)
merge_total_example = merge_total other_doc doc

merge_tombstones_example : is_deleted (codes "1:ann:H") merged.nodes ≡ true
merge_tombstones_example =
    merge_tombstones (codes "1:ann:H") other_doc doc merged (λ e. ground arith) refl refl merge-docs

merge-Kept_example : Sublist (ids_of doc.nodes) (ids_of merged.nodes) × IsCounted merged
merge-Kept_example = merge-Kept other_doc doc merged refl merge-docs

splice_comm_example :
    splice (codes "head") (record bobs { timestamp = 3 }) (splice (codes "head") bobs doc.nodes)
    ≡ splice (codes "head") bobs (splice (codes "head") (record bobs { timestamp = 3 }) doc.nodes)
splice_comm_example =
    splice_comm (codes "head") bobs (record bobs { timestamp = 3 }) doc.nodes refl refl refl
      (unfold before_node lt_int64 in refl)

merge_diverges_example :
    (ids_after
        (two_nodes
          (at_head (codes "y") [] 1 (codes "bob"))
          (at_head (codes "z") [] 2 (codes "bob")))
        (two_nodes
          (at_head (codes "x") [] 1 (codes "ann"))
          (at_head (codes "w") [] 2 (codes "ann")))
      ≡ some (codes "x" ∷ codes "y" ∷ codes "z" ∷ codes "w" ∷ []))
    × (ids_after
          (two_nodes
            (at_head (codes "x") [] 1 (codes "ann"))
            (at_head (codes "w") [] 2 (codes "ann")))
          (two_nodes
            (at_head (codes "y") [] 1 (codes "bob"))
            (at_head (codes "z") [] 2 (codes "bob")))
        ≡ some (codes "x" ∷ codes "w" ∷ codes "y" ∷ codes "z" ∷ []))
merge_diverges_example = merge_diverges [] [] [] [] (codes "ann") (codes "bob") refl

fits_first : FitsNode first
fits_first = record {
  id = omega arith;
  value = omega arith;
  timestamp = omega arith;
  author = omega arith;
  origin_id = omega arith;
  has_origin = λ e. ground arith;
}

fits_second : FitsNode second
fits_second = record {
  id = omega arith;
  value = omega arith;
  timestamp = omega arith;
  author = omega arith;
  origin_id = omega arith;
  has_origin = λ e. ground arith;
}
