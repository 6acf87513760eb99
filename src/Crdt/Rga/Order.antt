-- ===== src/Crdt/Rga/Order.antt =====
-- pkg/crdt/crdt.go, `beforeNode` and `RGA.insertOrdered`: where a node lands among those behind its
-- anchor.
use local_web.Base.{
  ◌≡◌, refl, ap, inl, inr, true, false, ◌&&◌, not, List, [], ◌∷◌, ◌++◌, arith, Bytes, All, same,
  same_iff, before_trans, before_asymm, if◌then◌else◌, Bool-cases, ◌≢◌,
}
use local_web.Base.Int64.{lt_int64_trans, lt_int64_asymm}
use local_web.Crdt.Rga.{RgaNode, before_node, skip, splice}

pub before_node_trans :
    (a b c : RgaNode) → before_node a b ≡ true → before_node b c ≡ true → before_node a c ≡ true
unfolding before_node
before_node_trans a b c p q = ground (
  arith,
  lt_int64_trans a.timestamp b.timestamp c.timestamp,
  lt_int64_asymm a.timestamp b.timestamp,
  before_trans a.author b.author c.author,
)

pub before_node_asymm : (a b : RgaNode) → before_node a b ≡ true → before_node b a ≡ false
unfolding before_node
before_node_asymm a b h =
    ground (arith, lt_int64_asymm a.timestamp b.timestamp, before_asymm a.author b.author)

-- `ys` is `xs` with the node put somewhere into it.
abbrev pub Inserted : RgaNode → List RgaNode → List RgaNode → Type 0
Inserted node xs ys =
    (before_it after_it : List RgaNode) × (xs ≡ before_it ++ after_it)
    × (ys ≡ before_it ++ (node ∷ after_it))

Inserted-cons :
    (node c : RgaNode) (xs ys : List RgaNode)
    → Inserted node xs ys
    → Inserted node (c ∷ xs) (c ∷ ys)
Inserted-cons node c xs ys (l, r, p, q) = (c ∷ l, r, ap (◌∷◌ c) p, ap (◌∷◌ c) q)

skip-Inserted :
    (after : Bytes) (node : RgaNode) (xs : List RgaNode) → Inserted node xs (skip after node xs)
unfolding skip
skip-Inserted after node [] = ([], [], refl, refl)
skip-Inserted after node (c ∷ cs) =
    elim (Bool-cases (same c.origin_id after && not (before_node c node))) [
      | inl stops ↦ rw stops ([], c ∷ cs, refl, refl)
      | inr goes_on ↦ rw goes_on (Inserted-cons node c cs _ (skip-Inserted after node cs))
    ]

pub splice-Inserted :
    (after : Bytes) (node : RgaNode) (xs : List RgaNode) → Inserted node xs (splice after node xs)
unfolding splice
splice-Inserted after node [] = ([], [], refl, refl)
splice-Inserted after node (c ∷ cs) =
    elim (Bool-cases (same c.origin_id after && before_node c node)) [
      | inl goes_on ↦ rw goes_on (Inserted-cons node c cs _ (skip-Inserted after node cs))
      | inr stops ↦ rw stops ([], c ∷ cs, refl, refl)
    ]

-- The nodes behind the anchor are none, or begin with one that was inserted after it.
abbrev pub HasChildRun : Bytes → List RgaNode → Type 0
HasChildRun after [] = Unit
HasChildRun after (c ∷ cs) = c.origin_id ≡ after

skip_comm :
    (after : Bytes) (a b : RgaNode) (xs : List RgaNode)
    → a.origin_id ≡ after
    → b.origin_id ≡ after
    → before_node a b ≡ true
    → skip after b (skip after a xs) ≡ skip after a (skip after b xs)
unfolding skip
skip_comm after a b [] p q h =
    ground (arith, same_iff a.origin_id after, same_iff b.origin_id after, before_node_asymm a b)
skip_comm after a b (c ∷ cs) p q h = ground (
  arith,
  same_iff a.origin_id after,
  same_iff b.origin_id after,
  before_node_asymm a b,
  before_node_trans c a b,
  skip_comm after a b cs p q h,
)

-- Two concurrent siblings, of which one sorts ahead of the other, may arrive in either order, if what
-- stands behind their anchor begins with a sibling of theirs or is empty.
pub splice_comm :
    (after : Bytes) (a b : RgaNode) (xs : List RgaNode)
    → HasChildRun after xs
    → a.origin_id ≡ after
    → b.origin_id ≡ after
    → before_node a b ≡ true
    → splice after b (splice after a xs) ≡ splice after a (splice after b xs)
unfolding splice
splice_comm after a b [] run p q h =
    unfold skip in
    ground (arith, same_iff a.origin_id after, same_iff b.origin_id after, before_node_asymm a b)
splice_comm after a b (c ∷ cs) run p q h =
    unfold skip in
    ground (
      arith,
      same_iff a.origin_id after,
      same_iff b.origin_id after,
      same_iff c.origin_id after,
      before_node_asymm a b,
      before_node_trans c a b,
      skip_comm after a b cs p q h,
    )

-- Where a node of another anchor follows at once, the two orders of arrival give two documents: the
-- later sibling lands behind that node if it arrives last, and before it if it arrives first.
pub splice_diverges :
    (after : Bytes) (a b c : RgaNode)
    → c.origin_id ≢ after
    → a.origin_id ≡ after
    → b.origin_id ≡ after
    → before_node a b ≡ true
    → (splice after b (splice after a (c ∷ [])) ≡ a ∷ c ∷ b ∷ [])
      × (splice after a (splice after b (c ∷ [])) ≡ a ∷ b ∷ c ∷ [])
unfolding splice skip
splice_diverges after a b c other p q h = ground (
  arith,
  same_iff a.origin_id after,
  same_iff b.origin_id after,
  same_iff c.origin_id after,
  before_node_asymm a b,
)

skip_newest :
    (after : Bytes) (node : RgaNode) (xs : List RgaNode)
    → All (λ x. before_node x node ≡ true) xs
    → skip after node xs ≡ xs ++ node ∷ []
unfolding skip
skip_newest after node [] h = refl
skip_newest after node (c ∷ cs) h = ground (arith, skip_newest after node cs h.1)

-- A node that sorts behind every other lands right behind its anchor, unless a child of the anchor
-- stands there: then it lands behind all the nodes, to the end of the document.
pub splice_newest :
    (after : Bytes) (node c : RgaNode) (cs : List RgaNode)
    → All (λ x. before_node x node ≡ true) (c ∷ cs)
    → splice after node (c ∷ cs)
      ≡ (if same c.origin_id after then (c ∷ cs) ++ node ∷ [] else node ∷ c ∷ cs)
unfolding splice
splice_newest after node c cs h = ground (arith, skip_newest after node cs h.1)
