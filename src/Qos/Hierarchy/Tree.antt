-- ===== src/Qos/Hierarchy/Tree.antt =====
-- pkg/qos/qos.go, `HTBHierarchy`: the tree that `AddClass` builds, and what `Borrow` changes.
use mathlib.Core.Path.{subst}
use local_web.Base.{
  zero, suc, ℕ, ◌+◌, ◌<◌, ◌≡◌, ◌≢◌, refl, sym, ap, ◌∙◌, inl, inr, List, [], ◌∷◌, ◌++◌, Option, none,
  some, some_inj, arith, ◌==◌, ==_iff, if◌then◌else◌, Bool-cases, Option-cases, Bytes, length, put,
}
use local_web.Base.{get_elem?, set, length-set, get_elem?-set, lt-get_elem?}
use local_web.Qos.Hierarchy.Children.{IsLinked, elem_after, after, after-IsLinked}
use local_web.Qos.Pointers.{Below, Below-new}
use local_web.Qos.Hierarchy.{
  HtbNode, HtbHierarchy, parent_of, new_node, add_class, borrow, new_htb_hierarchy,
}

-- The parent and the level of a node, and of the node at a position.
abbrev shape : Option HtbNode → Option (Option ℕ × ℕ)
shape n = elim n [ none ↦ none | some n ↦ some (n.parent, n.level) ]

abbrev pub link : List HtbNode → ℕ → Option (Option ℕ × ℕ)
link pool i = shape (get_elem? pool i)

-- The parent p of a node at i stands before it in the pool, and the node is one level below it.
abbrev pub IsBelow : List HtbNode → ℕ → ℕ → ℕ → Type 0
IsBelow pool i p l = (k : ℕ) × (q : Option ℕ) × (link pool p ≡ some (q, k)) × (p < i) × (l ≡ k + 1)

pub record IsTree (h : HtbHierarchy) : Type 0 where
  pub placed : (i p l : ℕ) → link h.pool i ≡ some (some p, l) → IsBelow h.pool i p l
  pub rooted : link h.pool h.root ≡ some (none, 0)
  pub one_root : (i l : ℕ) → link h.pool i ≡ some (none, l) → i ≡ h.root
  pub linked : IsLinked h.pool
  pub known : Below (length h.pool) h.nodes

link_after :
    (i p : ℕ) (cs : List ℕ) (v n : HtbNode) (pool : List HtbNode)
    → get_elem? pool p ≡ some n
    → link (set pool p (record n { children = cs }) ++ (v ∷ [])) i
      ≡ (if i == length pool then some (v.parent, v.level) else link pool i)
link_after i p cs v n pool e =
    ap shape (elem_after i p (record n { children = cs }) v pool (lt-get_elem? p pool e))
    ∙ elim (Bool-cases (i == length pool)) [
      | inl f ↦ rw f refl
      | inr f ↦ elim (Bool-cases (p == i)) [
        | inl g ↦ rw (f, g) (sym (ap shape e) ∙ ap (link pool) ((==_iff p i).0 g))
        | inr g ↦ rw (f, g) refl
      ]
    ]

link_kept :
    (i p : ℕ) (cs : List ℕ) (v n : HtbNode) (pool : List HtbNode) {l : Option ℕ × ℕ}
    → get_elem? pool p ≡ some n
    → link pool i ≡ some l
    → link (set pool p (record n { children = cs }) ++ (v ∷ [])) i ≡ some l
link_kept i p cs v n pool e f = elim (Option-cases (get_elem? pool i)) [
  | inl g ↦ absurd (cc (sym f ∙ ap shape g))
  | inr (m, g) ↦ ground (arith, link_after i p cs v n pool e, lt-get_elem? i pool g, f)
]

placed_after :
    (i p : ℕ) (cs : List ℕ) (v n : HtbNode) (pool : List HtbNode)
    → get_elem? pool p ≡ some n
    → v.parent ≡ some p
    → v.level ≡ n.level + 1
    → ((i p l : ℕ) → link pool i ≡ some (some p, l) → IsBelow pool i p l)
    → (r l : ℕ) → link (set pool p (record n { children = cs }) ++ (v ∷ [])) i ≡ some (some r, l)
    → IsBelow (set pool p (record n { children = cs }) ++ (v ∷ [])) i r l
placed_after i p cs v n pool e par lev old r l at = elim (Bool-cases (i == length pool)) [
  | inl f ↦
      let new_link : Path (Option (Option ℕ × ℕ)) (some (some r, l)) (some (v.parent, v.level)) =
        sym at ∙ (link_after i p cs v n pool e ∙ rw f refl) in
      let parent_here : r ≡ p = some_inj (ap (λ x. x.0) (some_inj new_link) ∙ par) in
      let below : p < length pool = lt-get_elem? p pool e in
      (
        n.level,
        n.parent,
        link_kept r p cs v n pool e (ap (link pool) parent_here ∙ ap shape e),
        ground (arith, parent_here, below, f),
        ap (λ x. x.1) (some_inj new_link) ∙ lev,
      )
  | inr f ↦
      let old_link : some (some r, l) ≡ link pool i =
        sym at ∙ (link_after i p cs v n pool e ∙ rw f refl) in
      let (k, q, here, lt, one) = old i r l (sym old_link) in
      (k, q, link_kept r p cs v n pool e here, lt, one)
]

one_root_after :
    (i p root : ℕ) (cs : List ℕ) (v n : HtbNode) (pool : List HtbNode)
    → get_elem? pool p ≡ some n
    → v.parent ≡ some p
    → ((i l : ℕ) → link pool i ≡ some (none, l) → i ≡ root)
    → (l : ℕ) → link (set pool p (record n { children = cs }) ++ (v ∷ [])) i ≡ some (none, l)
    → i ≡ root
one_root_after i p root cs v n pool e par old l at = elim (Bool-cases (i == length pool)) [
  | inl f ↦
      let new_link : Path (Option (Option ℕ × ℕ)) (some (none, l)) (some (v.parent, v.level)) =
        sym at ∙ (link_after i p cs v n pool e ∙ rw f refl) in
      let no_parent : none ≡ v.parent = ap (λ x. x.0) (some_inj new_link) in
      absurd (cc (no_parent, par))
  | inr f ↦
      let old_link : some (none, l) ≡ link pool i =
        sym at ∙ (link_after i p cs v n pool e ∙ rw f refl) in
      old i l (sym old_link)
]

-- `AddClass` keeps the hierarchy a tree: the root, at level 0, is the one node without parent, the parent of
-- any other node stands before it in the pool and is one level above it, every node lists exactly the
-- nodes that have it for their parent, once each, and every name leads into the pool.
pub add_class-IsTree :
    (now : ℕ) (name parent : Bytes) (rate ceil : ℕ) (h : HtbHierarchy)
    → IsTree h
    → IsTree (add_class now name parent rate ceil h)
unfolding add_class after
add_class-IsTree now name parent rate ceil h t =
    elim (Option-cases (get_elem? h.pool (parent_of parent h))) [
      | inl e ↦ rw (e, add_class) t
      | inr (n, e) ↦
          let parents =
            set h.pool (parent_of parent h)
              (record n { children = n.children ++ (length h.pool ∷ []) }) in
          let new = new_node now name (parent_of parent h) rate ceil (n.level + 1) in
          let same_length : length parents ≡ length h.pool =
            length-set h.pool (parent_of parent h) _ in
          rw (e, add_class)
            (record {
              placed = λ i. placed_after i (parent_of parent h) _ _ n h.pool e refl refl t.placed;
              rooted = link_kept h.root (parent_of parent h) _ _ n h.pool e t.rooted;
              one_root =
                  λ i. one_root_after i (parent_of parent h) h.root _ _ n h.pool e refl t.one_root;
              linked = after-IsLinked (parent_of parent h) n new h.pool e refl refl t.linked;
              known =
                  subst (λ k. Below (length (parents ++ (new ∷ []))) (put name k h.nodes))
                    same_length
                    (Below-new name parents new h.nodes
                      (subst (λ k. Below k h.nodes) (sym same_length) t.known));
            })
    ]

-- What a borrow can change of the other nodes.
pub borrow_lem :
    (earned : ℕ → ℕ → ℕ) (now i j tokens : ℕ) (h : HtbHierarchy)
    → i ≢ j
    → get_elem? (borrow earned now i tokens h).0.pool j ≡ get_elem? h.pool j
unfolding borrow
borrow_lem earned now i j tokens h ne = elim (Option-cases (get_elem? h.pool i)) [
  | inl e ↦ rw (e, borrow) refl
  | inr (n, e) ↦
      rw (e, borrow) (get_elem?-set i j _ h.pool (lt-get_elem? i h.pool e) ∙ ground arith)
]

pub IsTree-new : (now : ℕ) → IsTree (new_htb_hierarchy now)
IsTree-new now = record {
  placed = λ i p l e. absurd (no_parent i e);
  rooted = refl;
  one_root = only_root;
  linked = no_children;
  known = (omega arith, tt);
}
  where
    no_parent : (i : ℕ) {p l : ℕ} → link (new_htb_hierarchy now).pool i ≡ some (some p, l) → ⊥
    no_parent zero e = ground (arith, some_inj e)
    no_parent (suc i) e = cc e

    only_root : (i l : ℕ) → link (new_htb_hierarchy now).pool i ≡ some (none, l) → i ≡ 0
    only_root zero l e = refl
    only_root (suc i) l e = absurd (cc e)

    no_children : IsLinked (new_htb_hierarchy now).pool
    no_children zero zero = refl
    no_children zero (suc i) = refl
    no_children (suc p) zero = refl
    no_children (suc p) (suc i) = refl
