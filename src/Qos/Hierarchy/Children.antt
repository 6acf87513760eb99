-- ===== src/Qos/Hierarchy/Children.antt =====
-- pkg/qos/qos.go, `HTBHierarchy`: the children that a node lists, and the nodes that have it for their parent.
use local_web.Base.{
  ℕ, ◌+◌, ◌<◌, ◌≡◌, refl, ap, ◌∙◌, inl, inr, Bool, false, ◌&&◌, List, [], ◌∷◌, ◌++◌, Option, none,
  some, arith, ◌==◌, ==_iff, if◌then◌else◌, Bool-cases, Option-cases, length,
}
use local_web.Base.{get_elem?, set, length-set, get_elem?-set, get_elem?-snoc, lt-get_elem?}
use local_web.Qos.Hierarchy.{HtbNode}

-- What stands in the pool after its node p has been changed and one more node has been put behind it.
pub elem_after :
    (i p : ℕ) (w v : HtbNode) (pool : List HtbNode)
    → p < length pool
    → get_elem? (set pool p w ++ (v ∷ [])) i
      ≡ (if i == length pool then some v else if p == i then some w else get_elem? pool i)
elem_after i p w v pool h =
    ground
      (arith, get_elem?-snoc i (set pool p w) v, length-set pool p w, get_elem?-set p i w pool h)

-- How often a list has a number.
abbrev pub times : ℕ → List ℕ → ℕ
times i [] = 0
times i (c ∷ cs) = (if c == i then 1 else 0) + times i cs

times-snoc :
    (i c : ℕ) (cs : List ℕ) → times i (cs ++ (c ∷ [])) ≡ times i cs + (if c == i then 1 else 0)
times-snoc i c [] = omega arith
times-snoc i c (d ∷ cs) = ground (arith, times-snoc i c cs)

abbrev listed : ℕ → Option HtbNode → ℕ
listed i n = elim n [ none ↦ 0 | some n ↦ times i n.children ]

abbrev claims : ℕ → Option ℕ → Bool
claims p q = elim q [ none ↦ false | some r ↦ r == p ]

abbrev under : ℕ → Option HtbNode → Bool
under p n = elim n [ none ↦ false | some n ↦ claims p n.parent ]

-- How often the node at p lists i among its children, and whether the node at i has p for its parent.
abbrev pub lists : List HtbNode → ℕ → ℕ → ℕ
lists pool p i = listed i (get_elem? pool p)

abbrev pub has_parent : List HtbNode → ℕ → ℕ → Bool
has_parent pool p i = under p (get_elem? pool i)

-- Every node lists the nodes that have it for their parent, once each, and no others.
abbrev pub IsLinked : List HtbNode → Type 0
IsLinked pool = (p i : ℕ) → lists pool p i ≡ (if has_parent pool p i then 1 else 0)

get_elem?_end : (pool : List HtbNode) → get_elem? pool (length pool) ≡ none
get_elem?_end pool = elim (Option-cases (get_elem? pool (length pool))) [
  | inl e ↦ e
  | inr (n, e) ↦ absurd (ground (arith, lt-get_elem? (length pool) pool e))
]

module _ (p : ℕ) (n v : HtbNode) (pool : List HtbNode) (e : get_elem? pool p ≡ some n)
    (leaf : v.children ≡ []) (below : v.parent ≡ some p) where
  -- The pool in which v is the last node and p lists it.
  unfoldable pub after : List HtbNode
  after = set pool p (record n { children = n.children ++ (length pool ∷ []) }) ++ (v ∷ [])

  lists-after :
      (q i : ℕ)
      → lists after q i ≡ (
          if q == length pool
          then 0
          else lists pool q i + (if p == q && i == length pool then 1 else 0))
  unfolding after
  lists-after q i =
      ap (listed i) (elem_after q p _ v pool (lt-get_elem? p pool e))
      ∙ elim (Bool-cases (q == length pool)) [
        | inl f ↦ rw (f, leaf) refl
        | inr f ↦ elim (Bool-cases (p == q)) [
          | inr g ↦ rw (f, g) (omega arith)
          | inl g ↦
              rw (f, g, ← (==_iff p q).0 g, e, times-snoc i (length pool) n.children)
                (ground (arith, ==_iff i (length pool), ==_iff (length pool) i))
        ]
      ]

  has_parent-after :
      (q i : ℕ) → has_parent after q i ≡ (if i == length pool then p == q else has_parent pool q i)
  unfolding after
  has_parent-after q i =
      ap (under q) (elem_after i p _ v pool (lt-get_elem? p pool e))
      ∙ elim (Bool-cases (i == length pool)) [
        | inl f ↦ rw (f, below) refl
        | inr f ↦ elim (Bool-cases (p == i)) [
          | inr g ↦ rw (f, g) refl
          | inl g ↦ rw (f, g, ← (==_iff p i).0 g, e) refl
        ]
      ]

  agree :
      (old new : ℕ) (parent : Bool) (len q i : ℕ)
      → p < len
      → old ≡ (if parent then 1 else 0)
      → new ≡ 0
      → (q ≡ len → old ≡ 0)
      → (i ≡ len → old ≡ new)
      → (if q == len then 0 else old + (if p == q && i == len then 1 else 0))
        ≡ (if (if i == len then p == q else parent) then 1 else 0)
  agree old new parent len q i inside h z zq zi =
      ground (arith, ==_iff q len, ==_iff i len, ==_iff p q)

  -- A new child that is listed by its parent keeps the two in agreement.
  pub after-IsLinked : IsLinked pool → IsLinked after
  after-IsLinked h q i =
      let inside : p < length pool = lt-get_elem? p pool e in
      let no_end : lists pool (length pool) i ≡ 0 = ap (listed i) (get_elem?_end pool) in
      let no_new : has_parent pool q (length pool) ≡ false = ap (under q) (get_elem?_end pool) in
      lists-after q i
      ∙ (agree (lists pool q i) (lists pool q (length pool)) (has_parent pool q i) (length pool) q i
            inside (h q i) (h q (length pool) ∙ rw no_new refl)
            (λ f. ap (λ k. lists pool k i) f ∙ no_end) (λ f. ap (lists pool q) f)
          ∙ rw (has_parent-after q i) refl)
