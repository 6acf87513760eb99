-- ===== src/Crdt/OrSet/Laws.antt =====
-- pkg/crdt/crdt.go, `ORSet`: what `Add`, `Remove` and `Merge` do to `Contains`.
use local_web.Base.{
  ◌≡◌, refl, inl, inr, true, false, not, ◌||◌, ◌&&◌, arith, Bytes, same, same_iff, same_refl,
  Bool-cases, Bool-ext,
}
use local_web.Crdt.OrSet.{OrSet, add, remove, contains, merge}
use local_web.Crdt.OrSet.View.{
  added, removed, IsOrSet, added-add, removed-add, added-remove, removed-remove, added-merge,
  removed-merge, contains_iff, contains_mono, IsOrSet-remove, IsOrSet-add,
}

-- After `Add` under a tag that has no tombstone, the set holds the element, and otherwise what it
-- held.
pub contains-add :
    (s : OrSet) (tag elem e : Bytes)
    → removed s tag ≡ false
    → contains e (add tag elem s) ≡ (same elem e || contains e s)
contains-add s tag elem e fresh = elim (Bool-cases (same elem e)) [
  | inl is_elem ↦ rw is_elem (
      (contains_iff e (add tag elem s)).1
        (tag, rw (added-add, is_elem, same_refl tag) refl, rw removed-add fresh))
  | inr other ↦ rw other (
      Bool-ext _ _
        (contains_mono e e (add tag elem s) s
          λ t a r. (ground (arith, added-add s tag elem e t), rw (removed-add s tag elem t) at r))
        (contains_mono e e s (add tag elem s)
          λ t a r. (ground (arith, added-add s tag elem e t), rw removed-add r)))
]

-- No tag stands under two elements.
abbrev pub UniqueTags : OrSet → Type 0
UniqueTags s = (e f t : Bytes) → added s e t ≡ true → added s f t ≡ true → e ≡ f

-- If every tag belongs to one element, `Remove` takes its element out and no other.
pub contains-remove :
    (s : OrSet) (elem e : Bytes)
    → UniqueTags s
    → contains e (remove elem s) ≡ (not (same elem e) && contains e s)
contains-remove s elem e unique = elim (Bool-cases (same elem e)) [
  | inl is_elem ↦ rw is_elem (
      Bool-ext _ _
        (λ h.
          let (t, a, r) = (contains_iff e (remove elem s)).0 h in
          gone t is_elem (rw added-remove at a) (rw removed-remove at r))
        (λ h. cc))
  | inr other ↦ rw other (
      Bool-ext _ _
        (contains_mono e e (remove elem s) s
          λ t a r. (rw added-remove at a, ground (arith, removed-remove s elem t, r)))
        (contains_mono e e s (remove elem s) λ t a r. (
          rw added-remove a,
          ground (arith, removed-remove s elem t, unique e elem t a, same_iff elem e),
        )))
]
  where
    gone :
        (t : Bytes)
        → same elem e ≡ true
        → added s e t ≡ true
        → (added s elem t || removed s t) ≡ false
        → false ≡ true
    gone t p a r = ground (arith, same_iff elem e)

-- Add wins: a replica that removes the element while another adds it under a fresh tag, which the
-- first has neither seen nor removed, holds the element once it has merged the other.
pub add_wins :
    (s r : OrSet) (tag elem : Bytes)
    → IsOrSet s
    → removed s tag ≡ false
    → added r elem tag ≡ false
    → removed r tag ≡ false
    → contains elem (merge (add tag elem s) (remove elem r)) ≡ true
add_wins s r tag elem keyed fresh unseen unremoved = (contains_iff elem _).1 (
  tag,
  ground (
    arith,
    added-merge (add tag elem s) (remove elem r) elem tag (IsOrSet-add tag elem s keyed),
    added-add s tag elem elem tag,
    same_refl elem,
    same_refl tag,
  ),
  ground (
    arith,
    removed-merge (add tag elem s) (remove elem r) tag,
    removed-add s tag elem tag,
    removed-remove r elem tag,
  ),
)

-- A removal by a replica that has seen every tag of the element wins: after it is merged into the
-- replica that added, the element is gone.
pub observed_remove :
    (s r : OrSet) (elem : Bytes)
    → IsOrSet r
    → ((t : Bytes) → added s elem t ≡ true → added r elem t ≡ true)
    → contains elem (merge (remove elem r) s) ≡ false
observed_remove s r elem keyed seen =
    Bool-ext _ _
      (λ h.
        let (t, a, l) = (contains_iff elem (merge (remove elem r) s)).0 h in
        gone t (rw (added-merge (remove elem r) s elem t (IsOrSet-remove elem r keyed)) at a)
          (rw removed-merge at l))
      (λ h. cc)
  where
    gone :
        (t : Bytes)
        → (added (remove elem r) elem t || added s elem t) ≡ true
        → (removed (remove elem r) t || removed s t) ≡ false
        → false ≡ true
    gone t a l = ground (arith, added-remove r elem elem t, removed-remove r elem t, seen t)
