-- ===== src/Crdt/OrSet/View.antt =====
-- pkg/crdt/crdt.go, `ORSet`: what a replica knows, as two families of facts.
use local_web.Base.{
  ◌≡◌, refl, inl, inr, ◌↔◌, Bool, true, false, not, ◌||◌, ◌&&◌, List, [], ◌∷◌, arith, Bytes, same,
  same_iff, member, include, member-include, member-include_all, include_all, any_iff, Dict, IsDict,
  lookup, put, lookup-put, put-IsDict, Option-cases, if◌then◌else◌,
}
use local_web.Crdt.OrSet.{
  OrSet, tags_of, add, remove, live, contains, merge_adds, merge, new_or_set,
}

-- The replica has seen `elem` added under `tag`.
unfoldable pub added : OrSet → Bytes → Bytes → Bool
added s elem tag = member tag (tags_of elem s.adds)

-- The replica has a tombstone for `tag`.
unfoldable pub removed : OrSet → Bytes → Bool
removed s tag = member tag s.removes

-- Each element has one entry.
pub record IsOrSet (s : OrSet) : Type 0 where
  pub keyed : IsDict s.adds

tags_of-put :
    (k j : Bytes) (v : List Bytes) (m : Dict (List Bytes))
    → tags_of j (put k v m) ≡ (if same k j then v else tags_of j m)
tags_of-put k j v m = ground (arith, lookup-put k j v m)

pub added-add :
    (s : OrSet) (tag elem e t : Bytes)
    → added (add tag elem s) e t ≡ (same elem e && same t tag || added s e t)
unfolding added add
added-add s tag elem e t = ground (
  arith,
  lookup-put elem e (include tag (tags_of elem s.adds)) s.adds,
  member-include t tag (tags_of elem s.adds),
  same_iff elem e,
)

pub removed-add : (s : OrSet) (tag elem t : Bytes) → removed (add tag elem s) t ≡ removed s t
unfolding removed add
removed-add s tag elem t = refl

pub added-remove : (s : OrSet) (elem e t : Bytes) → added (remove elem s) e t ≡ added s e t
unfolding added remove
added-remove s elem e t = ground arith

pub removed-remove :
    (s : OrSet) (elem t : Bytes) → removed (remove elem s) t ≡ (added s elem t || removed s t)
unfolding added removed remove
removed-remove s elem t = elim (Option-cases (lookup elem s.adds)) [
  | inl e ↦ rw (e, remove, tags_of) refl
  | inr (tags, e) ↦ rw (e, remove, tags_of) (member-include_all t tags s.removes)
]

-- What a run of `merge_adds` has added, if the list that it folds in has one entry for an element.
added-merge_adds :
    (m adds : Dict (List Bytes)) (e t : Bytes)
    → IsDict m
    → member t (tags_of e (merge_adds m adds))
      ≡ (member t (tags_of e m) || member t (tags_of e adds))
unfolding merge_adds
added-merge_adds [] adds e t h = refl
added-merge_adds ((elem, tags) ∷ m) adds e t h = ground (
  arith,
  added-merge_adds m (put elem (include_all tags (tags_of elem adds)) adds) e t h.1,
  tags_of-put elem e (include_all tags (tags_of elem adds)) adds,
  member-include_all t tags (tags_of elem adds),
  same_iff elem e,
  h.0,
)

pub added-merge :
    (other s : OrSet) (e t : Bytes)
    → IsOrSet other
    → added (merge other s) e t ≡ (added other e t || added s e t)
unfolding added merge
added-merge other s e t h = added-merge_adds other.adds s.adds e t h.keyed

pub removed-merge :
    (other s : OrSet) (t : Bytes) → removed (merge other s) t ≡ (removed other t || removed s t)
unfolding removed merge
removed-merge other s t = member-include_all t other.removes s.removes

pub contains-eq-live :
    (elem : Bytes) (s : OrSet) → contains elem s ≡ live s.removes (tags_of elem s.adds)
unfolding contains
contains-eq-live elem s = ground arith

live_iff :
    (removes tags : List Bytes)
    → (live removes tags ≡ true)
      ↔ ((t : Bytes) × (member t tags ≡ true) × (member t removes ≡ false))
unfolding live
live_iff removes tags = (
  λ h.
      let (t, m, q) = (any_iff (λ tag. not (member tag removes)) tags).0 h in
      (t, m, ground (arith, q)),
  λ w. (any_iff (λ tag. not (member tag removes)) tags).1 (w.0, w.1, ground (arith, w.2)),
)

-- `Contains` is true exactly of an element with an added tag that has no tombstone.
pub contains_iff :
    (elem : Bytes) (s : OrSet)
    → (contains elem s ≡ true) ↔ ((t : Bytes) × (added s elem t ≡ true) × (removed s t ≡ false))
unfolding added removed
contains_iff elem s = rw (contains-eq-live elem s) (live_iff s.removes (tags_of elem s.adds))

pub IsOrSet-new : IsOrSet new_or_set
IsOrSet-new = record { keyed = tt }

pub IsOrSet-add : (tag elem : Bytes) (s : OrSet) → IsOrSet s → IsOrSet (add tag elem s)
unfolding add
IsOrSet-add tag elem s h = record { keyed = put-IsDict elem _ s.adds h.keyed }

pub IsOrSet-remove : (elem : Bytes) (s : OrSet) → IsOrSet s → IsOrSet (remove elem s)
unfolding remove
IsOrSet-remove elem s h = ground arith

merge_adds-IsDict : (m adds : Dict (List Bytes)) → IsDict adds → IsDict (merge_adds m adds)
unfolding merge_adds
merge_adds-IsDict [] adds h = h
merge_adds-IsDict ((elem, tags) ∷ m) adds h = merge_adds-IsDict m _ (put-IsDict elem _ adds h)

pub IsOrSet-merge : (other s : OrSet) → IsOrSet s → IsOrSet (merge other s)
unfolding merge
IsOrSet-merge other s h = record { keyed = merge_adds-IsDict other.adds s.adds h.keyed }

-- An element stays present where its live tags stay live.
pub contains_mono :
    (e f : Bytes) (s u : OrSet)
    → ((t : Bytes)
        → added s e t ≡ true
        → removed s t ≡ false
        → (added u f t ≡ true) × (removed u t ≡ false))
    → contains e s ≡ true
    → contains f u ≡ true
contains_mono e f s u keeps h =
    let (t, a, r) = (contains_iff e s).0 h in
    let (a', r') = keeps t a r in (contains_iff f u).1 (t, a', r')
