-- ===== src/Crdt/OrSet/Items.antt =====
-- pkg/crdt/crdt.go, `ORSet.Items`.
use local_web.Base.{
  ◌∙◌, sym, ◌≡◌, refl, false, List, [], ◌∷◌, arith, Bytes, any-perm, same, same_iff, before, member,
  Dict, IsDict,
}
use local_web.Base.Sort.{sort-perm, sort-IsSorted, IsSorted, before_order}
use local_web.Crdt.OrSet.{OrSet, live, contains, live_elems, items, tags_of}
use local_web.Crdt.OrSet.View.{IsOrSet, contains-eq-live}

live_none : (removes : List Bytes) → live removes [] ≡ false
unfolding live
live_none removes = refl

member-live_elems :
    (removes : List Bytes) (m : Dict (List Bytes)) (e : Bytes)
    → IsDict m
    → member e (live_elems removes m) ≡ live removes (tags_of e m)
unfolding live_elems
member-live_elems removes [] e h = rw (live_none removes)
member-live_elems removes ((elem, tags) ∷ m) e h = ground (
  arith,
  member-live_elems removes m e h.1,
  same_iff e elem,
  same_iff elem e,
  live_none removes,
  h.0,
)

-- `Items` of a well-formed set lists exactly the elements that the set contains, in sorted order.
pub items_lem :
    (s : OrSet) (e : Bytes)
    → IsOrSet s
    → (member e (items s) ≡ contains e s) × IsSorted before (items s)
unfolding items
items_lem s e h = (
  any-perm (same e) (sort-perm before (live_elems s.removes s.adds))
      ∙ member-live_elems s.removes s.adds e h.keyed
      ∙ sym (contains-eq-live e s),
  sort-IsSorted before before_order (live_elems s.removes s.adds),
)
