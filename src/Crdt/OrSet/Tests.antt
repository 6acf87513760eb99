-- ===== src/Crdt/OrSet/Tests.antt =====
-- pkg/crdt/crdt.go, `ORSet`: the theorems on a shopping list that two replicas edit.
use mathlib.Core.List.{Permᴰ}
use mathlib.Core.Quot
use local_web.Base.{◌≡◌, refl, true, false, [], ◌∷◌, arith, Bytes, codes}
use local_web.Crdt.OrSet.{OrSet, add, remove, contains, merge, items, new_or_set}
use local_web.Crdt.OrSet.View.{added, removed, IsOrSet}
use local_web.Crdt.OrSet.Joins.{merge_all, merge_all-perm, join, join_laws, Knowledge}
use local_web.Crdt.OrSet.Laws.{add_wins, UniqueTags}
use local_web.Crdt.OrSet.Codec.{Fits}

abbrev milk : Bytes
milk = codes "milk"

abbrev bread : Bytes
bread = codes "bread"

-- Milk stands under two tags, of which one has a tombstone, and bread under a dead one.
abbrev phone : OrSet
phone = record {
  adds = (milk, codes "t1" ∷ codes "t2" ∷ []) ∷ (bread, codes "t3" ∷ []) ∷ [];
  removes = codes "t1" ∷ codes "t3" ∷ [];
}

abbrev laptop : OrSet
laptop = record { adds = (bread, codes "t4" ∷ []) ∷ []; removes = codes "t2" ∷ [] }

phone_keyed : IsOrSet phone
phone_keyed = record { keyed = ground arith }

laptop_keyed : IsOrSet laptop
laptop_keyed = record { keyed = ground arith }

items-phone : items phone ≡ milk ∷ []
unfolding items
items-phone = refl

contains-merged : contains milk (merge laptop phone) ≡ false
unfolding contains merge
contains-merged = refl

merge_all-perm_example :
    contains milk (merge_all (phone ∷ laptop ∷ []) new_or_set)
    ≡ contains milk (merge_all (laptop ∷ phone ∷ []) new_or_set)
merge_all-perm_example =
    merge_all-perm (phone ∷ laptop ∷ []) (laptop ∷ phone ∷ []) new_or_set milk
      ∣ Permᴰ.swap refl refl ∣₁ (phone_keyed, (laptop_keyed, tt))

abbrev known : Knowledge
known = Quot.mk (phone, phone_keyed)

abbrev other_known : Knowledge
other_known = Quot.mk (laptop, laptop_keyed)

join_laws_example :
    (join known other_known ≡ join other_known known)
    × (join known (join other_known known) ≡ join (join known other_known) known)
    × (join known known ≡ known)
join_laws_example = join_laws known other_known known

add_wins_example :
    contains bread (merge (add (codes "t9") bread phone) (remove bread laptop)) ≡ true
add_wins_example =
    add_wins phone laptop (codes "t9") bread phone_keyed (unfold removed in refl)
      (unfold added in refl) (unfold removed in refl)

laptop-UniqueTags : UniqueTags laptop
unfolding added
laptop-UniqueTags e f t h k = ground arith

phone-Fits : Fits phone
phone-Fits = record {
  entries = omega arith;
  elems = ground arith;
  tombstones = omega arith;
  removed_tags = ground arith;
}
