-- ===== src/Crdt/OrSet.antt =====
-- pkg/crdt/crdt.go, `ORSet`. The maps are association lists; the order of a range over a Go map is
-- the order of the list. The tag of `Add` is an argument, since `uniqueTag` hashes the time.
pub mod View
pub mod Laws
pub mod Joins
pub mod Codec
pub mod Items
mod Tests
use local_web.Base.Sort.{sort}
use local_web.Base.{
  ◌≡◌, refl, Bool, true, false, not, ◌||◌, Option, none, some, List, [], ◌∷◌, Bytes, same, before,
  member, include, include_all, Dict, lookup, put, any, if◌then◌else◌,
}

pub record OrSet : Type 0 where
  pub adds : Dict (List Bytes)
  pub removes : List Bytes

-- Reading a missing key of a map of maps gives a nil map, which reads as the empty one.
abbrev pub tags_of : Bytes → Dict (List Bytes) → List Bytes
tags_of elem adds = elim (lookup elem adds) [ none ↦ [] | some tags ↦ tags ]

abbrev pub new_or_set : OrSet
new_or_set = record { adds = []; removes = [] }

unfoldable pub add : Bytes → Bytes → OrSet → OrSet
add tag elem s = record s { adds = put elem (include tag (tags_of elem s.adds)) s.adds }

unfoldable pub remove : Bytes → OrSet → OrSet
remove elem s = elim (lookup elem s.adds) [
  | none ↦ s
  | some tags ↦ record s { removes = include_all tags s.removes }
]

-- Some tag of the list has no tombstone.
unfoldable pub live : List Bytes → List Bytes → Bool
live removes tags = any (λ tag. not (member tag removes)) tags

unfoldable pub contains : Bytes → OrSet → Bool
unfolding live
contains elem s = elim (lookup elem s.adds) [ none ↦ false | some tags ↦ live s.removes tags ]

-- The elements that are present, in the order of the map.
unfoldable pub live_elems : List Bytes → Dict (List Bytes) → List Bytes
unfolding live
live_elems removes [] = []
live_elems removes ((elem, tags) ∷ m) =
    let rest = live_elems removes m in if live removes tags then elem ∷ rest else rest

-- `sort.Strings` of them.
unfoldable pub items : OrSet → List Bytes
unfolding live_elems sort
items s = sort before (live_elems s.removes s.adds)

-- The loop of `Merge` over `other.adds`.
unfoldable pub merge_adds : Dict (List Bytes) → Dict (List Bytes) → Dict (List Bytes)
merge_adds [] adds = adds
merge_adds ((elem, tags) ∷ m) adds =
    merge_adds m (put elem (include_all tags (tags_of elem adds)) adds)

-- s.Merge(other), with the receiver last.
unfoldable pub merge : OrSet → OrSet → OrSet
unfolding merge_adds
merge other s = record {
  adds = merge_adds other.adds s.adds;
  removes = include_all other.removes s.removes;
}
