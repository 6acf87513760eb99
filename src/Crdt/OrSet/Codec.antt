-- ===== src/Crdt/OrSet/Codec.antt =====
-- pkg/crdt/crdt.go, `ORSet.Marshal`, `ORSet.Unmarshal`, `encodeEntries` and `decodeEntries`.
use mathlib.Core.List.{append_assoc}
use local_web.Base.{
  ◌∙◌, ◌<◌, ◌^◌, ◌≡◌, refl, List, [], ◌∷◌, ◌++◌, Option, none, some, arith, Bytes, All, length,
  Dict, put, include_all, member, member-include_all, lookup, lookup-put, IsDict, same_iff,
}
use local_web.Base.Wire.{
  Reader, ◌>>=◌, bind_of_some, done, put_string, read_string, read_string-append, put_list,
  read_list, read_list-append,
}
use local_web.Crdt.OrSet.{OrSet, tags_of}
use local_web.Crdt.OrSet.View.{added, removed, IsOrSet}
use local_web.Crdt.OrSet.Joins.{SameView}

abbrev pub Entry : Type 0
Entry = Bytes × List Bytes

pub put_entry : Entry → Bytes
put_entry (elem, tags) = put_string elem ++ put_list 2 put_string tags

pub read_entry : Reader Entry
read_entry = do elem ← read_string; tags ← read_list 2 read_string; done (elem, tags)

pub encode_entries : List Entry → List Bytes → Bytes
encode_entries entries removes = put_list 4 put_entry entries ++ put_list 4 put_string removes

-- Bytes after the last tombstone are not looked at.
pub decode_entries : Reader (List Entry × List Bytes)
decode_entries = do
  entries ← read_list 4 read_entry
  tags ← read_list 4 read_string
  done (entries, include_all tags [])

pub marshal : OrSet → Bytes
unfolding encode_entries put_entry put_string put_list
marshal s = encode_entries s.adds s.removes

-- The loop that rebuilds `s.adds`.
pub rebuild : List Entry → Dict (List Bytes) → Dict (List Bytes)
rebuild [] adds = adds
rebuild ((elem, tags) ∷ es) adds = rebuild es (put elem (include_all tags []) adds)

-- `none` is the error of `decodeEntries`, which leaves the receiver as it was.
pub unmarshal : Bytes → Option OrSet
unfolding rebuild decode_entries read_entry read_list read_string
unmarshal data' = elim (decode_entries data') [
  | none ↦ none
  | some (parts, rest) ↦ some (record { adds = rebuild parts.0 []; removes = parts.1 })
]

abbrev FitsString : Bytes → Type 0
FitsString s = length s < 256 ^ 2

-- The lengths fit the counters of the format.
pub record Fits (s : OrSet) : Type 0 where
  pub entries : length s.adds < 256 ^ 4
  pub elems :
      All (λ (e : Entry). FitsString e.0 × (length e.1 < 256 ^ 2) × All FitsString e.1) s.adds
  pub tombstones : length s.removes < 256 ^ 4
  pub removed_tags : All FitsString s.removes

strings_back :
    (ss : List Bytes)
    → All FitsString ss
    → All (λ s. (after : Bytes) → read_string (put_string s ++ after) ≡ some (s, after)) ss
strings_back [] h = tt
strings_back (s ∷ ss) h = (λ after. read_string-append s after h.0, strings_back ss h.1)

read_entry-put_entry :
    (elem : Bytes) (tags : List Bytes) (after : Bytes)
    → FitsString elem
    → length tags < 256 ^ 2
    → All FitsString tags
    → read_entry (put_entry (elem, tags) ++ after) ≡ some ((elem, tags), after)
unfolding read_entry put_entry
read_entry-put_entry elem tags after h k each =
    rw (append_assoc (put_string elem) (put_list 2 put_string tags) after) (
      bind_of_some read_string _ (read_string-append elem (put_list 2 put_string tags ++ after) h)
      ∙ bind_of_some (read_list 2 read_string) _
          (read_list-append 2 read_string put_string tags after k (strings_back tags each)))

entries_back :
    (es : List Entry)
    → All (λ (e : Entry). FitsString e.0 × (length e.1 < 256 ^ 2) × All FitsString e.1) es
    → All (λ e. (after : Bytes) → read_entry (put_entry e ++ after) ≡ some (e, after)) es
entries_back [] h = tt
entries_back ((elem, tags) ∷ es) h =
    (λ after. read_entry-put_entry elem tags after h.0.0 h.0.1 h.0.2, entries_back es h.1)

-- What was written is read back, whatever follows it.
decode-encode :
    (s : OrSet) (rest : Bytes)
    → Fits s
    → decode_entries (encode_entries s.adds s.removes ++ rest)
      ≡ some ((s.adds, include_all s.removes []), rest)
unfolding decode_entries encode_entries
decode-encode s rest h =
    rw (append_assoc (put_list 4 put_entry s.adds) (put_list 4 put_string s.removes) rest) (
      bind_of_some (read_list 4 read_entry) _
        (read_list-append 4 read_entry put_entry s.adds _ h.entries (entries_back s.adds h.elems))
      ∙ bind_of_some (read_list 4 read_string) _ (
          read_list-append 4 read_string put_string s.removes rest h.tombstones
            (strings_back s.removes h.removed_tags)))

tags_of-rebuild :
    (es adds : List Entry) (e t : Bytes)
    → IsDict es
    → member t (tags_of e (rebuild es adds))
      ≡ (elim (lookup e es) [ none ↦ member t (tags_of e adds) | some tags ↦ member t tags ])
unfolding rebuild
tags_of-rebuild [] adds e t h = refl
tags_of-rebuild ((elem, tags) ∷ es) adds e t h = ground (
  arith,
  tags_of-rebuild es (put elem (include_all tags []) adds) e t h.1,
  lookup-put elem e (include_all tags []) adds,
  member-include_all t tags [],
  same_iff elem e,
  h.0,
)

-- `Unmarshal` of what `Marshal` wrote of a well-formed set whose lengths fit the format, whatever
-- follows it, succeeds and knows the same tags and tombstones.
pub unmarshal-marshal :
    (s : OrSet) (rest : Bytes)
    → IsOrSet s
    → Fits s
    → (u : OrSet) × (unmarshal (marshal s ++ rest) ≡ some u) × SameView u s
unfolding unmarshal marshal added removed
unmarshal-marshal s rest k h = (u, rw (decode-encode s rest h, unmarshal) refl, same_view)
  where
    u : OrSet
    u = record { adds = rebuild s.adds []; removes = include_all s.removes [] }

    same_view : SameView u s
    same_view = record {
      added_eq = λ e t. ground (arith, tags_of-rebuild s.adds [] e t k.keyed);
      removed_eq = λ t. ground (arith, member-include_all t s.removes []);
    }
