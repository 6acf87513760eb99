-- ===== src/Qos/Hierarchy.antt =====
-- pkg/qos/qos.go, `HTBHierarchy`. A `*HTBNode` is an index into the pool of the nodes that have been made.
pub mod Children
pub mod Tree
use local_web.Base.{
  ℕ, zero, suc, ◌+◌, ◌-◌, ◌*◌, ◌/◌, ◌%◌, ◌^◌, ◌≤◌, ◌<◌, ◌≡◌, ◌≢◌, refl, sym, ap, ◌∙◌, ◌↔◌, ◌⊎◌, inl,
  inr, Bool, true, false, not, ◌&&◌, ◌||◌, List, [], ◌∷◌, ◌++◌, map, Option, none, some, some_inj,
  arith, ltb, leb, ◌==◌, ==_iff, if◌then◌else◌, Bool-cases, Bool-ext, Option-cases, Bytes, codes,
  same, same_iff, same_refl, member, length, length-append, take, drop, All, any, keep,
  length-keep-le, Dict, lookup, put, delete, lookup-put, lookup-delete, check_range, test_in_range,
}
use local_web.Base.{
  get_elem?, set, length-set, get_elem?_below, get_elem?-set, get_elem?_last, get_elem?-snoc,
  lt-get_elem?,
}
use local_web.Qos.Bucket.{TokenBucket, new_token_bucket, take_tokens}

pub record HtbNode : Type 0 where
  pub name : Bytes
  pub parent : Option ℕ
  pub children : List ℕ
  pub rate : ℕ
  pub ceil : ℕ
  pub bucket : TokenBucket
  pub level : ℕ

pub record HtbHierarchy : Type 0 where
  pub pool : List HtbNode
  pub root : ℕ
  pub nodes : Dict ℕ

abbrev pub root_rate : ℕ
root_rate = 100 * 1024 * 1024

abbrev pub new_htb_hierarchy : ℕ → HtbHierarchy
new_htb_hierarchy now = record {
  pool =
      record {
        name = codes "root";
        parent = none;
        children = [];
        rate = root_rate;
        ceil = root_rate;
        bucket = new_token_bucket now root_rate root_rate;
        level = 0;
      }
      ∷ [];
  root = 0;
  nodes = (codes "root", 0) ∷ [];
}

abbrev pub parent_of : Bytes → HtbHierarchy → ℕ
parent_of parent h = elim (lookup parent h.nodes) [ none ↦ h.root | some p ↦ p ]

abbrev pub new_node : ℕ → Bytes → ℕ → ℕ → ℕ → ℕ → HtbNode
new_node now name p rate ceil level = record {
  name = name;
  parent = some p;
  children = [];
  rate = rate;
  ceil = ceil;
  bucket = new_token_bucket now ceil rate;
  level = level;
}

-- The new node is the last of the pool. A dangling parent does not occur.
unfoldable pub add_class : ℕ → Bytes → Bytes → ℕ → ℕ → HtbHierarchy → HtbHierarchy
add_class now name parent rate ceil h =
    let p = parent_of parent h in
    elim (get_elem? h.pool p) [
      | none ↦ h
      | some n ↦ record h {
        pool =
            set h.pool p (record n { children = n.children ++ (length h.pool ∷ []) })
            ++ (new_node now name p rate ceil (n.level + 1) ∷ []);
        nodes = put name (length h.pool) h.nodes;
      }
    ]

abbrev pub get_node : Bytes → HtbHierarchy → Option ℕ
get_node name h = lookup name h.nodes

-- `Borrow`, by the pointer to the node.
unfoldable pub borrow : (ℕ → ℕ → ℕ) → ℕ → ℕ → ℕ → HtbHierarchy → HtbHierarchy × Bool
borrow earned now i tokens h = elim (get_elem? h.pool i) [
  | none ↦ (h, false)
  | some n ↦
      let (b, taken) = take_tokens earned now tokens n.bucket in
      (record h { pool = set h.pool i (record n { bucket = b }) }, taken)
]
