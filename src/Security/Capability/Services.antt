-- ===== src/Security/Capability/Services.antt =====
-- pkg/security/capability.go, `ServiceIDsEqual`.
use local_web.Base.{
  ℕ, ◌+◌, ◌-◌, ◌≤◌, ◌≡◌, Bool, true, false, not, List, [], ◌∷◌, none, some, arith, ◌==◌, Bytes,
  same, same_iff, length, Dict, lookup, put, lookup-put, if◌then◌else◌,
}

-- Reading a missing key gives 0.
abbrev pub count_in : Bytes → Dict ℕ → ℕ
count_in s counts = elim (lookup s counts) [ none ↦ 0 | some n ↦ n ]

unfoldable pub count_up : List Bytes → Dict ℕ → Dict ℕ
count_up [] counts = counts
count_up (s ∷ ss) counts = count_up ss (put s (count_in s counts + 1) counts)

unfoldable pub count_down : List Bytes → Dict ℕ → Bool
count_down [] counts = true
count_down (s ∷ ss) counts =
    let rest = count_down ss (put s (count_in s counts - 1) counts) in
    if count_in s counts == 0 then false else rest

unfoldable pub service_ids_equal : List Bytes → List Bytes → Bool
unfolding count_up count_down
service_ids_equal a b = if not (length a == length b) then false else count_down b (count_up a [])

-- How often an id stands in the list.
abbrev pub occurrences : Bytes → List Bytes → ℕ
occurrences s [] = 0
occurrences s (t ∷ ts) = (if same t s then 1 else 0) + occurrences s ts

count_in-put :
    (s t : Bytes) (n : ℕ) (counts : Dict ℕ)
    → count_in t (put s n counts) ≡ (if same s t then n else count_in t counts)
count_in-put s t n counts = ground (arith, lookup-put s t n counts)

count_in-count_up :
    (ss : List Bytes) (counts : Dict ℕ) (t : Bytes)
    → count_in t (count_up ss counts) ≡ occurrences t ss + count_in t counts
unfolding count_up
count_in-count_up [] counts t = omega arith
count_in-count_up (s ∷ ss) counts t = ground (
  arith,
  count_in-count_up ss (put s (count_in s counts + 1) counts) t,
  count_in-put s t (count_in s counts + 1) counts,
  same_iff s t,
)

count_down_bound :
    (ss : List Bytes) (counts : Dict ℕ) (t : Bytes)
    → count_down ss counts ≡ true
    → occurrences t ss ≤ count_in t counts
unfolding count_down
count_down_bound [] counts t h = omega arith
count_down_bound (s ∷ ss) counts t h = ground (
  arith,
  count_down_bound ss (put s (count_in s counts - 1) counts) t,
  count_in-put s t (count_in s counts - 1) counts,
  same_iff s t,
)

-- Two lists that `ServiceIDsEqual` accepts have one length, and no id stands more often in the second
-- than in the first.
pub service_ids_equal_bound :
    (a b : List Bytes) (t : Bytes)
    → service_ids_equal a b ≡ true
    → (length a ≡ length b) × (occurrences t b ≤ occurrences t a)
unfolding service_ids_equal
service_ids_equal_bound a b t h =
    ground (arith, count_down_bound b (count_up a []) t, count_in-count_up a [] t)
