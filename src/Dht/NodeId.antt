-- ===== src/Dht/NodeId.antt =====
-- pkg/dht/dht.go, `NodeID`: the XOR distance and the prefix length. An id is a list of 32 bytes.
use Prim.Native.Nat.{bit_xor}
use local_web.Base.Wire.{zeros}
use local_web.Base.{
  check_range, test_in_range, inl, inr, ◌∙◌, ap, ==_iff, Option-cases, IsBytes, ℕ, zero, suc, ◌+◌,
  ◌-◌, ◌*◌, ◌/◌, ◌%◌, ◌^◌, ◌<◌, ◌≤◌, ◌≡◌, refl, Bool, true, ◌&&◌, [], ◌∷◌, ◌++◌, Option, none, some,
  arith, Bytes, ◌==◌, ltb, leb, length, if◌then◌else◌, check_range,
}

-- Shorter lists do not occur: the ids are arrays.
unfoldable pub xor : Bytes → Bytes → Bytes
xor [] bs = []
xor (a ∷ as') [] = []
xor (a ∷ as') (b ∷ bs) = bit_xor a b ∷ xor as' bs

abbrev pub xor_dist : Bytes → Bytes → Bytes
xor_dist a b = xor a b

-- The inner loop of `PrefixLen`, from bit `j - 1` down.
unfoldable pub first_set_bit : ℕ → ℕ → Option ℕ
first_set_bit zero b = none
first_set_bit (suc j) b =
    let rest = first_set_bit j b in if b / 2 ^ j % 2 == 1 then some (7 - j) else rest

-- The outer loop, from byte `i`.
unfoldable pub prefix_from : ℕ → Bytes → ℕ
unfolding first_set_bit
prefix_from i [] = 256
prefix_from i (b ∷ bs) =
    let rest = prefix_from (i + 1) bs in
    if b == 0 then rest else elim (first_set_bit 8 b) [ some k ↦ i * 8 + k | none ↦ rest ]

unfoldable pub prefix_len : Bytes → ℕ
unfolding prefix_from
prefix_len id = prefix_from 0 id

-- `BucketIndex`: the all-zero id shares bucket 0.
unfoldable pub bucket_index : Bytes → ℕ
unfolding prefix_len
bucket_index id = let p = prefix_len id in if ltb 255 p then 0 else p

pub bucket_index-lt : (id : Bytes) → bucket_index id < 256
unfolding bucket_index
bucket_index-lt id = ground arith

-- A byte's leading zeros, checked on every byte.
abbrev bit_range : ℕ → Bool
bit_range b = elim (first_set_bit 8 b) [
  | none ↦ b == 0
  | some k ↦ leb k 7 && (leb (2 ^ (7 - k)) b && ltb b (2 ^ (8 - k)))
]

bit_ranges : check_range bit_range 256 ≡ true
unfolding first_set_bit check_range
bit_ranges = refl

first_set_bit_lem :
    (b : ℕ)
    → 0 < b
    → b < 256
    → (k : ℕ) × (first_set_bit 8 b ≡ some k) × (k ≤ 7) × (2 ^ (7 - k) ≤ b) × (b < 2 ^ (8 - k))
first_set_bit_lem b pos small = elim (Option-cases (first_set_bit 8 b)) [
  | inl e ↦ absurd (nonzero (rw (e, bit_range) at fact))
  | inr (k, e) ↦ let (le, low, high) = ranges k (rw (e, bit_range) at fact) in (k, e, le, low, high)
]
  where
    fact : bit_range b ≡ true
    fact = test_in_range bit_range 256 b bit_ranges small

    nonzero : (b == 0) ≡ true → ⊥
    nonzero h = ground arith

    ranges :
        (k : ℕ)
        → (leb k 7 && (leb (2 ^ (7 - k)) b && ltb b (2 ^ (8 - k)))) ≡ true
        → (k ≤ 7) × (2 ^ (7 - k) ≤ b) × (b < 2 ^ (8 - k))
    ranges k h = ground arith

prefix_from-zeros : (i n : ℕ) (bs : Bytes) → prefix_from i (zeros n ++ bs) ≡ prefix_from (i + n) bs
unfolding prefix_from
prefix_from-zeros i zero bs = ap (λ (k : ℕ). prefix_from k bs) (omega arith)
prefix_from-zeros i (suc n) bs =
    prefix_from-zeros (i + 1) n bs ∙ ap (λ (k : ℕ). prefix_from k bs) (omega arith)

-- After `n` zero bytes and a byte that is not zero, the prefix length is the number of leading zero
-- bits, and so names the first bit that is set.
pub prefix_len_lem :
    (n b : ℕ) (rest : Bytes)
    → 0 < b
    → b < 256
    → (k : ℕ) × (prefix_len (zeros n ++ (b ∷ rest)) ≡ n * 8 + k)
      × (k ≤ 7)
      × (2 ^ (7 - k) ≤ b)
      × (b < 2 ^ (8 - k))
unfolding prefix_len
prefix_len_lem n b rest pos small =
    let (k, e, le, low, high) = first_set_bit_lem b pos small in
    (k, prefix_from-zeros 0 n (b ∷ rest) ∙ unfold prefix_from in ground (arith, e), le, low, high)

cancels : check_range (λ a. check_range (λ b. bit_xor a (bit_xor a b) == b) 256) 256 ≡ true
unfolding check_range
cancels = refl

bit_xor_cancel : (a b : ℕ) → a < 256 → b < 256 → bit_xor a (bit_xor a b) ≡ b
bit_xor_cancel a b h k = (==_iff _ b).0 (test_in_range _ 256 b (test_in_range _ 256 a cancels h) k)

-- Two ids, of bytes and of the length of a third, at one distance from it are the same.
pub xor_injective :
    (a b c : Bytes)
    → IsBytes a
    → IsBytes b
    → IsBytes c
    → length b ≡ length a
    → length c ≡ length a
    → xor a b ≡ xor a c
    → b ≡ c
unfolding xor
xor_injective [] [] [] ha hb hc p q e = refl
xor_injective [] [] (c ∷ cs) ha hb hc p q e = absurd (omega arith)
xor_injective [] (b ∷ bs) c ha hb hc p q e = absurd (omega arith)
xor_injective (a ∷ as') [] c ha hb hc p q e = absurd (omega arith)
xor_injective (a ∷ as') (b ∷ bs) [] ha hb hc p q e = absurd (omega arith)
xor_injective (a ∷ as') (b ∷ bs) (c ∷ cs) ha hb hc p q e = ground (
  arith,
  bit_xor_cancel a b ha.0 hb.0,
  bit_xor_cancel a c ha.0 hc.0,
  xor_injective as' bs cs ha.1 hb.1 hc.1,
)
