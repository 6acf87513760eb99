-- ===== src/Federation/NodeIds.antt =====
-- pkg/federation/rendezvous_limits.go: the node ids of requests.
use local_web.Base.{
  ℕ, ◌+◌, ◌-◌, ◌*◌, ◌/◌, ◌%◌, ◌<◌, ◌≡◌, refl, not, ◌&&◌, [], ◌∷◌, Option, none, some, arith, leb,
  ◌==◌, if◌then◌else◌, Bytes, length,
}
use local_web.Base.{IsBytes}
use local_web.Base.Format.{encode_hex, hex_digit}

unfoldable pub hex_val : ℕ → Option ℕ
hex_val c =
    if leb 48 c && leb c 57
    then some (c - 48)
    else if leb 97 c && leb c 102
    then some (c - 97 + 10)
    else if leb 65 c && leb c 70
    then some (c - 65 + 10)
    else none

abbrev hex_pairs : Bytes → Option Bytes
hex_pairs [] = some []
hex_pairs (a ∷ []) = none
hex_pairs (a ∷ b ∷ s) =
    let others = hex_pairs s in
    elim (hex_val a) [
      | none ↦ none
      | some hi ↦ elim (hex_val b) [
        | none ↦ none
        | some lo ↦ elim others [ none ↦ none | some out ↦ some ((hi * 16 + lo) ∷ out) ]
      ]
    ]

-- `none` is either error.
unfoldable pub parse_node_id : Bytes → Option Bytes
parse_node_id s = if not (length s == 64) then none else hex_pairs s

hex_val-hex_digit : (d : ℕ) → d < 16 → hex_val (hex_digit d) ≡ some d
unfolding hex_val
hex_val-hex_digit d h = ground arith

hex_pairs-encode_hex : (s : Bytes) → IsBytes s → hex_pairs (encode_hex s) ≡ some s
hex_pairs-encode_hex [] h = refl
hex_pairs-encode_hex (b ∷ s) h = ground (
  arith,
  hex_val-hex_digit (b / 16) (omega (arith, h.0)),
  hex_val-hex_digit (b % 16) (omega arith),
  hex_pairs-encode_hex s h.1,
)

length-encode_hex : (s : Bytes) → length (encode_hex s) ≡ 2 * length s
length-encode_hex [] = refl
length-encode_hex (b ∷ s) = omega (arith, length-encode_hex s)

-- A node id of 32 bytes that is written in hexadecimal, in lower case, is read back.
pub parse_node_id-encode_hex :
    (id : Bytes) → IsBytes id → length id ≡ 32 → parse_node_id (encode_hex id) ≡ some id
unfolding parse_node_id
parse_node_id-encode_hex id h n = rw (length-encode_hex id, n) (hex_pairs-encode_hex id h)
