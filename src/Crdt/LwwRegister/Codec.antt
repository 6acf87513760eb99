-- ===== src/Crdt/LwwRegister/Codec.antt =====
-- pkg/crdt/crdt.go, `LWWRegister.Marshal` and `LWWRegister.Unmarshal`.
use mathlib.Core.List.{append_assoc}
use local_web.Base.{
  ◌∙◌, ℕ, ◌<◌, ◌^◌, ◌≡◌, true, false, arith, Bytes, length, length-append, take, drop,
  take-length_append, drop-length_append, ◌++◌,
}
use local_web.Base.Int64.{IsInt64}
use local_web.Base.Wire.{put_uint, uint, length-put_uint, uint-put_uint}
use local_web.Crdt.LwwRegister.{LwwRegister, marshal, unmarshal}

-- What follows a part of known length.
take_part : (n : ℕ) (xs ys : Bytes) → length xs ≡ n → take n (xs ++ ys) ≡ xs
take_part n xs ys h = rw (← h) (take-length_append xs ys)

drop_part : (n : ℕ) (xs ys : Bytes) → length xs ≡ n → drop n (xs ++ ys) ≡ ys
drop_part n xs ys h = rw (← h) (drop-length_append xs ys)

unmarshal_parts :
    (a b v rest : Bytes) (u : LwwRegister)
    → length a ≡ 8
    → length b ≡ 4
    → uint 0 b ≡ length v
    → unmarshal (a ++ (b ++ (v ++ rest))) u ≡ (record u { value = v; timestamp = uint 0 a }, true)
unfolding unmarshal
unmarshal_parts a b v rest u la lb lv = ground (
  arith,
  length-append a (b ++ (v ++ rest)),
  length-append b (v ++ rest),
  length-append v rest,
  take_part 8 a (b ++ (v ++ rest)) la,
  drop_part 8 a (b ++ (v ++ rest)) la,
  take_part 4 b (v ++ rest) lb,
  append_assoc a b (v ++ rest),
  drop_part 12 (a ++ b) (v ++ rest) (omega (arith, length-append a b)),
  take-length_append v rest,
)

-- `Unmarshal` of what `Marshal` wrote of a register with an int64 timestamp and a value that fits the
-- format restores the value and the timestamp, and keeps the author of the receiver: the author of
-- the register that was written is not in the payload.
pub unmarshal-marshal_register :
    (r u : LwwRegister) (rest : Bytes)
    → IsInt64 r.timestamp
    → length r.value < 2 ^ 32
    → unmarshal (marshal r ++ rest) u
      ≡ (record u { value = r.value; timestamp = r.timestamp }, true)
unfolding marshal
unmarshal-marshal_register r u rest h k =
    rw (append_assoc (put_uint 8 r.timestamp) (put_uint 4 (length r.value) ++ r.value) rest) (
      rw (append_assoc (put_uint 4 (length r.value)) r.value rest) (
        unmarshal_parts (put_uint 8 r.timestamp) (put_uint 4 (length r.value)) r.value rest u
          (length-put_uint 8 r.timestamp) (length-put_uint 4 (length r.value))
          (uint-put_uint 4 (length r.value) (omega arith))
        ∙ rw (uint-put_uint 8 r.timestamp (omega arith))))

cut_parts :
    (a b c : Bytes) (u : LwwRegister)
    → length a ≡ 8
    → length b ≡ 4
    → length c < uint 0 b
    → unmarshal (a ++ (b ++ c)) u ≡ (record u { timestamp = uint 0 a }, false)
unfolding unmarshal
cut_parts a b c u la lb short = ground (
  arith,
  length-append a (b ++ c),
  length-append b c,
  take_part 8 a (b ++ c) la,
  drop_part 8 a (b ++ c) la,
  take_part 4 b c lb,
)

-- A payload with the header of a register, with an int64 timestamp and a value that fits the format,
-- but not its whole value is refused, and the timestamp of the receiver has been overwritten all the
-- same.
pub unmarshal_cut :
    (r u : LwwRegister) (cut : Bytes)
    → IsInt64 r.timestamp
    → length r.value < 2 ^ 32
    → length cut < length r.value
    → unmarshal (put_uint 8 r.timestamp ++ (put_uint 4 (length r.value) ++ cut)) u
      ≡ (record u { timestamp = r.timestamp }, false)
unmarshal_cut r u cut h k short =
    cut_parts (put_uint 8 r.timestamp) (put_uint 4 (length r.value)) cut u
      (length-put_uint 8 r.timestamp) (length-put_uint 4 (length r.value))
      (omega (arith, uint-put_uint 4 (length r.value) (omega arith)))
    ∙ rw (uint-put_uint 8 r.timestamp (omega arith))
