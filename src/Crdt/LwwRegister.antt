-- ===== src/Crdt/LwwRegister.antt =====
-- pkg/crdt/crdt.go, `LWWRegister`. A timestamp is the bit pattern of its int64; the clock that `Set`
-- reads is an argument.
pub mod Laws
pub mod Codec
mod Tests
use local_web.Base.{
  ℕ, ◌+◌, ◌≡◌, Bool, true, false, ◌&&◌, ◌||◌, ◌++◌, ◌==◌, ltb, Bytes, before, length, take, drop,
  if◌then◌else◌, [],
}
use local_web.Base.Int64.{lt_int64}
use local_web.Base.Wire.{put_uint, uint}

pub record LwwRegister : Type 0 where
  pub value : Bytes
  pub timestamp : ℕ
  pub author : Bytes

abbrev pub new_lww_register : Bytes → LwwRegister
new_lww_register author = record { value = []; timestamp = 0; author = author }

unfoldable pub set : Bytes → ℕ → LwwRegister → LwwRegister
set value now r = record r { value = value; timestamp = now }

-- The test of `Merge`.
unfoldable pub wins : LwwRegister → LwwRegister → Bool
wins other r =
    lt_int64 r.timestamp other.timestamp
    || (other.timestamp == r.timestamp && before r.author other.author)

-- r.Merge(other), with the receiver last.
unfoldable pub merge : LwwRegister → LwwRegister → LwwRegister
merge other r =
    if wins other r
    then record { value = other.value; timestamp = other.timestamp; author = other.author }
    else r

unfoldable pub marshal : LwwRegister → Bytes
marshal r = put_uint 8 r.timestamp ++ (put_uint 4 (length r.value) ++ r.value)

-- The receiver after `Unmarshal`, and whether it returned no error. The timestamp is stored before
-- the length of the value is checked.
unfoldable pub unmarshal : Bytes → LwwRegister → LwwRegister × Bool
unmarshal bytes r =
    if ltb (length bytes) 12
    then (r, false)
    else let stamped = record r { timestamp = uint 0 (take 8 bytes) } in
      let v_len = uint 0 (take 4 (drop 8 bytes)) in
      if ltb (length bytes) (12 + v_len)
      then (stamped, false)
      else (record stamped { value = take v_len (drop 12 bytes) }, true)
