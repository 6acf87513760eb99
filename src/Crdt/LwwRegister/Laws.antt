-- ===== src/Crdt/LwwRegister/Laws.antt =====
-- pkg/crdt/crdt.go, `LWWRegister.Merge`: the later write wins, and the order of merges is no matter.
use local_web.Base.{
  ◌≡◌, true, false, arith, before_irrefl, before_trans, before_total, before_asymm,
}
use local_web.Base.Int64.{IsInt64, lt_int64_irrefl, lt_int64_trans, lt_int64_total, lt_int64_asymm}
use local_web.Crdt.LwwRegister.{LwwRegister, wins, merge}

-- A timestamp and an author name one write.
abbrev pub SameWrite : LwwRegister → LwwRegister → Type 0
SameWrite a b = a.timestamp ≡ b.timestamp → a.author ≡ b.author → a.value ≡ b.value

wins_irrefl : (r : LwwRegister) → wins r r ≡ false
unfolding wins
wins_irrefl r = ground (arith, lt_int64_irrefl r.timestamp, before_irrefl r.author)

wins_asymm : (a b : LwwRegister) → wins a b ≡ true → wins b a ≡ false
unfolding wins
wins_asymm a b h = ground (
  arith,
  lt_int64_asymm b.timestamp a.timestamp,
  lt_int64_irrefl b.timestamp,
  before_asymm b.author a.author,
)

wins_trans : (a b c : LwwRegister) → wins a b ≡ true → wins b c ≡ true → wins a c ≡ true
unfolding wins
wins_trans a b c p q = ground (
  arith,
  lt_int64_trans c.timestamp b.timestamp a.timestamp,
  before_trans c.author b.author a.author,
)

-- Two registers of which neither wins hold one write.
wins_total :
    (a b : LwwRegister)
    → IsInt64 a.timestamp
    → IsInt64 b.timestamp
    → SameWrite a b
    → wins a b ≡ false
    → wins b a ≡ false
    → a ≡ b
unfolding wins
wins_total a b h k same p q =
    ground (arith, lt_int64_total a.timestamp b.timestamp h k, before_total a.author b.author)

pub merge_idem_register : (r : LwwRegister) → merge r r ≡ r
unfolding merge
merge_idem_register r = rw (wins_irrefl r)

-- Two replicas that merge one another's register hold the same value, timestamp and author, where a
-- timestamp and an author name one value and the timestamps are int64s.
pub merge_comm_register :
    (a b : LwwRegister)
    → IsInt64 a.timestamp
    → IsInt64 b.timestamp
    → SameWrite a b
    → merge a b ≡ merge b a
unfolding merge
merge_comm_register a b h k same =
    ground (arith, wins_asymm a b, wins_asymm b a, wins_total a b h k same)

-- Merging in either grouping gives the same register, where the last two timestamps are int64s, and
-- equal timestamps and authors of the two mean equal values.
pub merge_assoc_register :
    (a b c : LwwRegister)
    → IsInt64 b.timestamp
    → IsInt64 c.timestamp
    → SameWrite b c
    → merge a (merge b c) ≡ merge (merge a b) c
unfolding merge
merge_assoc_register a b c h k same =
    ground (arith, wins_trans a b c, wins_trans a c b, wins_total b c h k same)
