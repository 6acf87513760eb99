-- ===== src/Crdt/LwwRegister/Tests.antt =====
-- pkg/crdt/crdt.go, `LWWRegister`: the theorems on three writes.
use local_web.Base.{◌-◌, ◌≡◌, ◌^◌, refl, arith, codes}
use local_web.Base.Int64.{lt_int64}
use local_web.Crdt.LwwRegister.{LwwRegister, wins, merge}
use local_web.Crdt.LwwRegister.Laws.{SameWrite}

abbrev red : LwwRegister
red = record { value = codes "red"; timestamp = 5; author = codes "ann" }

abbrev green : LwwRegister
green = record { value = codes "green"; timestamp = 5; author = codes "bob" }

-- A negative timestamp, which every other one beats.
abbrev blue : LwwRegister
blue = record { value = codes "blue"; timestamp = 2 ^ 64 - 1; author = codes "cid" }

merge-green : merge green red ≡ green
unfolding merge wins lt_int64
merge-green = refl

merge-blue : merge blue red ≡ red
unfolding merge wins lt_int64
merge-blue = refl

SameWrite-red : SameWrite red green
SameWrite-red p q = ground arith

SameWrite-green : SameWrite green blue
SameWrite-green p q = ground arith
