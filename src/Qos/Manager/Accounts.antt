-- ===== src/Qos/Manager/Accounts.antt =====
-- pkg/qos/qos.go, `Send`: the counters of the classes.
use local_web.Base.{ℕ, zero, suc, ◌≡◌, List, [], ◌∷◌, some, some_inj, arith, Bytes, length}
use local_web.Base.{get_elem?, set, get_elem?_below}
use local_web.Qos.Bucket.{add_int64}
use local_web.Qos.Class.{QosClass, offered, offered-send}
use local_web.Qos.Manager.{QosManager, choose, send}
use local_web.Qos.Manager.Laws.{IsManager, choose-lt}

-- The bytes that all the classes have been offered, as an int64.
abbrev pub total_offered : List QosClass → ℕ
total_offered [] = 0
total_offered (c ∷ cs) = add_int64 (offered c) (total_offered cs)

total_offered-set :
    (i n : ℕ) (c d : QosClass) (cs : List QosClass)
    → get_elem? cs i ≡ some c
    → offered d ≡ add_int64 (offered c) n
    → total_offered (set cs i d) ≡ add_int64 (total_offered cs) n
total_offered-set i n c d [] e h = absurd (cc e)
total_offered-set zero n c d (x ∷ cs) e h =
    let is_x : x ≡ c = some_inj e in rw is_x (omega (arith, h))
total_offered-set (suc i) n c d (x ∷ cs) e h = omega (arith, total_offered-set i n c d cs e h)

-- Of a manager whose pointers lead into its pool, `Send` counts the bytes of the packet once: the sum of
-- what all the classes have sent and dropped, as an int64, grows by the length of the packet.
pub total_offered-send :
    (earned : ℕ → ℕ → ℕ) (times : List ℕ) (service peer_id payload : Bytes) (m : QosManager)
    → IsManager m
    → total_offered (send earned times service peer_id payload m).0.pool
      ≡ add_int64 (total_offered m.pool) (length payload)
unfolding send
total_offered-send earned times service peer_id payload m k =
    let (c, e) =
      get_elem?_below (choose service peer_id m) m.pool (choose-lt service peer_id m k) in
    rw (e, send)
      (total_offered-set (choose service peer_id m) (length payload) c _ m.pool e
        (offered-send earned times payload c))
