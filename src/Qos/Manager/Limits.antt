-- ===== src/Qos/Manager/Limits.antt =====
-- pkg/qos/qos.go, `QoSManager`: what a bandwidth limit on a peer does.
use local_web.Base.{
  ℕ, ◌<◌, ◌≡◌, ◌≢◌, refl, ◌∙◌, List, [], ◌∷◌, ◌++◌, some, arith, Bytes, same_iff, same_refl, length,
  lookup-put,
}
use local_web.Base.{get_elem?, set, get_elem?-set, get_elem?_last}
use local_web.Qos.Pointers.{length-snoc}
use local_web.Qos.Bucket.{new_token_bucket}
use local_web.Qos.Class.{QosConfig, QosClass, new_qos_class}
use local_web.Qos.Manager.{QosManager, get_class, choose, set_bandwidth, register_peer_class}
use local_web.Qos.Manager.Laws.{IsManager}

-- A manager in which a peer has got a class of its own and then another bandwidth.
abbrev pub limited : ℕ → ℕ → Bytes → QosConfig → ℕ → QosManager → QosManager
limited now later peer_id config bandwidth m =
    (set_bandwidth later peer_id bandwidth (register_peer_class now peer_id config m)).1

get_class-register :
    (now : ℕ) (peer_id : Bytes) (config : QosConfig) (m : QosManager)
    → get_class peer_id (register_peer_class now peer_id config m) ≡ length m.pool
unfolding get_class register_peer_class
get_class-register now peer_id config m =
    ground (arith, lookup-put peer_id peer_id (length m.pool) m.classes, same_refl peer_id)

set_bandwidth_at :
    (now : ℕ) (name : Bytes) (bandwidth i : ℕ) (c : QosClass) (m : QosManager)
    → get_class name m ≡ i
    → get_elem? m.pool i ≡ some c
    → (set_bandwidth now name bandwidth m).1 ≡ record m {
      pool = set m.pool i (record c {
        config = record c.config { bandwidth = bandwidth };
        bucket = new_token_bucket now c.config.burst bandwidth;
      });
    }
unfolding set_bandwidth
set_bandwidth_at now name bandwidth i c m e f = ground arith

limited_lem :
    (now later : ℕ) (peer_id : Bytes) (config : QosConfig) (bandwidth : ℕ) (m : QosManager)
    → limited now later peer_id config bandwidth m
      ≡ record (register_peer_class now peer_id config m) {
        pool =
            set
              (m.pool ++ (new_qos_class now config ∷ []))
              (length m.pool)
              (record (new_qos_class now config) {
                config = record config { bandwidth = bandwidth };
                bucket = new_token_bucket later config.burst bandwidth;
              });
      }
unfolding register_peer_class
limited_lem now later peer_id config bandwidth m =
    set_bandwidth_at later peer_id bandwidth (length m.pool) (new_qos_class now config)
      (register_peer_class now peer_id config m) (get_class-register now peer_id config m)
      (get_elem?_last m.pool (new_qos_class now config))

choose-register :
    (now : ℕ) (peer_id service : Bytes) (config : QosConfig) (cs : List QosClass) (m : QosManager)
    → m.default_class < length m.pool
    → peer_id ≢ []
    → choose service peer_id (record (register_peer_class now peer_id config m) { pool = cs })
      ≡ length m.pool
unfolding choose get_class register_peer_class
choose-register now peer_id service config cs m lt named = ground (
  arith,
  lookup-put peer_id peer_id (length m.pool) m.classes,
  same_refl peer_id,
  same_iff peer_id [],
)

-- Registering a class for a peer and then setting its bandwidth limits what is sent to the peer, whatever
-- the service: its packets go through a class of that bandwidth with a full bucket of the burst.
pub peer_limit :
    (now later : ℕ) (peer_id service : Bytes) (config : QosConfig) (bandwidth : ℕ) (m : QosManager)
    → IsManager m
    → peer_id ≢ []
    → (c : QosClass) × (get_elem?
          (limited now later peer_id config bandwidth m).pool
          (choose service peer_id (limited now later peer_id config bandwidth m))
        ≡ some c)
      × (c.config.bandwidth ≡ bandwidth)
      × (c.bucket ≡ new_token_bucket later config.burst bandwidth)
peer_limit now later peer_id service config bandwidth m k named =
    let renewed : QosClass = record (new_qos_class now config) {
      config = record config { bandwidth = bandwidth };
      bucket = new_token_bucket later config.burst bandwidth;
    } in
    let cs = m.pool ++ (new_qos_class now config ∷ []) in
    rw (limited_lem now later peer_id config bandwidth m) (
      renewed,
      rw
          (choose-register now peer_id service config (set cs (length m.pool) renewed) m
            k.by_default named)
          (get_elem?-set (length m.pool) (length m.pool) renewed cs
              (omega (arith, length-snoc m.pool (new_qos_class now config)))
            ∙ ground arith),
      refl,
      refl,
    )
