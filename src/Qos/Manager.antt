-- ===== src/Qos/Manager.antt =====
-- pkg/qos/qos.go, `QoSManager`. A `*QoSClass` is an index into the pool of the classes that have been made,
-- so that the maps of the manager share a class as the pointers do. The clock is an argument, read once.
pub mod Laws
pub mod Limits
pub mod Accounts
use local_web.Base.{
  ℕ, zero, suc, ◌+◌, ◌-◌, ◌*◌, ◌/◌, ◌%◌, ◌^◌, ◌≤◌, ◌<◌, ◌≡◌, ◌≢◌, refl, sym, ap, ◌∙◌, ◌↔◌, ◌⊎◌, inl,
  inr, Bool, true, false, not, ◌&&◌, ◌||◌, List, [], ◌∷◌, ◌++◌, map, Option, none, some, some_inj,
  arith, ltb, leb, ◌==◌, ==_iff, if◌then◌else◌, Bool-cases, Bool-ext, Option-cases, Bytes, codes,
  same, same_iff, same_refl, member, length, length-append, take, drop, All, any, keep,
  length-keep-le, Dict, lookup, put, delete, lookup-put, lookup-delete, check_range, test_in_range,
}
use local_web.Base.{get_elem?, set}
use local_web.Qos.Bucket.{TokenBucket, new_token_bucket}
use local_web.Qos.Class.{QosConfig, ClassStats, QosClass, new_qos_class, no_stats}
use local_web.Qos.Class

pub data Policy : Type 0 where
  fifo : Policy
  priority : Policy
  wfq : Policy
  htb : Policy

pub record QosManager : Type 0 where
  pub pool : List QosClass
  pub classes : Dict ℕ
  pub default_class : ℕ
  pub service_classes : Dict ℕ
  pub peer_classes : Dict ℕ
  pub policy : Policy

abbrev service_config : Bytes → ℕ → ℕ → ℕ → ℕ → QosConfig
service_config name level bandwidth burst latency = record {
  name = name;
  priority = level;
  bandwidth = bandwidth;
  burst = burst;
  latency = latency * 1000000;
  jitter = 0;
}

abbrev pub default_config : QosConfig
default_config = service_config (codes "default") 0 (10 * 1024 * 1024) (1024 * 1024) 0

abbrev pub service_configs : List QosConfig
service_configs =
    service_config (codes "voice") 10 (2 * 1024 * 1024) (256 * 1024) 20
    ∷ service_config (codes "vpn") 9 (5 * 1024 * 1024) (512 * 1024) 50
    ∷ service_config (codes "files") 5 (10 * 1024 * 1024) (2 * 1024 * 1024) 0
    ∷ service_config (codes "messaging") 7 (1 * 1024 * 1024) (128 * 1024) 100
    ∷ service_config (codes "email") 3 (512 * 1024) (64 * 1024) 0
    ∷ service_config (codes "dns") 8 (128 * 1024) (32 * 1024) 10
    ∷ service_config (codes "http") 6 (5 * 1024 * 1024) (1024 * 1024) 0
    ∷ service_config (codes "registry") 4 (2 * 1024 * 1024) (512 * 1024) 0
    ∷ service_config (codes "docs") 5 (2 * 1024 * 1024) (512 * 1024) 0
    ∷ []

-- The loop over the configurations, which puts each class under its name.
unfoldable pub add_services : ℕ → List QosConfig → QosManager → QosManager
add_services now [] m = m
add_services now (cfg ∷ cfgs) m = add_services now cfgs (record m {
  pool = m.pool ++ (new_qos_class now cfg ∷ []);
  service_classes = put cfg.name (length m.pool) m.service_classes;
})

unfoldable pub new_qos_manager : ℕ → Policy → QosManager
unfolding add_services
new_qos_manager now policy = add_services now service_configs (record {
  pool = new_qos_class now default_config ∷ [];
  classes = (codes "default", 0) ∷ [];
  default_class = 0;
  service_classes = [];
  peer_classes = [];
  policy = policy;
})

unfoldable pub get_class : Bytes → QosManager → ℕ
get_class name m = elim (lookup name m.classes) [
  | some c ↦ c
  | none ↦ elim (lookup name m.service_classes) [
    | some c ↦ c
    | none ↦ elim (lookup name m.peer_classes) [ some c ↦ c | none ↦ m.default_class ]
  ]
]

unfoldable pub register_service_class : ℕ → Bytes → QosConfig → QosManager → QosManager
register_service_class now name config m = record m {
  pool = m.pool ++ (new_qos_class now config ∷ []);
  service_classes = put name (length m.pool) m.service_classes;
  classes = put name (length m.pool) m.classes;
}

unfoldable pub register_peer_class : ℕ → Bytes → QosConfig → QosManager → QosManager
register_peer_class now peer_id config m = record m {
  pool = m.pool ++ (new_qos_class now config ∷ []);
  peer_classes = put peer_id (length m.pool) m.peer_classes;
  classes = put peer_id (length m.pool) m.classes;
}

-- The class that `Send` uses.
unfoldable pub choose : Bytes → Bytes → QosManager → ℕ
choose service peer_id m =
    let peer_class = get_class peer_id m in
    let service_class = get_class service m in
    let c = if same peer_id [] then m.default_class else peer_class in
    if c == m.default_class && not (same service []) then service_class else c

-- A dangling pointer does not occur.
unfoldable pub send : (ℕ → ℕ → ℕ) → List ℕ → Bytes → Bytes → Bytes → QosManager → QosManager × Bool
send earned times service peer_id payload m =
    let i = choose service peer_id m in
    elim (get_elem? m.pool i) [
      | none ↦ (m, false)
      | some c ↦
          let (c', ok) = Class.send earned times payload c in
          (record m { pool = set m.pool i c' }, ok)
    ]

-- One of the three loops of `GetStats`.
abbrev pub stats_of : List QosClass → Dict ℕ → Dict ClassStats → Dict ClassStats
stats_of pool [] stats = stats
stats_of pool ((name, i) ∷ m) stats =
    stats_of pool m (elim (get_elem? pool i) [ none ↦ stats | some c ↦ put name c.stats stats ])

unfoldable pub get_stats : QosManager → Dict ClassStats
get_stats m =
    stats_of m.pool m.peer_classes
      (stats_of m.pool m.service_classes (stats_of m.pool m.classes []))

abbrev pub set_policy : Policy → QosManager → QosManager
set_policy policy m = record m { policy = policy }

pub data QosError : Type 0 where
  class_not_found : QosError

-- `none` is the nil error.
unfoldable pub set_bandwidth : ℕ → Bytes → ℕ → QosManager → Option QosError × QosManager
set_bandwidth now name bandwidth m = elim (get_elem? m.pool (get_class name m)) [
  | none ↦ (some class_not_found, m)
  | some c ↦ (
    none,
    record m {
      pool = set m.pool (get_class name m) (record c {
        config = record c.config { bandwidth = bandwidth };
        bucket = new_token_bucket now c.config.burst bandwidth;
      });
    },
  )
]

unfoldable pub set_priority : Bytes → ℕ → QosManager → Option QosError × QosManager
set_priority name level m = elim (get_elem? m.pool (get_class name m)) [
  | none ↦ (some class_not_found, m)
  | some c ↦ (
    none,
    record m {
      pool =
          set m.pool (get_class name m)
            (record c { config = record c.config { priority = level } });
    },
  )
]
