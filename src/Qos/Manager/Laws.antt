-- ===== src/Qos/Manager/Laws.antt =====
-- pkg/qos/qos.go, `QoSManager`: the operations on its classes, whose pointers all lead into the pool.
use local_web.Base.{
  ℕ, ◌<◌, inl, inr, List, [], ◌∷◌, arith, Option-cases, Bytes, codes, length, lookup,
}
use local_web.Qos.Pointers.{Below, lookup_below, length-snoc, Below-grow, Below-new}
use local_web.Qos.Class.{QosConfig, new_qos_class}
use local_web.Qos.Manager.{
  QosManager, Policy, get_class, choose, register_service_class, register_peer_class, add_services,
  service_configs, new_qos_manager, default_config,
}

-- Every pointer of the manager is one of the pool.
pub record IsManager (m : QosManager) : Type 0 where
  pub named : Below (length m.pool) m.classes
  pub services : Below (length m.pool) m.service_classes
  pub peers : Below (length m.pool) m.peer_classes
  pub by_default : m.default_class < length m.pool

pub get_class-lt : (name : Bytes) (m : QosManager) → IsManager m → get_class name m < length m.pool
unfolding get_class
get_class-lt name m k = elim (Option-cases (lookup name m.classes)) [
  | inr (i, e) ↦ rw (e, get_class) (lookup_below name i _ m.classes k.named e)
  | inl e ↦ elim (Option-cases (lookup name m.service_classes)) [
    | inr (i, f) ↦ rw (e, f, get_class) (lookup_below name i _ m.service_classes k.services f)
    | inl f ↦ elim (Option-cases (lookup name m.peer_classes)) [
      | inr (i, g) ↦ rw (e, f, g, get_class) (lookup_below name i _ m.peer_classes k.peers g)
      | inl g ↦ rw (e, f, g, get_class) k.by_default
    ]
  ]
]

pub choose-lt :
    (service peer_id : Bytes) (m : QosManager)
    → IsManager m
    → choose service peer_id m < length m.pool
unfolding choose
choose-lt service peer_id m k =
    ground (arith, get_class-lt service m k, get_class-lt peer_id m k, k.by_default)

pub register_service_class-IsManager :
    (now : ℕ) (name : Bytes) (config : QosConfig) (m : QosManager)
    → IsManager m
    → IsManager (register_service_class now name config m)
unfolding register_service_class
register_service_class-IsManager now name config m k = record {
  named = Below-new name m.pool (new_qos_class now config) m.classes k.named;
  services = Below-new name m.pool (new_qos_class now config) m.service_classes k.services;
  peers = Below-grow m.pool (new_qos_class now config) m.peer_classes k.peers;
  by_default = omega (arith, length-snoc m.pool (new_qos_class now config), k.by_default);
}

pub register_peer_class-IsManager :
    (now : ℕ) (peer_id : Bytes) (config : QosConfig) (m : QosManager)
    → IsManager m
    → IsManager (register_peer_class now peer_id config m)
unfolding register_peer_class
register_peer_class-IsManager now peer_id config m k = record {
  named = Below-new peer_id m.pool (new_qos_class now config) m.classes k.named;
  services = Below-grow m.pool (new_qos_class now config) m.service_classes k.services;
  peers = Below-new peer_id m.pool (new_qos_class now config) m.peer_classes k.peers;
  by_default = omega (arith, length-snoc m.pool (new_qos_class now config), k.by_default);
}

add_services-IsManager :
    (now : ℕ) (cfgs : List QosConfig) (m : QosManager)
    → IsManager m
    → IsManager (add_services now cfgs m)
unfolding add_services
add_services-IsManager now [] m k = k
add_services-IsManager now (cfg ∷ cfgs) m k = add_services-IsManager now cfgs _ (record {
  named = Below-grow m.pool (new_qos_class now cfg) m.classes k.named;
  services = Below-new cfg.name m.pool (new_qos_class now cfg) m.service_classes k.services;
  peers = Below-grow m.pool (new_qos_class now cfg) m.peer_classes k.peers;
  by_default = omega (arith, length-snoc m.pool (new_qos_class now cfg), k.by_default);
})

abbrev start : ℕ → Policy → QosManager
start now policy = record {
  pool = new_qos_class now default_config ∷ [];
  classes = (codes "default", 0) ∷ [];
  default_class = 0;
  service_classes = [];
  peer_classes = [];
  policy = policy;
}

pub IsManager-new : (now : ℕ) (policy : Policy) → IsManager (new_qos_manager now policy)
unfolding new_qos_manager
IsManager-new now policy =
    add_services-IsManager now service_configs (start now policy)
      (record { named = (omega arith, tt); services = tt; peers = tt; by_default = omega arith })
