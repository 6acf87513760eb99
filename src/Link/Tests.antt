-- ===== src/Link/Tests.antt =====
-- pkg/link: the theorems at concrete links.
use local_web.Base.{
  ℕ, ◌*◌, ◌/◌, ◌^◌, ◌≡◌, ◌≢◌, refl, true, false, List, [], ◌∷◌, some, arith, ltb, Bytes, codes,
  length, drop, All, keep, none,
}
use mathlib.Core.List.{Permᴰ}
use local_web.Base.Sort.{sort}
use local_web.Link.MultiPath.{
  Net, SelectedLink, PeerLinkSet, MultiPathManager, AggregationMode, PeerInfo, EventType,
  active_connections, is_active, has_link,
}
use local_web.Link.MultiPath.Events.{new_peer}
use local_web.Link.MultiPath.Select.{usable, is_usable, select_links}
use local_web.Link.MultiPath.Orders.{can_carry, select_links-perm}
use local_web.Link.MultiPath.Send.{send_set}
use local_web.Link.MultiPath.Once.{IsOnce, send_set-IsOnce}
use local_web.Link.MultiPath.RoundRobin.{usable_modes, carriers}
use local_web.Link.MultiPath.RoundRobin.Starves.{carriers_starve}
use local_web.Link.MultiPath.Invariant.Managers.{IsManager, Call, run_calls, run_calls-IsManager}

-- A link is its mode, a connection is an address, and a rate is in bytes a second.
abbrev net : Net ℕ Bytes ℕ
net = record {
  link_mode = λ l. l;
  is_available = λ l. true;
  connect = λ l addr. some addr;
  write = λ c payload. (length payload, false);
  of_uint64 = λ n. n;
  per_second = λ n t. n * 10 ^ 9 / t;
  greater = λ a b. ltb b a;
}

abbrev route : ℕ → SelectedLink ℕ Bytes
route mode = record {
  mode = mode;
  ptr = record {
    link = some mode;
    conn = some (codes "10.0.0.2:1");
    peer_addr = codes "10.0.0.2:1";
    established = some 5;
    last_update = 5;
    bytes_sent = 0;
    bytes_recv = 0;
    latency = 7;
    active = true;
  };
}

abbrev trio : PeerLinkSet ℕ Bytes
trio = record (new_peer (codes "peer")) { connections = route 1 ∷ route 3 ∷ route 0 ∷ [] }

abbrev manager : MultiPathManager ℕ Bytes
manager = record {
  links = 0 ∷ 1 ∷ 3 ∷ [];
  peer_links = [];
  preferences = 0 ∷ [];
  aggregation = AggregationMode.failover;
}

abbrev sighting : ℕ → PeerInfo
sighting mode = record {
  id = codes "peer";
  addrs = codes "10.0.0.2:1" ∷ [];
  link_mode = mode;
  latency = 7;
}

abbrev calls : List (Call net)
calls =
    Call.event 5 (record { event_type = EventType.peer_discovered; peer = sighting 0 })
    ∷ Call.event 6 (record { event_type = EventType.peer_discovered; peer = sighting 1 })
    ∷ Call.connect (codes "peer")
    ∷ Call.send 7 (codes "peer") (codes "hello")
    ∷ Call.set_mode AggregationMode.round_robin
    ∷ Call.event 8 (record { event_type = EventType.peer_lost; peer = sighting 0 })
    ∷ Call.aggregate 9
    ∷ []

manager-IsManager : IsManager manager
unfolding IsManager
manager-IsManager = tt

run_calls-IsManager_example : IsManager (run_calls net calls manager)
run_calls-IsManager_example = run_calls-IsManager net calls manager manager-IsManager

send_set-IsOnce_example :
    IsOnce net
      (codes "hello")
      AggregationMode.failover
      (select_links net 9 AggregationMode.failover trio).0
      (send_set net 9 (codes "hello") AggregationMode.failover trio).1
send_set-IsOnce_example = send_set-IsOnce net 9 (codes "hello") AggregationMode.failover trio

-- A link that is not active, and one that has no connection yet.
abbrev five : PeerLinkSet ℕ Bytes
five = record trio {
  connections =
      record (route 2) { ptr = record ((route 2).ptr) { active = false } }
      ∷ record (route 4) { ptr = record ((route 4).ptr) { conn = none } }
      ∷ trio.connections;
}

five_carry_three : keep can_carry five.connections ≡ trio.connections
five_carry_three = refl

select_links-perm_example :
    Permᴰ (select_links net 9 AggregationMode.latency five).0 (keep can_carry five.connections)
select_links-perm_example = select_links-perm net 9 AggregationMode.latency five

trio-usable_modes : usable_modes trio ≡ 0 ∷ 1 ∷ 3 ∷ []
unfolding usable active_connections is_active is_usable has_link sort
trio-usable_modes = refl

carriers_starve_example :
    All (λ m. m ≢ 1) (drop 3 (carriers net (1 ∷ 2 ∷ 3 ∷ 4 ∷ 5 ∷ 6 ∷ []) (codes "hello") trio))
carriers_starve_example =
    carriers_starve net 1 2 3 (4 ∷ 5 ∷ 6 ∷ []) (codes "hello") 0 1 3 trio (λ c. refl) (omega arith)
      (omega arith) trio-usable_modes refl (omega arith)
