-- ===== src/Federation/Store.antt =====
-- pkg/federation/federation.go, `MemoryStore`, with the records of pkg/discovery/types.go that it holds. A
-- time is a number of nanoseconds; a signal strength, a latency and a score are only copied.
use local_web.Base.{
  ℕ, ◌+◌, not, List, map, Option, none, some, ltb, if◌then◌else◌, Bytes, length, keep, Dict, lookup,
  put,
}

pub record ServiceInfo : Type 0 where
  pub name : Bytes
  pub port : ℕ
  pub txt : Dict Bytes

pub record PeerInfo : Type 0 where
  pub id : Bytes
  pub public_key : Bytes
  pub name : Bytes
  pub addrs : List Bytes
  pub services : List ServiceInfo
  pub source : Bytes
  pub rssi : ℕ
  pub latency : ℕ
  pub score : ℕ
  pub last_seen : ℕ
  pub first_seen : ℕ
  pub version : Bytes

pub record StoreEntry : Type 0 where
  pub peer : PeerInfo
  pub expires : ℕ

abbrev pub MemoryStore : Type 0
MemoryStore = Dict StoreEntry

abbrev pub get : ℕ → Bytes → MemoryStore → Option PeerInfo
get now id s = elim (lookup id s) [
  | none ↦ none
  | some e ↦ if ltb e.expires now then none else some e.peer
]

abbrev pub put_peer : ℕ → PeerInfo → ℕ → MemoryStore → MemoryStore
put_peer now peer ttl s = put peer.id (record { peer = peer; expires = now + ttl }) s

-- `GC`, with the number of entries that it drops.
abbrev pub gc : ℕ → MemoryStore → MemoryStore × ℕ
gc now s = (
  keep (λ (e : Bytes × StoreEntry). not (ltb e.1.expires now)) s,
  length (keep (λ (e : Bytes × StoreEntry). ltb e.1.expires now) s),
)

-- `All`, which does not look at the expiry.
abbrev pub all_peers : MemoryStore → List PeerInfo
all_peers s = map (λ (e : Bytes × StoreEntry). e.1.peer) s
