-- ===== src/Link/MultiPath.antt =====
-- pkg/link/multipath.go: the manager, its peers and the discovery events. Links and network connections are
-- parameters; a Go map of connections is a list in the order that `range` visits it, and an entry stands for
-- the pointer to its connection, so that `modeOf` is the mode of the entry.
pub mod Events
pub mod Select
pub mod Send
pub mod Primary
pub mod Once
pub mod Orders
pub mod RoundRobin
pub mod Invariant
use local_web.Base.{
  ℕ, zero, suc, ◌+◌, ◌-◌, ◌*◌, ◌/◌, ◌%◌, ◌^◌, ◌≤◌, ◌<◌, ◌≡◌, ◌≢◌, refl, sym, ap, ◌∙◌, ◌↔◌, ◌⊎◌, inl,
  inr, Bool, true, false, not, ◌&&◌, ◌||◌, List, [], ◌∷◌, ◌++◌, map, Option, none, some, some_inj,
  arith, ltb, leb, ◌==◌, ==_iff, if◌then◌else◌, Bool-cases, Bool-ext, Option-cases, Bytes, codes,
  same, same_iff, same_refl, member, length, length-append, take, drop, All, any, keep,
  length-keep-le, Dict, lookup, put, delete, lookup-put, lookup-delete, check_range, test_in_range,
}
use local_web.Base.Int64.{lt_int64}

-- What the manager calls of a link and of a connection, and its float64 arithmetic: the rate of a number of
-- bytes over a time in nanoseconds.
pub record Net (L C F : Type 0) : Type 0 where
  pub link_mode : L → ℕ
  pub is_available : L → Bool
  pub connect : L → Bytes → Option C
  -- The bytes written, and whether there was an error.
  pub write : C → Bytes → ℕ × Bool
  pub of_uint64 : ℕ → F
  pub per_second : ℕ → ℕ → F
  pub greater : F → F → Bool

abbrev pub mode_none : ℕ
mode_none = 6

pub data AggregationMode : Type 0 where
  failover round_robin bandwidth latency : AggregationMode
  unknown : ℕ → AggregationMode

-- `established` is `none` for the zero time.
pub record LinkConnection (L C : Type 0) : Type 0 where
  pub link : Option L
  pub conn : Option C
  pub peer_addr : Bytes
  pub established : Option ℕ
  pub last_update : ℕ
  pub bytes_sent : ℕ
  pub bytes_recv : ℕ
  pub latency : ℕ
  pub active : Bool

-- A connection with its mode, like `selectedLink`.
pub record SelectedLink (L C : Type 0) : Type 0 where
  pub mode : ℕ
  pub ptr : LinkConnection L C

pub record AggregatedStats : Type 0 where
  pub total_sent : ℕ
  pub total_recv : ℕ
  pub total_links : ℕ
  pub primary_link : ℕ
  pub avg_latency : ℕ
  pub last_update : ℕ

pub record PeerLinkSet (L C : Type 0) : Type 0 where
  pub peer_id : Bytes
  pub connections : List (SelectedLink L C)
  pub primary : ℕ
  pub aggregated : AggregatedStats
  pub rr_cursor : ℕ

pub record MultiPathManager (L C : Type 0) : Type 0 where
  pub links : List L
  pub peer_links : Dict (PeerLinkSet L C)
  pub preferences : List ℕ
  pub aggregation : AggregationMode

pub data EventType : Type 0 where
  peer_discovered peer_lost peer_updated : EventType

-- The fields of `PeerInfo` that the manager reads.
pub record PeerInfo : Type 0 where
  pub id : Bytes
  pub addrs : List Bytes
  pub link_mode : ℕ
  pub latency : ℕ

pub record PeerEvent : Type 0 where
  pub event_type : EventType
  pub peer : PeerInfo

-- The quotient of an int64 by a positive number, rounded towards zero.
unfoldable pub div_int64 : ℕ → ℕ → ℕ
div_int64 a n = if ltb a (2 ^ 63) then a / n else (2 ^ 64 - (2 ^ 64 - a) / n) % 2 ^ 64

module _ {L C : Type 0} where
  -- `len(m.connections)` and the lookup of a mode.
  abbrev pub find_mode : ℕ → List (SelectedLink L C) → Option (LinkConnection L C)
  find_mode mode [] = none
  find_mode mode (s ∷ ss) = if s.mode == mode then some s.ptr else find_mode mode ss

  -- A write through the pointer of a mode.
  abbrev pub change_mode :
      (LinkConnection L C → LinkConnection L C)
      → ℕ
      → List (SelectedLink L C)
      → List (SelectedLink L C)
  change_mode f mode [] = []
  change_mode f mode (s ∷ ss) =
      let rest = change_mode f mode ss in
      if s.mode == mode then record s { ptr = f s.ptr } ∷ ss else s ∷ rest

  unfoldable pub is_active : SelectedLink L C → Bool
  is_active s = s.ptr.active

  unfoldable pub active_connections : PeerLinkSet L C → List (SelectedLink L C)
  active_connections pls = keep is_active pls.connections

  unfoldable pub has_link : SelectedLink L C → Bool
  has_link s = elim s.ptr.link [ none ↦ false | some l ↦ true ]

  -- The loop that looks for a lower latency than the best one's.
  unfoldable pub lowest_latency : SelectedLink L C → List (SelectedLink L C) → SelectedLink L C
  lowest_latency best [] = best
  lowest_latency best (c ∷ cs) =
      if lt_int64 c.ptr.latency best.ptr.latency
      then lowest_latency c cs
      else lowest_latency best cs

  -- The entry behind the one of the primary, in the order of the map.
  unfoldable pub successor : ℕ → List (SelectedLink L C) → Option (SelectedLink L C)
  successor primary [] = none
  successor primary (s ∷ ss) =
      if s.mode == primary then elim ss [ [] ↦ none | t ∷ ts ↦ some t ] else successor primary ss

  -- Whether the failover mode keeps the primary. The mode 0 counts as none.
  unfoldable pub keeps_primary : PeerLinkSet L C → Bool
  keeps_primary pls =
      not (pls.primary == 0)
      && elim (find_mode pls.primary pls.connections) [ none ↦ false | some conn ↦ conn.active ]

  abbrev total : (LinkConnection L C → ℕ) → List (SelectedLink L C) → ℕ
  total f [] = 0
  total f (s ∷ ss) = f s.ptr + total f ss

  unfoldable pub update_stats : ℕ → PeerLinkSet L C → PeerLinkSet L C
  unfolding div_int64
  update_stats now pls =
      let conns = active_connections pls in
      record pls {
        aggregated = record {
          total_sent = (pls.aggregated.total_sent + total (λ c. c.bytes_sent) conns) % 2 ^ 64;
          total_recv = (pls.aggregated.total_recv + total (λ c. c.bytes_recv) conns) % 2 ^ 64;
          total_links = length conns;
          primary_link = pls.primary;
          avg_latency =
              if length conns == 0
              then pls.aggregated.avg_latency
              else div_int64 (total (λ c. c.latency) conns % 2 ^ 64) (length conns);
          last_update = now;
        };
      }

module _ {L C F : Type 0} (net : Net L C F) where
  unfoldable pub link_for_mode : ℕ → List L → Option L
  link_for_mode mode [] = none
  link_for_mode mode (l ∷ ls) = if net.link_mode l == mode then some l else link_for_mode mode ls

  -- `pls.primary = best.Link.Mode()`, for a connection with a link.
  unfoldable pub lead_by : SelectedLink L C → PeerLinkSet L C → PeerLinkSet L C
  lead_by best pls = elim best.ptr.link [
    | none ↦ pls
    | some l ↦ record pls { primary = net.link_mode l }
  ]

  -- The switch of `updatePrimary`, with the first candidate and the others.
  unfoldable pub choose_primary :
      AggregationMode
      → SelectedLink L C
      → List (SelectedLink L C)
      → PeerLinkSet L C
      → PeerLinkSet L C
  unfolding lead_by keeps_primary successor lowest_latency
  choose_primary AggregationMode.failover c cs pls =
      if keeps_primary pls then pls else lead_by c pls
  choose_primary AggregationMode.round_robin c cs pls =
      if pls.primary == 0 then lead_by c pls else elim (successor pls.primary pls.connections) [
        | none ↦ lead_by c pls
        | some best ↦ if has_link best then lead_by best pls else lead_by c pls
      ]
  choose_primary AggregationMode.bandwidth c cs pls = lead_by (lowest_latency c cs) pls
  choose_primary AggregationMode.latency c cs pls = lead_by (lowest_latency c cs) pls
  choose_primary (AggregationMode.unknown n) c cs pls = pls

  -- `updatePrimary` with the candidates, and with the active connections.
  unfoldable pub primary_of :
      AggregationMode → List (SelectedLink L C) → PeerLinkSet L C → PeerLinkSet L C
  unfolding choose_primary
  primary_of mode [] pls = record pls { primary = mode_none }
  primary_of mode (c ∷ cs) pls = choose_primary mode c cs pls

  unfoldable pub primary_among :
      AggregationMode → List (SelectedLink L C) → PeerLinkSet L C → PeerLinkSet L C
  unfolding primary_of
  primary_among mode [] pls = pls
  primary_among mode (d ∷ ds) pls = primary_of mode (keep has_link (d ∷ ds)) pls

  unfoldable pub update_primary : AggregationMode → PeerLinkSet L C → PeerLinkSet L C
  unfolding primary_among
  update_primary mode pls = primary_among mode (active_connections pls) pls
