-- ===== src/Link/MultiPath/Send.antt =====
-- pkg/link/multipath.go: `SendToPeer`, `ConnectToPeer` and the other calls of the manager.
use local_web.Base.{
  ℕ, ◌+◌, ◌%◌, ◌^◌, Bool, true, false, ◌&&◌, List, [], ◌∷◌, Option, none, some, ◌==◌, if◌then◌else◌,
  Bytes, length, keep, Dict, lookup, put,
}
use local_web.Link.MultiPath.{
  Net, LinkConnection, SelectedLink, AggregatedStats, PeerLinkSet, MultiPathManager,
  AggregationMode, PeerInfo, find_mode, change_mode, is_active, active_connections, update_primary,
  update_stats,
}
use local_web.Link.MultiPath.Select.{select_links}

pub data SendError : Type 0 where
  not_connected no_connection : SendError
  write_over : ℕ → SendError

-- What a send comes to: the number of bytes, the error, and the modes that were written to, in order.
pub record Sent : Type 0 where
  pub n : ℕ
  pub error : Option SendError
  pub tried : List ℕ

abbrev pub goes_on : AggregationMode → Bool
goes_on AggregationMode.failover = true
goes_on _ = false

module _ {L C : Type 0} where
  unfoldable pub count_sent : ℕ → ℕ → LinkConnection L C → LinkConnection L C
  count_sent now n c = record c { bytes_sent = (c.bytes_sent + n) % 2 ^ 64; last_update = now }

  -- A write that succeeded over the i-th link.
  unfoldable pub carried : ℕ → ℕ → ℕ → SelectedLink L C → PeerLinkSet L C → PeerLinkSet L C
  carried now i n s pls = record pls {
    connections = change_mode (count_sent now n) s.mode pls.connections;
    primary = if i == 0 then s.mode else pls.primary;
  }

  abbrev also : ℕ → PeerLinkSet L C × Sent → PeerLinkSet L C × Sent
  also mode (pls, sent) = (pls, record sent { tried = mode ∷ sent.tried })

  abbrev pub store :
      Bytes → MultiPathManager L C → PeerLinkSet L C × Sent → MultiPathManager L C × Sent
  store peer_id m (pls, sent) = (record m { peer_links = put peer_id pls m.peer_links }, sent)

  -- The connections that are up, by their modes.
  unfoldable pub connected : List (SelectedLink L C) → List (ℕ × C)
  connected [] = []
  connected (s ∷ ss) =
      let rest = connected ss in
      if s.ptr.active then elim s.ptr.conn [ none ↦ rest | some c ↦ (s.mode, c) ∷ rest ] else rest

  unfoldable pub get_aggregated_stats : Bytes → MultiPathManager L C → Option AggregatedStats
  get_aggregated_stats peer_id m = elim (lookup peer_id m.peer_links) [
    | none ↦ none
    | some pls ↦ some pls.aggregated
  ]

  unfoldable pub get_peer_links : Bytes → MultiPathManager L C → Option (List (SelectedLink L C))
  get_peer_links peer_id m = elim (lookup peer_id m.peer_links) [
    | none ↦ none
    | some pls ↦ some (keep (is_active) pls.connections)
  ]

  abbrev pub on_all :
      (PeerLinkSet L C → PeerLinkSet L C) → Dict (PeerLinkSet L C) → Dict (PeerLinkSet L C)
  on_all f [] = []
  on_all f ((id, pls) ∷ m) = (id, f pls) ∷ on_all f m

  -- A tick of `statsAggregator`.
  unfoldable pub tick : ℕ → MultiPathManager L C → MultiPathManager L C
  tick now m = record m { peer_links = on_all (update_stats now) m.peer_links }

  -- `Peers`, with the fields that the manager knows; the score is the number of active links over 3.
  unfoldable pub peers : Dict (PeerLinkSet L C) → List (PeerInfo × ℕ)
  peers [] = []
  peers ((id, pls) ∷ m) =
      let rest = peers m in
      elim (active_connections pls) [
        | [] ↦ rest
        | c ∷ cs ↦ elim (find_mode pls.primary pls.connections) [
          | none ↦ rest
          | some primary ↦
              (
                record {
                  id = pls.peer_id;
                  addrs = primary.peer_addr ∷ [];
                  link_mode = pls.primary;
                  latency = pls.aggregated.avg_latency;
                },
                length (c ∷ cs),
              )
              ∷ rest
        ]
      ]

  unfoldable pub peer_count : MultiPathManager L C → ℕ
  peer_count m = length m.peer_links

module _ {L C F : Type 0} (net : Net L C F) where
  unfoldable pub write_to : Bytes → SelectedLink L C → ℕ × Bool
  write_to payload s = elim s.ptr.conn [ none ↦ (0, true) | some c ↦ net.write c payload ]

  -- The loop of `SendToPeer`, with its index and last error.
  unfoldable pub send_over :
      ℕ
      → Bytes
      → AggregationMode
      → ℕ
      → Option SendError
      → List (SelectedLink L C)
      → PeerLinkSet L C
      → PeerLinkSet L C × Sent
  unfolding write_to carried count_sent
  send_over now payload mode i last_err [] pls =
      (pls, record { n = 0; error = last_err; tried = [] })
  send_over now payload mode i last_err (s ∷ ss) pls =
      let (n, failed) = write_to payload s in
      let rest = send_over now payload mode (i + 1) (some (SendError.write_over s.mode)) ss pls in
      if failed
      then if goes_on mode then also s.mode rest else (
        pls,
        record { n = n; error = some (SendError.write_over s.mode); tried = s.mode ∷ [] },
      )
      else (carried now i n s pls, record { n = n; error = none; tried = s.mode ∷ [] })

  unfoldable pub send_first :
      ℕ
      → Bytes
      → AggregationMode
      → List (SelectedLink L C)
      → PeerLinkSet L C
      → PeerLinkSet L C × Sent
  unfolding send_over
  send_first now payload mode [] pls =
      (pls, record { n = 0; error = some SendError.no_connection; tried = [] })
  send_first now payload mode (c ∷ cs) pls = send_over now payload mode 0 none (c ∷ cs) pls

  unfoldable pub send_set : ℕ → Bytes → AggregationMode → PeerLinkSet L C → PeerLinkSet L C × Sent
  unfolding send_first
  send_set now payload mode pls =
      let (candidates, pls') = select_links net now mode pls in
      send_first now payload mode candidates pls'

  unfoldable pub send_to_peer :
      ℕ → Bytes → Bytes → MultiPathManager L C → MultiPathManager L C × Sent
  unfolding send_set
  send_to_peer now peer_id payload m = elim (lookup peer_id m.peer_links) [
    | none ↦ (m, record { n = 0; error = some SendError.not_connected; tried = [] })
    | some pls ↦ store peer_id m (send_set now payload m.aggregation pls)
  ]

  -- An active connection that is not up is dialled, over its link.
  unfoldable pub dial : LinkConnection L C → LinkConnection L C
  dial c =
      if c.active
      then elim c.conn [
        | some up ↦ c
        | none ↦ elim c.link [ none ↦ c | some l ↦ record c { conn = net.connect l c.peer_addr } ]
      ]
      else c

  abbrev pub dial_all : List (SelectedLink L C) → List (SelectedLink L C)
  dial_all [] = []
  dial_all (s ∷ ss) = record s { ptr = dial s.ptr } ∷ dial_all ss

  -- `none` is the error: the peer is not known, or no link to it is up.
  unfoldable pub connect_to_peer :
      Bytes → MultiPathManager L C → MultiPathManager L C × Option (List (ℕ × C))
  unfolding dial connected
  connect_to_peer peer_id m = elim (lookup peer_id m.peer_links) [
    | none ↦ (m, none)
    | some pls ↦
        let conns = dial_all pls.connections in
        (
          record m { peer_links = put peer_id (record pls { connections = conns }) m.peer_links },
          elim (connected conns) [ [] ↦ none | c ∷ cs ↦ some (c ∷ cs) ],
        )
  ]

  unfoldable pub set_aggregation_mode :
      AggregationMode → MultiPathManager L C → MultiPathManager L C
  set_aggregation_mode mode m = record m {
    aggregation = mode;
    peer_links = on_all (update_primary net mode) m.peer_links;
  }

  abbrev first_available : ℕ → List L → Option L
  first_available mode [] = none
  first_available mode (l ∷ ls) =
      if net.link_mode l == mode && net.is_available l then some l else first_available mode ls

  abbrev best_of : List ℕ → List L → Option L
  best_of [] links = none
  best_of (mode ∷ modes) links = elim (first_available mode links) [
    | none ↦ best_of modes links
    | some l ↦ some l
  ]

  unfoldable pub best_link : MultiPathManager L C → Option L
  best_link m = best_of m.preferences m.links
