-- ===== src/Link/MultiPath/Events.antt =====
-- pkg/link/multipath.go, `handleEvent`: what a discovery event does to the manager.
use local_web.Base.{
  ℕ, ◌+◌, ◌%◌, ◌^◌, true, false, List, [], ◌∷◌, ◌++◌, Option, none, some, ltb, if◌then◌else◌, Bytes,
  length, Dict, lookup, put, delete,
}
use local_web.Link.MultiPath.{
  Net, LinkConnection, SelectedLink, AggregatedStats, PeerLinkSet, MultiPathManager, EventType,
  PeerInfo, PeerEvent, AggregationMode, find_mode, change_mode, active_connections, link_for_mode,
  update_primary, update_stats,
}

abbrev no_stats : AggregatedStats
no_stats = record {
  total_sent = 0;
  total_recv = 0;
  total_links = 0;
  primary_link = 0;
  avg_latency = 0;
  last_update = 0;
}

module _ {L C : Type 0} where
  abbrev pub new_peer : Bytes → PeerLinkSet L C
  new_peer id = record {
    peer_id = id;
    connections = [];
    primary = 0;
    aggregated = no_stats;
    rr_cursor = 0;
  }

  unfoldable pub peer_or_new : Bytes → Option (PeerLinkSet L C) → PeerLinkSet L C
  peer_or_new id none = new_peer id
  peer_or_new id (some pls) = pls

  -- A sighting of a link that is known.
  unfoldable pub seen_again : ℕ → PeerInfo → LinkConnection L C → LinkConnection L C
  seen_again now peer c = record c {
    bytes_sent = (c.bytes_sent + length peer.addrs) % 2 ^ 64;
    bytes_recv = (c.bytes_recv + length peer.addrs) % 2 ^ 64;
    latency = peer.latency;
    last_update = now;
  }

  unfoldable pub new_connection : ℕ → PeerInfo → Option L → SelectedLink L C
  new_connection now peer link = record {
    mode = peer.link_mode;
    ptr = record {
      link = link;
      conn = none;
      peer_addr = elim peer.addrs [ [] ↦ [] | a ∷ as' ↦ a ];
      established = some now;
      last_update = 0;
      bytes_sent = 0;
      bytes_recv = 0;
      latency = peer.latency;
      active = true;
    };
  }

  -- A peer without an active connection is removed.
  unfoldable pub put_or_delete :
      Bytes
      → List (SelectedLink L C)
      → PeerLinkSet L C
      → Dict (PeerLinkSet L C)
      → Dict (PeerLinkSet L C)
  put_or_delete id [] pls m = delete id m
  put_or_delete id (c ∷ cs) pls m = put id pls m

  abbrev pub deactivate : LinkConnection L C → LinkConnection L C
  deactivate c = record c { active = false }

module _ {L C F : Type 0} (net : Net L C F) where
  unfoldable pub sight : ℕ → AggregationMode → List L → PeerInfo → PeerLinkSet L C → PeerLinkSet L C
  unfolding new_connection seen_again link_for_mode
  sight now aggregation links peer pls = elim (find_mode peer.link_mode pls.connections) [
    | some c ↦ record pls {
      connections = change_mode (seen_again now peer) peer.link_mode pls.connections;
    }
    | none ↦
        if ltb (length pls.connections) 3
        then update_primary net aggregation (record pls {
          connections =
              pls.connections
              ++ (new_connection now peer (link_for_mode net peer.link_mode links) ∷ []);
        })
        else pls
  ]

  unfoldable pub lose : AggregationMode → PeerInfo → PeerLinkSet L C → PeerLinkSet L C
  lose aggregation peer pls = elim (find_mode peer.link_mode pls.connections) [
    | none ↦ pls
    | some c ↦
        update_primary net aggregation
          (record pls { connections = change_mode deactivate peer.link_mode pls.connections })
  ]

  unfoldable pub discovered : ℕ → PeerInfo → MultiPathManager L C → MultiPathManager L C
  unfolding sight update_stats peer_or_new
  discovered now peer m =
      let pls = peer_or_new peer.id (lookup peer.id m.peer_links) in
      record m {
        peer_links =
            put peer.id (update_stats now (sight now m.aggregation m.links peer pls)) m.peer_links;
      }

  unfoldable pub lost : ℕ → PeerInfo → MultiPathManager L C → MultiPathManager L C
  unfolding lose update_stats put_or_delete
  lost now peer m = elim (lookup peer.id m.peer_links) [
    | none ↦ m
    | some p ↦
        let pls = update_stats now (lose m.aggregation peer p) in
        record m { peer_links = put_or_delete peer.id (active_connections pls) pls m.peer_links }
  ]

  -- `handleEvent`, less the callback, which is given the event in every case.
  unfoldable pub handle_event : ℕ → PeerEvent → MultiPathManager L C → MultiPathManager L C
  unfolding discovered lost
  handle_event now evt m = elim evt.event_type [
    | EventType.peer_discovered ↦ discovered now evt.peer m
    | EventType.peer_updated ↦ discovered now evt.peer m
    | EventType.peer_lost ↦ lost now evt.peer m
  ]
