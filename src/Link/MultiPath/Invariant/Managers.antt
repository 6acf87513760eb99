-- ===== src/Link/MultiPath/Invariant/Managers.antt =====
-- pkg/link/multipath.go: the invariant of the manager, kept by every call that changes its state.
use local_web.Base.{
  ℕ, ◌≤◌, ◌≡◌, refl, sym, inl, inr, List, [], ◌∷◌, some, some_inj, arith, if◌then◌else◌, Bool-cases,
  Option-cases, Bytes, same, length, All, Dict, lookup, put, delete,
}
use mathlib.Core.Path.{subst}
use local_web.Link.MultiPath.{
  Net, SelectedLink, PeerLinkSet, MultiPathManager, AggregationMode, PeerInfo, PeerEvent, EventType,
  active_connections, update_primary, update_stats,
}
use local_web.Link.MultiPath.Events.{
  peer_or_new, new_peer, put_or_delete, discovered, lost, handle_event,
}
use local_web.Link.MultiPath.Send.{
  send_to_peer, connect_to_peer, set_aggregation_mode, tick, on_all,
}
use local_web.Link.MultiPath.Invariant.{
  IsRoutes, Same-IsRoutes, Distinct, names, any_of_active, sight-IsRoutes, lose-names,
}
use local_web.Link.MultiPath.Primary.{update_primary-connections}
use local_web.Link.MultiPath.Invariant.Sends.{send_set-Same, dial_all-Same}

-- Every peer of the manager has one to three connections over different links, one of them active.
abbrev pub IsPeer : {L C : Type 0} → Bytes × PeerLinkSet L C → Type 0
IsPeer e = IsRoutes e.1.connections

module _ {L C : Type 0} where
  unfoldable pub IsManager : MultiPathManager L C → Type 0
  IsManager m = All IsPeer m.peer_links

  known-IsRoutes :
      (id : Bytes) (m : Dict (PeerLinkSet L C)) (pls : PeerLinkSet L C)
      → All IsPeer m
      → lookup id m ≡ some pls
      → IsRoutes pls.connections
  known-IsRoutes id [] pls h e = absurd (cc e)
  known-IsRoutes id ((k, v) ∷ m) pls h e = elim (Bool-cases (same k id)) [
    | inl f ↦ subst (λ p. IsRoutes p.connections) (some_inj (rw (f, if◌then◌else◌) at e)) h.0
    | inr f ↦ known-IsRoutes id m pls h.1 (rw (f, if◌then◌else◌) at e)
  ]

  put-All :
      (id : Bytes) (pls : PeerLinkSet L C) (m : Dict (PeerLinkSet L C))
      → IsRoutes pls.connections
      → All IsPeer m
      → All IsPeer (put id pls m)
  put-All id pls [] h k = (h, tt)
  put-All id pls ((i, v) ∷ m) h k = elim (Bool-cases (same i id)) [
    | inl e ↦ rw (e, if◌then◌else◌) (h, k.1)
    | inr e ↦ rw (e, if◌then◌else◌) (k.0, put-All id pls m h k.1)
  ]

  delete-All : (id : Bytes) (m : Dict (PeerLinkSet L C)) → All IsPeer m → All IsPeer (delete id m)
  delete-All id [] k = tt
  delete-All id ((i, v) ∷ m) k = elim (Bool-cases (same i id)) [
    | inl e ↦ rw (e, if◌then◌else◌) (delete-All id m k.1)
    | inr e ↦ rw (e, if◌then◌else◌) (k.0, delete-All id m k.1)
  ]

  on_all-All :
      (f : PeerLinkSet L C → PeerLinkSet L C) (m : Dict (PeerLinkSet L C))
      → ((p : PeerLinkSet L C) → (f p).connections ≡ p.connections)
      → All IsPeer m
      → All IsPeer (on_all f m)
  on_all-All f [] same_links k = tt
  on_all-All f ((i, v) ∷ m) same_links k = (rw (same_links v) k.0, on_all-All f m same_links k.1)

  put_or_delete-All :
      (id : Bytes) (cs : List (SelectedLink L C)) (pls : PeerLinkSet L C)
      (m : Dict (PeerLinkSet L C))
      → cs ≡ active_connections pls
      → length (names pls.connections) ≤ 3
      → Distinct (names pls.connections)
      → All IsPeer m
      → All IsPeer (put_or_delete id cs pls m)
  unfolding put_or_delete active_connections
  put_or_delete-All id [] pls m e few distinct k = delete-All id m k
  put_or_delete-All id (c ∷ cs) pls m e few distinct k =
      put-All id pls m
        (record {
          few = few;
          distinct = distinct;
          active = any_of_active pls.connections c cs (sym e);
        })
        k

module _ {L C F : Type 0} (net : Net L C F) where
  discovered-IsManager :
      (now : ℕ) (peer : PeerInfo) (m : MultiPathManager L C)
      → IsManager m
      → IsManager (discovered net now peer m)
  unfolding IsManager discovered update_stats peer_or_new
  discovered-IsManager now peer m h = elim (Option-cases (lookup peer.id m.peer_links)) [
    | inl e ↦ rw e (
        put-All peer.id _ m.peer_links
          (sight-IsRoutes net now m.aggregation m.links peer (new_peer peer.id) (omega arith) tt
            (inr refl))
          h)
    | inr (pls, e) ↦
        let k = known-IsRoutes peer.id m.peer_links pls h e in
        rw e (
          put-All peer.id _ m.peer_links
            (sight-IsRoutes net now m.aggregation m.links peer pls k.few k.distinct (inl k.active))
            h)
  ]

  lost-IsManager :
      (now : ℕ) (peer : PeerInfo) (m : MultiPathManager L C)
      → IsManager m
      → IsManager (lost net now peer m)
  unfolding IsManager lost update_stats
  lost-IsManager now peer m h = elim (Option-cases (lookup peer.id m.peer_links)) [
    | inl e ↦ rw (lost, e) h
    | inr (pls, e) ↦
        let k = known-IsRoutes peer.id m.peer_links pls h e in
        let same_names = lose-names net m.aggregation peer pls in
        rw (lost, e)
          (put_or_delete-All peer.id _ _ m.peer_links refl (rw same_names k.few)
            (rw same_names k.distinct) h)
  ]

  send_to_peer-IsManager :
      (now : ℕ) (peer_id payload : Bytes) (m : MultiPathManager L C)
      → IsManager m
      → IsManager (send_to_peer net now peer_id payload m).0
  unfolding IsManager send_to_peer
  send_to_peer-IsManager now peer_id payload m h =
      elim (Option-cases (lookup peer_id m.peer_links)) [
        | inl e ↦ rw (send_to_peer, e) h
        | inr (pls, e) ↦
            rw (send_to_peer, e)
              (put-All peer_id _ m.peer_links
                (Same-IsRoutes pls.connections _ (send_set-Same net now payload m.aggregation pls)
                  (known-IsRoutes peer_id m.peer_links pls h e))
                h)
      ]

  connect_to_peer-IsManager :
      (peer_id : Bytes) (m : MultiPathManager L C)
      → IsManager m
      → IsManager (connect_to_peer net peer_id m).0
  unfolding IsManager connect_to_peer
  connect_to_peer-IsManager peer_id m h = elim (Option-cases (lookup peer_id m.peer_links)) [
    | inl e ↦ rw (connect_to_peer, e) h
    | inr (pls, e) ↦
        rw (connect_to_peer, e)
          (put-All peer_id _ m.peer_links
            (Same-IsRoutes pls.connections _ (dial_all-Same net pls.connections)
              (known-IsRoutes peer_id m.peer_links pls h e))
            h)
  ]

  -- The calls that change the state.
  pub data Call : Type 0 where
    event : ℕ → PeerEvent → Call
    send : ℕ → Bytes → Bytes → Call
    connect : Bytes → Call
    set_mode : AggregationMode → Call
    aggregate : ℕ → Call

  pub call : Call → MultiPathManager L C → MultiPathManager L C
  call (Call.event now evt) m = handle_event net now evt m
  call (Call.send now peer_id payload) m = (send_to_peer net now peer_id payload m).0
  call (Call.connect peer_id) m = (connect_to_peer net peer_id m).0
  call (Call.set_mode mode) m = set_aggregation_mode net mode m
  call (Call.aggregate now) m = tick now m

  event-IsManager :
      (now : ℕ) (t : EventType) (peer : PeerInfo) (m : MultiPathManager L C)
      → IsManager m
      → IsManager (handle_event net now (record { event_type = t; peer = peer }) m)
  unfolding handle_event
  event-IsManager now EventType.peer_discovered peer m h = discovered-IsManager now peer m h
  event-IsManager now EventType.peer_updated peer m h = discovered-IsManager now peer m h
  event-IsManager now EventType.peer_lost peer m h = lost-IsManager now peer m h

  call-IsManager : (c : Call) (m : MultiPathManager L C) → IsManager m → IsManager (call c m)
  unfolding call set_aggregation_mode tick IsManager update_stats
  call-IsManager (Call.event now evt) m h = event-IsManager now evt.event_type evt.peer m h
  call-IsManager (Call.send now peer_id payload) m h =
      send_to_peer-IsManager now peer_id payload m h
  call-IsManager (Call.connect peer_id) m h = connect_to_peer-IsManager peer_id m h
  call-IsManager (Call.set_mode mode) m h =
      on_all-All (update_primary net mode) m.peer_links (update_primary-connections net mode) h
  call-IsManager (Call.aggregate now) m h = on_all-All (update_stats now) m.peer_links (λ p. refl) h

  abbrev pub run_calls : List Call → MultiPathManager L C → MultiPathManager L C
  run_calls [] m = m
  run_calls (c ∷ cs) m = run_calls cs (call c m)

  -- Through any events, sends, dials, changes of the mode and ticks every peer keeps at most three
  -- connections, over different links, of which one at least is active.
  pub run_calls-IsManager :
      (cs : List Call) (m : MultiPathManager L C) → IsManager m → IsManager (run_calls cs m)
  run_calls-IsManager [] m h = h
  run_calls-IsManager (c ∷ cs) m h = run_calls-IsManager cs (call c m) (call-IsManager c m h)
