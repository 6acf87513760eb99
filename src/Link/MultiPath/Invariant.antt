-- ===== src/Link/MultiPath/Invariant.antt =====
-- pkg/link/multipath.go: what every call of the manager keeps of the connections to a peer.
pub mod Sends
pub mod Managers
use local_web.Base.{
  ℕ, zero, suc, ◌+◌, ◌-◌, ◌*◌, ◌/◌, ◌%◌, ◌^◌, ◌≤◌, ◌<◌, ◌≡◌, ◌≢◌, refl, sym, ap, ◌∙◌, ◌↔◌, ◌⊎◌, inl,
  inr, Bool, true, false, not, ◌&&◌, ◌||◌, List, [], ◌∷◌, ◌++◌, map, Option, none, some, some_inj,
  arith, ltb, leb, ◌==◌, ==_iff, if◌then◌else◌, Bool-cases, Bool-ext, Option-cases, Bytes, codes,
  same, same_iff, same_refl, member, length, length-append, take, drop, All, any, keep,
  length-keep-le, Dict, lookup, put, delete, lookup-put, lookup-delete, check_range, test_in_range,
}
use local_web.Base.{any-append, ltb→lt}
use local_web.Link.MultiPath.{
  Net, LinkConnection, SelectedLink, PeerLinkSet, MultiPathManager, AggregationMode, PeerInfo,
  PeerEvent, EventType, find_mode, change_mode, is_active, active_connections, update_primary,
  update_stats, choose_primary, lead_by, keeps_primary, successor, has_link, lowest_latency,
  primary_of, primary_among, link_for_mode,
}
use local_web.Link.MultiPath.Primary.{update_primary-connections}
use local_web.Link.MultiPath.Events.{
  sight, lose, seen_again, new_connection, peer_or_new, new_peer, discovered, lost, handle_event,
  deactivate, put_or_delete,
}

-- No mode stands twice.
abbrev pub Distinct : List ℕ → Type 0
Distinct [] = Unit
Distinct (m ∷ ms) = (any (λ k. k == m) ms ≡ false) × Distinct ms

module _ {L C : Type 0} where
  abbrev pub names : List (SelectedLink L C) → List ℕ
  names cs = map (λ s. s.mode) cs

  -- At most three connections, over different links, and one of them active.
  pub record IsRoutes (cs : List (SelectedLink L C)) : Type 0 where
    pub few : length (names cs) ≤ 3
    pub distinct : Distinct (names cs)
    pub active : any is_active cs ≡ true

  -- Two lists have the same links, and both have an active one or neither has.
  pub record Same (cs ds : List (SelectedLink L C)) : Type 0 where
    pub names : names ds ≡ names cs
    pub active : any is_active ds ≡ any is_active cs

  pub Same-IsRoutes : (cs ds : List (SelectedLink L C)) → Same cs ds → IsRoutes cs → IsRoutes ds
  Same-IsRoutes cs ds s h = record {
    few = rw s.names h.few;
    distinct = rw s.names h.distinct;
    active = s.active ∙ h.active;
  }

  pub names-change_mode :
      (f : LinkConnection L C → LinkConnection L C) (mode : ℕ) (cs : List (SelectedLink L C))
      → names (change_mode f mode cs) ≡ names cs
  names-change_mode f mode [] = refl
  names-change_mode f mode (s ∷ ss) = elim (Bool-cases (s.mode == mode)) [
    | inl e ↦ rw (e, if◌then◌else◌) refl
    | inr e ↦ rw (e, if◌then◌else◌) (ap (◌∷◌ s.mode) (names-change_mode f mode ss))
  ]

  active-change_mode :
      (f : LinkConnection L C → LinkConnection L C)
      → ((c : LinkConnection L C) → (f c).active ≡ c.active)
      → (mode : ℕ) (cs : List (SelectedLink L C))
      → any is_active (change_mode f mode cs) ≡ any is_active cs
  unfolding is_active
  active-change_mode f same_active mode [] = refl
  active-change_mode f same_active mode (s ∷ ss) = elim (Bool-cases (s.mode == mode)) [
    | inl e ↦ rw (e, if◌then◌else◌) (ap (λ b. b || any is_active ss) (same_active s.ptr))
    | inr e ↦
        rw (e, if◌then◌else◌) (ap (◌||◌ s.ptr.active) (active-change_mode f same_active mode ss))
  ]

  pub change_mode-Same :
      (f : LinkConnection L C → LinkConnection L C)
      → ((c : LinkConnection L C) → (f c).active ≡ c.active)
      → (mode : ℕ) (cs : List (SelectedLink L C)) → Same cs (change_mode f mode cs)
  change_mode-Same f same_active mode cs = record {
    names = names-change_mode f mode cs;
    active = active-change_mode f same_active mode cs;
  }

  pub any_of_active :
      (cs : List (SelectedLink L C)) (d : SelectedLink L C) (ds : List (SelectedLink L C))
      → keep is_active cs ≡ d ∷ ds
      → any is_active cs ≡ true
  any_of_active [] d ds h = absurd (cc h)
  any_of_active (c ∷ cs) d ds h = elim (Bool-cases (is_active c)) [
    | inl e ↦ rw e refl
    | inr e ↦ rw e (any_of_active cs d ds (rw (keep, e) at h))
  ]

  unnamed :
      (mode : ℕ) (cs : List (SelectedLink L C))
      → find_mode mode cs ≡ none
      → any (λ k. k == mode) (names cs) ≡ false
  unnamed mode [] h = refl
  unnamed mode (c ∷ cs) h = ground (arith, h, unnamed mode cs)

  any-names-snoc :
      (p : ℕ → Bool) (cs : List (SelectedLink L C)) (x : SelectedLink L C)
      → any p (names (cs ++ (x ∷ []))) ≡ (any p (names cs) || p x.mode)
  any-names-snoc p [] x = ground arith
  any-names-snoc p (c ∷ cs) x = ground (arith, any-names-snoc p cs x)

  Distinct-snoc :
      (cs : List (SelectedLink L C)) (x : SelectedLink L C)
      → Distinct (names cs)
      → any (λ k. k == x.mode) (names cs) ≡ false
      → Distinct (names (cs ++ (x ∷ [])))
  Distinct-snoc [] x h k = (refl, tt)
  Distinct-snoc (c ∷ cs) x h k = (
    ground (arith, any-names-snoc (λ j. j == c.mode) cs x, h.0, k),
    Distinct-snoc cs x h.1 (ground (arith, k)),
  )

  length-names : (cs : List (SelectedLink L C)) → length (names cs) ≡ length cs
  length-names [] = refl
  length-names (c ∷ cs) = ap suc (length-names cs)

  known_active :
      (cs : List (SelectedLink L C)) (c : LinkConnection L C) (mode : ℕ)
      → (any is_active cs ≡ true) ⊎ (cs ≡ [])
      → find_mode mode cs ≡ some c
      → any is_active cs ≡ true
  known_active cs c mode (inl a) e = a
  known_active [] c mode (inr h) e = absurd (cc e)
  known_active (d ∷ cs) c mode (inr h) e = absurd (cc h)

  added-IsRoutes :
      (cs : List (SelectedLink L C)) (x : SelectedLink L C)
      → Distinct (names cs)
      → find_mode x.mode cs ≡ none
      → length cs < 3
      → is_active x ≡ true
      → IsRoutes (cs ++ (x ∷ []))
  added-IsRoutes cs x distinct new room active = record {
    few = omega (arith, length-names (cs ++ (x ∷ [])), length-append cs (x ∷ []), room);
    distinct = Distinct-snoc cs x distinct (unnamed x.mode cs new);
    active = ground (arith, any-append is_active cs (x ∷ []), active);
  }

module _ {L C F : Type 0} (net : Net L C F) where
  -- A sighting, of a peer that is known or of a new one.
  pub sight-IsRoutes :
      (now : ℕ) (mode : AggregationMode) (links : List L) (peer : PeerInfo) (pls : PeerLinkSet L C)
      → length (names pls.connections) ≤ 3
      → Distinct (names pls.connections)
      → (any is_active pls.connections ≡ true) ⊎ (pls.connections ≡ [])
      → IsRoutes (sight net now mode links peer pls).connections
  unfolding sight is_active new_connection seen_again
  sight-IsRoutes now mode links peer pls few distinct active =
      elim (Option-cases (find_mode peer.link_mode pls.connections)) [
        | inr (c, e) ↦
            rw (sight, e)
              (Same-IsRoutes pls.connections _
                (change_mode-Same (seen_again now peer) (λ d. refl) peer.link_mode pls.connections)
                (record {
                  few = few;
                  distinct = distinct;
                  active = known_active pls.connections c peer.link_mode active e;
                }))
        | inl e ↦ elim (Bool-cases (ltb (length pls.connections) 3)) [
          | inl room ↦
              rw
                (
                  sight,
                  e,
                  room,
                  if◌then◌else◌,
                  update_primary-connections net mode (record pls {
                    connections =
                        pls.connections
                        ++ (new_connection now peer (link_for_mode net peer.link_mode links) ∷ []);
                  }),
                )
                (added-IsRoutes pls.connections
                  (new_connection now peer (link_for_mode net peer.link_mode links)) distinct e
                  (ltb→lt _ _ room) refl)
          | inr full ↦
              rw (sight, e, full, if◌then◌else◌)
                (record {
                  few = few;
                  distinct = distinct;
                  active = elim active [
                    | inl a ↦ a
                    | inr none_yet ↦ absurd (ground (arith, full, ap length none_yet))
                  ];
                })
        ]
      ]

  pub lose-names :
      (mode : AggregationMode) (peer : PeerInfo) (pls : PeerLinkSet L C)
      → names (lose net mode peer pls).connections ≡ names pls.connections
  unfolding lose
  lose-names mode peer pls = elim (Option-cases (find_mode peer.link_mode pls.connections)) [
    | inl e ↦ rw (lose, e) refl
    | inr (c, e) ↦
        rw (lose, e)
          (ap names (update_primary-connections net mode _)
            ∙ names-change_mode deactivate peer.link_mode pls.connections)
  ]
