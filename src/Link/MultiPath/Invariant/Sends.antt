-- ===== src/Link/MultiPath/Invariant/Sends.antt =====
-- pkg/link/multipath.go: sends and dials keep the links to a peer and whether they are active.
use local_web.Base.{
  ℕ, ◌+◌, ◌≡◌, refl, ap, inl, inr, ◌||◌, List, [], ◌∷◌, Option, none, some, if◌then◌else◌,
  Bool-cases, Option-cases, Bytes,
}
use mathlib.Core.Path.{subst, ap₂}
use local_web.Link.MultiPath.{
  Net, LinkConnection, SelectedLink, PeerLinkSet, AggregationMode, is_active,
}
use local_web.Link.MultiPath.Select.{select_from, select_links, usable, advance}
use local_web.Link.MultiPath.Send.{
  SendError, goes_on, write_to, count_sent, carried, send_over, send_first, send_set, dial,
  dial_all,
}
use local_web.Link.MultiPath.Invariant.{Same, change_mode-Same}

module _ {L C : Type 0} where
  unchanged : (cs : List (SelectedLink L C)) → Same cs cs
  unchanged cs = record { names = refl; active = refl }

  carried-Same :
      (now i n : ℕ) (s : SelectedLink L C) (pls : PeerLinkSet L C)
      → Same pls.connections (carried now i n s pls).connections
  unfolding carried count_sent
  carried-Same now i n s pls =
      change_mode-Same (count_sent now n) (λ c. refl) s.mode pls.connections

module _ {L C F : Type 0} (net : Net L C F) where
  send_over-Same :
      (now : ℕ) (payload : Bytes) (mode : AggregationMode) (i : ℕ) (e : Option SendError)
      (ss : List (SelectedLink L C)) (pls : PeerLinkSet L C)
      → Same pls.connections (send_over net now payload mode i e ss pls).0.connections
  unfolding send_over
  send_over-Same now payload mode i e [] pls = unchanged pls.connections
  send_over-Same now payload mode i e (s ∷ ss) pls = elim (Bool-cases (write_to net payload s).1) [
    | inr ok ↦ rw (ok, if◌then◌else◌) (carried-Same now i _ s pls)
    | inl failed ↦ elim (Bool-cases (goes_on mode)) [
      | inr stops ↦ rw (failed, stops, if◌then◌else◌) (unchanged pls.connections)
      | inl goes ↦
          rw (failed, goes, if◌then◌else◌)
            (send_over-Same now payload mode (i + 1) (some (SendError.write_over s.mode)) ss pls)
    ]
  ]

  send_first-Same :
      (now : ℕ) (payload : Bytes) (mode : AggregationMode) (ss : List (SelectedLink L C))
      (pls : PeerLinkSet L C)
      → Same pls.connections (send_first net now payload mode ss pls).0.connections
  unfolding send_first
  send_first-Same now payload mode [] pls = unchanged pls.connections
  send_first-Same now payload mode (c ∷ cs) pls =
      send_over-Same now payload mode 0 none (c ∷ cs) pls

  advance-connections :
      (mode : AggregationMode) (pls : PeerLinkSet L C)
      → (advance mode pls).connections ≡ pls.connections
  advance-connections AggregationMode.failover pls = refl
  advance-connections AggregationMode.round_robin pls = refl
  advance-connections AggregationMode.bandwidth pls = refl
  advance-connections AggregationMode.latency pls = refl
  advance-connections (AggregationMode.unknown n) pls = refl

  select_from-connections :
      (now : ℕ) (mode : AggregationMode) (us : List (SelectedLink L C)) (pls : PeerLinkSet L C)
      → (select_from net now mode us pls).1.connections ≡ pls.connections
  unfolding select_from
  select_from-connections now mode [] pls = refl
  select_from-connections now mode (u ∷ us) pls = advance-connections mode pls

  pub send_set-Same :
      (now : ℕ) (payload : Bytes) (mode : AggregationMode) (pls : PeerLinkSet L C)
      → Same pls.connections (send_set net now payload mode pls).0.connections
  unfolding send_set select_links
  send_set-Same now payload mode pls =
      subst
        (λ cs.
          Same cs
            (send_first net now payload mode (select_from net now mode (usable pls) pls).0
              (select_from net now mode (usable pls) pls).1).0.connections)
        (select_from-connections now mode (usable pls) pls)
        (send_first-Same now payload mode (select_from net now mode (usable pls) pls).0
          (select_from net now mode (usable pls) pls).1)

  dial-active : (c : LinkConnection L C) → (dial net c).active ≡ c.active
  unfolding dial
  dial-active c = elim (Bool-cases c.active) [
    | inr e ↦ rw (e, if◌then◌else◌) refl
    | inl e ↦ elim (Option-cases c.conn) [
      | inr (up, f) ↦ rw (e, if◌then◌else◌, f) e
      | inl f ↦ elim (Option-cases c.link) [
        | inl g ↦ rw (e, if◌then◌else◌, f, g) e
        | inr (l, g) ↦ rw (e, if◌then◌else◌, f, g) e
      ]
    ]
  ]

  pub dial_all-Same : (cs : List (SelectedLink L C)) → Same cs (dial_all net cs)
  unfolding is_active
  dial_all-Same [] = record { names = refl; active = refl }
  dial_all-Same (c ∷ cs) =
      let rest = dial_all-Same cs in
      record {
        names = ap (◌∷◌ c.mode) rest.names;
        active = ap₂ ◌||◌ (dial-active c.ptr) rest.active;
      }
