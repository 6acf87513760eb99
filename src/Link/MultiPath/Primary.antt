-- ===== src/Link/MultiPath/Primary.antt =====
-- pkg/link/multipath.go, `updatePrimary`: it changes no connection.
use local_web.Base.{
  ◌≡◌, refl, inl, inr, List, [], ◌∷◌, arith, ◌==◌, if◌then◌else◌, Bool-cases, Option-cases, keep,
}
use local_web.Link.MultiPath.{
  Net, SelectedLink, PeerLinkSet, AggregationMode, active_connections, update_primary,
  choose_primary, lead_by, keeps_primary, successor, has_link, lowest_latency, primary_of,
  primary_among,
}

module _ {L C F : Type 0} (net : Net L C F) where
  lead_by-connections :
      (s : SelectedLink L C) (pls : PeerLinkSet L C)
      → (lead_by net s pls).connections ≡ pls.connections
  unfolding lead_by
  lead_by-connections s pls = ground arith

  choose_primary-connections :
      (mode : AggregationMode) (c : SelectedLink L C) (cs : List (SelectedLink L C))
      (pls : PeerLinkSet L C)
      → (choose_primary net mode c cs pls).connections ≡ pls.connections
  unfolding choose_primary
  choose_primary-connections AggregationMode.failover c cs pls =
      elim (Bool-cases (keeps_primary pls)) [
        | inl e ↦ rw (e, if◌then◌else◌) refl
        | inr e ↦ rw (e, if◌then◌else◌) (lead_by-connections c pls)
      ]
  choose_primary-connections AggregationMode.round_robin c cs pls =
      elim (Bool-cases (pls.primary == 0)) [
        | inl e ↦ rw (e, if◌then◌else◌) (lead_by-connections c pls)
        | inr e ↦ elim (Option-cases (successor pls.primary pls.connections)) [
          | inl f ↦ rw (e, if◌then◌else◌, f) (lead_by-connections c pls)
          | inr (best, f) ↦ elim (Bool-cases (has_link best)) [
            | inl g ↦ rw (e, if◌then◌else◌, f, g) (lead_by-connections best pls)
            | inr g ↦ rw (e, if◌then◌else◌, f, g) (lead_by-connections c pls)
          ]
        ]
      ]
  choose_primary-connections AggregationMode.bandwidth c cs pls =
      lead_by-connections (lowest_latency c cs) pls
  choose_primary-connections AggregationMode.latency c cs pls =
      lead_by-connections (lowest_latency c cs) pls
  choose_primary-connections (AggregationMode.unknown n) c cs pls = refl

  primary_of-connections :
      (mode : AggregationMode) (cs : List (SelectedLink L C)) (pls : PeerLinkSet L C)
      → (primary_of net mode cs pls).connections ≡ pls.connections
  unfolding primary_of
  primary_of-connections mode [] pls = refl
  primary_of-connections mode (c ∷ cs) pls = choose_primary-connections mode c cs pls

  primary_among-connections :
      (mode : AggregationMode) (ds : List (SelectedLink L C)) (pls : PeerLinkSet L C)
      → (primary_among net mode ds pls).connections ≡ pls.connections
  unfolding primary_among
  primary_among-connections mode [] pls = refl
  primary_among-connections mode (d ∷ ds) pls =
      primary_of-connections mode (keep has_link (d ∷ ds)) pls

  pub update_primary-connections :
      (mode : AggregationMode) (pls : PeerLinkSet L C)
      → (update_primary net mode pls).connections ≡ pls.connections
  unfolding update_primary
  update_primary-connections mode pls = primary_among-connections mode (active_connections pls) pls
