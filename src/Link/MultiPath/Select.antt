-- ===== src/Link/MultiPath/Select.antt =====
-- pkg/link/multipath.go, `selectLinks`: the links that can carry a write, in the order they are tried.
use local_web.Base.{
  ℕ, ◌+◌, ◌-◌, ◌%◌, ◌^◌, Bool, true, false, ◌&&◌, List, [], ◌∷◌, ◌++◌, Option, none, some, ltb,
  ◌==◌, if◌then◌else◌, length, take, drop, keep,
}
use local_web.Base.Int64.{lt_int64}
use local_web.Base.Sort.{sort}
use local_web.Link.MultiPath.{
  Net, LinkConnection, SelectedLink, PeerLinkSet, AggregationMode, active_connections, has_link,
}

module _ {L C : Type 0} where
  unfoldable pub is_usable : SelectedLink L C → Bool
  is_usable s = has_link s && elim s.ptr.conn [ none ↦ false | some c ↦ true ]

  unfoldable pub usable : PeerLinkSet L C → List (SelectedLink L C)
  usable pls = keep is_usable (active_connections pls)

  abbrev pub by_mode : SelectedLink L C → SelectedLink L C → Bool
  by_mode a b = ltb a.mode b.mode

  -- The loop of `primaryFirst`: the first entry of the mode, and the list without it.
  unfoldable pub take_out :
      ℕ → List (SelectedLink L C) → Option (SelectedLink L C × List (SelectedLink L C))
  take_out mode [] = none
  take_out mode (s ∷ ss) =
      let rest = take_out mode ss in
      if s.mode == mode
      then some (s, ss)
      else elim rest [ none ↦ none | some (t, ts) ↦ some (t, s ∷ ts) ]

  abbrev pub front :
      Option (SelectedLink L C × List (SelectedLink L C))
      → List (SelectedLink L C)
      → List (SelectedLink L C)
  front none ss = ss
  front (some (t, ts)) ss = t ∷ ts

  unfoldable pub primary_first : ℕ → List (SelectedLink L C) → List (SelectedLink L C)
  unfolding take_out
  primary_first primary ss = front (take_out primary ss) ss

  abbrev pub by_latency : SelectedLink L C → SelectedLink L C → Bool
  by_latency a b = lt_int64 a.ptr.latency b.ptr.latency

  abbrev pub rotate : ℕ → List (SelectedLink L C) → List (SelectedLink L C)
  rotate start ss = drop start ss ++ take start ss

  -- The base order: by mode, with the primary ahead.
  unfoldable pub in_order : PeerLinkSet L C → List (SelectedLink L C)
  unfolding usable primary_first
  in_order pls = primary_first pls.primary (sort by_mode (usable pls))

  abbrev pub advance : AggregationMode → PeerLinkSet L C → PeerLinkSet L C
  advance AggregationMode.round_robin pls = record pls { rr_cursor = (pls.rr_cursor + 1) % 2 ^ 64 }
  advance _ pls = pls

module _ {L C F : Type 0} (net : Net L C F) where
  -- `throughput`, at the time `now`.
  unfoldable pub throughput : ℕ → LinkConnection L C → F
  throughput now c = elim c.established [
    | none ↦ net.of_uint64 0
    | some since ↦
        if ltb (now - since) (10 ^ 9)
        then net.of_uint64 c.bytes_sent
        else net.per_second c.bytes_sent (now - since)
  ]

  abbrev pub by_throughput : ℕ → SelectedLink L C → SelectedLink L C → Bool
  by_throughput now a b = net.greater (throughput now a.ptr) (throughput now b.ptr)

  -- The switch of `selectLinks`. The clock stands still in a sort, and a cursor is below 2 ^ 63, where
  -- `int` keeps it.
  unfoldable pub arrange :
      ℕ → AggregationMode → ℕ → List (SelectedLink L C) → List (SelectedLink L C)
  unfolding throughput
  arrange now AggregationMode.failover cursor ss = ss
  arrange now AggregationMode.round_robin cursor ss = rotate (cursor % length ss) ss
  arrange now AggregationMode.bandwidth cursor ss = sort (by_throughput now) ss
  arrange now AggregationMode.latency cursor ss = sort by_latency ss
  arrange now (AggregationMode.unknown n) cursor ss = ss

  unfoldable pub select_from :
      ℕ
      → AggregationMode
      → List (SelectedLink L C)
      → PeerLinkSet L C
      → List (SelectedLink L C) × PeerLinkSet L C
  unfolding arrange in_order
  select_from now mode [] pls = ([], pls)
  select_from now mode (u ∷ us) pls =
      (arrange now mode pls.rr_cursor (in_order pls), advance mode pls)

  -- The links, and the set of links with its cursor moved on.
  unfoldable pub select_links :
      ℕ → AggregationMode → PeerLinkSet L C → List (SelectedLink L C) × PeerLinkSet L C
  unfolding select_from
  select_links now mode pls = select_from now mode (usable pls) pls
