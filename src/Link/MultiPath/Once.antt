-- ===== src/Link/MultiPath/Once.antt =====
-- pkg/link/multipath.go, `SendToPeer`: a payload travels over exactly one link.
use local_web.Base.{
  ℕ, suc, ◌+◌, ◌≤◌, ◌≡◌, refl, ap, ◌⊎◌, inl, inr, Bool, true, not, List, [], ◌∷◌, map, none, some,
  arith, if◌then◌else◌, Bool-cases, Bytes, length, take, keep,
}
use local_web.Link.MultiPath.{Net, SelectedLink, PeerLinkSet, AggregationMode}
use local_web.Link.MultiPath.Select.{select_links}
use local_web.Link.MultiPath.Send.{
  SendError, Sent, goes_on, write_to, send_over, send_set, send_first,
}

only_failover : (mode : AggregationMode) → goes_on mode ≡ true → mode ≡ AggregationMode.failover
only_failover AggregationMode.failover h = refl
only_failover AggregationMode.round_robin h = absurd (cc h)
only_failover AggregationMode.bandwidth h = absurd (cc h)
only_failover AggregationMode.latency h = absurd (cc h)
only_failover (AggregationMode.unknown n) h = absurd (cc h)

module _ {L C F : Type 0} (net : Net L C F) where
  -- The write over the link succeeds.
  abbrev pub accepts : Bytes → SelectedLink L C → Bool
  accepts payload s = not (write_to net payload s).1

  -- The first `k` of the links were tried, of which one took the payload if there is no error, and none
  -- otherwise; without failover no second link was tried.
  pub record IsOnce (payload : Bytes) (mode : AggregationMode) (ss : List (SelectedLink L C))
      (sent : Sent) : Type 0 where
    pub k : ℕ
    pub tried : sent.tried ≡ map (λ s. s.mode) (take k ss)
    pub takers :
        length (keep (accepts payload) (take k ss)) ≡ elim sent.error [ none ↦ 1 | some e ↦ 0 ]
    pub alone : (mode ≡ AggregationMode.failover) ⊎ (k ≤ 1)

  send_over-IsOnce :
      (now : ℕ) (payload : Bytes) (mode : AggregationMode) (i : ℕ) (e : SendError)
      (ss : List (SelectedLink L C)) (pls : PeerLinkSet L C)
      → IsOnce payload mode ss (send_over net now payload mode i (some e) ss pls).1
  unfolding send_over
  send_over-IsOnce now payload mode i e [] pls = record {
    k = 0;
    tried = refl;
    takers = refl;
    alone = inr (omega arith);
  }
  send_over-IsOnce now payload mode i e (s ∷ ss) pls =
      elim (Bool-cases (write_to net payload s).1) [
        | inr ok ↦
            rw (ok, if◌then◌else◌)
              (record {
                k = 1;
                tried = refl;
                takers = ground (arith, ok);
                alone = inr (omega arith);
              })
        | inl failed ↦ elim (Bool-cases (goes_on mode)) [
          | inr stops ↦
              rw (failed, stops, if◌then◌else◌)
                (record {
                  k = 1;
                  tried = refl;
                  takers = ground (arith, failed);
                  alone = inr (omega arith);
                })
          | inl goes ↦
              let rest =
                send_over-IsOnce now payload mode (i + 1) (SendError.write_over s.mode) ss pls in
              rw (failed, goes, if◌then◌else◌)
                (record {
                  k = suc rest.k;
                  tried = ap (◌∷◌ s.mode) rest.tried;
                  takers = ground (arith, failed, rest.takers);
                  alone = inl (only_failover mode goes);
                })
        ]
      ]

  send_first-IsOnce :
      (now : ℕ) (payload : Bytes) (mode : AggregationMode) (ss : List (SelectedLink L C))
      (pls : PeerLinkSet L C)
      → IsOnce payload mode ss (send_first net now payload mode ss pls).1
  unfolding send_first send_over
  send_first-IsOnce now payload mode [] pls = record {
    k = 0;
    tried = refl;
    takers = refl;
    alone = inr (omega arith);
  }
  send_first-IsOnce now payload mode (c ∷ cs) pls =
      send_over-IsOnce now payload mode 0 SendError.no_connection (c ∷ cs) pls

  -- Whatever the mode, a send tries the links in the order in which they are selected: if it ends without
  -- an error then exactly one of the links that it tried has taken the payload, and otherwise none has;
  -- without failover it tries at most one.
  pub send_set-IsOnce :
      (now : ℕ) (payload : Bytes) (mode : AggregationMode) (pls : PeerLinkSet L C)
      → IsOnce payload mode (select_links net now mode pls).0 (send_set net now payload mode pls).1
  unfolding send_set
  send_set-IsOnce now payload mode pls =
      send_first-IsOnce now payload mode (select_links net now mode pls).0
        (select_links net now mode pls).1
