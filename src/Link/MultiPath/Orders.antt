-- ===== src/Link/MultiPath/Orders.antt =====
-- pkg/link/multipath.go, `selectLinks`: which links are selected.
use local_web.Base.{
  Bool, true, false, ◌&&◌, ap, keep, ℕ, ◌%◌, ◌≡◌, refl, inl, inr, List, [], ◌∷◌, Option, none, some,
  ◌==◌, if◌then◌else◌, Bool-cases, length, take, drop, keep, ap,
}
use mathlib.Core.List.{Permᴰ}
use mathlib.Core.List.Permᴰ
use local_web.Base.{take-append-drop}
use local_web.Base.Sort.{sort, sort-perm}
use local_web.Link.MultiPath.{
  is_active, has_link, active_connections, Net, SelectedLink, PeerLinkSet, AggregationMode,
  active_connections, is_active, has_link,
}
use local_web.Link.MultiPath.Select.{
  is_usable, usable, by_mode, take_out, primary_first, by_throughput, by_latency, rotate, in_order,
  arrange, front, select_from, select_links, is_usable,
}

-- A connection can carry traffic if it is active and has both a link and a connection behind it.
abbrev all_there {ℓ κ} : {A : Type ℓ} {B : Type κ} → Bool → Option A → Option B → Bool
all_there true (some l) (some c) = true
all_there _ _ _ = false

module _ {L C : Type 0} where
  abbrev pub can_carry : SelectedLink L C → Bool
  can_carry s = all_there s.ptr.active s.ptr.link s.ptr.conn

  can_carry_lem : (s : SelectedLink L C) → (is_active s && is_usable s) ≡ can_carry s
  unfolding is_active is_usable has_link
  can_carry_lem s = go s.ptr.active s.ptr.link s.ptr.conn
    where
      go :
          (a : Bool) (l : Option L) (c : Option C)
          → (a
              && (elim l [ none ↦ false | some l ↦ true ]
                  && elim c [ none ↦ false | some c ↦ true ]))
            ≡ all_there a l c
      go false l c = refl
      go true none c = refl
      go true (some l) none = refl
      go true (some l) (some c) = refl

  keep-can_carry :
      (ss : List (SelectedLink L C)) → keep is_usable (keep is_active ss) ≡ keep can_carry ss
  keep-can_carry [] = refl
  keep-can_carry (s ∷ ss) = elim (Bool-cases (is_active s)) [
    | inr e ↦ rw (keep, e, ← can_carry_lem s, e) (keep-can_carry ss)
    | inl e ↦ elim (Bool-cases (is_usable s)) [
      | inl f ↦ rw (keep, e, f, ← can_carry_lem s, e, f) (ap (λ ts. s ∷ ts) (keep-can_carry ss))
      | inr f ↦ rw (keep, e, f, ← can_carry_lem s, e, f) (keep-can_carry ss)
    ]
  ]

  usable-carries : (pls : PeerLinkSet L C) → usable pls ≡ keep can_carry pls.connections
  unfolding usable active_connections
  usable-carries pls = keep-can_carry pls.connections

  front-behind-perm :
      (s : SelectedLink L C) (ss : List (SelectedLink L C))
      (o : Option (SelectedLink L C × List (SelectedLink L C)))
      → Permᴰ (front o ss) ss
      → Permᴰ (front (elim o [ none ↦ none | some (t, ts) ↦ some (t, s ∷ ts) ]) (s ∷ ss)) (s ∷ ss)
  front-behind-perm s ss none h = Permᴰ.refl (s ∷ ss)
  front-behind-perm s ss (some (t, ts)) h = Permᴰ.trans (Permᴰ.swap refl refl) (Permᴰ.cons refl h)

  pub primary_first-perm :
      (primary : ℕ) (ss : List (SelectedLink L C)) → Permᴰ (primary_first primary ss) ss
  unfolding primary_first take_out
  primary_first-perm primary [] = Permᴰ.nil
  primary_first-perm primary (s ∷ ss) = elim (Bool-cases (s.mode == primary)) [
    | inl e ↦ rw (e, if◌then◌else◌) (Permᴰ.refl (s ∷ ss))
    | inr e ↦
        rw (e, if◌then◌else◌)
          (front-behind-perm s ss (take_out primary ss) (primary_first-perm primary ss))
  ]

  rotate-perm : (k : ℕ) (ss : List (SelectedLink L C)) → Permᴰ (rotate k ss) ss
  rotate-perm k ss = rw (take-append-drop k ss) at (Permᴰ.append_comm (drop k ss) (take k ss))

  pub in_order-perm : (pls : PeerLinkSet L C) → Permᴰ (in_order pls) (usable pls)
  unfolding in_order
  in_order-perm pls =
      Permᴰ.trans (primary_first-perm pls.primary (sort by_mode (usable pls)))
        (sort-perm by_mode (usable pls))

module _ {L C F : Type 0} (net : Net L C F) where
  arrange-perm :
      (now : ℕ) (mode : AggregationMode) (cursor : ℕ) (ss : List (SelectedLink L C))
      → Permᴰ (arrange net now mode cursor ss) ss
  unfolding arrange
  arrange-perm now AggregationMode.failover cursor ss = Permᴰ.refl ss
  arrange-perm now AggregationMode.round_robin cursor ss = rotate-perm (cursor % length ss) ss
  arrange-perm now AggregationMode.bandwidth cursor ss = sort-perm (by_throughput net now) ss
  arrange-perm now AggregationMode.latency cursor ss = sort-perm by_latency ss
  arrange-perm now (AggregationMode.unknown n) cursor ss = Permᴰ.refl ss

  pub select_from-perm :
      (now : ℕ) (mode : AggregationMode) (us : List (SelectedLink L C)) (pls : PeerLinkSet L C)
      → us ≡ usable pls
      → Permᴰ (select_from net now mode us pls).0 (usable pls)
  unfolding select_from
  select_from-perm now mode [] pls h = rw (← h) Permᴰ.nil
  select_from-perm now mode (u ∷ us) pls h =
      Permᴰ.trans (arrange-perm now mode pls.rr_cursor (in_order pls)) (in_order-perm pls)

  -- In every mode the links that are selected are those of the peer that are active and have a link and a
  -- connection, each of them as often as the peer has it.
  pub select_links-perm :
      (now : ℕ) (mode : AggregationMode) (pls : PeerLinkSet L C)
      → Permᴰ (select_links net now mode pls).0 (keep can_carry pls.connections)
  unfolding select_links
  select_links-perm now mode pls =
      rw (← usable-carries pls) (select_from-perm now mode (usable pls) pls refl)
