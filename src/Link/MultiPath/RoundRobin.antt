-- ===== src/Link/MultiPath/RoundRobin.antt =====
-- pkg/link/multipath.go, `SendToPeer` in the round-robin mode: which links carry successive writes.
pub mod Modes
pub mod Starves
use local_web.Base.{
  ℕ, zero, suc, ◌+◌, ◌-◌, ◌*◌, ◌/◌, ◌%◌, ◌^◌, ◌≤◌, ◌<◌, ◌≡◌, ◌≢◌, refl, sym, ap, ◌∙◌, ◌↔◌, ◌⊎◌, inl,
  inr, Bool, true, false, not, ◌&&◌, ◌||◌, List, [], ◌∷◌, ◌++◌, map, Option, none, some, some_inj,
  arith, ltb, leb, ◌==◌, ==_iff, if◌then◌else◌, Bool-cases, Bool-ext, Option-cases, Bytes, codes,
  same, same_iff, same_refl, member, length, length-append, take, drop, All, any, keep,
  length-keep-le, Dict, lookup, put, delete, lookup-put, lookup-delete, check_range, test_in_range,
}
use mathlib.Core.Path.{ap₂}
use mathlib.Core.List.{Permᴰ}
use mathlib.Core.List.Permᴰ
use local_web.Base.Sort.{sort}
use local_web.Base.{All-perm}
use local_web.Link.MultiPath.{
  Net, SelectedLink, LinkConnection, PeerLinkSet, AggregationMode, change_mode, is_active,
  active_connections, has_link,
}
use local_web.Link.MultiPath.Select.{
  advance, is_usable, usable, by_mode, in_order, arrange, select_from, select_links,
}
use local_web.Link.MultiPath.Orders.{select_from-perm}
use local_web.Link.MultiPath.Send.{
  Sent, write_to, count_sent, carried, send_over, send_first, send_set,
}
use Modes.{modes, lead, modes-in_order, modes-rotate}

module _ {L C : Type 0} where
  keep-All :
      (p : SelectedLink L C → Bool) (ss : List (SelectedLink L C))
      → All (λ s. p s ≡ true) (keep p ss)
  keep-All p [] = tt
  keep-All p (s ∷ ss) = elim (Bool-cases (p s)) [
    | inl e ↦ rw (keep, e) (e, keep-All p ss)
    | inr e ↦ rw (keep, e) (keep-All p ss)
  ]

  usable-All : (pls : PeerLinkSet L C) → All (λ s. is_usable s ≡ true) (usable pls)
  unfolding usable
  usable-All pls = keep-All is_usable (active_connections pls)

  -- The modes of the links that can carry a write, in their order.
  abbrev pub usable_modes : PeerLinkSet L C → List ℕ
  usable_modes pls = sort ltb (modes (usable pls))

  modes-keep-change_mode :
      (now n mode : ℕ) (ss : List (SelectedLink L C))
      → modes (keep is_usable (keep is_active (change_mode (count_sent now n) mode ss)))
        ≡ modes (keep is_usable (keep is_active ss))
  unfolding is_usable is_active has_link count_sent
  modes-keep-change_mode now n mode [] = refl
  modes-keep-change_mode now n mode (s ∷ ss) = ground (arith, modes-keep-change_mode now n mode ss)

  usable_modes-carried :
      (now n : ℕ) (s : SelectedLink L C) (pls : PeerLinkSet L C)
      → usable_modes (carried now 0 n s pls) ≡ usable_modes pls
  unfolding carried usable active_connections
  usable_modes-carried now n s pls =
      ap (sort ltb) (modes-keep-change_mode now n s.mode pls.connections)

module _ {L C F : Type 0} (net : Net L C F) where
  select_from-modes :
      (now : ℕ) (us : List (SelectedLink L C)) (pls : PeerLinkSet L C) (ms : List ℕ)
      → us ≡ usable pls
      → lead pls.primary (usable_modes pls) ≡ ms
      → usable_modes pls ≢ []
      → modes (select_from net now AggregationMode.round_robin us pls).0
        ≡ drop (pls.rr_cursor % length ms) ms ++ take (pls.rr_cursor % length ms) ms
  unfolding select_from arrange
  select_from-modes now [] pls ms e f h = absurd (h (rw (← e) (unfold sort in refl)))
  select_from-modes now (u ∷ us) pls ms e f h =
      modes-rotate pls.rr_cursor (in_order pls) ms (modes-in_order pls ∙ f)

  -- Every connection takes the payload.
  abbrev pub AllAccept : Bytes → Type 0
  AllAccept payload = (c : C) → (net.write c payload).1 ≡ false

  write_to_usable :
      (payload : Bytes) (s : SelectedLink L C)
      → AllAccept payload
      → is_usable s ≡ true
      → (write_to net payload s).1 ≡ false
  unfolding is_usable write_to
  write_to_usable payload s all h = elim (Option-cases s.ptr.conn) [
    | inl e ↦ absurd (ground (arith, h, e))
    | inr (c, e) ↦ rw e (all c)
  ]

  -- The first of the links carries the payload.
  send_first-carried :
      (now : ℕ) (payload : Bytes) (mode : AggregationMode) (s : SelectedLink L C)
      (ss : List (SelectedLink L C)) (pls : PeerLinkSet L C)
      → (write_to net payload s).1 ≡ false
      → send_first net now payload mode (s ∷ ss) pls ≡ (
        carried now 0 (write_to net payload s).0 s pls,
        record { n = (write_to net payload s).0; error = none; tried = s.mode ∷ [] },
      )
  unfolding send_first send_over
  send_first-carried now payload mode s ss pls e = rw (e, if◌then◌else◌) refl

  -- What a send over the mode `x` does to a set of links, and says.
  pub record Over (x : ℕ) (pls : PeerLinkSet L C) (r : PeerLinkSet L C × Sent) : Type 0 where
    pub tried : r.1.tried ≡ x ∷ []
    pub primary : r.0.primary ≡ x
    pub cursor : r.0.rr_cursor ≡ (pls.rr_cursor + 1) % 2 ^ 64
    pub usable : usable_modes r.0 ≡ usable_modes pls

  send_first-Over :
      (now : ℕ) (payload : Bytes) (ss : List (SelectedLink L C)) (pls : PeerLinkSet L C) (x : ℕ)
      (xs : List ℕ)
      → AllAccept payload
      → All (λ s. is_usable s ≡ true) ss
      → modes ss ≡ x ∷ xs
      → Over x pls (
          send_first net now payload AggregationMode.round_robin ss
            (advance AggregationMode.round_robin pls))
  unfolding carried usable active_connections
  send_first-Over now payload [] pls x xs all h e = absurd (cc e)
  send_first-Over now payload (s ∷ ss) pls x xs all h e =
      let first : s.mode ≡ x = cc e in
      rw
        (send_first-carried now payload AggregationMode.round_robin s ss
          (advance AggregationMode.round_robin pls) (write_to_usable payload s all h.0))
        (record {
          tried = ap (λ m. m ∷ []) first;
          primary = first;
          cursor = refl;
          usable =
              usable_modes-carried now (write_to net payload s).0 s
                (advance AggregationMode.round_robin pls);
        })

  select_from-advance :
      (now : ℕ) (us : List (SelectedLink L C)) (pls : PeerLinkSet L C)
      → us ≡ usable pls
      → usable_modes pls ≢ []
      → (select_from net now AggregationMode.round_robin us pls).1
        ≡ advance AggregationMode.round_robin pls
  unfolding select_from
  select_from-advance now [] pls e h = absurd (h (rw (← e) (unfold sort in refl)))
  select_from-advance now (u ∷ us) pls e h = refl

  send_set-Over :
      (now : ℕ) (payload : Bytes) (pls : PeerLinkSet L C) (ms : List ℕ) (x : ℕ) (xs : List ℕ)
      → AllAccept payload
      → usable_modes pls ≢ []
      → lead pls.primary (usable_modes pls) ≡ ms
      → drop (pls.rr_cursor % length ms) ms ++ take (pls.rr_cursor % length ms) ms ≡ x ∷ xs
      → Over x pls (send_set net now payload AggregationMode.round_robin pls)
  unfolding send_set select_links
  send_set-Over now payload pls ms x xs all some_usable f e =
      rw (select_from-advance now (usable pls) pls refl some_usable) (
        send_first-Over now payload
          (select_from net now AggregationMode.round_robin (usable pls) pls).0 pls x xs all
          (All-perm (λ s. is_usable s ≡ true)
            (Permᴰ.symm
              (select_from-perm net now AggregationMode.round_robin (usable pls) pls refl))
            (usable-All pls))
          (select_from-modes now (usable pls) pls ms refl f some_usable ∙ e))

  -- The links that carry `n` successive sends, at the times that are given.
  abbrev pub carriers : List ℕ → Bytes → PeerLinkSet L C → List ℕ
  carriers [] payload pls = []
  carriers (now ∷ times) payload pls =
      let r = send_set net now payload AggregationMode.round_robin pls in
      r.1.tried ++ carriers times payload r.0

  pub send_trio-Over :
      (now : ℕ) (payload : Bytes) (pls : PeerLinkSet L C) (ts ms : List ℕ) (p k x : ℕ) (xs : List ℕ)
      → AllAccept payload
      → usable_modes pls ≡ ts
      → ts ≢ []
      → pls.primary ≡ p
      → lead p ts ≡ ms
      → length ms ≡ 3
      → pls.rr_cursor % 3 ≡ k
      → drop k ms ++ take k ms ≡ x ∷ xs
      → Over x pls (send_set net now payload AggregationMode.round_robin pls)
  send_trio-Over now payload pls ts ms p k x xs all u some_usable q f three i e =
      send_set-Over now payload pls ms x xs all (λ none_usable. some_usable (sym u ∙ none_usable))
        (ap₂ lead q u ∙ f) (ap (λ n. drop n ms ++ take n ms) (ap (◌%◌ pls.rr_cursor) three ∙ i) ∙ e)
