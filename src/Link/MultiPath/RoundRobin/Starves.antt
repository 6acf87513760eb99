-- ===== src/Link/MultiPath/RoundRobin/Starves.antt =====
-- pkg/link/multipath.go: the rotation of `selectLinks` works on a list that `primaryFirst` has reordered by
-- the last write.
use local_web.Base.{
  ℕ, suc, ◌+◌, ◌%◌, ◌^◌, ◌<◌, ◌≡◌, ◌≢◌, refl, ◌∙◌, ◌⊎◌, inl, inr, List, [], ◌∷◌, arith, Bytes,
  length, drop, All,
}
use local_web.Link.MultiPath.{Net, PeerLinkSet, AggregationMode}
use local_web.Link.MultiPath.Send.{send_set}
use local_web.Link.MultiPath.RoundRobin.{usable_modes, AllAccept, Over, send_trio-Over, carriers}
use local_web.Link.MultiPath.RoundRobin.Modes.{lead}

module _ {L C F : Type 0} (net : Net L C F) where
  -- The three places of a cycle that passes over `b`.
  data Phase (a b c : ℕ) (pls : PeerLinkSet L C) : Type 0 where
    first : pls.rr_cursor % 3 ≡ 0 → pls.primary ≡ c → Phase a b c pls
    second : pls.rr_cursor % 3 ≡ 1 → pls.primary ≡ c → Phase a b c pls
    third : pls.rr_cursor % 3 ≡ 2 → pls.primary ≡ a → Phase a b c pls

  lead_last : (a b c : ℕ) → a < b → b < c → lead c (a ∷ b ∷ c ∷ []) ≡ c ∷ a ∷ b ∷ []
  lead_last a b c h k = ground arith

  lead_middle : (a b c : ℕ) → a < b → lead b (a ∷ b ∷ c ∷ []) ≡ b ∷ a ∷ c ∷ []
  lead_middle a b c h = ground arith

  lead_first : (a b c : ℕ) → lead a (a ∷ b ∷ c ∷ []) ≡ a ∷ b ∷ c ∷ []
  lead_first a b c = ground arith

  -- One send of a cycle, and the sends that follow it.
  then_skip :
      (now : ℕ) (times : List ℕ) (payload : Bytes) (b x : ℕ) (pls : PeerLinkSet L C)
      → x ≢ b
      → Over net x pls (send_set net now payload AggregationMode.round_robin pls)
      → All
          (λ m. m ≢ b)
          (carriers net times payload (send_set net now payload AggregationMode.round_robin pls).0)
      → All (λ m. m ≢ b) (carriers net (now ∷ times) payload pls)
  then_skip now times payload b x pls h o rest = rw o.tried (h, rest)

  carriers_skip :
      (times : List ℕ) (payload : Bytes) (a b c : ℕ) (pls : PeerLinkSet L C)
      → AllAccept net payload
      → a < b
      → b < c
      → usable_modes pls ≡ a ∷ b ∷ c ∷ []
      → Phase a b c pls
      → pls.rr_cursor + length times < 2 ^ 64
      → All (λ m. m ≢ b) (carriers net times payload pls)
  carriers_skip [] payload a b c pls all h k u p bound = tt
  carriers_skip (now ∷ times) payload a b c pls all h k u (Phase.first i q) bound =
      let o =
        send_trio-Over net now payload pls (a ∷ b ∷ c ∷ []) (c ∷ a ∷ b ∷ []) c 0 c (a ∷ b ∷ []) all
          u (λ e. cc e) q (lead_last a b c h k) refl i refl in
      then_skip now times payload b c pls (λ e. omega (arith, e, k)) o
        (carriers_skip times payload a b c _ all h k (o.usable ∙ u)
          (Phase.second (omega (arith, o.cursor, i, bound)) o.primary)
          (omega (arith, o.cursor, bound)))
  carriers_skip (now ∷ times) payload a b c pls all h k u (Phase.second i q) bound =
      let o =
        send_trio-Over net now payload pls (a ∷ b ∷ c ∷ []) (c ∷ a ∷ b ∷ []) c 1 a (b ∷ c ∷ []) all
          u (λ e. cc e) q (lead_last a b c h k) refl i refl in
      then_skip now times payload b a pls (λ e. omega (arith, e, h)) o
        (carriers_skip times payload a b c _ all h k (o.usable ∙ u)
          (Phase.third (omega (arith, o.cursor, i, bound)) o.primary)
          (omega (arith, o.cursor, bound)))
  carriers_skip (now ∷ times) payload a b c pls all h k u (Phase.third i q) bound =
      let o =
        send_trio-Over net now payload pls (a ∷ b ∷ c ∷ []) (a ∷ b ∷ c ∷ []) a 2 c (a ∷ b ∷ []) all
          u (λ e. cc e) q (lead_first a b c) refl i refl in
      then_skip now times payload b c pls (λ e. omega (arith, e, k)) o
        (carriers_skip times payload a b c _ all h k (o.usable ∙ u)
          (Phase.first (omega (arith, o.cursor, i, bound)) o.primary)
          (omega (arith, o.cursor, bound)))

  drop-carriers :
      (now : ℕ) (times : List ℕ) (payload : Bytes) (n x : ℕ) (pls : PeerLinkSet L C)
      → Over net x pls (send_set net now payload AggregationMode.round_robin pls)
      → drop (suc n) (carriers net (now ∷ times) payload pls)
        ≡ drop n (
            carriers net times payload (send_set net now payload AggregationMode.round_robin pls).0)
  drop-carriers now times payload n x pls o = rw o.tried refl

  -- The last of three sends goes over c.
  after_third :
      (t2 : ℕ) (times : List ℕ) (payload : Bytes) (a b c p : ℕ) (pls : PeerLinkSet L C)
      → AllAccept net payload
      → a < b
      → b < c
      → usable_modes pls ≡ a ∷ b ∷ c ∷ []
      → pls.primary ≡ p
      → (p ≡ a) ⊎ (p ≡ b)
      → pls.rr_cursor % 3 ≡ 2
      → pls.rr_cursor + suc (length times) < 2 ^ 64
      → All (λ m. m ≢ b) (drop 1 (carriers net (t2 ∷ times) payload pls))
  after_third t2 times payload a b c p pls all h k u q (inl e) i bound =
      let o =
        send_trio-Over net t2 payload pls (a ∷ b ∷ c ∷ []) (a ∷ b ∷ c ∷ []) p 2 c (a ∷ b ∷ []) all u
          (λ n. cc n) q (rw e (lead_first a b c)) refl i refl in
      rw (drop-carriers t2 times payload 0 c pls o) (
        carriers_skip times payload a b c _ all h k (o.usable ∙ u)
          (Phase.first (omega (arith, o.cursor, i, bound)) o.primary)
          (omega (arith, o.cursor, bound)))
  after_third t2 times payload a b c p pls all h k u q (inr e) i bound =
      let o =
        send_trio-Over net t2 payload pls (a ∷ b ∷ c ∷ []) (b ∷ a ∷ c ∷ []) p 2 c (b ∷ a ∷ []) all u
          (λ n. cc n) q (rw e (lead_middle a b c h)) refl i refl in
      rw (drop-carriers t2 times payload 0 c pls o) (
        carriers_skip times payload a b c _ all h k (o.usable ∙ u)
          (Phase.first (omega (arith, o.cursor, i, bound)) o.primary)
          (omega (arith, o.cursor, bound)))

  after_second :
      (t1 t2 : ℕ) (times : List ℕ) (payload : Bytes) (a b c p : ℕ) (pls : PeerLinkSet L C)
      → AllAccept net payload
      → a < b
      → b < c
      → usable_modes pls ≡ a ∷ b ∷ c ∷ []
      → pls.primary ≡ p
      → (p ≡ a) ⊎ ((p ≡ b) ⊎ (p ≡ c))
      → pls.rr_cursor % 3 ≡ 1
      → pls.rr_cursor + suc (suc (length times)) < 2 ^ 64
      → All (λ m. m ≢ b) (drop 2 (carriers net (t1 ∷ t2 ∷ times) payload pls))
  after_second t1 t2 times payload a b c p pls all h k u q (inl e) i bound =
      let o =
        send_trio-Over net t1 payload pls (a ∷ b ∷ c ∷ []) (a ∷ b ∷ c ∷ []) p 1 b (c ∷ a ∷ []) all u
          (λ n. cc n) q (rw e (lead_first a b c)) refl i refl in
      rw (drop-carriers t1 (t2 ∷ times) payload 1 b pls o) (
        after_third t2 times payload a b c b _ all h k (o.usable ∙ u) o.primary (inr refl)
          (omega (arith, o.cursor, i, bound)) (omega (arith, o.cursor, bound)))
  after_second t1 t2 times payload a b c p pls all h k u q (inr (inl e)) i bound =
      let o =
        send_trio-Over net t1 payload pls (a ∷ b ∷ c ∷ []) (b ∷ a ∷ c ∷ []) p 1 a (c ∷ b ∷ []) all u
          (λ n. cc n) q (rw e (lead_middle a b c h)) refl i refl in
      rw (drop-carriers t1 (t2 ∷ times) payload 1 a pls o) (
        after_third t2 times payload a b c a _ all h k (o.usable ∙ u) o.primary (inl refl)
          (omega (arith, o.cursor, i, bound)) (omega (arith, o.cursor, bound)))
  after_second t1 t2 times payload a b c p pls all h k u q (inr (inr e)) i bound =
      let o =
        send_trio-Over net t1 payload pls (a ∷ b ∷ c ∷ []) (c ∷ a ∷ b ∷ []) p 1 a (b ∷ c ∷ []) all u
          (λ n. cc n) q (rw e (lead_last a b c h k)) refl i refl in
      rw (drop-carriers t1 (t2 ∷ times) payload 1 a pls o) (
        after_third t2 times payload a b c a _ all h k (o.usable ∙ u) o.primary (inl refl)
          (omega (arith, o.cursor, i, bound)) (omega (arith, o.cursor, bound)))

  -- The head of the list, whichever link is the primary.
  lead_cases :
      (p a b c : ℕ)
      → a < b
      → b < c
      → (lead p (a ∷ b ∷ c ∷ []) ≡ a ∷ b ∷ c ∷ [])
        ⊎ ((lead p (a ∷ b ∷ c ∷ []) ≡ b ∷ a ∷ c ∷ []) ⊎ (lead p (a ∷ b ∷ c ∷ []) ≡ c ∷ a ∷ b ∷ []))
  lead_cases p a b c h k = ground arith

  -- On three links of the modes a < b < c that all take the payload, from a cursor that is a multiple of 3
  -- and any primary, the sends in the round-robin mode never go over b after the first three, as long as the
  -- cursor does not wrap around.
  pub carriers_starve :
      (t0 t1 t2 : ℕ) (times : List ℕ) (payload : Bytes) (a b c : ℕ) (pls : PeerLinkSet L C)
      → AllAccept net payload
      → a < b
      → b < c
      → usable_modes pls ≡ a ∷ b ∷ c ∷ []
      → pls.rr_cursor % 3 ≡ 0
      → pls.rr_cursor + suc (suc (suc (length times))) < 2 ^ 64
      → All (λ m. m ≢ b) (drop 3 (carriers net (t0 ∷ t1 ∷ t2 ∷ times) payload pls))
  carriers_starve t0 t1 t2 times payload a b c pls all h k u i bound =
      elim (lead_cases pls.primary a b c h k) [
        | inl e ↦
            let o =
              send_trio-Over net t0 payload pls (a ∷ b ∷ c ∷ []) (a ∷ b ∷ c ∷ []) pls.primary 0 a
                (b ∷ c ∷ []) all u (λ n. cc n) refl e refl i refl in
            rw (drop-carriers t0 (t1 ∷ t2 ∷ times) payload 2 a pls o) (
              after_second t1 t2 times payload a b c a _ all h k (o.usable ∙ u) o.primary (inl refl)
                (omega (arith, o.cursor, i, bound)) (omega (arith, o.cursor, bound)))
        | inr (inl e) ↦
            let o =
              send_trio-Over net t0 payload pls (a ∷ b ∷ c ∷ []) (b ∷ a ∷ c ∷ []) pls.primary 0 b
                (a ∷ c ∷ []) all u (λ n. cc n) refl e refl i refl in
            rw (drop-carriers t0 (t1 ∷ t2 ∷ times) payload 2 b pls o) (
              after_second t1 t2 times payload a b c b _ all h k (o.usable ∙ u) o.primary
                (inr (inl refl)) (omega (arith, o.cursor, i, bound))
                (omega (arith, o.cursor, bound)))
        | inr (inr e) ↦
            let o =
              send_trio-Over net t0 payload pls (a ∷ b ∷ c ∷ []) (c ∷ a ∷ b ∷ []) pls.primary 0 c
                (a ∷ b ∷ []) all u (λ n. cc n) refl e refl i refl in
            rw (drop-carriers t0 (t1 ∷ t2 ∷ times) payload 2 c pls o) (
              after_second t1 t2 times payload a b c c _ all h k (o.usable ∙ u) o.primary
                (inr (inr refl)) (omega (arith, o.cursor, i, bound))
                (omega (arith, o.cursor, bound)))
      ]
