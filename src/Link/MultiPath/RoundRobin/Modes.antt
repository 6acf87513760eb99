-- ===== src/Link/MultiPath/RoundRobin/Modes.antt =====
-- pkg/link/multipath.go, `selectLinks` in the round-robin mode, on the modes of the links alone.
use local_web.Base.{
  ℕ, zero, suc, ◌%◌, ◌≡◌, refl, ap, ◌∙◌, inl, inr, List, [], ◌∷◌, ◌++◌, map, Option, none, some,
  ltb, ◌==◌, if◌then◌else◌, Bool-cases, length, take, drop,
}
use local_web.Base.Sort.{sort, insert_sorted}
use local_web.Link.MultiPath.{SelectedLink, PeerLinkSet}
use local_web.Link.MultiPath.Select.{
  usable, by_mode, take_out, front, primary_first, rotate, in_order,
}

abbrev pub take_mode : ℕ → List ℕ → Option (ℕ × List ℕ)
take_mode mode [] = none
take_mode mode (m ∷ ms) =
    let rest = take_mode mode ms in
    if m == mode then some (m, ms) else elim rest [ none ↦ none | some (t, ts) ↦ some (t, m ∷ ts) ]

abbrev pub front_mode : Option (ℕ × List ℕ) → List ℕ → List ℕ
front_mode none ms = ms
front_mode (some (t, ts)) ms = t ∷ ts

-- The modes, with one of them ahead.
abbrev pub lead : ℕ → List ℕ → List ℕ
lead mode ms = front_mode (take_mode mode ms) ms

module _ {L C : Type 0} where
  abbrev pub modes : List (SelectedLink L C) → List ℕ
  modes ss = map (λ s. s.mode) ss

  modes-insert_sorted :
      (x : SelectedLink L C) (ys : List (SelectedLink L C))
      → modes (insert_sorted by_mode x ys) ≡ insert_sorted ltb x.mode (modes ys)
  modes-insert_sorted x [] = refl
  modes-insert_sorted x (y ∷ ys) = elim (Bool-cases (ltb y.mode x.mode)) [
    | inl e ↦ rw (e, if◌then◌else◌) (ap (◌∷◌ y.mode) (modes-insert_sorted x ys))
    | inr e ↦ rw (e, if◌then◌else◌) refl
  ]

  modes-sort : (xs : List (SelectedLink L C)) → modes (sort by_mode xs) ≡ sort ltb (modes xs)
  unfolding sort
  modes-sort [] = refl
  modes-sort (x ∷ xs) =
      modes-insert_sorted x (sort by_mode xs) ∙ ap (insert_sorted ltb x.mode) (modes-sort xs)

  abbrev out_modes : Option (SelectedLink L C × List (SelectedLink L C)) → Option (ℕ × List ℕ)
  out_modes none = none
  out_modes (some (t, ts)) = some (t.mode, modes ts)

  out_modes-behind :
      (s : SelectedLink L C) (o : Option (SelectedLink L C × List (SelectedLink L C)))
      → out_modes (elim o [ none ↦ none | some (t, ts) ↦ some (t, s ∷ ts) ])
        ≡ elim (out_modes o) [ none ↦ none | some (t, ts) ↦ some (t, s.mode ∷ ts) ]
  out_modes-behind s none = refl
  out_modes-behind s (some (t, ts)) = refl

  out_modes-take_out :
      (mode : ℕ) (ss : List (SelectedLink L C))
      → out_modes (take_out mode ss) ≡ take_mode mode (modes ss)
  unfolding take_out
  out_modes-take_out mode [] = refl
  out_modes-take_out mode (s ∷ ss) = elim (Bool-cases (s.mode == mode)) [
    | inl e ↦ rw (e, if◌then◌else◌) refl
    | inr e ↦
        rw (e, if◌then◌else◌)
          (out_modes-behind s (take_out mode ss)
            ∙ ap
                (λ o. elim o as (λ x. Option (ℕ × List ℕ)) [
                  | none ↦ none
                  | some (t, ts) ↦ some (t, s.mode ∷ ts)
                ])
                (out_modes-take_out mode ss))
  ]

  modes-front :
      (o : Option (SelectedLink L C × List (SelectedLink L C))) (ss : List (SelectedLink L C))
      → modes (front o ss) ≡ front_mode (out_modes o) (modes ss)
  modes-front none ss = refl
  modes-front (some (t, ts)) ss = refl

  modes-drop : (n : ℕ) (ss : List (SelectedLink L C)) → modes (drop n ss) ≡ drop n (modes ss)
  modes-drop zero ss = refl
  modes-drop (suc n) [] = refl
  modes-drop (suc n) (s ∷ ss) = modes-drop n ss

  modes-take : (n : ℕ) (ss : List (SelectedLink L C)) → modes (take n ss) ≡ take n (modes ss)
  modes-take zero ss = refl
  modes-take (suc n) [] = refl
  modes-take (suc n) (s ∷ ss) = ap (◌∷◌ s.mode) (modes-take n ss)

  modes-append : (xs ys : List (SelectedLink L C)) → modes (xs ++ ys) ≡ modes xs ++ modes ys
  modes-append [] ys = refl
  modes-append (x ∷ xs) ys = ap (◌∷◌ x.mode) (modes-append xs ys)

  length-modes : (ss : List (SelectedLink L C)) → length (modes ss) ≡ length ss
  length-modes [] = refl
  length-modes (s ∷ ss) = ap suc (length-modes ss)

  -- The order of the links ahead of the rotation.
  pub modes-in_order :
      (pls : PeerLinkSet L C)
      → modes (in_order pls) ≡ lead pls.primary (sort ltb (modes (usable pls)))
  unfolding in_order primary_first
  modes-in_order pls =
      modes-front (take_out pls.primary (sort by_mode (usable pls))) (sort by_mode (usable pls))
      ∙ ap (λ o. front_mode o (modes (sort by_mode (usable pls))))
          (out_modes-take_out pls.primary (sort by_mode (usable pls)))
      ∙ ap (λ ms. front_mode (take_mode pls.primary ms) ms) (modes-sort (usable pls))

  pub modes-rotate :
      (cursor : ℕ) (ss : List (SelectedLink L C)) (ms : List ℕ)
      → modes ss ≡ ms
      → modes (rotate (cursor % length ss) ss)
        ≡ drop (cursor % length ms) ms ++ take (cursor % length ms) ms
  modes-rotate cursor ss ms e =
      rw
        (
          ← e,
          length-modes ss,
          modes-append (drop (cursor % length ss) ss) (take (cursor % length ss) ss),
          modes-drop (cursor % length ss) ss,
          modes-take (cursor % length ss) ss,
        )
        refl
