-- ===== src/Docs/Lines.antt =====
-- pkg/services/docs/document.go: `insertSlice`, `splitLines`, `joinLines`, and the characters of a string
-- as `range` gives them.
pub mod Lengths
use local_web.Base.{
  ℕ, suc, ◌≡◌, ◌≢◌, refl, sym, ap, ◌∙◌, inl, inr, List, [], ◌∷◌, ◌++◌, arith, leb, ◌==◌, ==_iff,
  if◌then◌else◌, Bool-cases, Bytes, length, take, drop, All,
}
use mathlib.Core.List.{append-nil}

module _ {ℓ} {A : Type ℓ} where
  unfoldable pub insert_slice : List A → ℕ → A → List A
  insert_slice s pos val =
      if leb (length s) pos then s ++ (val ∷ []) else take pos s ++ (val ∷ drop pos s)

  -- `append(s[:pos], s[pos+1:]...)`.
  unfoldable pub remove_slice : List A → ℕ → List A
  remove_slice s pos = take pos s ++ drop (suc pos) s

-- Behind the end a block is a paragraph, whatever the default.
unfoldable pub insert_slice_block : List ℕ → ℕ → ℕ → List ℕ
insert_slice_block s pos default_val =
    if leb (length s) pos then s ++ (0 ∷ []) else take pos s ++ (default_val ∷ drop pos s)

abbrev pub newline : ℕ
newline = 10

-- A byte at the front of the first line.
unfoldable pub cons_first : ℕ → List Bytes → List Bytes
cons_first b [] = (b ∷ []) ∷ []
cons_first b (l ∷ ls) = (b ∷ l) ∷ ls

-- The loop of `splitLines`.
unfoldable pub lines_from : Bytes → List Bytes
unfolding cons_first
lines_from [] = [] ∷ []
lines_from (b ∷ s) =
    let rest = lines_from s in if b == newline then [] ∷ rest else cons_first b rest

unfoldable pub split_lines : Bytes → List Bytes
unfolding lines_from
split_lines [] = []
split_lines (b ∷ s) = lines_from (b ∷ s)

-- The loop of `joinLines`.
unfoldable pub join_rest : List Bytes → Bytes
join_rest [] = []
join_rest (l ∷ ls) = newline ∷ (l ++ join_rest ls)

unfoldable pub join_lines : List Bytes → Bytes
unfolding join_rest
join_lines [] = []
join_lines (l ∷ ls) = l ++ join_rest ls

join_lines-cons_first :
    (b : ℕ) (l : Bytes) (ls : List Bytes)
    → join_lines (cons_first b (l ∷ ls)) ≡ b ∷ join_lines (l ∷ ls)
unfolding join_lines cons_first
join_lines-cons_first b l ls = refl

join_lines-empty_line :
    (l : Bytes) (ls : List Bytes) → join_lines ([] ∷ l ∷ ls) ≡ newline ∷ join_lines (l ∷ ls)
unfolding join_lines join_rest
join_lines-empty_line l ls = refl

lines_from_some : (s : Bytes) → (l : Bytes) × (ls : List Bytes) × (lines_from s ≡ l ∷ ls)
unfolding lines_from cons_first
lines_from_some [] = ([], [], refl)
lines_from_some (b ∷ s) =
    let (l, ls, e) = lines_from_some s in
    elim (Bool-cases (b == newline)) [
      | inl h ↦ ([], lines_from s, ground arith)
      | inr h ↦ (b ∷ l, ls, ground (arith, e))
    ]

join_lines-lines_from : (s : Bytes) → join_lines (lines_from s) ≡ s
unfolding lines_from
join_lines-lines_from [] = unfold join_lines in refl
join_lines-lines_from (b ∷ s) =
    let (l, ls, e) = lines_from_some s in
    let back : join_lines (l ∷ ls) ≡ s = rw e at (join_lines-lines_from s) in
    elim (Bool-cases (b == newline)) [
      | inl h ↦
          let at_end : b ≡ newline = (==_iff b newline).0 h in
          rw (h, if◌then◌else◌, e, join_lines-empty_line, back) (ap (λ x. x ∷ s) (sym at_end))
      | inr h ↦ rw (h, if◌then◌else◌, e, join_lines-cons_first b l ls, back) refl
    ]

-- Joining the lines that a text splits into gives the text back.
pub join_lines-split_lines : (s : Bytes) → join_lines (split_lines s) ≡ s
unfolding split_lines
join_lines-split_lines [] = unfold join_lines in refl
join_lines-split_lines (b ∷ s) = join_lines-lines_from (b ∷ s)

-- No byte of a line ends it.
abbrev pub IsLine : Bytes → Type 0
IsLine = All (λ b. b ≢ newline)

lines_from-line :
    (l : Bytes) (s : Bytes) → IsLine l → lines_from (l ++ (newline ∷ s)) ≡ l ∷ lines_from s
unfolding lines_from cons_first
lines_from-line [] s h = ground arith
lines_from-line (b ∷ l) s h = ground (arith, lines_from-line l s h.1, h.0)

lines_from_last : (l : Bytes) → IsLine l → lines_from l ≡ l ∷ []
unfolding lines_from cons_first
lines_from_last [] h = refl
lines_from_last (b ∷ l) h = ground (arith, lines_from_last l h.1, h.0)

lines_from-join_lines :
    (l : Bytes) (ls : List Bytes)
    → IsLine l
    → All IsLine ls
    → lines_from (join_lines (l ∷ ls)) ≡ l ∷ ls
unfolding join_lines join_rest
lines_from-join_lines l [] h k = rw (append-nil l) (lines_from_last l h)
lines_from-join_lines l (m ∷ ls) h k =
    lines_from-line l (m ++ join_rest ls) h ∙ ap (◌∷◌ l) (lines_from-join_lines m ls k.0 k.1)

-- Lines without line ends are what their joined text splits into, unless they are one empty line, whose
-- text has none.
pub split_lines-join_lines :
    (ls : List Bytes) → All IsLine ls → ls ≢ [] ∷ [] → split_lines (join_lines ls) ≡ ls
unfolding split_lines join_lines join_rest
split_lines-join_lines [] h k = refl
split_lines-join_lines ([] ∷ []) h k = absurd (k refl)
split_lines-join_lines ([] ∷ m ∷ ls) h k = lines_from-join_lines [] (m ∷ ls) h.0 h.1
split_lines-join_lines ((b ∷ l) ∷ ls) h k = lines_from-join_lines (b ∷ l) ls h.0 h.1
