-- ===== src/Docs/Lines/Lengths.antt =====
-- pkg/services/docs/document.go: how long a list is after `insertSlice` or the removal of an element.
use local_web.Base.{
  ℕ, suc, ◌+◌, ◌<◌, ◌≡◌, List, [], ◌∷◌, ◌++◌, arith, length, length-append, take, drop,
}
use local_web.Base.{length-take, length-drop}
use local_web.Docs.Lines.{insert_slice, insert_slice_block, remove_slice}

module _ {ℓ} {A : Type ℓ} where
  pub length-insert_slice :
      (s : List A) (pos : ℕ) (v : A) → length (insert_slice s pos v) ≡ length s + 1
  unfolding insert_slice
  length-insert_slice s pos v = ground (
    arith,
    length-append s (v ∷ []),
    length-append (take pos s) (v ∷ drop pos s),
    length-take pos s,
    length-drop pos s,
  )

  pub length-remove_slice :
      (s : List A) (pos : ℕ) → pos < length s → length (remove_slice s pos) + 1 ≡ length s
  unfolding remove_slice
  length-remove_slice s pos h = ground (
    arith,
    length-append (take pos s) (drop (suc pos) s),
    length-take pos s,
    length-drop (suc pos) s,
  )

  pub length-snoc : (s : List A) (v : A) → length (s ++ (v ∷ [])) ≡ length s + 1
  length-snoc s v = length-append s (v ∷ [])

pub length-insert_slice_block :
    (s : List ℕ) (pos v : ℕ) → length (insert_slice_block s pos v) ≡ length s + 1
unfolding insert_slice_block
length-insert_slice_block s pos v = ground (
  arith,
  length-append s (0 ∷ []),
  length-append (take pos s) (v ∷ drop pos s),
  length-take pos s,
  length-drop pos s,
)
