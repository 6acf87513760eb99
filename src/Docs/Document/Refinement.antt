-- ===== src/Docs/Document/Refinement.antt =====
-- pkg/services/docs/document.go, `ApplyOp`, beside an abstract document: a title and a list of blocks.
use local_web.Base.{
  ℕ, zero, suc, ◌≤◌, ◌≡◌, refl, inl, inr, Bool, true, false, List, [], ◌∷◌, ◌++◌, Option, none,
  some, arith, ltb, leb, ◌==◌, if◌then◌else◌, Bool-cases, Bytes, length, take, drop,
}
use local_web.Base.{set, leb→le, take_all, drop_all}
use local_web.Docs.Op.{
  Op, BlockType, paragraph, op_insert, op_delete, op_format_block, op_title_change, OpResult,
}
use local_web.Docs.Lines.{insert_slice, insert_slice_block, remove_slice}
use local_web.Docs.Document.{
  Document, touch, append_history, apply_op, apply_insert, apply_delete, apply_format_block,
  apply_title_change, rejected, DocError,
}
use local_web.Docs.Document.Invariant.{IsDocument}
use local_web.Docs.Document.Page.{
  Page, Edit, add_at, drop_at, set_at, perform, at_position, edit_of, ask, zip, view,
}

-- A result implements an abstract one: it is applied and has its view, or it is not applied and the
-- document is as it was.
unfoldable pub Implements : Document → Document × OpResult → Option Page → Type 0
Implements d (d', result) none = (d' ≡ d) × (result.applied ≡ false)
Implements d (d', result) (some p) = (view d' ≡ p) × (result.applied ≡ true)

module _ {ℓ} {A : Type ℓ} where
  -- Both branches of `insertSlice` come to one.
  pub insert_slice_lem :
      (s : List A) (pos : ℕ) (v : A) → insert_slice s pos v ≡ take pos s ++ (v ∷ drop pos s)
  unfolding insert_slice
  insert_slice_lem s pos v = elim (Bool-cases (leb (length s) pos)) [
    | inl e ↦
        let past : length s ≤ pos = leb→le (length s) pos e in
        rw (e, if◌then◌else◌, take_all pos s past, drop_all pos s past) refl
    | inr e ↦ rw (e, if◌then◌else◌) refl
  ]

  pub insert_slice_end :
      (s : List A) (pos : ℕ) (v : A) → pos ≡ length s → s ++ (v ∷ []) ≡ insert_slice s pos v
  unfolding insert_slice
  insert_slice_end s pos v h = ground arith

pub insert_slice_block_lem :
    (s : List ℕ) (pos : ℕ) → insert_slice_block s pos paragraph ≡ insert_slice s pos paragraph
unfolding insert_slice_block insert_slice
insert_slice_block_lem s pos = refl

add_at-zip :
    (i : ℕ) (l : Bytes) (t : BlockType) (ls : List Bytes) (ts : List BlockType)
    → length ts ≡ length ls
    → add_at i (l, t) (zip ls ts) ≡ (
        if ltb (length ls) i
        then none
        else some (zip (take i ls ++ (l ∷ drop i ls)) (take i ts ++ (t ∷ drop i ts))))
add_at-zip zero l t ls ts h = ground arith
add_at-zip (suc i) l t [] [] h = ground arith
add_at-zip (suc i) l t [] (s ∷ ts) h = absurd (omega (arith, h))
add_at-zip (suc i) l t (k ∷ ls) [] h = absurd (omega (arith, h))
add_at-zip (suc i) l t (k ∷ ls) (s ∷ ts) h =
    ground (arith, add_at-zip i l t ls ts (omega (arith, h)))

drop_at-zip :
    (i : ℕ) (ls : List Bytes) (ts : List BlockType)
    → length ts ≡ length ls
    → drop_at i (zip ls ts) ≡ (
        if leb (length ls) i
        then none
        else some (zip (take i ls ++ drop (suc i) ls) (take i ts ++ drop (suc i) ts)))
drop_at-zip i [] [] h = ground arith
drop_at-zip i [] (s ∷ ts) h = absurd (omega (arith, h))
drop_at-zip i (k ∷ ls) [] h = absurd (omega (arith, h))
drop_at-zip zero (k ∷ ls) (s ∷ ts) h = ground arith
drop_at-zip (suc i) (k ∷ ls) (s ∷ ts) h = ground (arith, drop_at-zip i ls ts (omega (arith, h)))

set_at-zip :
    (i t : ℕ) (ls : List Bytes) (ts : List BlockType)
    → length ts ≡ length ls
    → set_at i t (zip ls ts) ≡ (if leb (length ts) i then none else some (zip ls (set ts i t)))
set_at-zip i t [] [] h = ground arith
set_at-zip i t [] (s ∷ ts) h = absurd (omega (arith, h))
set_at-zip i t (k ∷ ls) [] h = absurd (omega (arith, h))
set_at-zip zero t (k ∷ ls) (s ∷ ts) h = ground arith
set_at-zip (suc i) t (k ∷ ls) (s ∷ ts) h = ground (arith, set_at-zip i t ls ts (omega (arith, h)))

apply_insert-Implements :
    (now : ℕ) (op : Op) (d : Document)
    → IsDocument d
    → Implements d
        (apply_insert now op d)
        (ask (at_position op (Edit.add_line op.position op.value)) (view d))
unfolding apply_insert Implements ask perform view append_history touch
apply_insert-Implements now op d h = ground (
  arith,
  h.blocks,
  add_at-zip op.position op.value paragraph d.lines d.block_types h.blocks,
  insert_slice_lem d.lines op.position op.value,
  insert_slice_lem d.block_types op.position paragraph,
  insert_slice_block_lem d.block_types op.position,
  insert_slice_end d.lines op.position op.value,
  insert_slice_end d.block_types op.position paragraph,
)

apply_delete-Implements :
    (now : ℕ) (op : Op) (d : Document)
    → IsDocument d
    → Implements d
        (apply_delete now op d)
        (ask (at_position op (Edit.drop_line op.position)) (view d))
unfolding apply_delete Implements ask perform view append_history touch remove_slice
apply_delete-Implements now op d h =
    ground (arith, h.blocks, drop_at-zip op.position d.lines d.block_types h.blocks)

apply_format_block-Implements :
    (now : ℕ) (op : Op) (d : Document)
    → IsDocument d
    → Implements d
        (apply_format_block now op d)
        (ask (at_position op (Edit.set_block op.position op.block_type)) (view d))
unfolding apply_format_block Implements ask perform view append_history touch
apply_format_block-Implements now op d h =
    ground (arith, h.blocks, set_at-zip op.position op.block_type d.lines d.block_types h.blocks)

apply_title_change-Implements :
    (now : ℕ) (op : Op) (d : Document)
    → Implements d (apply_title_change now op d) (ask (some (Edit.set_title op.title)) (view d))
unfolding apply_title_change Implements ask perform view touch
apply_title_change-Implements now op d = (refl, refl)

rejected-Implements :
    (op : Op) (d : Document)
    → Implements d (d, rejected (DocError.unknown_op_type op.op_type)) (ask none (view d))
unfolding Implements ask
rejected-Implements op d = (refl, refl)

branch :
    (b : Bool) (d : Document) (r r' : Document × OpResult) (e e' : Option Edit) (p : Page)
    → Implements d r (ask e p)
    → Implements d r' (ask e' p)
    → Implements d (if b then r else r') (ask (if b then e else e') p)
branch true d r r' e e' p h k = h
branch false d r r' e e' p h k = k

-- On a document with a block type for every line an operation is applied exactly if the abstract document
-- has room for its edit, and then makes that edit of lines and block types; otherwise it leaves the
-- document as it was.
pub apply_op-Implements :
    (now : ℕ) (op : Op) (d : Document)
    → IsDocument d
    → Implements d (apply_op now op d) (ask (edit_of op) (view d))
unfolding apply_op edit_of
apply_op-Implements now op d h =
    branch (op.op_type == op_insert) d _ _ _ _ (view d) (apply_insert-Implements now op d h) (
      branch (op.op_type == op_delete) d _ _ _ _ (view d) (apply_delete-Implements now op d h) (
        branch (op.op_type == op_format_block) d _ _ _ _ (view d)
          (apply_format_block-Implements now op d h)
          (branch (op.op_type == op_title_change) d _ _ _ _ (view d)
            (apply_title_change-Implements now op d) (rejected-Implements op d))))
