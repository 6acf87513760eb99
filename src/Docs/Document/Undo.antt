-- ===== src/Docs/Document/Undo.antt =====
-- pkg/services/docs/document.go, `Undo` and `Redo`: what one of them makes of a document.
pub mod Times
pub mod Deletes
use local_web.Base.{
  ℕ, zero, suc, ◌+◌, ◌-◌, ◌*◌, ◌/◌, ◌%◌, ◌^◌, ◌≤◌, ◌<◌, ◌≡◌, ◌≢◌, refl, sym, ap, ◌∙◌, ◌↔◌, ◌⊎◌, inl,
  inr, Bool, true, false, not, ◌&&◌, ◌||◌, List, [], ◌∷◌, ◌++◌, map, Option, none, some, some_inj,
  arith, ltb, leb, ◌==◌, ==_iff, if◌then◌else◌, Bool-cases, Bool-ext, Option-cases, Bytes, codes,
  same, same_iff, same_refl, member, length, length-append, take, drop, All, any, keep,
  length-keep-le, Dict, lookup, put, delete, lookup-put, lookup-delete, check_range, test_in_range,
}
use mathlib.Core.Path.{ap₂}
use mathlib.Core.List.{append_assoc, append-nil}
use local_web.Base.{set, get_elem?, get_elem?_last}
use local_web.Docs.Op.{Op, BlockType, paragraph, op_insert, op_delete, OpResult, new_delete_op}
use local_web.Docs.Lines.{insert_slice, insert_slice_block, remove_slice}
use local_web.Docs.Document.{
  Document, touch, append_history, apply_op, apply_insert, apply_delete, is_negative,
}
use local_web.Docs.Document.History.{undo, redo, revert, replay, apply_all}
use local_web.Docs.Document.Invariant.{IsDocument, apply_op-IsDocument}
use local_web.Docs.Lines.Lengths.{length-insert_slice, length-remove_slice}
use local_web.Docs.Document.Refinement.{insert_slice_lem, insert_slice_block_lem, insert_slice_end}

-- What the readers of a document see below its title.
abbrev pub content : Document → List Bytes × List BlockType
content d = (d.lines, d.block_types)

module _ {ℓ} {A : Type ℓ} where
  remove_taken :
      (s : List A) (p : ℕ) (v : A)
      → p ≤ length s
      → take p (take p s ++ (v ∷ drop p s)) ++ drop (suc p) (take p s ++ (v ∷ drop p s)) ≡ s
  remove_taken s zero v h = refl
  remove_taken [] (suc p) v h = absurd (omega (arith, h))
  remove_taken (x ∷ s) (suc p) v h = ap (◌∷◌ x) (remove_taken s p v (omega (arith, h)))

  pub remove_slice-insert_slice :
      (s : List A) (p : ℕ) (v : A) → p ≤ length s → remove_slice (insert_slice s p v) p ≡ s
  unfolding remove_slice
  remove_slice-insert_slice s p v h = rw (insert_slice_lem s p v) (remove_taken s p v h)

  set_taken :
      (s : List A) (p : ℕ) (v : A)
      → p < length s
      → take p (take p s ++ drop (suc p) s) ++ (v ∷ drop p (take p s ++ drop (suc p) s)) ≡ set s p v
  set_taken [] p v h = absurd (omega (arith, h))
  set_taken (x ∷ s) zero v h = refl
  set_taken (x ∷ s) (suc p) v h = ap (◌∷◌ x) (set_taken s p v (omega (arith, h)))

  pub insert_slice-remove_slice :
      (s : List A) (p : ℕ) (v : A) → p < length s → insert_slice (remove_slice s p) p v ≡ set s p v
  unfolding remove_slice
  insert_slice-remove_slice s p v h =
      insert_slice_lem (take p s ++ drop (suc p) s) p v ∙ set_taken s p v h

  pub get_elem?_middle : (xs ys : List A) (y : A) → get_elem? (xs ++ (y ∷ ys)) (length xs) ≡ some y
  get_elem?_middle [] ys y = refl
  get_elem?_middle (x ∷ xs) ys y = get_elem?_middle xs ys y

pub revert_insert :
    (op : Op) (d : Document)
    → op.op_type ≡ op_insert
    → op.position < length d.lines
    → (revert op d).0 ≡ record d {
      lines = remove_slice d.lines op.position;
      block_types = remove_slice d.block_types op.position;
    }
unfolding revert
revert_insert op d e h = ground (arith, e)

pub replay_insert :
    (op : Op) (d : Document)
    → op.op_type ≡ op_insert
    → op.position ≤ length d.lines
    → (replay op d).0 ≡ record d {
      lines = insert_slice d.lines op.position op.value;
      block_types = insert_slice d.block_types op.position paragraph;
    }
unfolding replay
replay_insert op d e h = ground (arith, e, insert_slice_block_lem d.block_types op.position)

pub undo_lem :
    (now i : ℕ) (op : Op) (u : Document)
    → u.history_idx ≡ suc i
    → get_elem? u.history i ≡ some op
    → (undo now u).0 ≡ touch now (revert op (record u { history_idx = i })).0
unfolding undo
undo_lem now i op u e f = rw (undo, e, f) refl

pub redo_lem :
    (now : ℕ) (op : Op) (u : Document)
    → get_elem? u.history u.history_idx ≡ some op
    → (redo now u).0 ≡ touch now (replay op (record u { history_idx = suc u.history_idx })).0
unfolding redo
redo_lem now op u f = rw (redo, f) refl
