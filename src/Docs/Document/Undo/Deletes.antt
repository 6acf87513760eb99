-- ===== src/Docs/Document/Undo/Deletes.antt =====
-- pkg/services/docs/document.go, `Undo` of a delete.
use local_web.Base.{ℕ, ◌≤◌, ◌<◌, ◌≡◌, refl, ◌∙◌, false, [], ◌∷◌, arith, length, length-append}
use mathlib.Core.Path.{ap₂}
use local_web.Base.{set, get_elem?_last}
use local_web.Docs.Op.{Op, paragraph, op_delete, new_delete_op}
use local_web.Docs.Lines.{insert_slice, remove_slice}
use local_web.Docs.Document.{Document, touch, append_history, apply_op, apply_delete, is_negative}
use local_web.Docs.Document.History.{undo, revert}
use local_web.Docs.Document.Invariant.{IsDocument}
use local_web.Docs.Lines.Lengths.{length-remove_slice}
use local_web.Docs.Document.Refinement.{insert_slice_block_lem}
use local_web.Docs.Document.Undo.{content, insert_slice-remove_slice, undo_lem}

deleted : ℕ → Op → Document → Document
deleted now op d = append_history (new_delete_op d.id op.author_id op.position op.timestamp) (
    touch now (record d {
      lines = remove_slice d.lines op.position;
      block_types = remove_slice d.block_types op.position;
    }))

apply_op_deletes :
    (now : ℕ) (op : Op) (d : Document)
    → op.op_type ≡ op_delete
    → op.position < length d.lines
    → is_negative op.position ≡ false
    → (apply_op now op d).0 ≡ deleted now op d
unfolding apply_op apply_delete deleted
apply_op_deletes now op d e k n = ground (arith, e, n)

revert_delete :
    (del : Op) (d : Document)
    → del.op_type ≡ op_delete
    → del.position ≤ length d.lines
    → content (revert del d).0 ≡ (
      insert_slice d.lines del.position del.value,
      insert_slice d.block_types del.position paragraph,
    )
unfolding revert
revert_delete del d e h = ground (arith, e, insert_slice_block_lem d.block_types del.position)

content-undo-deleted :
    (now : ℕ) (op : Op) (d : Document)
    → IsDocument d
    → op.position < length d.lines
    → content (undo now (deleted now op d)).0
      ≡ (set d.lines op.position [], set d.block_types op.position paragraph)
unfolding deleted append_history touch new_delete_op
content-undo-deleted now op d h k =
    let del = new_delete_op d.id op.author_id op.position op.timestamp in
    let shorter = length-remove_slice d.lines op.position k in
    rw
      (undo_lem now (length d.history) del (deleted now op d)
        (length-append d.history (del ∷ []) ∙ omega arith) (get_elem?_last d.history del))
      (revert_delete del (record (deleted now op d) { history_idx = length d.history }) refl
          (omega (arith, shorter))
        ∙ ap₂ (λ x y. (x, y)) (insert_slice-remove_slice d.lines op.position [] k)
            (insert_slice-remove_slice d.block_types op.position paragraph
              (omega (arith, h.blocks))))

-- On a document with a block type for every line, undoing a delete that was applied does not bring the
-- line back: an empty paragraph stands in its place.
pub content-undo-delete :
    (now : ℕ) (op : Op) (d : Document)
    → IsDocument d
    → op.op_type ≡ op_delete
    → op.position < length d.lines
    → is_negative op.position ≡ false
    → content (undo now (apply_op now op d).0).0
      ≡ (set d.lines op.position [], set d.block_types op.position paragraph)
content-undo-delete now op d h e k n =
    rw (apply_op_deletes now op d e k n) (content-undo-deleted now op d h k)
