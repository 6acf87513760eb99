-- ===== src/Docs/Document/Merge.antt =====
-- pkg/services/docs/document.go, `Merge`: what a batch without inserts comes to.
use local_web.Base.{ℕ, ◌≡◌, refl, ◌∙◌, false, List, [], ◌∷◌, arith, ◌==◌, All}
use local_web.Docs.Op.{Op, op_insert}
use local_web.Docs.Document.{
  Document, touch, append_history, apply_op, apply_delete, apply_format_block, apply_title_change,
}
use local_web.Docs.Document.History.{merge, apply_all, rebuild_from_rga, lines_of, chars_from}

abbrev pub IsNoInsert : Op → Type 0
IsNoInsert op = (op.op_type == op_insert) ≡ false

apply_op-rga :
    (now : ℕ) (op : Op) (d : Document) → IsNoInsert op → (apply_op now op d).0.rga ≡ d.rga
unfolding apply_op apply_delete apply_format_block apply_title_change append_history touch
apply_op-rga now op d h = ground (arith, h)

apply_all-rga :
    (now : ℕ) (ops : List Op) (d : Document)
    → All IsNoInsert ops
    → (apply_all now ops d).rga ≡ d.rga
unfolding apply_all
apply_all-rga now [] d h = refl
apply_all-rga now (op ∷ ops) d h =
    apply_all-rga now ops (apply_op now op d).0 h.1 ∙ apply_op-rga now op d h.0

-- A batch without inserts, whatever it deletes, leaves the lines at what the characters of the RGA, deleted
-- ones included, gave ahead of it.
pub lines-merge :
    (now : ℕ) (ops : List Op) (d : Document)
    → All IsNoInsert ops
    → (merge now ops d).lines ≡ lines_of [] (chars_from 0 d.rga.length d.rga)
unfolding merge rebuild_from_rga
lines-merge now ops d h = rw (apply_all-rga now ops d h) refl
