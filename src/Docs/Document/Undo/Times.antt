-- ===== src/Docs/Document/Undo/Times.antt =====
-- pkg/services/docs/document.go, `Undo` and `Redo` of inserts.
use local_web.Base.{
  ℕ, zero, suc, ◌+◌, ◌≤◌, ◌≡◌, refl, sym, ap, ◌∙◌, true, List, [], ◌∷◌, ◌++◌, some, arith, length,
  length-append,
}
use mathlib.Core.Path.{ap₂}
use mathlib.Core.List.{append_assoc, append-nil}
use local_web.Base.{get_elem?}
use local_web.Docs.Op.{Op, paragraph, op_insert}
use local_web.Docs.Lines.{insert_slice}
use local_web.Docs.Document.{Document, touch, append_history, apply_op, apply_insert}
use local_web.Docs.Document.History.{undo, redo, apply_all}
use local_web.Docs.Document.Invariant.{IsDocument, apply_op-IsDocument}
use local_web.Docs.Lines.Lengths.{length-insert_slice}
use local_web.Docs.Document.Refinement.{insert_slice_block_lem, insert_slice_end}
use local_web.Docs.Document.Undo.{
  content, remove_slice-insert_slice, get_elem?_middle, revert_insert, replay_insert, undo_lem,
  redo_lem,
}

-- Operations that are inserts and are applied one after the other.
abbrev pub AreInserts : ℕ → List Op → Document → Type 0
AreInserts now [] d = Unit
AreInserts now (op ∷ ops) d =
    (op.op_type ≡ op_insert)
    × ((apply_op now op d).1.applied ≡ true)
    × AreInserts now ops (apply_op now op d).0

-- What an insert that is applied makes of a document.
record Inserted (op : Op) (d d' : Document) : Type 0 where
  within : op.position ≤ length d.lines
  lines : d'.lines ≡ insert_slice d.lines op.position op.value
  blocks : d'.block_types ≡ insert_slice d.block_types op.position paragraph
  history : d'.history ≡ d.history ++ (op ∷ [])
  index : d'.history_idx ≡ length d.history + 1

applied_insert :
    (now : ℕ) (op : Op) (d : Document)
    → IsDocument d
    → op.op_type ≡ op_insert
    → (apply_op now op d).1.applied ≡ true
    → Inserted op d (apply_op now op d).0
unfolding apply_op apply_insert append_history touch
applied_insert now op d h e a = record {
  within = ground (arith, e, a);
  lines = ground (arith, e, a, insert_slice_end d.lines op.position op.value);
  blocks = ground (
    arith,
    e,
    a,
    h.blocks,
    insert_slice_end d.block_types op.position paragraph,
    insert_slice_block_lem d.block_types op.position,
  );
  history = ground (arith, e, a);
  index = ground (arith, e, a, length-append d.history (op ∷ []));
}

-- The document `u` shows the content of `d`, and its history goes on with `ops`.
record Ready (ops : List Op) (d u : Document) : Type 0 where
  lines : u.lines ≡ d.lines
  blocks : u.block_types ≡ d.block_types
  history : u.history ≡ d.history ++ ops
  index : u.history_idx ≡ length d.history

undo_insert :
    (now : ℕ) (op : Op) (ops : List Op) (d d' u : Document)
    → IsDocument d
    → op.op_type ≡ op_insert
    → Inserted op d d'
    → Ready ops d' u
    → Ready (op ∷ ops) d (undo now u).0
unfolding touch
undo_insert now op ops d d' u h e i r =
    let longer : length d.lines + 1 ≡ length u.lines = omega (
      arith,
      length-insert_slice d.lines op.position op.value,
      ap length i.lines,
      ap length r.lines,
    ) in
    let idx : u.history_idx ≡ suc (length d.history) =
      omega (arith, r.index, ap length i.history, length-append d.history (op ∷ [])) in
    let goes_on : u.history ≡ d.history ++ (op ∷ ops) =
      r.history ∙ ap (λ x. x ++ ops) i.history ∙ append_assoc d.history (op ∷ []) ops in
    let last : get_elem? u.history (length d.history) ≡ some op =
      rw goes_on (get_elem?_middle d.history ops op) in
    rw
      (
        undo_lem now (length d.history) op u idx last,
        revert_insert op (record u { history_idx = length d.history }) e
            (omega (arith, i.within, longer)),
      )
      (record {
        lines =
            rw (r.lines, i.lines) (remove_slice-insert_slice d.lines op.position op.value i.within);
        blocks =
            rw (r.blocks, i.blocks)
              (remove_slice-insert_slice d.block_types op.position paragraph
                (omega (arith, i.within, h.blocks)));
        history = goes_on;
        index = refl;
      })

-- So many undos, or redos.
abbrev pub undo_times : ℕ → ℕ → Document → Document
undo_times now zero d = d
undo_times now (suc n) d = (undo now (undo_times now n d)).0

abbrev pub redo_times : ℕ → ℕ → Document → Document
redo_times now zero d = d
redo_times now (suc n) d = redo_times now n (redo now d).0

undo_more :
    (now : ℕ) (op : Op) (ops : List Op) (d : Document)
    → IsDocument d
    → AreInserts now (op ∷ ops) d
    → ((apply_op now op d).0.history_idx ≡ length (apply_op now op d).0.history
        → Ready ops
            (apply_op now op d).0
            (undo_times now (length ops) (apply_all now ops (apply_op now op d).0)))
    → Ready (op ∷ ops) d (undo_times now (length (op ∷ ops)) (apply_all now (op ∷ ops) d))
unfolding apply_all
undo_more now op ops d h (e, applied, a) rest =
    let done = applied_insert now op d h e applied in
    undo_insert now op ops d (apply_op now op d).0 _ h e done
      (rest (omega (arith, done.index, ap length done.history, length-append d.history (op ∷ []))))

undo_inserts :
    (now : ℕ) (ops : List Op) (d : Document)
    → IsDocument d
    → AreInserts now ops d
    → d.history_idx ≡ length d.history
    → Ready ops d (undo_times now (length ops) (apply_all now ops d))
unfolding apply_all
undo_inserts now [] d h a i = record {
  lines = refl;
  blocks = refl;
  history = sym (append-nil d.history);
  index = i;
}
undo_inserts now (op ∷ ops) d h a i =
    undo_more now op ops d h a
      (undo_inserts now ops (apply_op now op d).0 (apply_op-IsDocument now op d h) a.2)

Ready-content : (ops : List Op) (d u : Document) → Ready ops d u → content u ≡ content d
Ready-content ops d u r = ap₂ (λ x y. (x, y)) r.lines r.blocks

undone_inserts :
    (now : ℕ) (op : Op) (ops : List Op) (d : Document)
    → IsDocument d
    → AreInserts now (op ∷ ops) d
    → Ready (op ∷ ops) d (undo_times now (length (op ∷ ops)) (apply_all now (op ∷ ops) d))
undone_inserts now op ops d h a =
    undo_more now op ops d h a
      (undo_inserts now ops (apply_op now op d).0 (apply_op-IsDocument now op d h) a.2)

-- On a document with a block type for every line, as many undos as there were inserts, all of them
-- applied, give back the lines and the block types from ahead of them.
pub content-undo_times :
    (now : ℕ) (ops : List Op) (d : Document)
    → IsDocument d
    → AreInserts now ops d
    → content (undo_times now (length ops) (apply_all now ops d)) ≡ content d
content-undo_times now [] d h a = unfold apply_all in refl
content-undo_times now (op ∷ ops) d h a =
    Ready-content (op ∷ ops) d _ (undone_inserts now op ops d h a)

redo_insert :
    (now : ℕ) (op : Op) (ops : List Op) (d d' u : Document)
    → IsDocument d
    → op.op_type ≡ op_insert
    → Inserted op d d'
    → Ready (op ∷ ops) d u
    → Ready ops d' (redo now u).0
unfolding touch
redo_insert now op ops d d' u h e i r =
    let next : get_elem? u.history u.history_idx ≡ some op =
      rw (r.history, r.index) (get_elem?_middle d.history ops op) in
    rw
      (
        redo_lem now op u next,
        replay_insert op (record u { history_idx = suc u.history_idx }) e
            (omega (arith, i.within, ap length r.lines)),
      )
      (record {
        lines = rw (r.lines) (sym i.lines);
        blocks = rw (r.blocks) (sym i.blocks);
        history = rw (r.history, i.history) (sym (append_assoc d.history (op ∷ []) ops));
        index = omega (arith, r.index, ap length i.history, length-append d.history (op ∷ []));
      })

redo_inserts :
    (now : ℕ) (ops : List Op) (d u : Document)
    → IsDocument d
    → AreInserts now ops d
    → Ready ops d u
    → content (redo_times now (length ops) u) ≡ content (apply_all now ops d)
unfolding apply_all
redo_inserts now [] d u h a r = Ready-content [] d u r
redo_inserts now (op ∷ ops) d u h (e, applied, a) r =
    redo_inserts now ops (apply_op now op d).0 (redo now u).0 (apply_op-IsDocument now op d h) a
      (redo_insert now op ops d _ u h e (applied_insert now op d h e applied) r)

-- On a document with a block type for every line, as many redos after as many undos as there were inserts,
-- all of them applied, give back the lines and the block types that the inserts had made.
pub content-redo_times :
    (now : ℕ) (ops : List Op) (d : Document)
    → IsDocument d
    → AreInserts now ops d
    → content (redo_times now (length ops) (undo_times now (length ops) (apply_all now ops d)))
      ≡ content (apply_all now ops d)
content-redo_times now [] d h a = refl
content-redo_times now (op ∷ ops) d h a =
    redo_inserts now (op ∷ ops) d _ h a (undone_inserts now op ops d h a)
