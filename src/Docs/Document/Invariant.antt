-- ===== src/Docs/Document/Invariant.antt =====
-- pkg/services/docs/document.go: what every session keeps.
use local_web.Base.{
  ℕ, zero, suc, ◌≤◌, ◌≡◌, refl, ap, ◌∙◌, inl, inr, false, ◌||◌, List, [], ◌∷◌, arith, ltb, leb,
  if◌then◌else◌, Bool-cases, Option-cases, Bytes, length, All,
}
use local_web.Base.{get_elem?, length-set, All-append, lt-get_elem?}
use local_web.Docs.Op.{Op, new_delete_op, new_format_block_op}
use local_web.Docs.Lines.Lengths.{
  length-insert_slice, length-remove_slice, length-snoc, length-insert_slice_block,
}
use local_web.Docs.Document.{
  Document, new_document, touch, append_history, apply_op, apply_insert, apply_delete,
  apply_format_block, apply_title_change, is_negative, paragraph,
}
use local_web.Docs.Document.History.{
  undo, redo, revert, replay, merge, apply_all, rebuild_from_rga, overlay, paragraphs,
}

-- A block type for every line, a history index within the history, and no negative position in it.
pub record IsDocument (d : Document) : Type 0 where
  pub blocks : length d.block_types ≡ length d.lines
  pub index : d.history_idx ≤ length d.history
  pub positions : All (λ op. is_negative op.position ≡ false) d.history

pub new_document-IsDocument :
    (id title node_id : Bytes) → IsDocument (new_document id title node_id)
new_document-IsDocument id title node_id = record {
  blocks = refl;
  index = omega arith;
  positions = tt;
}

-- An operation that is put into the history, after a change to lines and block types that keeps them
-- equally long.
recorded-IsDocument :
    (now : ℕ) (op : Op) (d d' : Document)
    → IsDocument d
    → is_negative op.position ≡ false
    → d'.history ≡ d.history
    → length d'.block_types ≡ length d'.lines
    → IsDocument (append_history op (touch now d'))
unfolding append_history touch
recorded-IsDocument now op d d' h pos e same_length = record {
  blocks = same_length;
  index = omega arith;
  positions = rw e (All-append _ d.history (op ∷ []) h.positions (pos, tt));
}

apply_insert-IsDocument :
    (now : ℕ) (op : Op) (d : Document) → IsDocument d → IsDocument (apply_insert now op d).0
unfolding apply_insert
apply_insert-IsDocument now op d h =
    elim (Bool-cases (is_negative op.position || ltb (length d.lines) op.position)) [
      | inl e ↦ rw (e, if◌then◌else◌) h
      | inr e ↦
          rw (e, if◌then◌else◌)
            (recorded-IsDocument now op d _ h (ground arith) refl (
              ground (
                arith,
                h.blocks,
                length-snoc d.lines op.value,
                length-snoc d.block_types paragraph,
                length-insert_slice d.lines op.position op.value,
                length-insert_slice_block d.block_types op.position paragraph,
              )))
    ]

apply_delete-IsDocument :
    (now : ℕ) (op : Op) (d : Document) → IsDocument d → IsDocument (apply_delete now op d).0
unfolding apply_delete
apply_delete-IsDocument now op d h =
    elim (Bool-cases (is_negative op.position || leb (length d.lines) op.position)) [
      | inl e ↦ rw (e, if◌then◌else◌) h
      | inr e ↦
          rw (e, if◌then◌else◌)
            (recorded-IsDocument now (new_delete_op d.id op.author_id op.position op.timestamp) d _
              h (unfold new_delete_op in ground arith) refl
              (ground (
                arith,
                h.blocks,
                length-remove_slice d.lines op.position,
                length-remove_slice d.block_types op.position,
              )))
    ]

apply_format_block-IsDocument :
    (now : ℕ) (op : Op) (d : Document) → IsDocument d → IsDocument (apply_format_block now op d).0
unfolding apply_format_block
apply_format_block-IsDocument now op d h =
    elim (Bool-cases (is_negative op.position || leb (length d.block_types) op.position)) [
      | inl e ↦ rw (e, if◌then◌else◌) h
      | inr e ↦
          rw (e, if◌then◌else◌)
            (recorded-IsDocument now
              (new_format_block_op d.id op.author_id op.position op.block_type op.timestamp) d _ h
              (unfold new_format_block_op in ground arith) refl
              (ground (arith, h.blocks, length-set d.block_types op.position op.block_type)))
    ]

apply_title_change-IsDocument :
    (now : ℕ) (op : Op) (d : Document) → IsDocument d → IsDocument (apply_title_change now op d).0
unfolding apply_title_change touch
apply_title_change-IsDocument now op d h = record {
  blocks = h.blocks;
  index = h.index;
  positions = h.positions;
}

pub apply_op-IsDocument :
    (now : ℕ) (op : Op) (d : Document) → IsDocument d → IsDocument (apply_op now op d).0
unfolding apply_op
apply_op-IsDocument now op d h = ground (
  arith,
  apply_insert-IsDocument now op d h,
  apply_delete-IsDocument now op d h,
  apply_format_block-IsDocument now op d h,
  apply_title_change-IsDocument now op d h,
  h,
)

-- A switch of `Undo` or `Redo` keeps the history, and the lines and the block types equally long.
abbrev IsSwitch : Document → Document → Type 0
IsSwitch d d' =
    (length d'.block_types ≡ length d'.lines)
    × (d'.history_idx ≡ d.history_idx)
    × (d'.history ≡ d.history)

revert-IsSwitch :
    (op : Op) (d : Document) → length d.block_types ≡ length d.lines → IsSwitch d (revert op d).0
unfolding revert
revert-IsSwitch op d h = ground (
  arith,
  h,
  length-remove_slice d.lines op.position,
  length-remove_slice d.block_types op.position,
  length-insert_slice d.lines op.position op.value,
  length-insert_slice_block d.block_types op.position paragraph,
  length-set d.block_types op.position paragraph,
)

replay-IsSwitch :
    (op : Op) (d : Document) → length d.block_types ≡ length d.lines → IsSwitch d (replay op d).0
unfolding replay
replay-IsSwitch op d h = ground (
  arith,
  h,
  length-remove_slice d.lines op.position,
  length-remove_slice d.block_types op.position,
  length-insert_slice d.lines op.position op.value,
  length-insert_slice_block d.block_types op.position paragraph,
  length-set d.block_types op.position op.block_type,
)

switched-IsDocument :
    (now i : ℕ) (d d' : Document)
    → IsDocument d
    → i ≤ length d.history
    → IsSwitch (record d { history_idx = i }) d'
    → IsDocument (touch now d')
unfolding touch
switched-IsDocument now i d d' h k (same_length, idx, kept) = record {
  blocks = same_length;
  index = rw (idx, kept) k;
  positions = rw kept h.positions;
}

pub undo-IsDocument : (now : ℕ) (d : Document) → IsDocument d → IsDocument (undo now d).0
unfolding undo
undo-IsDocument now d h = at d.history_idx refl
  where
    at : (i : ℕ) → d.history_idx ≡ i → IsDocument (undo now d).0
    at zero e = rw (undo, e) h
    at (suc i) e = elim (Option-cases (get_elem? d.history i)) [
      | inl f ↦ rw (undo, e, f) h
      | inr (op, f) ↦
          rw (undo, e, f)
            (switched-IsDocument now i d _ h (omega (arith, h.index, e))
              (revert-IsSwitch op (record d { history_idx = i }) h.blocks))
    ]

pub redo-IsDocument : (now : ℕ) (d : Document) → IsDocument d → IsDocument (redo now d).0
unfolding redo
redo-IsDocument now d h = elim (Option-cases (get_elem? d.history d.history_idx)) [
  | inl f ↦ rw (redo, f) h
  | inr (op, f) ↦
      rw (redo, f)
        (switched-IsDocument now (suc d.history_idx) d _ h (lt-get_elem? d.history_idx d.history f)
          (replay-IsSwitch op (record d { history_idx = suc d.history_idx }) h.blocks))
]

apply_all-IsDocument :
    (now : ℕ) (ops : List Op) (d : Document) → IsDocument d → IsDocument (apply_all now ops d)
unfolding apply_all
apply_all-IsDocument now [] d h = h
apply_all-IsDocument now (op ∷ ops) d h =
    apply_all-IsDocument now ops (apply_op now op d).0 (apply_op-IsDocument now op d h)

length-overlay : (old bs : List ℕ) → length (overlay old bs) ≡ length bs
unfolding overlay
length-overlay old [] = refl
length-overlay [] (b ∷ bs) = refl
length-overlay (o ∷ old) (b ∷ bs) = ap suc (length-overlay old bs)

length-paragraphs : (n : ℕ) → length (paragraphs n) ≡ n
length-paragraphs zero = refl
length-paragraphs (suc n) = ap suc (length-paragraphs n)

pub merge-IsDocument :
    (now : ℕ) (ops : List Op) (d : Document) → IsDocument d → IsDocument (merge now ops d)
unfolding merge rebuild_from_rga
merge-IsDocument now ops d h =
    let k = apply_all-IsDocument now ops d h in
    record {
      blocks = length-overlay _ _ ∙ length-paragraphs _;
      index = k.index;
      positions = k.positions;
    }
