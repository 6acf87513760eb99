-- ===== src/Docs/Document/History.antt =====
-- pkg/services/docs/document.go: `Undo`, `Redo`, `Merge` and the lines that are rebuilt from the RGA.
use local_web.Base.{
  ℕ, zero, suc, ◌+◌, Bool, false, List, [], ◌∷◌, ◌++◌, none, some, ltb, leb, ◌==◌, if◌then◌else◌,
  Bytes, same, length,
}
use local_web.Base.{get_elem?, set}
use local_web.Crdt.Rga.{Rga, get}
use local_web.Docs.Op.{
  Op, BlockType, paragraph, op_insert, op_delete, op_format_block, op_title_change, OpResult,
  DocError,
}
use local_web.Docs.Lines.{insert_slice, insert_slice_block, remove_slice, newline}
use local_web.Docs.Document.{Document, touch, apply_op, applied_at, rejected}

-- The zero value, which `Undo` and `Redo` give where the operation does not fit.
abbrev pub no_result : OpResult
no_result = record { applied = false; position = 0; error = none }

-- The switch of `Undo`.
unfoldable pub revert : Op → Document → Document × OpResult
revert op d =
    if op.op_type == op_insert
    then if ltb op.position (length d.lines)
      then (
        record d {
          lines = remove_slice d.lines op.position;
          block_types = remove_slice d.block_types op.position;
        },
        applied_at op.position,
      )
      else (d, no_result)
    else if op.op_type == op_delete
    then if leb op.position (length d.lines)
      then (
        record d {
          lines = insert_slice d.lines op.position op.value;
          block_types = insert_slice_block d.block_types op.position paragraph;
        },
        applied_at op.position,
      )
      else (d, no_result)
    else if op.op_type == op_format_block
    then if ltb op.position (length d.block_types)
      then (
        record d { block_types = set d.block_types op.position paragraph },
        applied_at op.position,
      )
      else (d, no_result)
    else if op.op_type == op_title_change
    then (record d { title = [] }, applied_at 0)
    else (d, no_result)

-- The history holds operations that were applied, whose positions are not negative, so that they compare
-- as they are.
unfoldable pub undo : ℕ → Document → Document × OpResult
undo now d = elim d.history_idx [
  | zero ↦ (d, rejected DocError.nothing_to_undo)
  | suc i ↦ elim (get_elem? d.history i) [
    | none ↦ (d, rejected DocError.nothing_to_undo)
    | some op ↦
        let (d', result) = revert op (record d { history_idx = i }) in (touch now d', result)
  ]
]

-- The switch of `Redo`.
unfoldable pub replay : Op → Document → Document × OpResult
replay op d =
    if op.op_type == op_insert
    then if leb op.position (length d.lines)
      then (
        record d {
          lines = insert_slice d.lines op.position op.value;
          block_types = insert_slice_block d.block_types op.position paragraph;
        },
        applied_at op.position,
      )
      else (d, no_result)
    else if op.op_type == op_delete
    then if ltb op.position (length d.lines)
      then (
        record d {
          lines = remove_slice d.lines op.position;
          block_types = remove_slice d.block_types op.position;
        },
        applied_at op.position,
      )
      else (d, no_result)
    else if op.op_type == op_format_block
    then if ltb op.position (length d.block_types)
      then (
        record d { block_types = set d.block_types op.position op.block_type },
        applied_at op.position,
      )
      else (d, no_result)
    else if op.op_type == op_title_change
    then (record d { title = op.title }, applied_at 0)
    else (d, no_result)

unfoldable pub redo : ℕ → Document → Document × OpResult
redo now d = elim (get_elem? d.history d.history_idx) [
  | none ↦ (d, rejected DocError.nothing_to_redo)
  | some op ↦
      let (d', result) = replay op (record d { history_idx = suc d.history_idx }) in
      (touch now d', result)
]

unfoldable pub can_undo : Document → Bool
can_undo d = ltb 0 d.history_idx

unfoldable pub can_redo : Document → Bool
can_redo d = ltb d.history_idx (length d.history)

-- The characters from the i-th on, up to the first that `Get` refuses.
unfoldable pub chars_from : ℕ → ℕ → Rga → List Bytes
chars_from i zero r = []
chars_from i (suc n) r = elim (get i r) [ none ↦ [] | some ch ↦ ch ∷ chars_from (i + 1) n r ]

-- The loop of `rebuildFromRGA`, with the line that it is on.
unfoldable pub lines_of : Bytes → List Bytes → List Bytes
lines_of current [] = current ∷ []
lines_of current (ch ∷ chs) =
    if same ch (newline ∷ []) then current ∷ lines_of [] chs else lines_of (current ++ ch) chs

abbrev pub paragraphs : ℕ → List BlockType
paragraphs zero = []
paragraphs (suc n) = paragraph ∷ paragraphs n

-- The old block types, as far as there are lines for them.
unfoldable pub overlay : List BlockType → List BlockType → List BlockType
overlay old [] = []
overlay [] (b ∷ bs) = b ∷ bs
overlay (o ∷ old) (b ∷ bs) = o ∷ overlay old bs

unfoldable pub rebuild_from_rga : Document → Document
unfolding lines_of chars_from overlay
rebuild_from_rga d =
    let ls = lines_of [] (chars_from 0 d.rga.length d.rga) in
    record d { lines = ls; block_types = overlay d.block_types (paragraphs (length ls)) }

-- The loop of `Merge`; an operation of no known type changes nothing there either.
unfoldable pub apply_all : ℕ → List Op → Document → Document
apply_all now [] d = d
apply_all now (op ∷ ops) d = apply_all now ops (apply_op now op d).0

unfoldable pub merge : ℕ → List Op → Document → Document
unfolding apply_all rebuild_from_rga
merge now ops d = rebuild_from_rga (apply_all now ops d)
