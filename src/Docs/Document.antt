-- ===== src/Docs/Document.antt =====
-- pkg/services/docs/document.go: the document and the operations on it. The events that it emits are
-- results of the functions; the channel that may drop them and the handler behind it are not modelled. The
-- clock is an argument.
pub mod History
pub mod Invariant
pub mod Sessions
pub mod Page
pub mod Refinement
pub mod Undo
pub mod Merge
pub mod Codec
pub mod RoundTrip
use local_web.Base.{
  ℕ, zero, suc, ◌+◌, ◌-◌, ◌*◌, ◌/◌, ◌%◌, ◌^◌, ◌≤◌, ◌<◌, ◌≡◌, ◌≢◌, refl, sym, ap, ◌∙◌, ◌↔◌, ◌⊎◌, inl,
  inr, Bool, true, false, not, ◌&&◌, ◌||◌, List, [], ◌∷◌, ◌++◌, map, Option, none, some, some_inj,
  arith, ltb, leb, ◌==◌, ==_iff, if◌then◌else◌, Bool-cases, Bool-ext, Option-cases, Bytes, codes,
  same, same_iff, same_refl, member, length, length-append, take, drop, All, any, keep,
  length-keep-le, Dict, lookup, put, delete, lookup-put, lookup-delete, check_range, test_in_range,
}
use local_web.Base.{get_elem?, set}
use local_web.Base.Int64.{lt_int64, inc_int64}
use local_web.Base.Wire.{zeros}
use local_web.Crdt.Rga.{Rga, new_rga, get, insert, format_id, head_id}
use local_web.Docs.Op.{
  Op, BlockType, paragraph, OpType, op_insert, op_delete, op_format_block, op_title_change,
  OpResult, DocError, DocEvent, new_insert_op, new_delete_op, new_format_block_op,
}
use local_web.Docs.Lines.{insert_slice, insert_slice_block, remove_slice, newline, join_lines}
use local_web.Docs.Runes.{runes}

pub record Document : Type 0 where
  pub id : Bytes
  pub title : Bytes
  pub rga : Rga
  pub block_types : List BlockType
  pub lines : List Bytes
  pub history : List Op
  pub history_idx : ℕ
  pub version : ℕ
  pub updated_at : ℕ
  pub node_id : Bytes

abbrev pub new_document : Bytes → Bytes → Bytes → Document
new_document id title node_id = record {
  id = id;
  title = title;
  rga = new_rga node_id;
  block_types = [];
  lines = [];
  history = [];
  history_idx = 0;
  version = 0;
  updated_at = 0;
  node_id = node_id;
}

unfoldable pub text : Document → Bytes
text d = join_lines d.lines

unfoldable pub line_count : Document → ℕ
line_count d = length d.lines

pub record DocumentState : Type 0 where
  pub doc_id : Bytes
  pub title : Bytes
  pub content : List Bytes
  pub block_types : List BlockType
  pub length : ℕ
  pub version : ℕ
  pub updated_at : ℕ

unfoldable pub state : Document → DocumentState
state d = record {
  doc_id = d.id;
  title = d.title;
  content = d.lines;
  block_types = d.block_types;
  length = d.rga.length;
  version = d.version;
  updated_at = d.updated_at;
}

-- The id that `pushLineToRGA` makes up for the last character.
unfoldable pub last_char_id : Bytes → Rga → Bytes
last_char_id node_id r =
    if ltb 0 r.length
    then elim (get (r.length - 1) r) [
      | none ↦ head_id
      | some ch ↦ if same ch [] then head_id else format_id 0 node_id ch
    ]
    else head_id

-- Only the first character is put behind the id; the others are put behind the empty one.
unfoldable pub push_chars : Bytes → List Bytes → Rga → Rga
push_chars after_id [] r = r
push_chars after_id (ch ∷ chs) r = push_chars [] chs (insert after_id ch r)

unfoldable pub push_line_to_rga : Bytes → ℕ → Bytes → Rga → Rga
unfolding last_char_id push_chars
push_line_to_rga node_id line_pos line_text r =
    let chars = runes line_text in
    push_chars (last_char_id node_id r)
      (if ltb line_pos r.length then (newline ∷ []) ∷ chars else chars) r

abbrev pub rejected : DocError → OpResult
rejected e = record { applied = false; position = 0; error = some e }

abbrev pub applied_at : ℕ → OpResult
applied_at pos = record { applied = true; position = pos; error = none }

-- A step of the version, and an operation at the end of the history.
unfoldable pub touch : ℕ → Document → Document
touch now d = record d { version = inc_int64 d.version; updated_at = now }

unfoldable pub append_history : Op → Document → Document
append_history op d = record d {
  history = d.history ++ (op ∷ []);
  history_idx = length (d.history ++ (op ∷ []));
}

unfoldable pub is_negative : ℕ → Bool
is_negative pos = lt_int64 pos 0

unfoldable pub apply_insert : ℕ → Op → Document → Document × OpResult
apply_insert now op d =
    if is_negative op.position || ltb (length d.lines) op.position
    then (d, rejected DocError.insert_out_of_range)
    else (
      append_history op (
          touch now (record d {
            lines =
                if op.position == length d.lines
                then d.lines ++ (op.value ∷ [])
                else insert_slice d.lines op.position op.value;
            block_types =
                if op.position == length d.lines
                then d.block_types ++ (paragraph ∷ [])
                else insert_slice_block d.block_types op.position paragraph;
            rga = push_line_to_rga d.node_id op.position op.value d.rga;
          })),
      applied_at op.position,
    )

unfoldable pub apply_delete : ℕ → Op → Document → Document × OpResult
apply_delete now op d =
    if is_negative op.position || leb (length d.lines) op.position
    then (d, rejected DocError.delete_out_of_range)
    else (
      append_history (new_delete_op d.id op.author_id op.position op.timestamp) (
          touch now (record d {
            lines = remove_slice d.lines op.position;
            block_types = remove_slice d.block_types op.position;
          })),
      applied_at op.position,
    )

unfoldable pub apply_format_block : ℕ → Op → Document → Document × OpResult
apply_format_block now op d =
    if is_negative op.position || leb (length d.block_types) op.position
    then (d, rejected DocError.format_out_of_range)
    else (
      append_history (new_format_block_op d.id op.author_id op.position op.block_type op.timestamp)
          (touch now (record d { block_types = set d.block_types op.position op.block_type })),
      applied_at op.position,
    )

unfoldable pub apply_title_change : ℕ → Op → Document → Document × OpResult
apply_title_change now op d = (touch now (record d { title = op.title }), applied_at 0)

unfoldable pub apply_op : ℕ → Op → Document → Document × OpResult
apply_op now op d =
    if op.op_type == op_insert
    then apply_insert now op d
    else if op.op_type == op_delete
    then apply_delete now op d
    else if op.op_type == op_format_block
    then apply_format_block now op d
    else if op.op_type == op_title_change
    then apply_title_change now op d
    else (d, rejected (DocError.unknown_op_type op.op_type))

-- `stringToID`.
unfoldable pub string_to_id : Bytes → Bytes
string_to_id s = take 32 s ++ zeros (32 - length s)

-- The local edits: `ts` is the time of the operation, and the event is the one that is emitted.
unfoldable pub edit : ℕ → Op → Document → Document × (OpResult × Option DocEvent)
edit now op d =
    let (d', result) = apply_op now op d in
    (
      d',
      (
        result,
        if result.applied then some (record { doc_id = d'.id; op = op; result = result }) else none,
      ),
    )

unfoldable pub insert_line : ℕ → ℕ → ℕ → Bytes → Document → Document × (OpResult × Option DocEvent)
insert_line ts now position line d =
    edit now (new_insert_op d.id (string_to_id d.node_id) position line ts) d

unfoldable pub delete_line : ℕ → ℕ → ℕ → Document → Document × (OpResult × Option DocEvent)
delete_line ts now position d = edit now (new_delete_op d.id (string_to_id d.node_id) position ts) d

unfoldable pub format_block :
    ℕ → ℕ → ℕ → BlockType → Document → Document × (OpResult × Option DocEvent)
format_block ts now position bt d =
    edit now (new_format_block_op d.id (string_to_id d.node_id) position bt ts) d
