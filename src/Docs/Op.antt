-- ===== src/Docs/Op.antt =====
-- pkg/services/docs/types.go: block types, operations, results and events. A type is its byte, an int64
-- or int its bit pattern.
pub mod Codec
pub mod RoundTrip
use local_web.Base.{
  ℕ, zero, suc, ◌+◌, ◌-◌, ◌*◌, ◌/◌, ◌%◌, ◌^◌, ◌≤◌, ◌<◌, ◌≡◌, ◌≢◌, refl, sym, ap, ◌∙◌, ◌↔◌, ◌⊎◌, inl,
  inr, Bool, true, false, not, ◌&&◌, ◌||◌, List, [], ◌∷◌, ◌++◌, map, Option, none, some, some_inj,
  arith, ltb, leb, ◌==◌, ==_iff, if◌then◌else◌, Bool-cases, Bool-ext, Option-cases, Bytes, codes,
  same, same_iff, same_refl, member, length, length-append, take, drop, All, any, keep,
  length-keep-le, Dict, lookup, put, delete, lookup-put, lookup-delete, check_range, test_in_range,
}

abbrev pub BlockType : Type 0
BlockType = ℕ

abbrev pub paragraph : BlockType
paragraph = 0

abbrev pub heading1 : BlockType
heading1 = 1

abbrev pub heading2 : BlockType
heading2 = 2

abbrev pub heading3 : BlockType
heading3 = 3

abbrev pub bullet_list : BlockType
bullet_list = 4

abbrev pub numbered_list : BlockType
numbered_list = 5

abbrev pub code_block : BlockType
code_block = 6

abbrev pub quote : BlockType
quote = 7

-- `BlockType.String`.
unfoldable pub block_type_string : BlockType → Bytes
block_type_string b =
    if b == heading1
    then codes "heading1"
    else if b == heading2
    then codes "heading2"
    else if b == heading3
    then codes "heading3"
    else if b == bullet_list
    then codes "bullet_list"
    else if b == numbered_list
    then codes "numbered_list"
    else if b == code_block
    then codes "code_block"
    else if b == quote
    then codes "quote"
    else codes "paragraph"

unfoldable pub parse_block_type : Bytes → BlockType
parse_block_type s =
    if same s (codes "heading1")
    then heading1
    else if same s (codes "heading2")
    then heading2
    else if same s (codes "heading3")
    then heading3
    else if same s (codes "bullet_list")
    then bullet_list
    else if same s (codes "numbered_list")
    then numbered_list
    else if same s (codes "code_block")
    then code_block
    else if same s (codes "quote")
    then quote
    else paragraph

-- The names of the eight block types are parsed back; a byte past them has the name of a paragraph.
pub parse_block_type-block_type_string :
    (b : BlockType) → parse_block_type (block_type_string b) ≡ (if ltb b 8 then b else paragraph)
unfolding parse_block_type block_type_string
parse_block_type-block_type_string b = ground arith

abbrev pub OpType : Type 0
OpType = ℕ

abbrev pub op_insert : OpType
op_insert = 0

abbrev pub op_delete : OpType
op_delete = 1

abbrev pub op_format_block : OpType
op_format_block = 2

abbrev pub op_title_change : OpType
op_title_change = 3

-- `OpType.String`.
unfoldable pub op_type_string : OpType → Bytes
op_type_string o =
    if o == op_delete
    then codes "delete"
    else if o == op_format_block
    then codes "format_block"
    else if o == op_title_change
    then codes "title_change"
    else codes "insert"

pub record Op : Type 0 where
  pub op_type : OpType
  pub doc_id : Bytes
  pub author_id : Bytes
  pub position : ℕ
  pub value : Bytes
  pub block_type : BlockType
  pub title : Bytes
  pub timestamp : ℕ

-- The errors of the operations.
pub data DocError : Type 0 where
  insert_out_of_range delete_out_of_range format_out_of_range : DocError
  unknown_op_type : OpType → DocError
  nothing_to_undo nothing_to_redo : DocError

pub record OpResult : Type 0 where
  pub applied : Bool
  pub position : ℕ
  pub error : Option DocError

pub record DocEvent : Type 0 where
  pub doc_id : Bytes
  pub op : Op
  pub result : OpResult

unfoldable pub new_insert_op : Bytes → Bytes → ℕ → Bytes → ℕ → Op
new_insert_op doc_id author position value ts = record {
  op_type = op_insert;
  doc_id = doc_id;
  author_id = author;
  position = position;
  value = value;
  block_type = paragraph;
  title = [];
  timestamp = ts;
}

unfoldable pub new_delete_op : Bytes → Bytes → ℕ → ℕ → Op
new_delete_op doc_id author position ts = record {
  op_type = op_delete;
  doc_id = doc_id;
  author_id = author;
  position = position;
  value = [];
  block_type = paragraph;
  title = [];
  timestamp = ts;
}

unfoldable pub new_format_block_op : Bytes → Bytes → ℕ → BlockType → ℕ → Op
new_format_block_op doc_id author position bt ts = record {
  op_type = op_format_block;
  doc_id = doc_id;
  author_id = author;
  position = position;
  value = [];
  block_type = bt;
  title = [];
  timestamp = ts;
}
