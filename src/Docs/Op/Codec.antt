-- ===== src/Docs/Op/Codec.antt =====
-- pkg/services/docs/types.go: the bytes of an operation and of a message.
use local_web.Base.{ℕ, ◌+◌, ◌%◌, [], ◌++◌, Option, none, some, ltb, if◌then◌else◌, Bytes, length}
use local_web.Base.Wire.{Reader, ◌>>=◌, done, put_uint, read_uint, read_full, zeros}
use local_web.Docs.Op.{Op}

-- A length of four bytes and the text.
unfoldable pub put_text : Bytes → Bytes
put_text s = put_uint 4 (length s) ++ s

unfoldable pub read_text : Reader Bytes
read_text = do n ← read_uint 4; read_full n

unfoldable pub marshal_op : Op → Bytes
unfolding put_text
marshal_op op =
    put_uint 1 op.op_type
    ++ (op.author_id
        ++ (put_uint 8 op.timestamp
            ++ (put_uint 4 op.position
                ++ (put_text op.value ++ (put_uint 4 op.block_type ++ put_text op.title)))))

-- The fields up to the value.
unfoldable pub read_head : Reader Op
unfolding read_text
read_head = do
  op_type ← read_uint 1
  author_id ← read_full 32
  timestamp ← read_uint 8
  position ← read_uint 4
  value ← read_text
  done (record {
    op_type = op_type;
    doc_id = [];
    author_id = author_id;
    position = position;
    value = value;
    block_type = 0;
    title = [];
    timestamp = timestamp;
  })

-- The fields behind the value: one that is cut short keeps its zero value.
unfoldable pub read_tail : Bytes → Op → Op
unfolding read_text
read_tail rest op = elim (read_uint 4 rest) [
  | none ↦ op
  | some (bt, rest') ↦ elim (read_text rest') [
    | none ↦ record op { block_type = bt % 256 }
    | some (title, _) ↦ record op { block_type = bt % 256; title = title }
  ]
]

-- `none` is the error.
unfoldable pub unmarshal_op : Bytes → Option Op
unfolding read_head read_tail
unmarshal_op payload =
    if ltb (length payload) (1 + 32 + 8 + 4 + 4)
    then none
    else elim (read_head payload) [ none ↦ none | some (op, rest) ↦ some (read_tail rest op) ]

pub record DocMessage : Type 0 where
  pub msg_type : ℕ
  pub doc_id : Bytes
  pub author_id : Bytes
  pub payload : Bytes
  pub timestamp : ℕ

abbrev pub doc_msg_operation : ℕ
doc_msg_operation = 1

unfoldable pub encode_doc_message : DocMessage → Bytes
unfolding put_text
encode_doc_message msg =
    put_uint 1 msg.msg_type
    ++ (put_text msg.doc_id ++ (msg.author_id ++ (put_uint 8 msg.timestamp ++ msg.payload)))

unfoldable pub read_doc_message : Reader DocMessage
unfolding read_text
read_doc_message = do
  msg_type ← read_uint 1
  doc_id ← read_text
  author_id ← read_full 32
  timestamp ← read_uint 8
  λ payload. some (
    record {
      msg_type = msg_type;
      doc_id = doc_id;
      author_id = author_id;
      payload = payload;
      timestamp = timestamp;
    },
    [],
  )

unfoldable pub decode_doc_message : Bytes → Option DocMessage
unfolding read_doc_message
decode_doc_message payload =
    if ltb (length payload) (1 + 4 + 32 + 8)
    then none
    else elim (read_doc_message payload) [ none ↦ none | some (msg, _) ↦ some msg ]

-- The message around an operation; the array of its author is left at its zero value.
abbrev pub message_of : Op → Bytes → DocMessage
message_of op doc_id = record {
  msg_type = doc_msg_operation;
  doc_id = doc_id;
  author_id = zeros 32;
  payload = marshal_op op;
  timestamp = 0;
}

unfoldable pub encode_op_payload : Op → Bytes → Bytes
encode_op_payload op doc_id = encode_doc_message (message_of op doc_id)

unfoldable pub decode_op_payload : Bytes → Option (Op × Bytes)
unfolding decode_doc_message unmarshal_op
decode_op_payload payload = elim (decode_doc_message payload) [
  | none ↦ none
  | some msg ↦ elim (unmarshal_op msg.payload) [ none ↦ none | some op ↦ some (op, msg.doc_id) ]
]
