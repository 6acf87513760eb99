-- ===== src/Docs/Op/RoundTrip.antt =====
-- pkg/services/docs/types.go: what is written is read back.
use local_web.Base.{
  ℕ, ◌+◌, ◌^◌, ◌≤◌, ◌<◌, ◌≡◌, refl, ◌∙◌, [], ◌++◌, some, arith, Bytes, length, length-append,
}
use mathlib.Core.List.{append_assoc, append-nil}
use local_web.Base.Wire.{
  put_uint, read_uint, read_full, read_full-append, read_uint-append, bind_of_some, length-put_uint,
}
use local_web.Docs.Op.{Op}
use local_web.Docs.Op.Codec.{
  put_text, read_text, marshal_op, unmarshal_op, read_head, read_tail, DocMessage,
  encode_doc_message, decode_doc_message, read_doc_message, encode_op_payload, decode_op_payload,
  message_of,
}

pub read_text-append :
    (s rest : Bytes) → length s < 256 ^ 4 → read_text (put_text s ++ rest) ≡ some (s, rest)
unfolding read_text put_text
read_text-append s rest h = rw (append_assoc (put_uint 4 (length s)) s rest) (
    bind_of_some (read_uint 4) read_full (read_uint-append 4 (length s) (s ++ rest) h)
    ∙ read_full-append s rest)

pub read_full_exact :
    (n : ℕ) (s rest : Bytes) → length s ≡ n → read_full n (s ++ rest) ≡ some (s, rest)
read_full_exact n s rest h = rw (← h) (read_full-append s rest)

-- The fields fit the widths they are written in.
pub record FitsOp (op : Op) : Type 0 where
  pub op_type : op.op_type < 256 ^ 1
  pub author_id : length op.author_id ≡ 32
  pub timestamp : op.timestamp < 256 ^ 8
  pub position : op.position < 256 ^ 4
  pub value : length op.value < 256 ^ 4
  pub block_type : op.block_type < 256
  pub title : length op.title < 256 ^ 4

length-put_text : (s : Bytes) → length (put_text s) ≡ 4 + length s
unfolding put_text
length-put_text s =
    omega (arith, length-append (put_uint 4 (length s)) s, length-put_uint 4 (length s))

abbrev tail_of : Op → Bytes
tail_of op = put_uint 4 op.block_type ++ put_text op.title

length-marshal_op :
    (op : Op) → length op.author_id ≡ 32 → (1 + 32 + 8 + 4 + 4) ≤ length (marshal_op op)
unfolding marshal_op
length-marshal_op op h = omega (
  arith,
  length-append (put_uint 1 op.op_type) (
      op.author_id
      ++ (put_uint 8 op.timestamp
          ++ (put_uint 4 op.position ++ (put_text op.value ++ tail_of op)))),
  length-append op.author_id
      (put_uint 8 op.timestamp ++ (put_uint 4 op.position ++ (put_text op.value ++ tail_of op))),
  length-append (put_uint 8 op.timestamp)
      (put_uint 4 op.position ++ (put_text op.value ++ tail_of op)),
  length-append (put_uint 4 op.position) (put_text op.value ++ tail_of op),
  length-append (put_text op.value) (tail_of op),
  length-put_text op.value,
  length-put_uint 1 op.op_type,
  length-put_uint 8 op.timestamp,
  length-put_uint 4 op.position,
)

read_head-marshal_op :
    (op : Op)
    → FitsOp op
    → read_head (marshal_op op)
      ≡ some (record op { doc_id = []; block_type = 0; title = [] }, tail_of op)
unfolding read_head marshal_op
read_head-marshal_op op h =
    bind_of_some (read_uint 1) _ (read_uint-append 1 op.op_type _ h.op_type)
    ∙ bind_of_some (read_full 32) _ (read_full_exact 32 op.author_id _ h.author_id)
    ∙ bind_of_some (read_uint 8) _ (read_uint-append 8 op.timestamp _ h.timestamp)
    ∙ bind_of_some (read_uint 4) _ (read_uint-append 4 op.position _ h.position)
    ∙ bind_of_some read_text _ (read_text-append op.value _ h.value)

read_tail-tail_of :
    (op op' : Op)
    → FitsOp op
    → read_tail (tail_of op) op' ≡ record op' { block_type = op.block_type; title = op.title }
unfolding read_tail
read_tail-tail_of op op' h = ground (
  arith,
  read_uint-append 4 op.block_type (put_text op.title) (omega (arith, h.block_type)),
  read_text-append op.title [] h.title,
  append-nil (put_text op.title),
)

-- An operation whose fields fit the format is read back, less the document's id, which the format leaves
-- to the message around it.
pub unmarshal_op-marshal_op :
    (op : Op) → FitsOp op → unmarshal_op (marshal_op op) ≡ some (record op { doc_id = [] })
unfolding unmarshal_op
unmarshal_op-marshal_op op h = ground (
  arith,
  length-marshal_op op h.author_id,
  read_head-marshal_op op h,
  read_tail-tail_of op (record op { doc_id = []; block_type = 0; title = [] }) h,
)

pub record FitsMessage (msg : DocMessage) : Type 0 where
  pub msg_type : msg.msg_type < 256 ^ 1
  pub doc_id : length msg.doc_id < 256 ^ 4
  pub author_id : length msg.author_id ≡ 32
  pub timestamp : msg.timestamp < 256 ^ 8

length-encode_doc_message :
    (msg : DocMessage)
    → length msg.author_id ≡ 32
    → (1 + 4 + 32 + 8) ≤ length (encode_doc_message msg)
unfolding encode_doc_message
length-encode_doc_message msg h = omega (
  arith,
  length-append (put_uint 1 msg.msg_type)
      (put_text msg.doc_id ++ (msg.author_id ++ (put_uint 8 msg.timestamp ++ msg.payload))),
  length-append (put_text msg.doc_id) (msg.author_id ++ (put_uint 8 msg.timestamp ++ msg.payload)),
  length-append msg.author_id (put_uint 8 msg.timestamp ++ msg.payload),
  length-append (put_uint 8 msg.timestamp) msg.payload,
  length-put_text msg.doc_id,
  length-put_uint 1 msg.msg_type,
  length-put_uint 8 msg.timestamp,
)

read_doc_message-encode_doc_message :
    (msg : DocMessage)
    → FitsMessage msg
    → read_doc_message (encode_doc_message msg) ≡ some (msg, [])
unfolding read_doc_message encode_doc_message
read_doc_message-encode_doc_message msg h =
    bind_of_some (read_uint 1) _ (read_uint-append 1 msg.msg_type _ h.msg_type)
    ∙ bind_of_some read_text _ (read_text-append msg.doc_id _ h.doc_id)
    ∙ bind_of_some (read_full 32) _ (read_full_exact 32 msg.author_id _ h.author_id)
    ∙ bind_of_some (read_uint 8) _ (read_uint-append 8 msg.timestamp _ h.timestamp)

-- A message whose fields fit the format is read back.
pub decode_doc_message-encode_doc_message :
    (msg : DocMessage) → FitsMessage msg → decode_doc_message (encode_doc_message msg) ≡ some msg
unfolding decode_doc_message
decode_doc_message-encode_doc_message msg h =
    ground
      (arith, length-encode_doc_message msg h.author_id, read_doc_message-encode_doc_message msg h)

-- An operation and the id of its document come back from the message that carries both, if their fields
-- fit the format.
pub decode_op_payload-encode_op_payload :
    (op : Op) (doc_id : Bytes)
    → FitsOp op
    → length doc_id < 256 ^ 4
    → decode_op_payload (encode_op_payload op doc_id) ≡ some (record op { doc_id = [] }, doc_id)
unfolding decode_op_payload encode_op_payload
decode_op_payload-encode_op_payload op doc_id h k = ground (
  arith,
  decode_doc_message-encode_doc_message (message_of op doc_id)
      (record { msg_type = omega arith; doc_id = k; author_id = refl; timestamp = omega arith }),
  unmarshal_op-marshal_op op h,
)
