-- ===== src/Docs/Service/Laws.antt =====
-- pkg/services/docs/server.go: what the peers make of an operation that is broadcast.
use local_web.Base.{
  ℕ, zero, suc, ◌+◌, ◌≤◌, ◌<◌, ◌≡◌, refl, ap, ◌∙◌, [], ◌∷◌, ◌++◌, none, some, arith, Bytes, length,
  length-append, take, drop,
}
use local_web.Base.{length-drop}
use local_web.Base.Wire.{
  Reader, ◌>>=◌, length-put_uint, put_uint, read_uint, read_full, uint, bind_of_some,
  read_uint-append,
}
use local_web.Docs.Op.{Op}
use local_web.Docs.Op.Codec.{
  decode_doc_message, encode_doc_message, decode_op_payload, marshal_op, read_doc_message,
  read_text, put_text,
}
use local_web.Docs.Op.RoundTrip.{FitsMessage, decode_doc_message-encode_doc_message}
use local_web.Docs.Service.{
  Service, op_message, handle_message, handle_operation, take_op, handle_bytes,
}

-- The first four bytes of the author as a number.
abbrev pub author_number : Op → ℕ
author_number op = uint 0 (take 4 op.author_id)

take-append : (n : ℕ) (xs ys : Bytes) → n ≤ length xs → take n (xs ++ ys) ≡ take n xs
take-append zero xs ys h = refl
take-append (suc n) [] ys h = absurd (omega (arith, h))
take-append (suc n) (x ∷ xs) ys h = ap (◌∷◌ x) (take-append n xs ys (omega (arith, h)))

read_full_short : (n : ℕ) (buf : Bytes) → length buf < n → read_full n buf ≡ none
unfolding read_full
read_full_short n buf h = ground arith

read_full_lem :
    (n : ℕ) (buf : Bytes) → n ≤ length buf → read_full n buf ≡ some (take n buf, drop n buf)
unfolding read_full
read_full_lem n buf h = ground arith

read_uint_lem :
    (w : ℕ) (buf : Bytes)
    → w ≤ length buf
    → read_uint w buf ≡ some (uint 0 (take w buf), drop w buf)
unfolding read_uint
read_uint_lem w buf h = bind_of_some (read_full w) _ (read_full_lem w buf h)

-- A reader that fails ends the chain.
bind_of_none :
    {A B : Type 0} (m : Reader A) (f : A → Reader B) {buf : Bytes}
    → m buf ≡ none
    → (m >>= f) buf ≡ none
bind_of_none m f h = rw (h, ◌>>=◌) refl

-- A length past the end of the text.
read_text_short :
    (buf : Bytes) → 4 ≤ length buf → length buf ≤ uint 0 (take 4 buf) → read_text buf ≡ none
unfolding read_text
read_text_short buf h long =
    bind_of_some (read_uint 4) read_full (read_uint_lem 4 buf h)
    ∙ read_full_short (uint 0 (take 4 buf)) (drop 4 buf) (omega (arith, length-drop 4 buf, long, h))

-- The bytes behind the type.
abbrev behind_type : Op → Bytes
behind_type op =
    op.author_id
    ++ (put_uint 8 op.timestamp
        ++ (put_uint 4 op.position
            ++ (put_text op.value ++ (put_uint 4 op.block_type ++ put_text op.title))))

behind_type_short :
    (op : Op)
    → length op.author_id ≡ 32
    → length (behind_type op) ≤ author_number op
    → read_text (behind_type op) ≡ none
behind_type_short op k long =
    let rest =
      put_uint 8 op.timestamp
      ++ (put_uint 4 op.position
          ++ (put_text op.value ++ (put_uint 4 op.block_type ++ put_text op.title))) in
    read_text_short (behind_type op) (omega (arith, length-append op.author_id rest, k))
      (rw (take-append 4 op.author_id rest (omega (arith, k))) long)

read_doc_message-marshal_op :
    (op : Op)
    → op.op_type < 256
    → length op.author_id ≡ 32
    → length (behind_type op) ≤ author_number op
    → read_doc_message (marshal_op op) ≡ none
unfolding read_doc_message marshal_op
read_doc_message-marshal_op op h k long =
    bind_of_some (read_uint 1) _ (read_uint-append 1 op.op_type (behind_type op) (omega (arith, h)))
    ∙ bind_of_none read_text _ (behind_type_short op k long)

decode_op_payload-marshal_op :
    (op : Op)
    → op.op_type < 256
    → length op.author_id ≡ 32
    → length (behind_type op) ≤ author_number op
    → decode_op_payload (marshal_op op) ≡ none
unfolding decode_op_payload decode_doc_message
decode_op_payload-marshal_op op h k long = ground (arith, read_doc_message-marshal_op op h k long)

length-marshal_op : (op : Op) → length (marshal_op op) ≡ 1 + length (behind_type op)
unfolding marshal_op
length-marshal_op op =
    omega
      (arith, length-append (put_uint 1 op.op_type) (behind_type op), length-put_uint 1 op.op_type)

dropped :
    (now : ℕ) (doc_id : Bytes) (op : Op) (s : Service)
    → op.op_type < 256
    → length op.author_id ≡ 32
    → length (behind_type op) ≤ author_number op
    → handle_message now (op_message doc_id op) s ≡ s
unfolding handle_message handle_operation op_message
dropped now doc_id op s h k long =
    rw (decode_op_payload-marshal_op op h k long) (unfold take_op in refl)

-- `ApplyLocalOp` sends the bytes of the operation where the receiver expects a message around them: if the
-- first four bytes of the author read as a number that is not below the length of those bytes, and the
-- fields fit their widths, then the peer that reads the broadcast is left as it was, whatever documents it
-- has.
pub handle_bytes-op_message :
    (now : ℕ) (doc_id : Bytes) (op : Op) (s : Service)
    → FitsMessage (op_message doc_id op)
    → op.op_type < 256
    → length (marshal_op op) ≤ author_number op
    → handle_bytes now (encode_doc_message (op_message doc_id op)) s ≡ s
unfolding handle_bytes op_message
handle_bytes-op_message now doc_id op s fits h long =
    rw (handle_bytes, decode_doc_message-encode_doc_message (op_message doc_id op) fits)
      (dropped now doc_id op s h fits.author_id (omega (arith, length-marshal_op op, long)))
