-- ===== src/Docs/Tests.antt =====
-- pkg/services/docs: the theorems at concrete documents.
use local_web.Base.{◌≡◌, refl, List, [], ◌∷◌, none, some, arith, codes, Bytes}
use local_web.Base.{set}
use local_web.Base.Int64.{lt_int64}
use local_web.Base.Wire.{uint, zeros, put_list, put_all, put_uint}
use local_web.Crdt.Rga.Codec.{marshal}
use local_web.Docs.Op.{
  Op, paragraph, heading1, quote, new_insert_op, new_delete_op, new_format_block_op,
}
use local_web.Docs.Op.Codec.{
  marshal_op, put_text, encode_doc_message, encode_op_payload, decode_op_payload,
}
use local_web.Docs.Service.{Service, new_service, create_document, op_message, handle_bytes}
use local_web.Docs.Service.Laws.{handle_bytes-op_message}
use local_web.Docs.Op.RoundTrip.{FitsMessage, FitsOp, decode_op_payload-encode_op_payload}
use local_web.Docs.Document.{
  Document, new_document, apply_op, apply_insert, is_negative, append_history, touch,
}
use local_web.Docs.Document.History.{undo, apply_all, merge, chars_from, lines_of}
use local_web.Docs.Document.Codec.{marshal_document, unmarshal_document}
use local_web.Docs.Document.Invariant.{IsDocument, new_document-IsDocument}
use local_web.Docs.Document.Sessions.{Action, run, run-IsDocument}
use local_web.Docs.Document.Page.{ask, edit_of, view}
use local_web.Docs.Document.Refinement.{Implements, apply_op-Implements}
use local_web.Docs.Document.Merge.{lines-merge}
use local_web.Docs.Document.RoundTrip.{FitsDocument, received, unmarshal_document-marshal_document}
use local_web.Docs.Document.Undo.{content}
use local_web.Docs.Document.Undo.Times.{
  AreInserts, undo_times, redo_times, content-undo_times, content-redo_times,
}
use local_web.Docs.Document.Undo.Deletes.{content-undo-delete}

abbrev first : Op
first = new_insert_op (codes "d") (zeros 32) 0 (codes "one") 5

abbrev second : Op
second = new_insert_op (codes "d") (zeros 32) 0 (codes "two") 6

abbrev heading : Op
heading = new_format_block_op (codes "d") (zeros 32) 1 heading1 7

abbrev removal : Op
removal = new_delete_op (codes "d") (zeros 32) 1 8

abbrev empty : Document
empty = new_document (codes "d") (codes "t") (codes "n")

abbrev empty-IsDocument : IsDocument empty
empty-IsDocument = new_document-IsDocument (codes "d") (codes "t") (codes "n")

abbrev session : List Action
session =
    Action.apply 9 first
    ∷ Action.apply 9 second
    ∷ Action.apply 9 heading
    ∷ Action.undone 9
    ∷ Action.redone 9
    ∷ Action.merged 9 (removal ∷ [])
    ∷ []

run-IsDocument_example : IsDocument (run session empty)
run-IsDocument_example = run-IsDocument session empty empty-IsDocument

abbrev page : Document
page = record empty {
  lines = codes "one" ∷ codes "two" ∷ [];
  block_types = quote ∷ paragraph ∷ [];
  version = 2;
}

page-IsDocument : IsDocument page
page-IsDocument = record { blocks = refl; index = omega arith; positions = tt }

apply_op-Implements_example :
    Implements page (apply_op 9 removal page) (ask (edit_of removal) (view page))
apply_op-Implements_example = apply_op-Implements 9 removal page page-IsDocument

inserts-AreInserts : AreInserts 9 (first ∷ second ∷ []) empty
unfolding apply_op apply_insert new_insert_op is_negative lt_int64 append_history touch
inserts-AreInserts = (refl, refl, (refl, refl, tt))

content-undo_times_example :
    content (undo_times 9 2 (apply_all 9 (first ∷ second ∷ []) empty)) ≡ ([], [])
content-undo_times_example =
    content-undo_times 9 (first ∷ second ∷ []) empty empty-IsDocument inserts-AreInserts

content-redo_times_example :
    content (redo_times 9 2 (undo_times 9 2 (apply_all 9 (first ∷ second ∷ []) empty)))
    ≡ content (apply_all 9 (first ∷ second ∷ []) empty)
content-redo_times_example =
    content-redo_times 9 (first ∷ second ∷ []) empty empty-IsDocument inserts-AreInserts

content-undo-delete_example :
    content (undo 9 (apply_op 9 removal page).0).0
    ≡ (set page.lines 1 [], set page.block_types 1 paragraph)
unfolding new_delete_op is_negative lt_int64
content-undo-delete_example =
    content-undo-delete 9 removal page page-IsDocument refl (omega arith) refl

lines-merge_example :
    (merge 9 (removal ∷ []) (apply_op 9 first page).0).lines
    ≡ lines_of [] (chars_from 0 (apply_op 9 first page).0.rga.length (apply_op 9 first page).0.rga)
unfolding new_delete_op
lines-merge_example = lines-merge 9 (removal ∷ []) (apply_op 9 first page).0 (refl, tt)

first-FitsOp : FitsOp first
unfolding new_insert_op
first-FitsOp = record {
  op_type = omega arith;
  author_id = refl;
  timestamp = omega arith;
  position = omega arith;
  value = omega arith;
  block_type = omega arith;
  title = omega arith;
}

page-FitsDocument : FitsDocument page
unfolding marshal put_list put_all put_uint
page-FitsDocument = record {
  id = omega arith;
  title = omega arith;
  nodes = tt;
  node_count = omega arith;
  rga = omega arith;
  version = omega arith;
  block_types = (omega arith, (omega arith, tt));
  blocks = refl;
  line_count = omega arith;
  lines = (omega arith, (omega arith, tt));
}

decode_op_payload-encode_op_payload_example :
    decode_op_payload (encode_op_payload first (codes "d"))
    ≡ some (record first { doc_id = [] }, codes "d")
decode_op_payload-encode_op_payload_example =
    decode_op_payload-encode_op_payload first (codes "d") first-FitsOp (omega arith)

unmarshal_document-marshal_document_example :
    unmarshal_document (marshal_document page) empty ≡ (received page empty, none)
unmarshal_document-marshal_document_example =
    unmarshal_document-marshal_document page empty page-FitsDocument

abbrev sender : Bytes
sender = 255 ∷ 255 ∷ 255 ∷ 255 ∷ zeros 28

abbrev sent : Op
sent = new_insert_op (codes "d") sender 0 (codes "one") 5

sent-FitsMessage : FitsMessage (op_message (codes "d") sent)
unfolding op_message new_insert_op
sent-FitsMessage = record {
  msg_type = omega arith;
  doc_id = omega arith;
  author_id = refl;
  timestamp = omega arith;
}

abbrev receiver : Service
receiver = create_document (codes "d") (codes "t") (new_service (codes "n"))

handle_bytes-op_message_example :
    handle_bytes 9 (encode_doc_message (op_message (codes "d") sent)) receiver ≡ receiver
unfolding new_insert_op marshal_op put_text put_uint uint
handle_bytes-op_message_example =
    handle_bytes-op_message 9 (codes "d") sent receiver sent-FitsMessage (omega arith) (omega arith)
