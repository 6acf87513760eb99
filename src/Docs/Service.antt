-- ===== src/Docs/Service.antt =====
-- pkg/services/docs/server.go: the service that holds the documents, their presence and its statistics. A
-- message that is broadcast is a result; the network that carries it is not modelled.
pub mod Codec
pub mod Laws
use local_web.Base.{
  ℕ, zero, suc, ◌+◌, ◌-◌, ◌*◌, ◌/◌, ◌%◌, ◌^◌, ◌≤◌, ◌<◌, ◌≡◌, ◌≢◌, refl, sym, ap, ◌∙◌, ◌↔◌, ◌⊎◌, inl,
  inr, Bool, true, false, not, ◌&&◌, ◌||◌, List, [], ◌∷◌, ◌++◌, map, Option, none, some, some_inj,
  arith, ltb, leb, ◌==◌, ==_iff, if◌then◌else◌, Bool-cases, Bool-ext, Option-cases, Bytes, codes,
  same, same_iff, same_refl, member, length, length-append, take, drop, All, any, keep,
  length-keep-le, Dict, lookup, put, delete, lookup-put, lookup-delete, check_range, test_in_range,
}
use local_web.Base.Int64.{inc_int64}
use local_web.Base.Wire.{zeros}
use local_web.Docs.Op.{Op, BlockType, OpResult, new_insert_op, new_delete_op, new_format_block_op}
use local_web.Docs.Op.Codec.{
  DocMessage, doc_msg_operation, decode_doc_message, decode_op_payload, marshal_op,
}
use local_web.Docs.Document.{Document, new_document, apply_op}
use local_web.Docs.Presence.{PresenceService, new_presence_service, update_cursor}
use Codec.{
  unmarshal_document_state, PresenceUpdate, unmarshal_presence_update, marshal_presence_update,
}

-- The counters are bit patterns.
pub record ServiceStats : Type 0 where
  pub total_docs : ℕ
  pub active_docs : ℕ
  pub total_ops : ℕ
  pub total_broadcasts : ℕ

pub record Service : Type 0 where
  pub docs : Dict Document
  pub presence : Dict PresenceService
  pub node_id : Bytes
  pub stats : ServiceStats

abbrev pub new_service : Bytes → Service
new_service node_id = record {
  docs = [];
  presence = [];
  node_id = node_id;
  stats = record { total_docs = 0; active_docs = 0; total_ops = 0; total_broadcasts = 0 };
}

unfoldable pub count_op : ServiceStats → ServiceStats
count_op st = record st {
  total_ops = inc_int64 st.total_ops;
  total_broadcasts = inc_int64 st.total_broadcasts;
}

abbrev pub doc_msg_presence : ℕ
doc_msg_presence = 2

abbrev pub doc_msg_sync_req : ℕ
doc_msg_sync_req = 3

abbrev pub doc_msg_full_state : ℕ
doc_msg_full_state = 5

abbrev presence_timeout : ℕ
presence_timeout = 5 * 10 ^ 9

-- `CreateDocument`, less the document that it returns: one that exists stays as it is.
unfoldable pub create_document : Bytes → Bytes → Service → Service
create_document doc_id title s = elim (lookup doc_id s.docs) [
  | some d ↦ s
  | none ↦ record s {
    docs = put doc_id (new_document doc_id title s.node_id) s.docs;
    presence = put doc_id (new_presence_service doc_id presence_timeout) s.presence;
    stats = record s.stats {
      total_docs = inc_int64 s.stats.total_docs;
      active_docs = inc_int64 s.stats.active_docs;
    };
  }
]

unfoldable pub get_document : Bytes → Service → Option Document
get_document doc_id s = lookup doc_id s.docs

unfoldable pub get_or_create_document : Bytes → Bytes → Service → Service
unfolding create_document
get_or_create_document doc_id title s = elim (get_document doc_id s) [
  | some d ↦ s
  | none ↦ create_document doc_id title s
]

-- The flag is false where the document is not found.
unfoldable pub delete_document : Bytes → Service → Service × Bool
delete_document doc_id s = elim (lookup doc_id s.docs) [
  | none ↦ (s, false)
  | some d ↦ (
    record s {
      docs = delete doc_id s.docs;
      presence = delete doc_id s.presence;
      stats = record s.stats { active_docs = (s.stats.active_docs + (2 ^ 64 - 1)) % 2 ^ 64 };
    },
    true,
  )
]

-- An operation on a document; the document that it leaves unchanged is the same one.
unfoldable pub apply_to : ℕ → Bytes → Op → Document → Service → Service × OpResult
unfolding count_op
apply_to now doc_id op d s =
    let (d', result) = apply_op now op d in
    (
      if result.applied
          then record s { docs = put doc_id d' s.docs; stats = count_op s.stats }
          else s,
      result,
    )

-- The message that `ApplyLocalOp` broadcasts.
unfoldable pub op_message : Bytes → Op → DocMessage
op_message doc_id op = record {
  msg_type = doc_msg_operation;
  doc_id = doc_id;
  author_id = op.author_id;
  payload = marshal_op op;
  timestamp = op.timestamp;
}

-- The result, `none` where the document is not found, and the message to the peers if there is one.
unfoldable pub apply_local_op :
    ℕ → Bytes → Op → Service → Service × (Option OpResult × Option DocMessage)
unfolding apply_to
apply_local_op now doc_id op s = elim (get_document doc_id s) [
  | none ↦ (s, (none, none))
  | some d ↦
      let (s', result) = apply_to now doc_id op d s in
      (s', (some result, if result.applied then some (op_message doc_id op) else none))
]

unfoldable pub insert_text :
    ℕ → ℕ → Bytes → Bytes → ℕ → Bytes → Service → Service × (Option OpResult × Option DocMessage)
insert_text ts now doc_id author position line s =
    apply_local_op now doc_id (new_insert_op doc_id author position line ts) s

unfoldable pub delete_line :
    ℕ → ℕ → Bytes → Bytes → ℕ → Service → Service × (Option OpResult × Option DocMessage)
delete_line ts now doc_id author position s =
    apply_local_op now doc_id (new_delete_op doc_id author position ts) s

unfoldable pub format_block :
    ℕ
    → ℕ
    → Bytes
    → Bytes
    → ℕ
    → BlockType
    → Service
    → Service × (Option OpResult × Option DocMessage)
format_block ts now doc_id author position bt s =
    apply_local_op now doc_id (new_format_block_op doc_id author position bt ts) s

-- `handleOperation`, from the operation and the id that the payload decodes to.
unfoldable pub take_op : ℕ → Option (Op × Bytes) → Service → Service
unfolding apply_to get_document
take_op now none s = s
take_op now (some (op, doc_id)) s = elim (get_document doc_id s) [
  | none ↦ s
  | some d ↦ (apply_to now doc_id op d s).0
]

unfoldable pub handle_operation : ℕ → DocMessage → Service → Service
unfolding take_op
handle_operation now msg s = take_op now (decode_op_payload msg.payload) s

-- `handleFullState`: the document is created if need be, and nothing of the state but its title is used.
unfoldable pub handle_full_state : DocMessage → Service → Service
unfolding get_or_create_document
handle_full_state msg s = elim (unmarshal_document_state msg.payload) [
  | none ↦ s
  | some state ↦ get_or_create_document msg.doc_id state.title s
]

unfoldable pub handle_presence : ℕ → DocMessage → Service → Service
handle_presence now msg s = elim (unmarshal_presence_update msg.payload) [
  | none ↦ s
  | some u ↦ elim (lookup u.doc_id s.presence) [
    | none ↦ s
    | some p ↦ record s {
      presence =
          put u.doc_id (update_cursor now u.peer_id u.peer_name u.line u.column p) s.presence;
    }
  ]
]

-- `handleMessage`. The answer to a sync request is made and dropped.
unfoldable pub handle_message : ℕ → DocMessage → Service → Service
unfolding handle_operation handle_full_state handle_presence
handle_message now msg s =
    if msg.msg_type == doc_msg_operation
    then handle_operation now msg s
    else if msg.msg_type == doc_msg_sync_req
    then s
    else if msg.msg_type == doc_msg_full_state
    then handle_full_state msg s
    else if msg.msg_type == doc_msg_presence
    then handle_presence now msg s
    else s

-- What `handleStream` does with the bytes of one read.
unfoldable pub handle_bytes : ℕ → Bytes → Service → Service
unfolding handle_message
handle_bytes now payload s = elim (decode_doc_message payload) [
  | none ↦ s
  | some msg ↦ handle_message now msg s
]

-- The service, and the message to the peers.
unfoldable pub update_presence : ℕ → PresenceUpdate → Service → Service × Option DocMessage
update_presence now u s = elim (lookup u.doc_id s.presence) [
  | none ↦ (s, none)
  | some p ↦ (
    record s {
      presence =
          put u.doc_id (update_cursor now u.peer_id u.peer_name u.line u.column p) s.presence;
    },
    some (record {
      msg_type = doc_msg_presence;
      doc_id = u.doc_id;
      author_id = zeros 32;
      payload = marshal_presence_update u;
      timestamp = 0;
    }),
  )
]
