-- ===== src/Docs/Service/Codec.antt =====
-- pkg/services/docs/server.go: the bytes of a document's state and of a presence update.
use local_web.Base.{ℕ, ◌+◌, List, [], ◌++◌, Option, none, some, ltb, if◌then◌else◌, Bytes, length}
use local_web.Base.Wire.{Reader, ◌>>=◌, done, put_uint, read_uint, read_full}
use local_web.Docs.Op.Codec.{put_text, read_text}
use local_web.Docs.Lines.{split_lines, join_lines}

-- The fields of a state that are sent.
pub record SentState : Type 0 where
  pub doc_id : Bytes
  pub title : Bytes
  pub content : List Bytes
  pub version : ℕ

-- `stringsJoin` and `stringsSplit` do what `joinLines` and `splitLines` do.
unfoldable pub marshal_document_state : SentState → Bytes
unfolding put_text
marshal_document_state s =
    put_text s.doc_id
    ++ (put_text s.title ++ (put_text (join_lines s.content) ++ put_uint 8 s.version))

-- A version that is cut short stays 0.
unfoldable pub read_version : Reader ℕ
read_version rest = elim (read_uint 8 rest) [ none ↦ some (0, rest) | some v ↦ some v ]

unfoldable pub read_document_state : Reader SentState
unfolding read_version read_text
read_document_state = do
  doc_id ← read_text
  title ← read_text
  content ← read_text
  version ← read_version
  done (record { doc_id = doc_id; title = title; content = split_lines content; version = version })

-- `none` is the error.
unfoldable pub unmarshal_document_state : Bytes → Option SentState
unfolding read_document_state
unmarshal_document_state payload = elim (read_document_state payload) [
  | none ↦ none
  | some (s, rest) ↦ some s
]

pub record PresenceUpdate : Type 0 where
  pub doc_id : Bytes
  pub peer_id : Bytes
  pub peer_name : Bytes
  pub line : ℕ
  pub column : ℕ

unfoldable pub marshal_presence_update : PresenceUpdate → Bytes
unfolding put_text
marshal_presence_update u =
    put_text u.doc_id
    ++ (u.peer_id ++ (put_uint 4 u.line ++ (put_uint 4 u.column ++ put_text u.peer_name)))

-- A name that is cut short stays empty.
unfoldable pub read_name : Reader Bytes
unfolding read_text
read_name rest = elim (read_text rest) [ none ↦ some ([], rest) | some name ↦ some name ]

unfoldable pub read_presence_update : Reader PresenceUpdate
unfolding read_name read_text
read_presence_update = do
  doc_id ← read_text
  peer_id ← read_full 32
  line ← read_uint 4
  column ← read_uint 4
  peer_name ← read_name
  done (record {
    doc_id = doc_id;
    peer_id = peer_id;
    peer_name = peer_name;
    line = line;
    column = column;
  })

unfoldable pub unmarshal_presence_update : Bytes → Option PresenceUpdate
unfolding read_presence_update
unmarshal_presence_update payload =
    if ltb (length payload) (4 + 32 + 4 + 4)
    then none
    else elim (read_presence_update payload) [ none ↦ none | some (u, rest) ↦ some u ]
