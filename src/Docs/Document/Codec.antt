-- ===== src/Docs/Document/Codec.antt =====
-- pkg/services/docs/document.go: `Marshal`, `Unmarshal` and `rebuildLinesFromRGARaw`.
use local_web.Base.{
  ℕ, zero, suc, ◌-◌, List, [], ◌∷◌, ◌++◌, Option, none, some, ltb, ◌==◌, if◌then◌else◌, Bytes,
  length, take,
}
use local_web.Base.Wire.{put_uint, read_uint, read_full}
use local_web.Crdt.Rga.{Rga}
use local_web.Crdt.Rga.Codec
use local_web.Docs.Op.{BlockType, paragraph}
use local_web.Docs.Op.Codec.{put_text, read_text}
use local_web.Docs.Lines.{split_lines}
use local_web.Docs.Document.{Document}
use local_web.Docs.Document.History.{chars_from, paragraphs}

unfoldable pub put_lines : List Bytes → Bytes
unfolding put_text
put_lines [] = []
put_lines (l ∷ ls) = put_text l ++ put_lines ls

unfoldable pub marshal_document : Document → Bytes
unfolding put_text put_lines
marshal_document d =
    put_text d.id
    ++ (put_text d.title
        ++ (put_text (Codec.marshal d.rga)
            ++ (put_uint 8 d.version
                ++ (put_text d.block_types ++ (put_uint 4 (length d.lines) ++ put_lines d.lines)))))

pub data UnmarshalError : Type 0 where
  too_short id_truncated title_length_truncated title_truncated : UnmarshalError
  rga_length_truncated rga_truncated rga_unmarshal : UnmarshalError

abbrev concat : List Bytes → Bytes
concat [] = []
concat (c ∷ cs) = c ++ concat cs

unfoldable pub rebuild_lines_from_rga_raw : Rga → List Bytes
rebuild_lines_from_rga_raw r =
    if r.length == 0 then [] else split_lines (concat (chars_from 0 r.length r))

-- A byte that names no block type is read as a paragraph.
unfoldable pub read_block_types : Bytes → List BlockType
read_block_types [] = []
read_block_types (b ∷ bs) = (if ltb b 8 then b else paragraph) ∷ read_block_types bs

-- The loop over the lines ends at the first that is cut short.
unfoldable pub read_lines : ℕ → Bytes → List Bytes
read_lines zero payload = []
read_lines (suc n) payload = elim (read_text payload) [
  | none ↦ []
  | some (line, rest) ↦ line ∷ read_lines n rest
]

unfoldable pub fit_blocks : ℕ → List BlockType → List BlockType
fit_blocks n ts = take n ts ++ paragraphs (n - length ts)

-- `Unmarshal` from the lines on.
unfoldable pub unmarshal_lines : Bytes → Document → Document
unfolding read_lines fit_blocks rebuild_lines_from_rga_raw
unmarshal_lines payload d = elim (read_uint 4 payload) [
  | none ↦ record d { lines = rebuild_lines_from_rga_raw d.rga }
  | some (n, rest) ↦
      let ls = read_lines n rest in
      record d { lines = ls; block_types = fit_blocks (length ls) d.block_types }
]

abbrev without_blocks : Document → Document
without_blocks d = record d { block_types = []; lines = rebuild_lines_from_rga_raw d.rga }

-- `Unmarshal` from the block types on.
unfoldable pub unmarshal_blocks : Bytes → Document → Document
unfolding unmarshal_lines read_block_types
unmarshal_blocks payload d = elim (read_text payload) [
  | none ↦ without_blocks d
  | some (bytes, rest) ↦ unmarshal_lines rest (record d { block_types = read_block_types bytes })
]

-- `Unmarshal` from the version on.
unfoldable pub unmarshal_version : Bytes → Document → Document
unfolding unmarshal_blocks
unmarshal_version payload d = elim (read_uint 8 payload) [
  | none ↦ without_blocks d
  | some (version, rest) ↦ unmarshal_blocks rest (record d { version = version })
]

abbrev fails : UnmarshalError → Document → Document × Option UnmarshalError
fails e d = (d, some e)

-- `Unmarshal` from the RGA on.
unfoldable pub unmarshal_rga : Bytes → Document → Document × Option UnmarshalError
unfolding unmarshal_version
unmarshal_rga payload d = elim (read_uint 4 payload) [
  | none ↦ fails UnmarshalError.rga_length_truncated d
  | some (n, rest) ↦ elim (read_full n rest) [
    | none ↦ fails UnmarshalError.rga_truncated d
    | some (bytes, rest') ↦ elim (Codec.unmarshal bytes d.rga) [
      | none ↦ fails UnmarshalError.rga_unmarshal d
      | some r ↦ (unmarshal_version rest' (record d { rga = r }), none)
    ]
  ]
]

-- `Unmarshal` from the title on.
unfoldable pub unmarshal_title : Bytes → Document → Document × Option UnmarshalError
unfolding unmarshal_rga
unmarshal_title payload d = elim (read_uint 4 payload) [
  | none ↦ fails UnmarshalError.title_length_truncated d
  | some (n, rest) ↦ elim (read_full n rest) [
    | none ↦ fails UnmarshalError.title_truncated d
    | some (title, rest') ↦ unmarshal_rga rest' (record d { title = title })
  ]
]

-- An error leaves the fields that were read ahead of it.
unfoldable pub unmarshal_document : Bytes → Document → Document × Option UnmarshalError
unfolding unmarshal_title
unmarshal_document payload d = elim (read_uint 4 payload) [
  | none ↦ fails UnmarshalError.too_short d
  | some (n, rest) ↦ elim (read_full n rest) [
    | none ↦ fails UnmarshalError.id_truncated d
    | some (id, rest') ↦ unmarshal_title rest' (record d { id = id })
  ]
]
