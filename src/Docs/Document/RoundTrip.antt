-- ===== src/Docs/Document/RoundTrip.antt =====
-- pkg/services/docs/document.go: a document that is marshalled is read back.
use local_web.Base.{
  ℕ, ◌-◌, ◌^◌, ◌<◌, ◌≡◌, refl, ap, List, [], ◌∷◌, ◌++◌, none, some, arith, Bytes, length, All,
}
use mathlib.Core.List.{append_assoc, append-nil}
use local_web.Base.{take_all}
use local_web.Base.Wire.{put_uint, read_uint-append, read_full-append}
use local_web.Crdt.Rga.{live_nodes, count_nodes}
use local_web.Crdt.Rga.Codec
use local_web.Crdt.Rga.Codec.{FitsNode, unmarshal-marshal_nodes}
use local_web.Docs.Op.{BlockType}
use local_web.Docs.Op.Codec.{put_text}
use local_web.Docs.Op.RoundTrip.{read_text-append}
use local_web.Docs.Document.{Document}
use local_web.Docs.Document.History.{paragraphs}
use local_web.Docs.Document.Codec.{
  marshal_document, put_lines, unmarshal_document, unmarshal_title, unmarshal_rga,
  unmarshal_version, unmarshal_blocks, unmarshal_lines, read_lines, read_block_types, fit_blocks,
}

-- The lengths fit their prefixes, every node of the RGA fits its format, and every line has one of the
-- eight block types.
pub record FitsDocument (d : Document) : Type 0 where
  pub id : length d.id < 256 ^ 4
  pub title : length d.title < 256 ^ 4
  pub nodes : All FitsNode d.rga.nodes
  pub node_count : length d.rga.nodes < 256 ^ 2
  pub rga : length (Codec.marshal d.rga) < 256 ^ 4
  pub version : d.version < 256 ^ 8
  pub block_types : All (λ b. b < 8) d.block_types
  pub blocks : length d.block_types ≡ length d.lines
  pub line_count : length d.lines < 256 ^ 4
  pub lines : All (λ l. length l < 256 ^ 4) d.lines

read_lines-put_lines :
    (ls : List Bytes)
    → All (λ l. length l < 256 ^ 4) ls
    → read_lines (length ls) (put_lines ls) ≡ ls
unfolding read_lines put_lines
read_lines-put_lines [] h = refl
read_lines-put_lines (l ∷ ls) h =
    rw (read_lines, read_text-append l (put_lines ls) h.0)
      (ap (◌∷◌ l) (read_lines-put_lines ls h.1))

read_block_types_same : (ts : List BlockType) → All (λ b. b < 8) ts → read_block_types ts ≡ ts
unfolding read_block_types
read_block_types_same [] h = refl
read_block_types_same (t ∷ ts) h = ground (arith, read_block_types_same ts h.1, h.0)

paragraphs_none : (n : ℕ) → n ≡ 0 → paragraphs n ≡ []
paragraphs_none n h = rw h refl

fit_blocks_same : (n : ℕ) (ts : List BlockType) → length ts ≡ n → fit_blocks n ts ≡ ts
unfolding fit_blocks
fit_blocks_same n ts h =
    rw (take_all n ts (omega (arith, h)), paragraphs_none (n - length ts) (omega (arith, h)))
      (append-nil ts)

lines_back :
    (d u : Document)
    → FitsDocument d
    → u.block_types ≡ d.block_types
    → unmarshal_lines (put_uint 4 (length d.lines) ++ put_lines d.lines) u
      ≡ record u { lines = d.lines; block_types = d.block_types }
unfolding unmarshal_lines
lines_back d u h e =
    rw
      (
        unmarshal_lines,
        read_uint-append 4 (length d.lines) (put_lines d.lines) h.line_count,
        read_lines-put_lines d.lines h.lines,
        e,
        fit_blocks_same (length d.lines) d.block_types h.blocks,
      )
      refl

abbrev lines_of : Document → Bytes
lines_of d = put_uint 4 (length d.lines) ++ put_lines d.lines

blocks_back :
    (d u : Document)
    → FitsDocument d
    → length d.block_types < 256 ^ 4
    → unmarshal_blocks (put_text d.block_types ++ lines_of d) u
      ≡ record u { lines = d.lines; block_types = d.block_types }
unfolding unmarshal_blocks
blocks_back d u h k =
    rw (unmarshal_blocks, read_text-append d.block_types (lines_of d) k)
      (rw (read_block_types_same d.block_types h.block_types)
        (lines_back d (record u { block_types = d.block_types }) h refl))

version_back :
    (d u : Document)
    → FitsDocument d
    → unmarshal_version (put_uint 8 d.version ++ (put_text d.block_types ++ lines_of d)) u
      ≡ record u { version = d.version; lines = d.lines; block_types = d.block_types }
unfolding unmarshal_version
version_back d u h =
    rw
      (
        unmarshal_version,
        read_uint-append 8 d.version (put_text d.block_types ++ lines_of d) h.version,
      )
      (blocks_back d (record u { version = d.version }) h (omega (arith, h.blocks, h.line_count)))

text_ahead : (s rest : Bytes) → put_text s ++ rest ≡ put_uint 4 (length s) ++ (s ++ rest)
unfolding put_text
text_ahead s rest = append_assoc (put_uint 4 (length s)) s rest

rga_bytes_back :
    (d u : Document)
    → FitsDocument d
    → Codec.unmarshal (Codec.marshal d.rga) u.rga
      ≡ some (record u.rga { nodes = d.rga.nodes; length = count_nodes (live_nodes d.rga.nodes) })
rga_bytes_back d u h =
    rw (append-nil (Codec.marshal d.rga)) at
      (unmarshal-marshal_nodes d.rga u.rga [] h.nodes h.node_count)

abbrev from_version : Document → Bytes
from_version d = put_uint 8 d.version ++ (put_text d.block_types ++ lines_of d)

-- The document that was marshalled, as the receiver has it.
abbrev pub received : Document → Document → Document
received d u = record u {
  id = d.id;
  title = d.title;
  rga = record u.rga { nodes = d.rga.nodes; length = count_nodes (live_nodes d.rga.nodes) };
  version = d.version;
  lines = d.lines;
  block_types = d.block_types;
}

rga_back :
    (d u : Document)
    → FitsDocument d
    → u.id ≡ d.id
    → u.title ≡ d.title
    → unmarshal_rga (put_text (Codec.marshal d.rga) ++ from_version d) u ≡ (received d u, none)
unfolding unmarshal_rga
rga_back d u h e f =
    rw
      (
        text_ahead (Codec.marshal d.rga) (from_version d),
        unmarshal_rga,
        read_uint-append 4 (length (Codec.marshal d.rga)) (Codec.marshal d.rga ++ from_version d)
            h.rga,
        read_full-append (Codec.marshal d.rga) (from_version d),
        rga_bytes_back d u h,
        version_back d (record u { rga = (received d u).rga }) h,
        e,
        f,
      )
      refl

title_back :
    (d u : Document)
    → FitsDocument d
    → u.id ≡ d.id
    → unmarshal_title (put_text d.title ++ (put_text (Codec.marshal d.rga) ++ from_version d)) u
      ≡ (received d u, none)
unfolding unmarshal_title
title_back d u h e =
    rw
      (
        text_ahead d.title (put_text (Codec.marshal d.rga) ++ from_version d),
        unmarshal_title,
        read_uint-append 4 (length d.title)
            (d.title ++ (put_text (Codec.marshal d.rga) ++ from_version d)) h.title,
        read_full-append d.title (put_text (Codec.marshal d.rga) ++ from_version d),
      )
      (rga_back d (record u { title = d.title }) h e refl)

-- A document whose lengths fit the format is read back by any receiver, which keeps its own history and
-- the clock and the name of its RGA; the length of the RGA counts the live nodes only.
pub unmarshal_document-marshal_document :
    (d u : Document)
    → FitsDocument d
    → unmarshal_document (marshal_document d) u ≡ (received d u, none)
unfolding marshal_document unmarshal_document
unmarshal_document-marshal_document d u h =
    rw
      (
        text_ahead d.id (put_text d.title ++ (put_text (Codec.marshal d.rga) ++ from_version d)),
        unmarshal_document,
        read_uint-append 4 (length d.id)
            (d.id ++ (put_text d.title ++ (put_text (Codec.marshal d.rga) ++ from_version d))) h.id,
        read_full-append d.id
            (put_text d.title ++ (put_text (Codec.marshal d.rga) ++ from_version d)),
      )
      (title_back d (record u { id = d.id }) h refl)
