-- ===== src/Docs/Document/Page.antt =====
-- pkg/services/docs/document.go: the abstract document that `ApplyOp` works on, a title and a list of
-- blocks.
use local_web.Base.{ℕ, zero, suc, List, [], ◌∷◌, Option, none, some, ◌==◌, if◌then◌else◌, Bytes}
use local_web.Docs.Op.{
  Op, BlockType, paragraph, op_insert, op_delete, op_format_block, op_title_change,
}
use local_web.Docs.Document.{Document, is_negative}

abbrev pub Block : Type 0
Block = Bytes × BlockType

pub record Page : Type 0 where
  pub title : Bytes
  pub blocks : List Block

pub data Edit : Type 0 where
  add_line : ℕ → Bytes → Edit
  drop_line : ℕ → Edit
  set_block : ℕ → BlockType → Edit
  set_title : Bytes → Edit

-- A block behind the first `i` ones, if there are as many.
abbrev pub add_at : ℕ → Block → List Block → Option (List Block)
add_at zero b bs = some (b ∷ bs)
add_at (suc i) b [] = none
add_at (suc i) b (c ∷ bs) = elim (add_at i b bs) [ none ↦ none | some cs ↦ some (c ∷ cs) ]

abbrev pub drop_at : ℕ → List Block → Option (List Block)
drop_at i [] = none
drop_at zero (c ∷ bs) = some bs
drop_at (suc i) (c ∷ bs) = elim (drop_at i bs) [ none ↦ none | some cs ↦ some (c ∷ cs) ]

abbrev pub set_at : ℕ → BlockType → List Block → Option (List Block)
set_at i t [] = none
set_at zero t (c ∷ bs) = some ((c.0, t) ∷ bs)
set_at (suc i) t (c ∷ bs) = elim (set_at i t bs) [ none ↦ none | some cs ↦ some (c ∷ cs) ]

abbrev with_blocks : Page → Option (List Block) → Option Page
with_blocks p none = none
with_blocks p (some bs) = some (record p { blocks = bs })

-- The edits of the abstract document; `none` where the block does not exist.
unfoldable pub perform : Edit → Page → Option Page
perform (Edit.add_line i line) p = with_blocks p (add_at i (line, paragraph) p.blocks)
perform (Edit.drop_line i) p = with_blocks p (drop_at i p.blocks)
perform (Edit.set_block i t) p = with_blocks p (set_at i t p.blocks)
perform (Edit.set_title t) p = some (record p { title = t })

abbrev pub at_position : Op → Edit → Option Edit
at_position op e = if is_negative op.position then none else some e

-- What an operation asks for: nothing if its type is unknown, or if it has a negative position and is no
-- title change.
unfoldable pub edit_of : Op → Option Edit
edit_of op =
    if op.op_type == op_insert
    then at_position op (Edit.add_line op.position op.value)
    else if op.op_type == op_delete
    then at_position op (Edit.drop_line op.position)
    else if op.op_type == op_format_block
    then at_position op (Edit.set_block op.position op.block_type)
    else if op.op_type == op_title_change
    then some (Edit.set_title op.title)
    else none

unfoldable pub ask : Option Edit → Page → Option Page
ask none p = none
ask (some e) p = perform e p

abbrev pub zip : List Bytes → List BlockType → List Block
zip [] ts = []
zip (l ∷ ls) [] = []
zip (l ∷ ls) (t ∷ ts) = (l, t) ∷ zip ls ts

-- The abstract view of a document.
unfoldable pub view : Document → Page
view d = record { title = d.title; blocks = zip d.lines d.block_types }
