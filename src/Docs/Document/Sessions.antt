-- ===== src/Docs/Document/Sessions.antt =====
-- pkg/services/docs/document.go: sessions of operations on a document.
use local_web.Base.{ℕ, List, [], ◌∷◌}
use local_web.Docs.Op.{Op}
use local_web.Docs.Document.{Document, apply_op}
use local_web.Docs.Document.History.{undo, redo, merge}
use local_web.Docs.Document.Invariant.{
  IsDocument, apply_op-IsDocument, undo-IsDocument, redo-IsDocument, merge-IsDocument,
}

-- What users and peers do to a document, each with the time.
pub data Action : Type 0 where
  apply : ℕ → Op → Action
  undone redone : ℕ → Action
  merged : ℕ → List Op → Action

pub act : Action → Document → Document
act (Action.apply now op) d = (apply_op now op d).0
act (Action.undone now) d = (undo now d).0
act (Action.redone now) d = (redo now d).0
act (Action.merged now ops) d = merge now ops d

act-IsDocument : (a : Action) (d : Document) → IsDocument d → IsDocument (act a d)
unfolding act
act-IsDocument (Action.apply now op) d h = apply_op-IsDocument now op d h
act-IsDocument (Action.undone now) d h = undo-IsDocument now d h
act-IsDocument (Action.redone now) d h = redo-IsDocument now d h
act-IsDocument (Action.merged now ops) d h = merge-IsDocument now ops d h

abbrev pub run : List Action → Document → Document
run [] d = d
run (a ∷ actions) d = run actions (act a d)

-- Through any session of operations, undos, redos and merges a document has a block type for every line,
-- its history index stays within the history, and no operation of the history has a negative position.
pub run-IsDocument :
    (actions : List Action) (d : Document) → IsDocument d → IsDocument (run actions d)
run-IsDocument [] d h = h
run-IsDocument (a ∷ actions) d h = run-IsDocument actions (act a d) (act-IsDocument a d h)
