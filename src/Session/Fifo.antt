-- ===== src/Session/Fifo.antt =====
-- What a queue and its transactions promise: a list of messages, first in, first out, and a copy of
-- it while a transaction is in progress.
use cpp_atmi.Prelude.{◌≡◌, true, false, List, [], ◌∷◌, ◌++◌, Option, none, some}
use cpp_atmi.Atmi.Texts.{Text}
use cpp_atmi.QueueStream.Server.{View}

pub record Fifo : Type 0 where
  pub contents : List Text
  pub saved : Option (List Text)

pub data Label : Type 0 where
  begun committed aborted none_left : Label
  added removed : Text → Label

abbrev pub fifo : List Text → Option (List Text) → Fifo
fifo ms old = record { contents = ms; saved = old }

pub data Step : Fifo → Label → Fifo → Type 0 where
  beginning : (ms : List Text) → Step (fifo ms none) begun (fifo ms (some ms))
  committing : (ms old : List Text) → Step (fifo ms (some old)) committed (fifo ms none)
  aborting : (ms old : List Text) → Step (fifo ms (some old)) aborted (fifo old none)
  adding :
      (ms : List Text) (old : Option (List Text)) (m : Text)
      → Step (fifo ms old) (added m) (fifo (ms ++ m ∷ []) old)
  removing :
      (ms : List Text) (old : Option (List Text)) (m : Text)
      → Step (fifo (m ∷ ms) old) (removed m) (fifo ms old)
  finding_none : (old : Option (List Text)) → Step (fifo [] old) none_left (fifo [] old)

-- What is there for good is the copy, and the list itself where there is none.
abbrev pub IsSaved : Fifo → View → Type 0
IsSaved q v = elim q.saved [
  | none ↦ (v.pending ≡ false) × (v.saved ≡ q.contents)
  | some old ↦ (v.pending ≡ true) × (v.saved ≡ old)
]

-- The queue of the server holds what the list does.
abbrev pub Represents : Fifo → View → Type 0
Represents q v = (v.contents ≡ q.contents) × IsSaved q v
