-- ===== src/Tests.antt =====
-- The theorems on the stream operators at concrete inputs.
mod Argv
mod Domain
mod Laws
mod Settings
mod Calls
mod Carrays
mod Commands
mod Sessions
mod Clients
mod Programs
mod Decodes
use cpp_atmi.Prelude.{
  ℕ, suc, ◌+◌, ◌≡◌, refl, ◌≢◌, ◌⊎◌, Bool, true, false, Option, none, some, List, [], ◌∷◌, ◌++◌,
  arith, if◌then◌else◌, not, is_none,
}
use cpp_atmi.Prelude.Int.{ℤ, pos, minus_one, is_neg, eqb}
use cpp_atmi.Prelude.Lists.{length, take, replicate, drop}
use cpp_atmi.Atmi.Codes.{
  Errno, Diagno, fnospace, tpetime, tpenoent, tpesvcfail, tpelimit, qmenospace, qmeinval,
}
use cpp_atmi.Atmi.Texts.{Text, bytes, c_str}
use cpp_atmi.Atmi.Calls.{Ptr}
use cpp_atmi.Exceptions.{Exception, is_tuxedo, is_diagnostic, is_timeout}
use cpp_atmi.Method.{Outcome, ok, err, Post}
use cpp_atmi.Tuxedo.{
  Tuxedo, begin, commit, abort, allocate, extend, free, switch_context, handle_tperrno,
}
use cpp_atmi.Tuxedo.Raises.{Handles, handle_tperrno-Handles}
use cpp_atmi.Tuxedo.Reports.{Reports, demarcation-Reports, memory-Reports}
use cpp_atmi.Tuxedo.Contexts.{Switches, switch_context-Switches}
use cpp_atmi.Tuxedo.Setters.{Setter, set, reset, apply_all, apply_all-keeps}
use cpp_atmi.Queue.{Queue, Receiver, super}
use cpp_atmi.Queue.Transfer.{
  enqueue_in, enqueue, dequeue_from, dequeue, check_enqueued, check_dequeued, dequeue_failed,
}
use cpp_atmi.QueueStream.Export.{
  Exporter, export, conclude, free_message, loop, round, take_message, handle_message,
  export_message, prepare,
}
use cpp_atmi.QueueStream.Export
use cpp_atmi.QueueStream.Export.Drains.{export-drains}
use cpp_atmi.QueueStream.Export.Finishes.{Delivers, export-Delivers}
use cpp_atmi.QueueStream.Import.{Importer, get_lines, import}
use cpp_atmi.QueueStream.Import.Appends.{Imports, import-Imports}
use cpp_atmi.QueueStream.RoundTrip.{import-export}
use cpp_atmi.QueueStream.Server.{lines, with_data, IsSettled}
use cpp_atmi.Queue.Settings.{is_message_waiting}
use cpp_atmi.Transaction.{Transaction, Caller, attempts, call, acall, reply, cancel}
use cpp_atmi.Transaction.Retries.{Tried, call-Tried, IsLast, tries}
use cpp_atmi.Transaction.Descriptors.{
  Settles, Answered, asked, Sent, acall-Sent, reply-Settles, cancel-Settles,
}
use cpp_atmi.Buffer.{Buffer, set_buffer}
use cpp_atmi.Buffer.Types as Types
use cpp_atmi.Transaction.Fielded as Fielded
use cpp_atmi.Field.{Field, Site, add, add_string, get, get_string}
use cpp_atmi.Field.RoundTrip.{Reads, blank, get-add, get_string-add_string}
use cpp_atmi.Event.{Event, new, post}
use cpp_atmi.Event.Posts.{Posted, post-Posted}
use Domain.{
  World, constants, texts, atmi, services, queueing, fml, start, base, space, first_queue, queue,
  stream,
}
use cpp_atmi.QueueStream.Moves.{Moves, export-Moves}
use Laws.{accepting, view, form, server, reliable, contextual, store}

abbrev second_queue : Text
second_queue = bytes "SECOND"

-- Two messages, of three bytes and of one.
abbrev messages : List Text
messages = (65 ∷ 66 ∷ 67 ∷ []) ∷ (68 ∷ []) ∷ []

-- A queue that does not wait for messages.
abbrev polling : Queue
polling = record (queue first_queue) { qctl = record (queue first_queue).qctl { flags = 0 } }

polls : is_message_waiting polling ≡ false
unfolding is_message_waiting
polls = refl

abbrev exported : Option (Outcome (Unit {0}) × Exporter × World)
exported = export 4 stream polling [] (start messages)

export-Delivers_example :
    Delivers
      (server space first_queue 0)
      (reliable space first_queue 0)
      []
      (start messages)
      exported
export-Delivers_example =
    export-Delivers (server space first_queue 0) (reliable space first_queue 0) 4 stream polling []
      (start messages) refl refl refl polls refl (omega arith, (omega arith, tt)) (omega arith)

-- The variables and the world at the end of a run, or those of the start if it does not end.
abbrev final : Option (Outcome (Unit {0}) × Exporter × World) → Exporter × World
final none = (Export.start stream polling [], start messages)
final (some (r, x, w)) = (x, w)

returned :
    (o : Option (Outcome (Unit {0}) × Exporter × World))
    → Delivers (server space first_queue 0) (reliable space first_queue 0) [] (start messages) o
    → o ≡ some (ok tt, (final o).0, (final o).1)
returned none d = absurd d
returned (some (err e, x, w)) d = absurd d
returned (some (ok v, x, w)) d = refl

exported_returns : exported ≡ some (ok tt, (final exported).0, (final exported).1)
exported_returns = returned exported (
    export-Delivers (server space first_queue 0) (reliable space first_queue 0) 4 stream polling []
      (start messages) refl refl refl polls refl (omega arith, (omega arith, tt)) (omega arith))

export-drains_example :
    ((final exported).0.out ≡ [] ++ lines (with_data messages))
    × ((final exported).0.stream.count ≡ length (with_data messages))
    × ((view (final exported).1).contents ≡ [])
    × IsSettled (view (final exported).1)
export-drains_example =
    export-drains (server space first_queue 0) 4 stream polling [] (start messages)
      (final exported).0 (final exported).1 refl refl refl exported_returns

import-Imports_example :
    Imports
      (server space second_queue 0)
      (get_lines (lines messages))
      (start [])
      (import (lines messages) stream (queue second_queue) (start []))
import-Imports_example =
    import-Imports (server space second_queue 0) (lines messages) stream (queue second_queue)
      (start []) refl refl refl

import-export_example :
    Imports
      (server space second_queue 0)
      (with_data messages)
      (start [])
      (import (final exported).0.out stream (queue second_queue) (start []))
import-export_example =
    import-export (server space first_queue 0) (server space second_queue 0) 4 stream stream polling
      (queue second_queue) (start messages) (start []) (final exported).0 (final exported).1 refl
      refl refl refl refl refl (ground arith) exported_returns

export-Moves_example :
    Moves
      (server space first_queue 0)
      (reliable space first_queue 0)
      (server space second_queue 0)
      (reliable space second_queue 0)
      (accepting space second_queue 0)
      stream
      (queue second_queue)
      (start messages)
      exported
export-Moves_example =
    export-Moves (server space first_queue 0) (reliable space first_queue 0)
      (server space second_queue 0) (reliable space second_queue 0) (accepting space second_queue 0)
      4 stream stream polling (queue second_queue) (start messages) refl refl refl refl refl refl
      polls refl (ground arith) (omega arith, (omega arith, tt)) (omega arith)
