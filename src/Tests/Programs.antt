-- ===== src/Tests/Programs.antt =====
-- The theorems on the programs at concrete inputs.
use cpp_atmi.Prelude.{
  ◌≡◌, refl, Bool, true, false, not, Option, none, some, List, [], ◌∷◌, ◌++◌, arith,
}
use cpp_atmi.Prelude.Int.{pos}
use cpp_atmi.Prelude.Lists.{get_elem?}
use cpp_atmi.Atmi.Texts.{Text, bytes}
use cpp_atmi.Options.{Opt, opt_d, opt_q, opt_b, Process, export_options}
use cpp_atmi.Options.Parses.{IsProcess, last_operand, occurs, same}
use cpp_atmi.Programs.{Shell, IsQuiet}
use cpp_atmi.Programs.Joins.{IsApart}
use cpp_atmi.Programs.Export.{export_main}
use cpp_atmi.Programs.Export as Export
use cpp_atmi.Programs.Export.Rounds.{Pause, found, left, actions}
use cpp_atmi.Programs.Export.Runs.{RunExports}
use cpp_atmi.Programs.Export.Finishes.{RunDelivers, run-Delivers}
use cpp_atmi.Programs.Export.Mains.{export_main-Exports}
use cpp_atmi.Programs.Import.{import_files}
use cpp_atmi.Programs.Import.Runs.{readable_lines, any_readable, import_files-Adds}
use cpp_atmi.Programs.Writer as Writer
use cpp_atmi.Programs.Writer.{Memory}
use cpp_atmi.Programs.Writer.Runs.{IsMemory, Writes, messages, run-Writes}
use cpp_atmi.Tests.Argv.{parts, tail, get, tokens_of, second}
use cpp_atmi.Tests.Domain.{
  World, constants, texts, atmi, queueing, holding, start, space, first_queue, queue,
}
use cpp_atmi.Tests.Laws.{view, form, server, reliable, accepting}
use cpp_atmi.QueueStream.Server.{IsSettled}
use cpp_atmi.Tests.Settings.{table}
use cpp_atmi.Tests.Clients.{joining, raw, client}

abbrev get_option : World → Option Opt × World
get_option w = let (o, v) = get w.argv in (o, record w { argv = v })

abbrev next_token : Option Text → World → Option Text × World
next_token s w = (
  get_elem? (tokens_of s w.argv) 0,
  record w { argv = record w.argv { tokens = tail (tokens_of s w.argv) } },
)

instance abbrev pub process : Process World
process = record {
  getopt = λ arguments w. get_option w;
  optarg = λ w. w.argv.operand;
  optopt = λ w. pos 0;
  atoi = λ s. pos 512;
  strtok = λ s d w. next_token s w;
  cout = λ s w. record w { terminal = w.terminal ++ s };
  cerr = λ s w. w;
  version_text = bytes "4.6";
}

-- Every name of a file but the empty one.
abbrev pub disk : Text → Option Text
disk [] = none
disk (c ∷ cs) = some (c ∷ 10 ∷ cs ++ 10 ∷ [])

instance abbrev pub shell : Shell World
shell = record {
  running = λ w. w.running;
  on_interrupt = λ w. w;
  open_in = λ path w. (disk path, w);
  open_out = λ path w. (true, w);
  perror = λ msg w. w;
  input = λ w. [];
  arguments = λ w. [];
}

instance abbrev memory : Memory World
memory = record { store = λ buf s w. record w { message = s } }

pub quiet : IsQuiet view
quiet = record {
  opened = λ w. refl;
  closed = λ catd w. refl;
  said = λ msg w. refl;
  read = λ path w. refl;
  failed = λ msg w. refl;
}

apart : IsApart view
apart = record {
  caught = λ w. refl;
  parsed = λ arguments w. refl;
  cut = λ s d w. refl;
  told = λ msg w. refl;
  created = λ path w. refl;
  checked = λ w. refl;
  asked = λ prompt w. refl;
  put = λ setting w. refl;
  joined = λ info w. refl;
  parted = λ w. refl;
  allotted = λ type sub n w. refl;
  got = λ w. refl;
  entered = λ ctxt w. refl;
}

lawful : (arguments : Text) → IsProcess arguments (λ (w : World). w.argv.rest) parts
lawful arguments = record {
  ended = λ w h. ground (arith, h);
  next = λ w o s os h. ground (arith, h);
  first = λ w s. (refl, second (parts s), refl);
  written = λ w s. (refl, refl);
}

-- One message arrives, and then the program is interrupted.
abbrev pause : Bool → List Text → Pause World
pause stops arrivals = record {
  acts = λ w. record (holding (w.contents ++ arrivals) w) { running = not stops };
  arrivals = arrivals;
  stops = stops;
}

abbrev pub pauses : List (Pause World)
pauses = pause false ((70 ∷ []) ∷ []) ∷ pause true ((71 ∷ []) ∷ []) ∷ []

abbrev pub messages_here : List Text
messages_here = (65 ∷ 66 ∷ []) ∷ (67 ∷ []) ∷ []

run-Delivers_example :
    RunDelivers
      (server space first_queue 1)
      (reliable space first_queue 1)
      quiet
      table
      (found true messages_here pauses)
      (left true pauses)
      []
      (Export.run 4
        (actions pauses)
        space
        first_queue
        16
        []
        true
        (queue first_queue).qctl
        client
        (start messages_here))
run-Delivers_example =
    run-Delivers (server space first_queue 1) (reliable space first_queue 1) quiet table 4 pauses 16
      [] true (queue first_queue).qctl client (start messages_here)
      (
        record {
          adds = λ w. refl;
          stays = λ w settled. ground (arith, settled);
          halts = λ w. refl;
        },
        (
          record {
            adds = λ w. refl;
            stays = λ w settled. ground (arith, settled);
            halts = λ w. refl;
          },
          tt,
        ),
      )
      (λ on. λ on'. ground (arith, on')) refl (omega arith, (omega arith, tt)) (omega arith)
      ((omega arith, tt), omega arith, ((omega arith, tt), omega arith, tt))

-- -d -q S:Q -b 512
abbrev daemon_line : World
daemon_line = record (start messages_here) {
  argv = record {
    rest = (opt_d, []) ∷ (opt_q, 83 ∷ 58 ∷ 81 ∷ []) ∷ (opt_b, bytes "512") ∷ [];
    operand = none;
    tokens = [];
  };
}

export_main-Exports_example :
    let daemon = occurs (same opt_d) daemon_line.argv.rest in
    RunExports
      (server (83 ∷ []) (81 ∷ []) 1)
      quiet
      (found daemon messages_here pauses)
      (left daemon pauses)
      []
      (export_main 4 4 (actions pauses) (bytes "qexport") (queue first_queue).qctl raw daemon_line)
unfolding last_operand occurs
export_main-Exports_example =
    export_main-Exports (server (83 ∷ []) (81 ∷ []) 1) quiet apart
      (lawful export_options.queue_options.options.arguments) 4 4 pauses (bytes "qexport")
      (83 ∷ 58 ∷ 81 ∷ []) (queue first_queue).qctl raw daemon_line
      (
        record {
          adds = λ w. refl;
          stays = λ w settled. ground (arith, settled);
          halts = λ w. refl;
        },
        (
          record {
            adds = λ w. refl;
            stays = λ w settled. ground (arith, settled);
            halts = λ w. refl;
          },
          tt,
        ),
      )
      refl refl refl (omega arith)

import_files-Adds_example :
    let (status, w') =
      import_files space first_queue 16
        (queue first_queue).qctl
        client
        ((65 ∷ 66 ∷ []) ∷ [] ∷ (67 ∷ []) ∷ [])
        false
        (start messages_here) in
    (status ≡ any_readable disk false ((65 ∷ 66 ∷ []) ∷ [] ∷ (67 ∷ []) ∷ []))
    × ((view w').contents
        ≡ messages_here ++ readable_lines disk ((65 ∷ 66 ∷ []) ∷ [] ∷ (67 ∷ []) ∷ []))
    × IsSettled (view w')
import_files-Adds_example =
    import_files-Adds (server space first_queue 1) (reliable space first_queue 1)
      (accepting space first_queue 1) quiet {disk = disk} (record { holds = λ path w. refl }) 16
      (queue first_queue).qctl client ((65 ∷ 66 ∷ []) ∷ [] ∷ (67 ∷ []) ∷ []) false
      (start messages_here) (refl, refl)

keeps : IsMemory view form (λ s. s ++ 0 ∷ [])
keeps = record { stored = λ buf msg w. (refl, refl); prompted = λ msg w. refl }

abbrev typed : List Text
typed = (104 ∷ 105 ∷ []) ∷ [] ∷ bytes "quit" ∷ (106 ∷ []) ∷ []

run-Writes_example :
    Writes
      (server space first_queue 1)
      (reliable space first_queue 1)
      (accepting space first_queue 1)
      quiet
      keeps
      (messages typed)
      (start [])
      (Writer.run 4 typed (queue first_queue).qctl space first_queue client (start []))
run-Writes_example =
    run-Writes (server space first_queue 1) (reliable space first_queue 1)
      (accepting space first_queue 1) quiet keeps 4 typed (queue first_queue).qctl client (start [])
      (λ found. omega arith) (refl, refl)
