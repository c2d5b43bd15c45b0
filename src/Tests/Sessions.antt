-- ===== src/Tests/Sessions.antt =====
-- A program on a queue, and messages for the user log.
use cpp_atmi.Prelude.{◌≡◌, refl, none, some, List, [], ◌∷◌, ◌++◌}
use cpp_atmi.Prelude.Int.{pos}
use cpp_atmi.Atmi.Texts.{Text, Arg, bytes}
use cpp_atmi.Queue.{Receiver}
use cpp_atmi.Session.{Command, begins, commits, aborts, takes, puts, run}
use cpp_atmi.Session.Fifo.{fifo}
use cpp_atmi.Session.Refines.{Simulates, run-Simulates}
use cpp_atmi.Ulog.{Userlog, new, info_level, error_level, finer_level}
use cpp_atmi.Ulog.Lines as Lines
use cpp_atmi.Ulog.Lines.{Request, write, set_level, lines, run-lines}
use cpp_atmi.Tests.Domain.{
  constants, texts, atmi, services, queueing, start, space, first_queue, queue,
}
use cpp_atmi.Tests.Laws.{server}

abbrev receiver : Receiver
receiver = record { queue = queue first_queue; buf = some 1; len = 1 }

-- Take the message, put it back twice, change one's mind, and take it again.
abbrev program : List Command
program = begins (pos 0) ∷ takes ∷ puts (some 1) 1 ∷ puts (some 1) 1 ∷ aborts ∷ takes ∷ commits ∷ []

abbrev held : List Text
held = (7 ∷ 8 ∷ []) ∷ []

run-Simulates_example :
    Simulates
      (server space first_queue 0)
      program
      (fifo held none)
      receiver
      (start held)
      (run program receiver (start held))
run-Simulates_example =
    run-Simulates (server space first_queue 0) program (fifo held none) receiver (start held)
      (refl, refl) (refl, (refl, refl))

instance abbrev userlog : Userlog (List (Text × List Arg))
userlog = record { userlog = λ format args w. w ++ (format, args) ∷ [] }

abbrev requests : List Request
requests =
    write error_level (bytes "lost") []
    ∷ write finer_level (bytes "seen") []
    ∷ set_level finer_level
    ∷ write finer_level (bytes "seen again") []
    ∷ []

run-lines_example :
    (w' : List (Text × List Arg)) × (Lines.run requests (new info_level) [] ≡ some w')
    × (w' ≡ [] ++ lines info_level requests)
run-lines_example = run-lines (λ w. w) (λ format args w. refl) requests info_level []
