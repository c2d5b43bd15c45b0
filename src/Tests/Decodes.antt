-- ===== src/Tests/Decodes.antt =====
-- The theorems on decode at concrete inputs.
use cpp_atmi.Prelude.{
  ◌≡◌, ◌≢◌, refl, true, false, Option, some, [], ◌∷◌, ◌==◌, arith, List, Bool-cases, inl, inr,
}
use cpp_atmi.Atmi.Texts.{Text, bytes, c_str}
use cpp_atmi.Buffer.{text_eqb}
use cpp_atmi.Programs.Export as Export
use cpp_atmi.Programs.Export.Rounds.{found, left, actions}
use cpp_atmi.Programs.Decode.{Strings, is_type, decode_files}
use cpp_atmi.Programs.Decode.Terminal.{Content, IsTerminal}
use cpp_atmi.Programs.Decode.Files.{shown_files, last_read, decode_files-Shows}
use cpp_atmi.Programs.Pipes.{Passes, run-Passes}
use cpp_atmi.Tests.Domain.{
  World, constants, texts, atmi, queueing, fml, kind, start, space, first_queue, queue,
}
use cpp_atmi.Tests.Settings.{table}
use cpp_atmi.Tests.Laws.{server, reliable}
use cpp_atmi.Tests.Clients.{client}
use cpp_atmi.Tests.Programs.{process, shell, disk, quiet, pauses, messages_here}

instance abbrev strings : Strings World
strings = record { string_at = λ buf w. w.message }

-- Every line is a message.
abbrev message : Text → Option Content
message line = some (kind line, line)

kind_text : (line : Text) → c_str (kind line) ≡ kind line
unfolding c_str bytes
kind_text [] = refl
kind_text (c ∷ cs) = elim (Bool-cases (c == 83)) [ inl e ↦ rw e refl | inr e ↦ rw e refl ]

no_fml : (line : Text) → is_type (kind line) (bytes "FML") ≢ true
unfolding is_type text_eqb bytes
no_fml [] h = ground (arith, h)
no_fml (c ∷ cs) h = elim (Bool-cases (c == 83)) [
  | inl e ↦ ground (arith, h, e)
  | inr e ↦ ground (arith, h, e)
]

terminal : IsTerminal (λ (w : World). w.terminal) message
terminal = record {
  imported = λ line buf w. (refl, kind_text line, refl, λ e. refl, λ e. elim (no_fml line e) [ ]);
  written = λ text w. refl;
  said = λ text w. refl;
  freed = λ buf w. refl;
  allotted = λ type sub n w. ((λ e. ground (arith, e)), refl);
}

abbrev paths : List Text
paths = (83 ∷ 84 ∷ []) ∷ [] ∷ (67 ∷ []) ∷ []

decode_files-Shows_example :
    let (status, w') = decode_files 1024 paths false client (start []) in
    (status ≡ last_read disk message false paths) × (w'.terminal ≡ shown_files disk message paths)
decode_files-Shows_example =
    decode_files-Shows terminal {disk = disk} (record { holds = λ path w. refl })
      (record { opened = λ path w. refl; failed = λ msg w. refl }) 1024 paths false client
      (start [])

run-Passes_example :
    Passes
      (server space first_queue 1)
      (reliable space first_queue 1)
      quiet
      table
      terminal
      (found true messages_here pauses)
      (left true pauses)
      1024
      client
      (start [])
      (Export.run 4
        (actions pauses)
        space
        first_queue
        16
        []
        true
        (queue first_queue).qctl
        client
        (start messages_here))
unfolding found
run-Passes_example =
    run-Passes (server space first_queue 1) (reliable space first_queue 1) quiet table terminal 4
      pauses 16 1024 true (queue first_queue).qctl client client (start messages_here) (start [])
      (
        record {
          adds = λ w. refl;
          stays = λ w settled. ground (arith, settled);
          halts = λ w. refl;
        },
        (
          record {
            adds = λ w. refl;
            stays = λ w settled. ground (arith, settled);
            halts = λ w. refl;
          },
          tt,
        ),
      )
      (λ on. λ on'. ground (arith, on')) refl (omega arith, (omega arith, tt)) (omega arith)
      ((omega arith, tt), omega arith, ((omega arith, tt), omega arith, tt)) (ground arith)
