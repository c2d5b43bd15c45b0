-- ===== src/Programs/Export.antt =====
-- utls/qexport.bcl. Other processes put messages into the queue between two rounds of the loop, and
-- the handler of SIGINT runs then.
pub mod Rounds
pub mod Runs
pub mod Finishes
pub mod Mains
use mathlib.Core.Option
use cpp_atmi.Prelude.{ℕ, ◌+◌, Bool, true, false, Option, none, some, List, [], ◌∷◌, ◌&&◌}
use cpp_atmi.Prelude.Int.{pos}
use cpp_atmi.Atmi.Codes.{Constants}
use cpp_atmi.Atmi.Texts.{Text, Texts, num, str, bytes}
use cpp_atmi.Atmi.Calls.{Atmi, Queueing, Qctl, Joining, Tpinit}
use cpp_atmi.Method.{Outcome, ok, err}
use cpp_atmi.Tuxedo.{destroy}
use cpp_atmi.Queue.{Queue}
use cpp_atmi.Queue.Settings.{set_message_wait}
use cpp_atmi.QueueStream.{QueueStream, new_sized}
use cpp_atmi.QueueStream.Export.{Exporter, export}
use cpp_atmi.Client.{AbstractClient}
use cpp_atmi.Client.Factories.{new_queue_instance}
use cpp_atmi.Options.{Process, ExportOptions, parse, set_export, export_options}
use cpp_atmi.Options.Usage.{export_usage}
use cpp_atmi.Programs.{Shell, Exit, report, with_queue}

module _ {W : Type 0} ⦃a : Atmi W⦄ ⦃t : Texts⦄ ⦃k : Constants⦄ ⦃s : Queueing W⦄ ⦃h : Shell W⦄ where
  -- The `do ... while ( running && daemon )` of `run`: `counter`, and the variables at the end. One
  -- entry of `pauses` is what happens between a round and the test; where there is none left the
  -- program has not ended. `fuel` is that of one export.
  unfoldable pub export_rounds :
      ℕ
      → Bool
      → List (W → W)
      → QueueStream
      → Queue
      → ℕ
      → Text
      → W
      → Option (Outcome ℕ × Exporter × W)
  export_rounds fuel daemon [] qs q counter out w = none
  export_rounds fuel daemon (pause ∷ pauses) qs q counter out w = elim (export fuel qs q out w) [
    | none ↦ none
    | some (err e, x, w₁) ↦ some (err e, x, w₁)
    | some (ok v, x, w₁) ↦ elim (h.running (pause w₁) && daemon) [
      | true ↦
          export_rounds fuel daemon pauses x.stream x.receiver.queue (counter + x.stream.count)
            x.out (pause w₁)
      | false ↦ some (ok (counter + x.stream.count), x, pause w₁)
    ]
  ]

  -- The end of the `try` of `run`, and its handler: the stream and the queue are destroyed.
  unfoldable pub export_ends : ⦃p : Process W⦄ → Text → Outcome ℕ × Exporter × W → Bool × Text × W
  unfolding destroy report
  export_ends ⦃p⦄ queue (ok counter, x, w) =
      let w₁ =
        p.cerr
          (t.format (bytes "exported %d messages from %s.\n") (num (pos counter) ∷ str queue ∷ []))
          w in
      (true, x.out, destroy x.receiver.queue.tuxedo (destroy x.stream.tuxedo w₁))
  export_ends queue (err e, x, w) =
      (false, x.out, report e (destroy x.receiver.queue.tuxedo (destroy x.stream.tuxedo w)))

  -- `run` from `set_message_wait` on.
  unfoldable pub export_queue :
      ⦃p : Process W⦄
      → ℕ
      → List (W → W)
      → Text
      → ℕ
      → Text
      → Bool
      → Queue
      → W
      → Option (Bool × Text × W)
  unfolding set_message_wait new_sized
  export_queue fuel pauses queue buffer_size out daemon q w =
      let (r, q', w₁) = set_message_wait false q w in
      let (qs, w₂) = new_sized buffer_size w₁ in
      Option.map (export_ends queue) (export_rounds fuel daemon pauses qs q' 0 out w₂)

  -- `queue_export::run`: whether it returns EXIT_SUCCESS, and what is in `out` then. `raw` is what
  -- the memory of the TPQCTL holds.
  unfoldable pub run :
      ⦃p : Process W⦄
      → ℕ
      → List (W → W)
      → Text
      → Text
      → ℕ
      → Text
      → Bool
      → Qctl
      → AbstractClient
      → W
      → Option (Bool × Text × W)
  unfolding new_queue_instance
  run fuel pauses qspace queue buffer_size out daemon raw c w =
      let (r, q, w₁) = new_queue_instance (some qspace) (some queue) none raw c w in
      elim r [
        | err e ↦ some (false, out, report e (destroy q.tuxedo w₁))
        | ok v ↦ export_queue fuel pauses queue buffer_size out daemon q w₁
      ]

  -- The output of `main`: a file that is opened to append to, or the standard output.
  unfoldable pub export_to :
      ⦃p : Process W⦄
      → ℕ
      → List (W → W)
      → ExportOptions
      → Qctl
      → Text
      → Text
      → AbstractClient
      → W
      → Exit W
  unfolding run
  export_to fuel pauses o raw qspace queue c w =
      let work =
        run fuel pauses qspace queue o.queue_options.options.buffer_size [] o.daemon raw c in
      elim o.output_file [
        | none ↦ work w
        | some path ↦
            let (opened, w₁) = h.open_out path w in
            elim opened [
              | true ↦ work w₁
              | false ↦
                  some (false, [], h.perror (bytes "failed to open export destination file") w₁)
            ]
      ]

  -- `main`, with fuel for the parsing of the command line. `raw` and `info` are what the memory of
  -- the TPQCTL and of the TPINIT holds.
  unfoldable pub export_main :
      ⦃p : Process W⦄ → ⦃j : Joining W⦄ → ℕ → ℕ → List (W → W) → Text → Qctl → Tpinit → W → Exit W
  unfolding parse with_queue export_options
  export_main turns fuel pauses pname raw info w =
      elim (parse set_export turns export_options.queue_options.options.arguments export_options
        (h.on_interrupt w)) [
          | none ↦ none
          | some (o, w₁) ↦
              with_queue export_usage
                (bytes
                  "send messages found in a queue to stdout or a file (if last argument is passed).")
                pname pname o.queue_options info (export_to fuel pauses o raw) w₁
        ]
