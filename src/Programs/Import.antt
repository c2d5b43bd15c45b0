-- ===== src/Programs/Import.antt =====
-- utls/qimport.bcl: putting the lines of files into a queue.
pub mod Runs
use cpp_atmi.Prelude.{ℕ, Bool, true, false, none, some, List, [], ◌∷◌}
use cpp_atmi.Prelude.Int.{pos}
use cpp_atmi.Atmi.Codes.{Constants}
use cpp_atmi.Atmi.Texts.{Text, Texts, num, str, bytes}
use cpp_atmi.Atmi.Calls.{Atmi, Queueing, Qctl, Joining, Tpinit}
use cpp_atmi.Method.{Outcome, ok, err}
use cpp_atmi.Tuxedo.{destroy}
use cpp_atmi.Queue.{Queue}
use cpp_atmi.QueueStream.{new_sized}
use cpp_atmi.QueueStream.Import.{Importer, import}
use cpp_atmi.Client.{AbstractClient}
use cpp_atmi.Client.Factories.{new_queue_instance}
use cpp_atmi.Options.{Process, Opt, ImportOptions, parse, set_queue, import_options}
use cpp_atmi.Options.Usage.{import_usage}
use cpp_atmi.Programs.{Shell, Exit, report, with_queue}

module _ {W : Type 0} ⦃a : Atmi W⦄ ⦃t : Texts⦄ ⦃k : Constants⦄ ⦃s : Queueing W⦄
    ⦃p : Process W⦄ where
  -- The end of the `try` of `run`, and its handler: the stream and the queue are destroyed.
  unfoldable pub import_ends : Text → Outcome (Unit {0}) × Importer × W → Bool × W
  unfolding destroy report
  import_ends queue (ok v, x, w) =
      let w₁ =
        p.cerr
          (t.format (bytes "imported %d messages in %s.\n")
            (num (pos x.stream.count) ∷ str queue ∷ []))
          w in
      (true, destroy x.queue.tuxedo (destroy x.stream.tuxedo w₁))
  import_ends queue (err e, x, w) =
      (false, report e (destroy x.queue.tuxedo (destroy x.stream.tuxedo w)))

  -- `run` from the construction of the stream on.
  unfoldable pub import_queue : Text → ℕ → Text → Queue → W → Bool × W
  unfolding new_sized
  import_queue queue buffer_size text q w =
      let (qs, w₁) = new_sized buffer_size w in import_ends queue (import text qs q w₁)

  -- `queue_import::run` of a stream that holds `text`: whether it returns EXIT_SUCCESS. `raw` is
  -- what the memory of the TPQCTL holds.
  unfoldable pub run : Text → Text → ℕ → Text → Qctl → AbstractClient → W → Bool × W
  unfolding new_queue_instance
  run qspace queue buffer_size text raw c w =
      let (r, q, w₁) = new_queue_instance (some qspace) (some queue) none raw c w in
      elim r [
        | err e ↦ (false, report e (destroy q.tuxedo w₁))
        | ok v ↦ import_queue queue buffer_size text q w₁
      ]

  -- The loop over the arguments: `status` is that of the last file that could be opened.
  unfoldable pub import_files :
      ⦃h : Shell W⦄ → Text → Text → ℕ → Qctl → AbstractClient → List Text → Bool → W → Bool × W
  import_files qspace queue buffer_size raw c [] status w = (status, w)
  import_files ⦃h⦄ qspace queue buffer_size raw c (path ∷ paths) status w =
      let (file, w₁) = h.open_in path w in
      elim file [
        | none ↦
            import_files qspace queue buffer_size raw c paths status
              (h.perror (bytes "failed to open import file") w₁)
        | some text ↦
            let (status', w₂) = run qspace queue buffer_size text raw c w₁ in
            import_files qspace queue buffer_size raw c paths status' w₂
      ]

  -- What `main` does with the client: the files, or the standard input.
  unfoldable pub import_from :
      ⦃h : Shell W⦄ → ImportOptions → Qctl → Text → Text → AbstractClient → W → Exit W
  unfolding run import_files
  import_from ⦃h⦄ o raw qspace queue c w =
      let n = o.queue_options.options.buffer_size in
      elim (h.arguments w) [
        | [] ↦ let (status, w') = run qspace queue n (h.input w) raw c w in some (status, [], w')
        | path ∷ paths ↦
            let (status, w') = import_files qspace queue n raw c (path ∷ paths) false w in
            some (status, [], w')
      ]

  -- `import_options` has the `set` of queue_options.
  unfoldable pub set_import : Opt → ImportOptions → W → ImportOptions × W
  unfolding set_queue
  set_import opt o w =
      let (base, w') = set_queue opt o.queue_options w in (record o { queue_options = base }, w')

  -- `main`, with fuel for the parsing of the command line.
  unfoldable pub import_main :
      ⦃h : Shell W⦄ → ⦃j : Joining W⦄ → ℕ → Text → Qctl → Tpinit → W → Exit W
  unfolding parse with_queue import_options
  import_main turns pname raw info w =
      elim (parse set_import turns import_options.queue_options.options.arguments import_options
        w) [
          | none ↦ none
          | some (o, w₁) ↦
              with_queue import_usage (bytes "load messages in a queue.") pname pname
                o.queue_options info (import_from o raw) w₁
        ]
